-- ===== src/Diff/Agreement.antt =====
-- internal/diff/diff.go: when two responses agree, said without any walk.
pub mod Relation
pub mod Judge
pub mod Fields
pub mod Bodies
pub mod Responses
