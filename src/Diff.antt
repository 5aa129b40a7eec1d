-- ===== src/Diff.antt =====
-- internal/diff/diff.go: the structural comparison of two responses.
pub mod Value
pub mod Text
pub mod Runtime
pub mod Engine
pub mod Walk
pub mod Headers
pub mod Compare
pub mod Suppression
pub mod Agreement
pub mod Escaping
pub mod Apart
pub mod Quiet
pub mod Same
