-- ===== src/Diff/Apart.antt =====
-- internal/diff/diff.go: the paths of the differences of one comparison.
pub mod Paths
pub mod Growth
pub mod Keys
pub mod Parts
pub mod Walk
pub mod Responses
