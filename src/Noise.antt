-- ===== src/Noise.antt =====
-- internal/noise/noise.go: the rules that say which differences are noise.
pub mod Glob
pub mod Rules
pub mod Normalise
pub mod Suppress
pub mod Matching
pub mod Sorting
pub mod Validity
pub mod Contract
