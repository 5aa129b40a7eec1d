-- ===== src/Collector.antt =====
-- internal/collector/collector.go: the buffer that correlates captures into pairs.
pub mod Types
pub mod Buffer
pub mod Expiry
pub mod Invariant
pub mod Ingest
pub mod Counters
pub mod Queue
pub mod Refinement
pub mod Calls
pub mod Interleaving
pub mod Sweeping
pub mod Pairing
pub mod Contents
