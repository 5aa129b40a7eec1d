-- ===== src/Report.antt =====
-- internal/report/report.go: differences grouped by finding, and the ranked summary.
pub mod Aggregator
pub mod Counts
pub mod Rates
pub mod Shares
pub mod Ranking
pub mod Text
pub mod Writing
