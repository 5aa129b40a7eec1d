-- ===== src/Service.antt =====
-- cmd/dark-canary/main.go and dashboard.go: the server as a whole, from captures to the report.
pub mod Handlers
pub mod Capture
pub mod Pipeline
pub mod Keeping
pub mod Faithful
pub mod Live
pub mod Answers
pub mod Shares
pub mod Guard
pub mod Routes
pub mod Privacy
