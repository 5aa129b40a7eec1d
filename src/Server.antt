-- ===== src/Server.antt =====
-- cmd/dark-canary/main.go: the handler that accepts captures.
pub mod Capturing
pub mod Guards
pub mod Outcomes
pub mod Safe
