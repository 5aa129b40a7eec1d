-- ===== src/Program.antt =====
-- cmd/dark-canary/main.go: the program as a whole, from its flags to its exit code.
pub mod Main
pub mod System
pub mod Settings
pub mod Kept
pub mod Promises
pub mod Exit
pub mod Asking
pub mod Stopping
