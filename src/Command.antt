-- ===== src/Command.antt =====
-- cmd/dark-canary: the flags, what they make the program refuse, and the exit code of a refusal.
pub mod Failure
pub mod Flags
pub mod Scrubbing
pub mod Upstreams
pub mod Startup
pub mod Refusals
pub mod Finish
