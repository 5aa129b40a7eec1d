-- ===== src/Proxy.antt =====
-- cmd/dark-canary/proxy.go: proxy mode, in which the program is the edge itself.
pub mod Number
pub mod Tee
pub mod Closing
pub mod Mirror
pub mod System
pub mod Numbering
pub mod Filing
pub mod Outcomes
pub mod Forwarding
pub mod Mirroring
pub mod Orderly
pub mod Comparing
