-- ===== src/Safety.antt =====
-- internal/safety/safety.go: the configuration, the kill switch and the scrubber.
pub mod Config
pub mod KillSwitch
pub mod Scrubber
pub mod Pattern
pub mod Redaction
pub mod Cut
