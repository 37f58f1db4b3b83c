-- ===== src/Huepush.antt =====
-- huepush/huepush.go: the buttons of the Hue switches are set to the intent in hue.cfg.
pub mod Json
pub mod State
pub mod Extract
pub mod Intent
pub mod Push
pub mod Dump
pub mod Template
mod Tests
