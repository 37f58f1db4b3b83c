-- ===== src/Desktop.antt =====
-- The tools of the desktop: utils/disw.go and utils/i3next.go.
pub mod Disw
pub mod I3next
mod Tests
