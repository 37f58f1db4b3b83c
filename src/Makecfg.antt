-- ===== src/Makecfg.antt =====
-- makecfg/makecfg.go: a workflow that sets up the home directory.
pub mod Files
pub mod Link
pub mod Workflow
pub mod Clean
pub mod Build
mod Tests
