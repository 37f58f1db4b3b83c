-- ===== src/Tools.antt =====
-- The small tools: ybb/ybb.go, and muttcfg, tlog, firefox, cal and httpd under utils.
pub mod Ybb
pub mod Muttcfg
pub mod Tlog
pub mod Firefox
pub mod Cal
pub mod Httpd
mod Tests
