-- ===== src/Bm.antt =====
-- utils/bm.go: markdown to HTML and back, and a server of a file that is watched.
pub mod Replace
pub mod Html
pub mod Markdown
pub mod Item
pub mod Server
pub mod Command
mod Tests
