-- ===== src/Gdsnap.antt =====
-- gdsnap/gdsnap.go: the Google Drive snapshotter.
pub mod Glob
pub mod State
pub mod Filter
pub mod Listing
pub mod Token
pub mod Crypt
pub mod Save
pub mod Revision
pub mod Restore
pub mod Diff
pub mod Quota
pub mod Config
pub mod Inotify
pub mod Main
pub mod Watch
mod Tests
