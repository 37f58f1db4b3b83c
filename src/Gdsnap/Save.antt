-- ===== src/Gdsnap/Save.antt =====
-- gdsnap/gdsnap.go, savepath: what is uploaded for a path, and the upload.
pub mod Data
pub mod Plan
pub mod Send
pub mod Settled
pub mod Command
pub mod Below
pub mod Ends
