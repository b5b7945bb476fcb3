-- ===== src/Overlay.antt =====
-- jaim-overlay, the copy-on-write file system of overlay.cc.
pub mod Posix
pub mod Resolve
pub mod Monad
pub mod Whiteout
pub mod CopyUp
pub mod Read
pub mod Change
pub mod Session
pub mod Gone
pub mod Hidden
pub mod Removal
pub mod Disk
mod Tests
pub mod Lookup
pub mod Fresh
pub mod Listing
pub mod Start
