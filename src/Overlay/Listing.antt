-- ===== src/Overlay/Listing.antt =====
-- `op_readdir` and the lookup of overlay.cc agree.
pub mod Names
pub mod Below
pub mod Agree
mod Tests
