-- ===== src/Config.antt =====
-- `Config` of jaim.h and jaim.cc.
pub mod Expand
pub mod Environment
pub mod Grants
pub mod Files
mod Tests
