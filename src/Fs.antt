-- ===== src/Fs.antt =====
-- fs.cc and fs.h: glob patterns and paths.
pub mod Glob
pub mod Paths
pub mod Maps
pub mod Ensure
mod Tests
