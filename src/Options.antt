-- ===== src/Options.antt =====
-- The option parser of options.h and options.cc.
pub mod Action
pub mod Scan
pub mod Parse
pub mod File
pub mod Complete
mod Tests
