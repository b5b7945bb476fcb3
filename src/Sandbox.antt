-- ===== src/Sandbox.antt =====
-- The Seatbelt profile of `Config::generate_sandbox_profile` in jaim.cc.
pub mod Escape
pub mod Rules
pub mod Static
pub mod Script
pub mod Profile
pub mod Wait
pub mod Child
pub mod Launch
pub mod Teardown
pub mod Helper
mod Tests
