-- ===== src/Tests.antt =====
-- Each property at concrete inputs.
pub mod World
pub mod Jobs
pub mod Tunnels
pub mod Web
pub mod Sharing
pub mod Starts
pub mod Forms
pub mod Downloads
pub mod Server
pub mod Settings
pub mod Sorting
