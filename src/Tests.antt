-- ===== src/Tests.antt =====
-- The theorems at work on a concrete machine: a little-endian host with a file in memory, one
-- interface and one device.
pub mod Machine
pub mod Setting
mod Protocol
mod Requests
mod Serving
mod Control
mod Startup
pub mod Text
pub mod Loading
mod Daemon
mod Ctl
pub mod Sessions
