-- ===== src/Tests.antt =====
-- Runs of the theorems on small concrete inputs.
pub mod Stream
pub mod Messages
pub mod Compression
pub mod Links
pub mod Ports
pub mod Relay
pub mod Export
pub mod Numbers
pub mod Session
pub mod Settings
pub mod Commands
pub mod Viewer
