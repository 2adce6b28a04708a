-- ===== src/Spice.antt =====
-- linux/src/ydyun_spice.py: SPICE framing, the incremental parser and the channel messages.
pub mod Errors
pub mod Frame
pub mod Stream
pub mod Names
pub mod Clip
pub mod Display
pub mod Inputs
pub mod Viewer
pub mod Probe
