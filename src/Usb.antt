-- ===== src/Usb.antt =====
-- linux/src/ydyun_usbctl.py: the USB/IP controller and the backward bridge.
pub mod Errors
pub mod Settings
pub mod Names
pub mod Lz4
pub mod Socket
pub mod Codec
pub mod Backward
pub mod Queue
pub mod Bridge
pub mod Ports
pub mod Watch
pub mod Relay
pub mod Export
pub mod Probe
pub mod Script
pub mod Commands
pub mod Doctor
pub mod Main
