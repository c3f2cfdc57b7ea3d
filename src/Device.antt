-- ===== src/Device.antt =====
-- usbip/device.py, class USBDevice, in the modules of its parts.
pub mod EpMap
pub mod Routing
pub mod State
pub mod Config
pub mod Conflicts
pub mod Vendor
pub mod Build
pub mod Control
pub mod Transfer
