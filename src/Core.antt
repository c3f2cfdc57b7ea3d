-- ===== src/Core.antt =====
-- usbip/core.py: the constants, and the modules of its parts.
pub mod Setup
pub mod Walk
pub mod DeviceDescriptor
pub mod ConfigurationDescriptor
pub mod InterfaceDescriptor
pub mod EndpointDescriptor
pub mod Text
pub mod Decode
pub mod MsOs
pub mod Bos
pub mod Lengths
pub mod Urb
use usbip_python.Base.{ℕ}

-- OUT and IN. A direction read from the wire may be any other number.
abbrev pub dir_out : ℕ
dir_out = 0

abbrev pub dir_in : ℕ
dir_in = 1

-- Descriptor type codes.
abbrev pub dt_device : ℕ
dt_device = 1

abbrev pub dt_config : ℕ
dt_config = 2

abbrev pub dt_string : ℕ
dt_string = 3

abbrev pub dt_interface : ℕ
dt_interface = 4

abbrev pub dt_endpoint : ℕ
dt_endpoint = 5

abbrev pub dt_interface_association : ℕ
dt_interface_association = 0x0B

abbrev pub dt_bos : ℕ
dt_bos = 0x0F
