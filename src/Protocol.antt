-- ===== src/Protocol.antt =====
-- usbip/protocol.py: the USB/IP wire protocol, in the modules of its parts.
pub mod Socket
pub mod Io
pub mod IsoPackets
pub mod Header
pub mod RetHeader
pub mod Command
pub mod Reply
use usbip_python.Base.{ℕ}

-- URB-phase commands.

abbrev pub cmd_submit : ℕ
cmd_submit = 1

abbrev pub cmd_unlink : ℕ
cmd_unlink = 2

abbrev pub ret_submit : ℕ
ret_submit = 3

abbrev pub ret_unlink : ℕ
ret_unlink = 4

-- Operation-phase codes.
abbrev pub version : ℕ
version = 0x0111

abbrev pub op_req_devlist : ℕ
op_req_devlist = 0x8005

abbrev pub op_rep_devlist : ℕ
op_rep_devlist = 0x0005

abbrev pub op_req_import : ℕ
op_req_import = 0x8003

abbrev pub op_rep_import : ℕ
op_rep_import = 0x0003
