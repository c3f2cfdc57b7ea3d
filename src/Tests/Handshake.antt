-- ===== src/Tests/Handshake.antt =====
-- usbip/protocol.py: the handshake, for a server that exports the device of the device's tests.
use usbip_python.Base.{ℕ, ◌≡◌, refl, arith, [], ◌∷◌, ◌++◌, none, some, length, take, drop}
use usbip_python.Struct.{Bytes}
use usbip_python.Core.Text.{Text}
use usbip_python.Core.MsOs.{codes}
use usbip_python.Protocol.Socket.{Socket, stream}
use usbip_python.Protocol.Io.{ok, raised, not_found}
use usbip_python.Serve.UsbDevice.{
  Exported, pack_usb_device, fixed, sys_path, parse_usb_device, described, IsBusid,
  parse-pack_usb_device,
}
use usbip_python.Serve.Handshake.{find_device, serve_handshake, client_import}
use usbip_python.Serve.Handshake.Import.{
  import_wire, reply_header, serve_handshake-client_import, serve_handshake-client_import-none,
}
use usbip_python.Tests.Device.{profile, idle}

abbrev lone : Exported ℕ
lone = record { busid = none; busnum = 0; devnum = 0; speed = 1; profile = profile; state = idle }

abbrev lone_wire : Bytes
unfolding fixed
lone_wire =
    fixed 256 (sys_path ++ codes "1-1")
    ++ (fixed 32 (codes "1-1")
        ++ (0 ∷ 0 ∷ 0 ∷ 1 ∷ 0 ∷ 0 ∷ 0 ∷ 2 ∷ 0 ∷ 0 ∷ 0 ∷ 2 ∷ 0x12 ∷ 0x09 ∷ 0 ∷ 1 ∷ 1 ∷ 0 ∷ 0 ∷ 0 ∷ 0
            ∷ 1 ∷ 1 ∷ 1 ∷ []))

lone_packed : pack_usb_device lone ≡ some lone_wire
unfolding pack_usb_device lone_wire usbip_python.Core.Text.utf8 usbip_python.Struct.pack
    usbip_python.Serve.UsbDevice.wire_speed usbip_python.Struct.to_le
lone_packed = refl

lone-IsBusid : IsBusid (codes "1-1")
lone-IsBusid = record { ascii = ground arith; short = omega arith }

parse-pack_usb_device_example :
    (length lone_wire ≡ 312) × (parse_usb_device lone_wire ≡ some (described lone))
parse-pack_usb_device_example = parse-pack_usb_device lone lone_wire lone-IsBusid lone_packed

lone_found : find_device (codes "1-1") (lone ∷ []) ≡ some lone
unfolding find_device
lone_found = refl

other_missing : find_device (codes "1-2") (lone ∷ []) ≡ none
unfolding find_device
other_missing = refl

-- The request in two segments.
abbrev request : Text → Socket
request name = record {
  incoming = take 10 (import_wire name) ∷ drop 10 (import_wire name) ∷ [];
  sent = [];
}

abbrev replies : Bytes → Socket
replies bs = record { incoming = bs ∷ []; sent = [] }

request_sent :
    stream (request (codes "1-1"))
    ≡ (client_import (codes "1-1") (replies (reply_header 0 ++ lone_wire))).1.sent ++ []
unfolding client_import usbip_python.Struct.pack usbip_python.Protocol.Socket.recvall lone_wire
    usbip_python.Struct.unpack usbip_python.Struct.from_le parse_usb_device
    usbip_python.Struct.to_le
request_sent = refl

serve_handshake-client_import_example :
    ((serve_handshake (lone ∷ []) (request (codes "1-1"))).0 ≡ ok (some lone))
    × (stream (serve_handshake (lone ∷ []) (request (codes "1-1"))).1 ≡ [])
    × ((serve_handshake (lone ∷ []) (request (codes "1-1"))).1.sent ≡ reply_header 0 ++ lone_wire)
    × ((client_import (codes "1-1") (replies (reply_header 0 ++ lone_wire))).0
        ≡ ok (described lone))
    × (stream (client_import (codes "1-1") (replies (reply_header 0 ++ lone_wire))).1 ≡ [])
unfolding lone_wire
serve_handshake-client_import_example =
    serve_handshake-client_import (lone ∷ []) (codes "1-1") lone lone_wire (request (codes "1-1"))
      (replies (reply_header 0 ++ lone_wire)) [] [] lone-IsBusid lone_found lone_packed
      (omega arith) refl request_sent (omega arith) refl refl

other-IsBusid : IsBusid (codes "1-2")
other-IsBusid = record { ascii = ground arith; short = omega arith }

refusal_sent :
    stream (replies (reply_header 1))
    ≡ (serve_handshake (lone ∷ []) (request (codes "1-2"))).1.sent ++ []
unfolding serve_handshake usbip_python.Protocol.Socket.recvall usbip_python.Struct.unpack
    usbip_python.Struct.from_le usbip_python.Core.Decode.decode_text
    usbip_python.Serve.UsbDevice.until_nul usbip_python.Struct.pack usbip_python.Struct.to_le
refusal_sent = refl

serve_handshake-client_import-none_example :
    ((serve_handshake (lone ∷ []) (request (codes "1-2"))).0 ≡ ok none)
    × ((client_import (codes "1-2") (replies (reply_header 1))).0 ≡ raised not_found)
serve_handshake-client_import-none_example =
    serve_handshake-client_import-none (lone ∷ []) (codes "1-2") (request (codes "1-2"))
      (replies (reply_header 1)) [] [] other-IsBusid other_missing (omega arith) refl refl
      (omega arith) refusal_sent
