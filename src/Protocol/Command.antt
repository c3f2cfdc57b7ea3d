-- ===== src/Protocol/Command.antt =====
-- usbip/protocol.py: the request of a URB, `read_cmd` on the device side and what
-- `client_submit` and `_client_submit_iso` send on the host side.
pub mod RoundTrip
use usbip_python.Base.{
  ℕ, zero, suc, ◌+◌, ◌*◌, Bool, true, false, ◌&&◌, List, [], ◌∷◌, ◌++◌, map, Option, none, some, ℤ,
  pos, negsuc, is_pos, to_nat, slice_to, ◌==◌, if◌then◌else◌, length, take, drop, join,
}
use usbip_python.Struct.{Bytes, big}
use usbip_python.Core.{dir_out, dir_in}
use usbip_python.Core.Urb.{Urb, IsoPacket}
use usbip_python.Protocol.{cmd_submit}
use usbip_python.Protocol.Header.{Header, parse_header, pack_header}
use usbip_python.Protocol.IsoPackets.{unpack_packets, pack_packets, slots, total_length, requested}
use usbip_python.Protocol.Io.{
  Io, ◌>>=◌, ◌>>◌, pure, raise, or_raise, recv, send, struct_error, usb_error,
}

abbrev pub or_empty : Option Bytes → Bytes
or_empty none = []
or_empty (some bs) = bs

-- Urb(command, ..., setup, data)
abbrev pub urb_of : Header → Bytes → Urb
urb_of h payload = record {
  command = h.command;
  seqnum = h.seqnum;
  devid = h.devid;
  direction = h.direction;
  ep = h.ep;
  flags = h.flags;
  length = h.length;
  interval = h.interval;
  setup = h.setup;
  buffer = payload;
  status = pos 0;
  actual = pos 0;
  number_of_packets = pos 0;
  iso_packets = none;
}

-- `_recvall(sock, length) or b""`, for OUT data.
unfoldable pub read_payload : Header → Io Bytes
read_payload h =
    if h.direction == dir_out && is_pos h.length
    then (do got ← recv (to_nat h.length); pure (or_empty got))
    else pure []

-- The descriptors follow only for isochronous endpoints.
unfoldable pub read_iso : (ℕ → ℕ → Bool) → Header → Urb → Io Urb
read_iso is_iso h urb =
    if h.command == cmd_submit && (is_pos h.npkts && is_iso h.ep h.direction)
    then (do
      got ← recv (to_nat h.npkts * 16)
      pkts ← or_raise struct_error (unpack_packets (to_nat h.npkts) (or_empty got))
      pure (record urb { number_of_packets = h.npkts; iso_packets = some pkts }))
    else pure urb

unfoldable pub read_body : (ℕ → ℕ → Bool) → Bytes → Io (Option Urb)
unfolding read_payload read_iso
read_body is_iso hdr = do
  h ← or_raise struct_error (parse_header hdr)
  payload ← read_payload h
  urb ← read_iso is_iso h (urb_of h payload)
  pure (some urb)

unfoldable pub read_after : (ℕ → ℕ → Bool) → Option Bytes → Io (Option Urb)
unfolding read_body
read_after is_iso none = pure none
read_after is_iso (some hdr) = read_body is_iso hdr

-- read_cmd(sock, dev); `is_iso` is the device's `is_iso`, and constantly false without a device.
unfoldable pub read_cmd : (ℕ → ℕ → Bool) → Io (Option Urb)
unfolding read_after
read_cmd is_iso = do hdr ← recv 48; read_after is_iso hdr

-- The header that the host side packs for a URB.
abbrev pub submit_header : Urb → ℤ → ℤ → Header
submit_header u len npkts = record {
  command = cmd_submit;
  seqnum = u.seqnum;
  devid = u.devid;
  direction = u.direction;
  ep = u.ep;
  flags = u.flags;
  length = len;
  npkts = npkts;
  interval = u.interval;
  setup = u.setup;
}

abbrev pub payload_of : Urb → Bytes
payload_of u = if u.direction == dir_out && is_pos u.length then slice_to u.length u.buffer else []

-- What `client_submit` sends before it reads the reply.
unfoldable pub send_submit : Urb → Io (Unit {0})
send_submit u = do
  hdr ← or_raise struct_error (pack_header (submit_header u u.length (pos 0)))
  send hdr
  send (payload_of u)

-- What `_client_submit_iso` sends before it reads the reply.
unfoldable pub send_submit_iso : Urb → List IsoPacket → Io (Unit {0})
send_submit_iso u pkts = do
  hdr ←
      or_raise struct_error
        (pack_header (submit_header u (pos (total_length pkts)) (pos (length pkts))))
  send hdr
  send (if u.direction == dir_out then slots u.buffer pkts else [])
  descs ← or_raise struct_error (pack_packets (map requested pkts))
  send descs
