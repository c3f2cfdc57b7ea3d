-- ===== src/Protocol/Reply.antt =====
-- usbip/protocol.py: the reply to a URB, `write_ret` and `write_ret_unlink` on the device side and
-- what `client_submit` and `_client_submit_iso` read on the host side. Capture is off.
pub mod RoundTrip
pub mod Slots
pub mod IsoRoundTrip
use usbip_python.Base.{
  ℕ, zero, suc, ◌+◌, ◌-◌, ◌*◌, min, max, Bool, true, false, ◌&&◌, List, [], ◌∷◌, ◌++◌, Option, none,
  some, ℤ, pos, negsuc, is_pos, to_nat, slice_to, ◌==◌, if◌then◌else◌, length, take, drop,
  replicate,
}
use usbip_python.Struct.{Bytes}
use usbip_python.Core.{dir_out, dir_in}
use usbip_python.Core.Urb.{Urb, IsoPacket}
use usbip_python.Protocol.{ret_submit, ret_unlink}
use usbip_python.Protocol.RetHeader.{RetHeader, parse_ret, pack_ret}
use usbip_python.Protocol.IsoPackets.{unpack_packets, pack_packets, total_length, total_actual}
use usbip_python.Protocol.Command.{send_submit, send_submit_iso, or_empty}
use usbip_python.Protocol.Io.{
  Io, ◌>>=◌, ◌>>◌, pure, raise, or_raise, recv, send, struct_error, usb_error,
}

abbrev pub ret_header : ℕ → Urb → ℤ → ℤ → ℤ → RetHeader
ret_header command u status actual npkts = record {
  command = command;
  seqnum = u.seqnum;
  devid = u.devid;
  direction = u.direction;
  ep = u.ep;
  status = status;
  actual = actual;
  npkts = npkts;
}

-- The data that follows a reply's header.
abbrev pub reply_data : Urb → ℤ → Bytes
reply_data u actual =
    if u.direction == dir_in && is_pos actual then slice_to actual u.buffer else []

write_ret_plain : Urb → Io (Unit {0})
write_ret_plain u = do
  hdr ← or_raise struct_error (pack_ret (ret_header ret_submit u u.status u.actual (pos 0)))
  send hdr
  send (reply_data u u.actual)

write_ret_iso : Urb → List IsoPacket → Io (Unit {0})
write_ret_iso u pkts = do
  hdr ←
      or_raise struct_error
        (pack_ret (ret_header ret_submit u u.status (pos (total_actual pkts)) (pos (length pkts))))
  send hdr
  send (reply_data u (pos (total_actual pkts)))
  descs ← or_raise struct_error (pack_packets pkts)
  send descs

-- write_ret(sock, urb)
unfoldable pub write_ret : Urb → Io (Unit {0})
unfolding write_ret_plain write_ret_iso
write_ret u = elim u.iso_packets [ none ↦ write_ret_plain u | some pkts ↦ write_ret_iso u pkts ]

-- write_ret_unlink(sock, urb)
unfoldable pub write_ret_unlink : Urb → Io (Unit {0})
write_ret_unlink u = do
  hdr ← or_raise struct_error (pack_ret (ret_header ret_unlink u (pos 0) (pos 0) (pos 0)))
  send hdr

need_reply : Option Bytes → Io Bytes
need_reply none = raise usb_error
need_reply (some hdr) = pure hdr

-- The IN data of a reply: None when the connection closes before it is complete.
unfoldable pub read_data : Urb → ℤ → Io (Option Bytes)
read_data u actual =
    if u.direction == dir_in && is_pos actual then recv (to_nat actual) else pure (some [])

-- What `client_submit` does after it has sent the request.
unfoldable pub read_reply : Urb → Io Urb
unfolding need_reply read_data
read_reply u = do
  got ← recv 48
  hdr ← need_reply got
  r ← or_raise struct_error (parse_ret hdr)
  payload ← read_data u r.actual
  pure (record u { status = r.status; actual = r.actual; buffer = or_empty payload })

-- buf[off : off + al] = chunk
abbrev pub splice : ℕ → ℕ → Bytes → Bytes → Bytes
splice off al chunk buf = take off buf ++ (chunk ++ drop (off + al) buf)

-- The loop over the returned descriptors: each packet's data goes to its slot. `none` is a raised
-- TypeError, when there is data to place and none was read.
unfoldable pub scatter : Bool → Option Bytes → ℕ → List IsoPacket → Bytes → Option Bytes
scatter to_host payload cum [] buf = some buf
scatter to_host payload cum (p ∷ ps) buf =
    let al = p.actual_length in
    let placed = elim payload as (λ _. Option Bytes) [
      | none ↦ none
      | some bs ↦
          scatter to_host payload (cum + al) ps (splice p.offset al (take al (drop cum bs)) buf)
    ] in
    let skipped = scatter to_host payload cum ps buf in
    if to_host && (if al == 0 then false else true) then placed else skipped

-- rraw = _recvall(sock, rnp * 16) if rnp > 0 else b""
read_descriptors : ℤ → Io (Option Bytes)
read_descriptors n = if is_pos n then recv (to_nat n * 16) else pure (some [])

-- The first k descriptors replace those that were sent.
abbrev pub overlay : List IsoPacket → List IsoPacket → List IsoPacket
overlay [] pkts = pkts
overlay (r ∷ rs) [] = []
overlay (r ∷ rs) (p ∷ pkts) = r ∷ overlay rs pkts

unfoldable pub read_reply_iso : Urb → List IsoPacket → Io Urb
unfolding need_reply read_data read_descriptors
read_reply_iso u pkts = do
  got ← recv 48
  hdr ← need_reply got
  r ← or_raise struct_error (parse_ret hdr)
  payload ← read_data u r.actual
  raw ← read_descriptors r.npkts
  let k = min (to_nat r.npkts) (length pkts)
  back ← or_raise struct_error (unpack_packets k (or_empty raw))
  let room : Bytes = replicate (max (total_length pkts) (to_nat u.length)) 0
  buf ← or_raise struct_error (scatter (u.direction == dir_in) payload 0 back room)
  pure (record u {
    status = r.status;
    actual = r.actual;
    buffer = buf;
    iso_packets = some (overlay back pkts);
  })

-- What `client_submit` does after it has sent a request of either kind.
abbrev pub await_reply : Urb → Option (List IsoPacket) → Io Urb
await_reply u none = read_reply u
await_reply u (some pkts) = read_reply_iso u pkts

-- client_submit(sock, urb)
unfoldable pub client_submit : Urb → Io Urb
unfolding read_reply read_reply_iso send_submit send_submit_iso
client_submit u = elim u.iso_packets [
  | none ↦ (do send_submit u; read_reply u)
  | some pkts ↦ (do send_submit_iso u pkts; read_reply_iso u pkts)
]
