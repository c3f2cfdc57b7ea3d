-- ===== src/Protocol/IsoPackets.antt =====
-- usbip/protocol.py: isochronous packet descriptors, four big-endian words each, and the data
-- of their slots.
use usbip_python.Base.{
  ℕ, zero, suc, ◌+◌, ◌*◌, List, [], ◌∷◌, ◌++◌, Option, none, some, ◌>>=◌, length, take, drop, ◌≡◌,
  refl, arith, length-append, >>=-some, >>=-some_last, drop-append_eq, append_assoc,
}
use usbip_python.Struct.{Bytes, Field, big, pack, unpack}
use usbip_python.Struct.Laws.{unpack-pack_prefix, length-pack}
use usbip_python.Core.Urb.{IsoPacket}

abbrev pub packet_fields : IsoPacket → List Field
packet_fields p = (4, p.offset) ∷ (4, p.length) ∷ (4, p.actual_length) ∷ (4, p.status) ∷ []

abbrev packet_of : List ℕ → Option IsoPacket
packet_of (o ∷ l ∷ a ∷ s ∷ []) =
    some (record { offset = o; length = l; actual_length = a; status = s })
packet_of _ = none

-- [list(_ISO.unpack_from(raw, i * 16)) for i in range(n)]: a buffer that is too short raises.
unfoldable pub unpack_packets : ℕ → Bytes → Option (List IsoPacket)
unpack_packets zero raw = some []
unpack_packets (suc n) raw = do
  ws ← unpack big (4 ∷ 4 ∷ 4 ∷ 4 ∷ []) (take 16 raw)
  p ← packet_of ws
  ps ← unpack_packets n (drop 16 raw)
  some (p ∷ ps)

-- b"".join(_ISO.pack(*pkt) for pkt in pkts)
unfoldable pub pack_packets : List IsoPacket → Option Bytes
pack_packets [] = some []
pack_packets (p ∷ ps) = do b ← pack big (packet_fields p); bs ← pack_packets ps; some (b ++ bs)

-- sum(pkt[1] for pkt in pkts) and sum(pkt[2] for pkt in pkts)
unfoldable pub total_length : List IsoPacket → ℕ
total_length [] = 0
total_length (p ∷ ps) = p.length + total_length ps

unfoldable pub total_actual : List IsoPacket → ℕ
total_actual [] = 0
total_actual (p ∷ ps) = p.actual_length + total_actual ps

-- The descriptor that the host sends: the offset and the length of the packet.
abbrev pub requested : IsoPacket → IsoPacket
requested p = record p { actual_length = 0; status = 0 }

-- b"".join(buffer[pkt[0] : pkt[0] + pkt[1]] for pkt in pkts)
unfoldable pub slots : Bytes → List IsoPacket → Bytes
slots buffer [] = []
slots buffer (p ∷ ps) = take p.length (drop p.offset buffer) ++ slots buffer ps

-- Packed descriptors take 16 bytes each, and are read back, whatever follows them.
pub unpack_packets-pack_packets :
    (ps : List IsoPacket) (bs rest : Bytes)
    → pack_packets ps ≡ some bs
    → (length bs ≡ length ps * 16) × (unpack_packets (length ps) (bs ++ rest) ≡ some ps)
unfolding pack_packets unpack_packets
unpack_packets-pack_packets [] bs rest h = (ground arith, refl)
unpack_packets-pack_packets (p ∷ ps) bs rest h =
    let (b, hb, e) = >>=-some (pack big (packet_fields p)) _ h in
    let (more, hm, t) = >>=-some_last (pack_packets ps) (λ (more : Bytes). b ++ more) e in
    let (size, again) = unpack_packets-pack_packets ps more rest hm in
    let sixteen : length b ≡ 16 = length-pack big (packet_fields p) hb in
    rw t (
      omega (arith, length-append b more),
      rw
          (
            append_assoc b more rest,
            drop-append_eq 16 b (more ++ rest) sixteen,
            unpack-pack_prefix big (packet_fields p) b (more ++ rest) hb,
            again,
          )
          refl,
    )
