-- ===== src/Protocol/Command/RoundTrip.antt =====
-- What the host side sends for a URB is what `read_cmd` hands to the device, however the stream is
-- cut into segments.
use usbip_python.Base.{
  ℕ, zero, suc, ◌≤◌, ◌≡◌, refl, sym, ap, ◌∙◌, arith, Bool, true, false, ◌&&◌, List, [], ◌∷◌, ◌++◌,
  some, ℤ, pos, negsuc, is_pos, to_nat, slice_to, ◌==◌, if◌then◌else◌, length, Bool-cases,
  Option-cases, inl, inr, map, append-nil, append_assoc, length-take, ==→eq,
}
use usbip_python.Struct.{Bytes}
use usbip_python.Core.{dir_out}
use usbip_python.Core.Urb.{Urb, IsoPacket}
use usbip_python.Protocol.{cmd_submit}
use usbip_python.Protocol.Socket.{Socket, IsOpen, stream}
use usbip_python.Protocol.Socket.Segments.{recvall-some}
use usbip_python.Protocol.Header.{Header, parse_header, pack_header, parse_header-pack_header}
use usbip_python.Protocol.IsoPackets.{
  pack_packets, unpack_packets-pack_packets, slots, total_length, requested,
}
use usbip_python.Protocol.Io.{Io, ok}
use usbip_python.Protocol.Command.{
  urb_of, read_payload, read_iso, read_body, read_cmd, submit_header, payload_of, send_submit,
  send_submit_iso,
}

-- The action returns `a`, and leaves the stream `rest`.
abbrev pub Returns : {A : Type 0} → Io A → A → Socket → Bytes → Type 0
Returns m a s rest = (s' : Socket) × (m s ≡ (ok a, s')) × (stream s' ≡ rest) × IsOpen s'

read_payload_lem :
    (h : Header) (payload rest : Bytes) (s : Socket)
    → IsOpen s
    → stream s ≡ payload ++ rest
    → length payload ≡ (if h.direction == dir_out && is_pos h.length then to_nat h.length else 0)
    → Returns (read_payload h) payload s rest
unfolding read_payload
read_payload_lem h payload rest s o e size =
    elim (Bool-cases (h.direction == dir_out && is_pos h.length)) [
      | inl t ↦
          let (s', got, left, o', _) = recvall-some payload rest s o e in
          let n : to_nat h.length ≡ length payload = sym (size ∙ rw t refl) in
          (s', rw (t, n, got) refl, left, o')
      | inr f ↦ nothing payload (size ∙ rw f refl) e f
    ]
  where
    nothing :
        (payload : Bytes)
        → length payload ≡ 0
        → stream s ≡ payload ++ rest
        → (h.direction == dir_out && is_pos h.length) ≡ false
        → Returns (read_payload h) payload s rest
    nothing [] z e f = (s, rw f refl, e, o)
    nothing (b ∷ bs) z e f = absurd (omega arith)

-- The URB with its descriptors, if the endpoint is isochronous.
with_packets : Header → Urb → List IsoPacket → Urb
with_packets h urb pkts = record urb { number_of_packets = h.npkts; iso_packets = some pkts }

abbrev NoPackets : (ℕ → ℕ → Bool) → Header → Type 0
NoPackets is_iso h =
    (h.command == cmd_submit && (is_pos h.npkts && is_iso h.ep h.direction)) ≡ false

abbrev HasPackets : (ℕ → ℕ → Bool) → Header → Type 0
HasPackets is_iso h =
    (h.command == cmd_submit && (is_pos h.npkts && is_iso h.ep h.direction)) ≡ true

read_iso-none :
    (is_iso : ℕ → ℕ → Bool) (h : Header) (urb : Urb) (s : Socket)
    → NoPackets is_iso h
    → read_iso is_iso h urb s ≡ (ok urb, s)
unfolding read_iso
read_iso-none is_iso h urb s f = rw f refl

read_iso-some :
    (is_iso : ℕ → ℕ → Bool) (h : Header) (urb : Urb) (pkts : List IsoPacket) (descs rest : Bytes)
    (s : Socket)
    → IsOpen s
    → stream s ≡ descs ++ rest
    → HasPackets is_iso h
    → to_nat h.npkts ≡ length pkts
    → pack_packets pkts ≡ some descs
    → Returns (read_iso is_iso h urb) (with_packets h urb pkts) s rest
unfolding read_iso with_packets
read_iso-some is_iso h urb pkts descs rest s o e t n packed =
    let (s', got, left, o', _) = recvall-some descs rest s o e in
    let (size, again) = unpack_packets-pack_packets pkts descs [] packed in
    (s', rw (t, n, ← size, got, rw (append-nil descs) at again) refl, left, o')

-- Behind the header: the payload, and the descriptors if there are any.
read_body_lem :
    (is_iso : ℕ → ℕ → Bool) (h : Header) (hdr payload rest : Bytes) (urb : Urb) (s s' s'' : Socket)
    → parse_header hdr ≡ some h
    → read_payload h s ≡ (ok payload, s')
    → read_iso is_iso h (urb_of h payload) s' ≡ (ok urb, s'')
    → read_body is_iso hdr s ≡ (ok (some urb), s'')
unfolding read_body
read_body_lem is_iso h hdr payload rest urb s s' s'' p q r = rw (p, q, r) refl

read_header :
    (is_iso : ℕ → ℕ → Bool) (h : Header) (hdr tail : Bytes) (s : Socket)
    → IsOpen s
    → stream s ≡ hdr ++ tail
    → length h.setup ≡ 8
    → pack_header h ≡ some hdr
    → (s' : Socket) × (read_cmd is_iso s ≡ read_body is_iso hdr s')
      × (parse_header hdr ≡ some h)
      × (stream s' ≡ tail)
      × IsOpen s'
unfolding read_cmd
read_header is_iso h hdr tail s o e setup packed =
    let (s', got, left, o', _) = recvall-some hdr tail s o e in
    let (size, parsed) = parse_header-pack_header h hdr setup packed in
    (s', rw (← size, got) refl, parsed, left, o')

-- What the host side has sent, from a socket on which nothing was sent before.
send_submit-sent :
    (u : Urb) (c c' : Socket)
    → c.sent ≡ []
    → send_submit u c ≡ (ok tt, c')
    → (hdr : Bytes) × (pack_header (submit_header u u.length (pos 0)) ≡ some hdr)
      × (c'.sent ≡ hdr ++ payload_of u)
unfolding send_submit
send_submit-sent u c c' z e = elim (Option-cases (pack_header (submit_header u u.length (pos 0)))) [
  | inl f ↦ ground arith
  | inr (hdr, f) ↦ (hdr, f, ground arith)
]

-- The buffer holds the OUT data that the URB announces.
abbrev pub HasPayload : Urb → Type 0
HasPayload u = (n : ℕ) → u.direction ≡ dir_out → u.length ≡ pos n → n ≤ length u.buffer

length-payload_of :
    (u : Urb)
    → HasPayload u
    → length (payload_of u)
      ≡ (if u.direction == dir_out && is_pos u.length then to_nat u.length else 0)
length-payload_of u has = cases u.length refl
  where
    cases :
        (z : ℤ)
        → u.length ≡ z
        → length (if u.direction == dir_out && is_pos z then slice_to z u.buffer else [])
          ≡ (if u.direction == dir_out && is_pos z then to_nat z else 0)
    cases (pos zero) e = ground arith
    cases (pos (suc n)) e = elim (Bool-cases (u.direction == dir_out)) [
      | inl t ↦
          rw t (
            omega
              (arith, length-take (suc n) u.buffer, has (suc n) (==→eq u.direction dir_out t) e))
      | inr f ↦ rw f refl
    ]
    cases (negsuc n) e = ground arith

-- The URB that the device side sees.
abbrev pub received : Urb → Urb
received u = urb_of (submit_header u u.length (pos 0)) (payload_of u)

NoPackets-submit :
    (is_iso : ℕ → ℕ → Bool) (u : Urb) → NoPackets is_iso (submit_header u u.length (pos 0))
NoPackets-submit is_iso u = ground arith

-- A URB without isochronous packets whose SETUP field has 8 bytes and whose buffer holds the OUT
-- data that it announces: when `client_submit` has sent it, then a device side whose stream is what
-- was sent and anything behind it, in whatever segments, reads the same URB with that OUT data,
-- as a CMD_SUBMIT, and leaves what stands behind it.
pub read_cmd-send_submit :
    (is_iso : ℕ → ℕ → Bool) (u : Urb) (c c' s : Socket) (rest : Bytes)
    → length u.setup ≡ 8
    → HasPayload u
    → c.sent ≡ []
    → send_submit u c ≡ (ok tt, c')
    → IsOpen s
    → stream s ≡ c'.sent ++ rest
    → Returns (read_cmd is_iso) (some (received u)) s rest
read_cmd-send_submit is_iso u c c' s rest setup has z sends o e =
    let h = submit_header u u.length (pos 0) in
    let (hdr, packed, sent) = send_submit-sent u c c' z sends in
    let (s1, begun, parsed, left1, o1) =
      read_header is_iso h hdr (payload_of u ++ rest) s o
        (e ∙ ap (λ (t : Bytes). t ++ rest) sent ∙ append_assoc hdr (payload_of u) rest) setup
        packed in
    let (s2, got, left2, o2) =
      read_payload_lem h (payload_of u) rest s1 o1 left1 (length-payload_of u has) in
    (
      s2,
      begun
          ∙ read_body_lem is_iso h hdr (payload_of u) rest (received u) s1 s2 s2 parsed got
              (read_iso-none is_iso h (received u) s2 (NoPackets-submit is_iso u)),
      left2,
      o2,
    )

abbrev pub iso_payload : Urb → List IsoPacket → Bytes
iso_payload u pkts = if u.direction == dir_out then slots u.buffer pkts else []

abbrev iso_header : Urb → List IsoPacket → Header
iso_header u pkts = submit_header u (pos (total_length pkts)) (pos (length pkts))

send_submit_iso-sent :
    (u : Urb) (pkts : List IsoPacket) (c c' : Socket)
    → c.sent ≡ []
    → send_submit_iso u pkts c ≡ (ok tt, c')
    → (hdr : Bytes) × (descs : Bytes) × (pack_header (iso_header u pkts) ≡ some hdr)
      × (pack_packets (map requested pkts) ≡ some descs)
      × (c'.sent ≡ (hdr ++ iso_payload u pkts) ++ descs)
unfolding send_submit_iso
send_submit_iso-sent u pkts c c' z e = elim (Option-cases (pack_header (iso_header u pkts))) [
  | inl f ↦ ground arith
  | inr (hdr, f) ↦ elim (Option-cases (pack_packets (map requested pkts))) [
    | inl g ↦ ground arith
    | inr (descs, g) ↦ (hdr, descs, f, g, ground arith)
  ]
]

-- Each packet's slot lies in the buffer.
abbrev pub SlotsFit : Bytes → List IsoPacket → Type 0
SlotsFit buffer pkts = length (slots buffer pkts) ≡ total_length pkts

length-map-requested : (pkts : List IsoPacket) → length (map requested pkts) ≡ length pkts
length-map-requested [] = refl
length-map-requested (p ∷ ps) = ap suc (length-map-requested ps)

length-iso_payload :
    (u : Urb) (pkts : List IsoPacket)
    → (u.direction ≡ dir_out → SlotsFit u.buffer pkts)
    → length (iso_payload u pkts) ≡ (
        if u.direction == dir_out && is_pos (pos (total_length pkts)) then total_length pkts else 0)
length-iso_payload u pkts fit = elim (Bool-cases (u.direction == dir_out)) [
  | inl t ↦ rw t (fit (==→eq u.direction dir_out t) ∙ positive (total_length pkts))
  | inr f ↦ rw f refl
]
  where
    positive : (n : ℕ) → n ≡ (if is_pos (pos n) then n else 0)
    positive zero = refl
    positive (suc n) = refl

-- The URB that the device side sees: the slots gathered, and a descriptor for each packet.
abbrev pub received_iso : Urb → List IsoPacket → Urb
received_iso u pkts = record (urb_of (iso_header u pkts) (iso_payload u pkts)) {
  number_of_packets = pos (length pkts);
  iso_packets = some (map requested pkts);
}

-- An isochronous URB with one packet at least, to an endpoint that the device side knows as
-- isochronous: what `_client_submit_iso` sends is read back as the same URB, with the data of the
-- packets' slots joined and the offset and length of each packet, however the stream is cut.
pub read_cmd-send_submit_iso :
    (is_iso : ℕ → ℕ → Bool) (u : Urb) (p : IsoPacket) (ps : List IsoPacket) (c c' s : Socket)
    (rest : Bytes)
    → length u.setup ≡ 8
    → is_iso u.ep u.direction ≡ true
    → (u.direction ≡ dir_out → SlotsFit u.buffer (p ∷ ps))
    → c.sent ≡ []
    → send_submit_iso u (p ∷ ps) c ≡ (ok tt, c')
    → IsOpen s
    → stream s ≡ c'.sent ++ rest
    → Returns (read_cmd is_iso) (some (received_iso u (p ∷ ps))) s rest
unfolding with_packets
read_cmd-send_submit_iso is_iso u p ps c c' s rest setup iso fit z sends o e =
    let pkts = p ∷ ps in
    let h = iso_header u pkts in
    let payload = iso_payload u pkts in
    let (hdr, descs, packed, packed_descs, sent) = send_submit_iso-sent u pkts c c' z sends in
    let cut : stream s ≡ hdr ++ (payload ++ (descs ++ rest)) =
      e
      ∙ rw
          (sent, append_assoc (hdr ++ payload) descs rest, append_assoc hdr payload (descs ++ rest))
          refl in
    let (s1, begun, parsed, left1, o1) =
      read_header is_iso h hdr (payload ++ (descs ++ rest)) s o cut setup packed in
    let (s2, got, left2, o2) =
      read_payload_lem h payload (descs ++ rest) s1 o1 left1 (length-iso_payload u pkts fit) in
    let (s3, descriptors, left3, o3) =
      read_iso-some is_iso h (urb_of h payload) (map requested pkts) descs rest s2 o2 left2
        (rw iso refl) (sym (length-map-requested pkts)) packed_descs in
    (
      s3,
      begun
          ∙ read_body_lem is_iso h hdr payload rest (received_iso u pkts) s1 s2 s3 parsed got
              descriptors,
      left3,
      o3,
    )
