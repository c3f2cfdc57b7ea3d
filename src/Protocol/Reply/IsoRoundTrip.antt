-- ===== src/Protocol/Reply/IsoRoundTrip.antt =====
-- What `write_ret` sends, with isochronous packets or without, is what the host side reads.
use usbip_python.Base.{
  ℕ, zero, suc, ◌*◌, ◌≤◌, ◌≡◌, refl, sym, ap, ◌∙◌, arith, Bool, true, false, ◌&&◌, min, max, List,
  [], ◌∷◌, ◌++◌, Option, none, some, pos, is_pos, to_nat, ◌==◌, if◌then◌else◌, length, replicate,
  Option-cases, inl, inr, append_assoc, append-nil, length-replicate, ==→eq,
}
use usbip_python.Struct.{Bytes}
use usbip_python.Core.{dir_in}
use usbip_python.Core.Urb.{Urb, IsoPacket}
use usbip_python.Protocol.{ret_submit}
use usbip_python.Protocol.Socket.{Socket, IsOpen, stream}
use usbip_python.Protocol.Socket.Segments.{recvall-some}
use usbip_python.Protocol.RetHeader.{RetHeader, pack_ret, parse_ret-pack_ret}
use usbip_python.Protocol.IsoPackets.{
  pack_packets, unpack_packets-pack_packets, total_length, total_actual,
}
use usbip_python.Protocol.Io.{ok}
use usbip_python.Protocol.Command.RoundTrip.{Returns}
use usbip_python.Protocol.Reply.{
  ret_header, reply_data, write_ret, write_ret_iso, read_descriptors, scatter, overlay,
  read_reply_iso, await_reply,
}
use usbip_python.Protocol.Reply.RoundTrip.{
  HasData, length-reply_data, read_data_lem, finished, read_reply-write_ret,
}
use usbip_python.Protocol.Reply.Slots.{Ordered, Placed, scatter_lem}

-- The data that a reply with packets has behind its header.
abbrev pub iso_data : Urb → List IsoPacket → Bytes
iso_data r rs = reply_data r (pos (total_actual rs))

-- How many bytes the host side's buffer has.
abbrev pub room : Urb → List IsoPacket → ℕ
room u pkts = max (total_length pkts) (to_nat u.length)

-- The buffer holds the IN data of the packets.
abbrev HasIsoData : Urb → List IsoPacket → Type 0
HasIsoData r rs = r.direction ≡ dir_in → total_actual rs ≤ length r.buffer

length-iso_data :
    (r : Urb) (rs : List IsoPacket)
    → HasIsoData r rs
    → length (iso_data r rs)
      ≡ (if r.direction == dir_in && is_pos (pos (total_actual rs)) then total_actual rs else 0)
length-iso_data r rs has =
    length-reply_data (record r { actual = pos (total_actual rs) }) (λ n d e. same n d (pos_eq e))
  where
    pos_eq : {m n : ℕ} → pos m ≡ pos n → m ≡ n
    pos_eq e = ap to_nat e

    same : (n : ℕ) → r.direction ≡ dir_in → total_actual rs ≡ n → n ≤ length r.buffer
    same n d e = omega (arith, has d)

abbrev iso_header : Urb → List IsoPacket → RetHeader
iso_header r rs = ret_header ret_submit r r.status (pos (total_actual rs)) (pos (length rs))

write_ret_iso-sent :
    (r : Urb) (rs : List IsoPacket) (c c' : Socket)
    → r.iso_packets ≡ some rs
    → c.sent ≡ []
    → write_ret r c ≡ (ok tt, c')
    → (hdr descs : Bytes) × (pack_ret (iso_header r rs) ≡ some hdr)
      × (pack_packets rs ≡ some descs)
      × (c'.sent ≡ hdr ++ (iso_data r rs ++ descs))
unfolding write_ret write_ret_iso
write_ret_iso-sent r rs c c' packets z e = elim (Option-cases (pack_ret (iso_header r rs))) [
  | inl f ↦ ground arith
  | inr (hdr, f) ↦ elim (Option-cases (pack_packets rs)) [
    | inl g ↦ ground arith
    | inr (descs, g) ↦ (hdr, descs, f, g, ground (arith, append_assoc hdr (iso_data r rs) descs))
  ]
]

read_descriptors_lem :
    (n : ℕ) (descs rest : Bytes) (s : Socket)
    → IsOpen s
    → stream s ≡ descs ++ rest
    → length descs ≡ n * 16
    → Returns (read_descriptors (pos n)) (some descs) s rest
unfolding read_descriptors
read_descriptors_lem zero [] rest s o e size = (s, refl, e, o)
read_descriptors_lem zero (b ∷ bs) rest s o e size = absurd (omega arith)
read_descriptors_lem (suc n) descs rest s o e size =
    let (s', got, left, o', _) = recvall-some descs rest s o e in
    (s', rw (← size, got) refl, left, o')

overlay-all : (rs pkts : List IsoPacket) → length rs ≡ length pkts → overlay rs pkts ≡ rs
overlay-all [] [] h = refl
overlay-all [] (p ∷ ps) h = absurd (omega arith)
overlay-all (r ∷ rs) [] h = absurd (omega arith)
overlay-all (r ∷ rs) (p ∷ ps) h = ap (◌∷◌ r) (overlay-all rs ps (omega arith))

scatter-out :
    (payload : Option Bytes) (cum : ℕ) (ps : List IsoPacket) (buf : Bytes)
    → scatter false payload cum ps buf ≡ some buf
unfolding scatter
scatter-out payload cum [] buf = refl
scatter-out payload cum (p ∷ ps) buf = scatter-out payload cum ps buf

-- The data of every packet of an IN reply in its slot.
abbrev Filled : Urb → List IsoPacket → ℕ → Bytes → Type 0
Filled r rs size buf =
    (length buf ≡ size) × (r.direction ≡ dir_in → Placed (iso_data r rs) 0 rs buf)

scatter_all :
    (b : Bool) (bs : Bytes) (rs : List IsoPacket) (size : ℕ)
    → (b ≡ true → total_actual rs ≤ length bs)
    → (b ≡ true → Ordered 0 size rs)
    → (buf : Bytes) × (scatter b (some bs) 0 rs (replicate size 0) ≡ some buf)
      × (length buf ≡ size)
      × (b ≡ true → Placed bs 0 rs buf)
scatter_all true bs rs size enough fits =
    let room : Bytes = replicate size 0 in
    let same : length room ≡ size = length-replicate {A = ℕ} size 0 in
    let (buf, e, (kept, _, placed)) =
      scatter_lem bs 0 0 rs room (rw same (fits refl)) (omega (arith, enough refl)) in
    (buf, e, kept ∙ same, λ _. placed)
scatter_all false bs rs size enough fits = (
  replicate size 0,
  scatter-out (some bs) 0 rs (replicate size 0),
  length-replicate {A = ℕ} size 0,
  λ t. absurd (ground arith),
)

scatter-Filled :
    (r : Urb) (rs : List IsoPacket) (size : ℕ)
    → HasIsoData r rs
    → (r.direction ≡ dir_in → Ordered 0 size rs)
    → (buf : Bytes) × (scatter
          (r.direction == dir_in)
          (some (iso_data r rs))
          0
          rs
          (replicate size 0)
        ≡ some buf)
      × Filled r rs size buf
scatter-Filled r rs size has fits =
    let (buf, e, size_lem, placed) =
      scatter_all (r.direction == dir_in) (iso_data r rs) rs size
        (λ t. ground (arith, length-iso_data r rs has)) (λ t. fits (==→eq r.direction dir_in t)) in
    (buf, e, (size_lem, λ d. placed (ground arith)))

-- The URB of the host side with the result of a reply with packets.
abbrev pub finished_iso : Urb → Urb → List IsoPacket → Bytes → Urb
finished_iso u r rs buf = record u {
  status = r.status;
  actual = pos (total_actual rs);
  buffer = buf;
  iso_packets = some rs;
}

read_iso_parts :
    (u r : Urb) (pkts rs : List IsoPacket) (hdr descs rest : Bytes) (s : Socket)
    → u.direction ≡ r.direction
    → length rs ≡ length pkts
    → HasIsoData r rs
    → (r.direction ≡ dir_in → Ordered 0 (room u pkts) rs)
    → pack_ret (iso_header r rs) ≡ some hdr
    → pack_packets rs ≡ some descs
    → IsOpen s
    → stream s ≡ hdr ++ (iso_data r rs ++ (descs ++ rest))
    → (buf : Bytes) × Returns (read_reply_iso u pkts) (finished_iso u r rs buf) s rest
      × Filled r rs (room u pkts) buf
unfolding read_reply_iso
read_iso_parts u r pkts rs hdr descs rest s dir same has fits packed all o e =
    let (size, parsed) = parse_ret-pack_ret (iso_header r rs) hdr packed in
    let payload = iso_data r rs in
    let (s1, got, left1, o1, _) = recvall-some hdr (payload ++ (descs ++ rest)) s o e in
    let (s2, data_got, left2, o2) =
      read_data_lem u (pos (total_actual rs)) payload (descs ++ rest) s1 o1 left1 (
        length-iso_data r rs has
        ∙ ap
            (λ (d : ℕ).
              if d == dir_in && is_pos (pos (total_actual rs)) then total_actual rs else 0)
            (sym dir)) in
    let (descs_size, again) = unpack_packets-pack_packets rs descs [] all in
    let (s3, descs_got, left3, o3) =
      read_descriptors_lem (length rs) descs rest s2 o2 left2 descs_size in
    let least : min (length rs) (length pkts) ≡ length rs = omega arith in
    let (buf, placed, filled) = scatter-Filled r rs (room u pkts) has fits in
    let at_host : scatter (u.direction == dir_in) (some payload) 0 rs (replicate (room u pkts) 0)
        ≡ some buf =
      ap (λ (d : ℕ). scatter (d == dir_in) (some payload) 0 rs (replicate (room u pkts) 0)) dir
      ∙ placed in
    (
      buf,
      (
        s3,
        rw
            (
              ← size,
              got,
              parsed,
              data_got,
              descs_got,
              least,
              rw (append-nil descs) at again,
              at_host,
              overlay-all rs pkts same,
            )
            refl,
        left3,
        o3,
      ),
      filled,
    )

-- What the two sides agree on: a reply of the kind that the host side waits for, whose buffer holds
-- the IN data that it announces; with packets, as many as were asked for, and for IN data their slots
-- follow each other within the host side's buffer.
abbrev pub Meets : Urb → Urb → Option (List IsoPacket) → Option (List IsoPacket) → Type 0
Meets u r none none = HasData r
Meets u r none (some rs) = ⊥
Meets u r (some pkts) none = ⊥
Meets u r (some pkts) (some rs) =
    (length rs ≡ length pkts)
    × (r.direction ≡ dir_in → total_actual rs ≤ length r.buffer)
    × (r.direction ≡ dir_in → Ordered 0 (room u pkts) rs)

-- What the host side has then.
abbrev pub Finished : Urb → Urb → Option (List IsoPacket) → Option (List IsoPacket) → Urb → Type 0
Finished u r none none v = v ≡ finished u r
Finished u r none (some rs) v = ⊥
Finished u r (some pkts) none v = ⊥
Finished u r (some pkts) (some rs) v =
    (v ≡ finished_iso u r rs v.buffer)
    × (length v.buffer ≡ room u pkts)
    × (r.direction ≡ dir_in → Placed (iso_data r rs) 0 rs v.buffer)

by_kind :
    (u r : Urb) (w w' s : Socket) (rest : Bytes) (asked given : Option (List IsoPacket))
    → r.iso_packets ≡ given
    → u.direction ≡ r.direction
    → Meets u r asked given
    → w.sent ≡ []
    → write_ret r w ≡ (ok tt, w')
    → IsOpen s
    → stream s ≡ w'.sent ++ rest
    → (v : Urb) × Returns (await_reply u asked) v s rest × Finished u r asked given v
by_kind u r w w' s rest none none kind dir has z writes o e =
    (finished u r, read_reply-write_ret u r w w' s rest dir kind has z writes o e, refl)
by_kind u r w w' s rest none (some rs) kind dir m z writes o e = absurd m
by_kind u r w w' s rest (some pkts) none kind dir m z writes o e = absurd m
by_kind u r w w' s rest (some pkts) (some rs) kind dir (same, has, fits) z writes o e =
    let (hdr, descs, packed, all, sent) = write_ret_iso-sent r rs w w' kind z writes in
    let payload = iso_data r rs in
    let (buf, read, filled) =
      read_iso_parts u r pkts rs hdr descs rest s dir same has fits packed all o (
        e
        ∙ ap (λ (t : Bytes). t ++ rest) sent
        ∙ append_assoc hdr (payload ++ descs) rest
        ∙ ap (λ (t : Bytes). hdr ++ t) (append_assoc payload descs rest)) in
    (finished_iso u r rs buf, read, (refl, filled.0, filled.1))

-- A reply of the kind and the direction that the host side's URB waits for, whose buffer holds the IN
-- data that it announces, and which with packets has as many as were asked for, for IN data with
-- slots that follow each other within the host side's buffer. Once `write_ret` has sent it, the host
-- side reads it, whatever else follows in the stream and however it is cut. Without packets its URB
-- has the reply's status, actual length and data. With packets it has the reply's status, the sum of
-- the packets' actual lengths and the packets, its buffer is as long as was asked for, and for IN data
-- every packet's part of the data is in the packet's slot.
pub await_reply-write_ret :
    (u r : Urb) (w w' s : Socket) (rest : Bytes)
    → u.direction ≡ r.direction
    → Meets u r u.iso_packets r.iso_packets
    → w.sent ≡ []
    → write_ret r w ≡ (ok tt, w')
    → IsOpen s
    → stream s ≡ w'.sent ++ rest
    → (v : Urb) × Returns (await_reply u u.iso_packets) v s rest
      × Finished u r u.iso_packets r.iso_packets v
await_reply-write_ret u r w w' s rest = by_kind u r w w' s rest u.iso_packets r.iso_packets refl
