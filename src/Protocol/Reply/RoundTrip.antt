-- ===== src/Protocol/Reply/RoundTrip.antt =====
-- What `write_ret` sends is what the host side reads into its URB, however the stream is cut.
use usbip_python.Base.{
  ℕ, zero, suc, ◌≤◌, ◌≡◌, refl, sym, ap, ◌∙◌, arith, false, ◌&&◌, [], ◌∷◌, ◌++◌, none, some, ℤ, pos,
  negsuc, is_pos, to_nat, ◌==◌, if◌then◌else◌, length, Bool-cases, Option-cases, inl, inr,
  append_assoc, length-take, ==→eq,
}
use usbip_python.Struct.{Bytes}
use usbip_python.Core.{dir_in}
use usbip_python.Core.Urb.{Urb}
use usbip_python.Protocol.{ret_submit}
use usbip_python.Protocol.Socket.{Socket, IsOpen, stream}
use usbip_python.Protocol.Socket.Segments.{recvall-some}
use usbip_python.Protocol.RetHeader.{RetHeader, pack_ret, parse_ret-pack_ret}
use usbip_python.Protocol.Io.{ok}
use usbip_python.Protocol.Command.RoundTrip.{Returns}
use usbip_python.Protocol.Reply.{ret_header, reply_data, write_ret, read_data, read_reply}

pub read_data_lem :
    (u : Urb) (actual : ℤ) (payload rest : Bytes) (s : Socket)
    → IsOpen s
    → stream s ≡ payload ++ rest
    → length payload ≡ (if u.direction == dir_in && is_pos actual then to_nat actual else 0)
    → Returns (read_data u actual) (some payload) s rest
unfolding read_data
read_data_lem u actual payload rest s o e size =
    elim (Bool-cases (u.direction == dir_in && is_pos actual)) [
      | inl t ↦
          let (s', got, left, o', _) = recvall-some payload rest s o e in
          let n : to_nat actual ≡ length payload = sym (size ∙ rw t refl) in
          (s', rw (t, n, got) refl, left, o')
      | inr f ↦ nothing payload (size ∙ rw f refl) e f
    ]
  where
    nothing :
        (payload : Bytes)
        → length payload ≡ 0
        → stream s ≡ payload ++ rest
        → (u.direction == dir_in && is_pos actual) ≡ false
        → Returns (read_data u actual) (some payload) s rest
    nothing [] z e f = (s, rw f refl, e, o)
    nothing (b ∷ bs) z e f = absurd (omega arith)

-- The buffer holds the IN data that the reply announces.
abbrev pub HasData : Urb → Type 0
HasData r = (n : ℕ) → r.direction ≡ dir_in → r.actual ≡ pos n → n ≤ length r.buffer

pub length-reply_data :
    (r : Urb)
    → HasData r
    → length (reply_data r r.actual)
      ≡ (if r.direction == dir_in && is_pos r.actual then to_nat r.actual else 0)
length-reply_data r has = cases r.actual refl
  where
    cases :
        (z : ℤ)
        → r.actual ≡ z
        → length (reply_data r z) ≡ (if r.direction == dir_in && is_pos z then to_nat z else 0)
    cases (pos zero) e = ground arith
    cases (pos (suc n)) e = elim (Bool-cases (r.direction == dir_in)) [
      | inl t ↦
          rw t (
            omega (arith, length-take (suc n) r.buffer, has (suc n) (==→eq r.direction dir_in t) e))
      | inr f ↦ rw f refl
    ]
    cases (negsuc n) e = ground arith

abbrev plain_header : Urb → RetHeader
plain_header r = ret_header ret_submit r r.status r.actual (pos 0)

write_ret-sent :
    (r : Urb) (c c' : Socket)
    → r.iso_packets ≡ none
    → c.sent ≡ []
    → write_ret r c ≡ (ok tt, c')
    → (hdr : Bytes) × (pack_ret (plain_header r) ≡ some hdr)
      × (c'.sent ≡ hdr ++ reply_data r r.actual)
unfolding write_ret
write_ret-sent r c c' plain z e = elim (Option-cases (pack_ret (plain_header r))) [
  | inl f ↦ ground arith
  | inr (hdr, f) ↦ (hdr, f, ground arith)
]

-- The URB of the host side with the result of a reply.
abbrev pub finished : Urb → Urb → Urb
finished u r = record u { status = r.status; actual = r.actual; buffer = reply_data r r.actual }

read_reply_parts :
    (u r : Urb) (hdr rest : Bytes) (s : Socket)
    → u.direction ≡ r.direction
    → HasData r
    → pack_ret (plain_header r) ≡ some hdr
    → IsOpen s
    → stream s ≡ hdr ++ (reply_data r r.actual ++ rest)
    → Returns (read_reply u) (finished u r) s rest
unfolding read_reply
read_reply_parts u r hdr rest s dir has packed o e =
    let (size, parsed) = parse_ret-pack_ret (plain_header r) hdr packed in
    let payload = reply_data r r.actual in
    let (s1, got, left1, o1, _) = recvall-some hdr (payload ++ rest) s o e in
    let (s2, data_got, left2, o2) = read_data_lem u r.actual payload rest s1 o1 left1 (
      length-reply_data r has
      ∙ ap (λ (d : ℕ). if d == dir_in && is_pos r.actual then to_nat r.actual else 0) (sym dir)) in
    (s2, rw (← size, got, parsed, data_got) refl, left2, o2)

-- A reply without isochronous packets whose buffer holds the IN data that it announces: what
-- `write_ret` has sent gives the host side's URB of the same direction the reply's status, its
-- actual length and its data, whatever else follows in the stream and however it is cut.
pub read_reply-write_ret :
    (u r : Urb) (w w' s : Socket) (rest : Bytes)
    → u.direction ≡ r.direction
    → r.iso_packets ≡ none
    → HasData r
    → w.sent ≡ []
    → write_ret r w ≡ (ok tt, w')
    → IsOpen s
    → stream s ≡ w'.sent ++ rest
    → Returns (read_reply u) (finished u r) s rest
read_reply-write_ret u r w w' s rest dir plain has z writes o e =
    let (hdr, packed, sent) = write_ret-sent r w w' plain z writes in
    read_reply_parts u r hdr rest s dir has packed o
      (e ∙ ap (λ (t : Bytes). t ++ rest) sent ∙ append_assoc hdr (reply_data r r.actual) rest)
