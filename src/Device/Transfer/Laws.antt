-- ===== src/Device/Transfer/Laws.antt =====
-- Every answer of `handle_urb` belongs to the request that it was given.
use usbip_python.Base.{
  ℕ, ◌≡◌, inl, inr, arith, Option, none, some, length, Bool-cases, ◌==◌, List, ◌&&◌,
}
use usbip_python.Struct.{Bytes}
use usbip_python.Core.{dir_in, dir_out}
use usbip_python.Core.Urb.{Urb, IsoPacket}
use usbip_python.Endpoint.{Endpoint, take_or_park}
use usbip_python.Device.EpMap.{Key, lookup}
use usbip_python.Device.State.{State, Profile, Answer, reply, stalls, crash}
use usbip_python.Device.Control.{handle_control}
use usbip_python.Device.Control.Laws.{SameRequest, handle_control-SameRequest}
use usbip_python.Device.Transfer.{
  Handled, answered, or_crash, iso_done, handle_iso_in, handle_iso_out, in_taken, handle_in,
  out_answer, handle_out, plain, on_endpoint, data_urb, handle_urb, is_iso_type, asked,
}

-- What is answered belongs to the request.
abbrev Replies : Urb → Handled → Type 0
Replies u h = (r : Urb) → h ≡ answered r → SameRequest u r

or_crash-Replies :
    (u : Urb) (o : Option Urb) → ((r : Urb) → o ≡ some r → SameRequest u r) → Replies u (or_crash o)
or_crash-Replies u none f = λ r h. cc
or_crash-Replies u (some v) f = λ r h. f r (ground arith)

module _ {W : Type 0} where
  iso_done-Replies :
      (p : Profile W) (now n : ℕ) (k : Key) (u v : Urb) (s : State W)
      → SameRequest u v
      → Replies u (iso_done p now n k v s).0
  unfolding iso_done
  iso_done-Replies p now n k u v s same = λ r h. ground arith

  in_taken-Replies :
      (u : Urb) (s : State W) (t : Endpoint × Option Bytes) → Replies u (in_taken u s t).0
  unfolding in_taken
  in_taken-Replies u s (e, none) = λ r h. cc
  in_taken-Replies u s (e, some chunk) = λ r h. ground arith

  out_answer-Replies : (u : Urb) (t : Answer × State W) → Replies u (out_answer u t).0
  unfolding out_answer
  out_answer-Replies u (reply bs, s) = λ r h. ground arith
  out_answer-Replies u (stalls, s) = λ r h. ground arith
  out_answer-Replies u (crash, s) = λ r h. cc

  plain-Replies :
      (p : Profile W) (u : Urb) (e : Endpoint) (s : State W) → Replies u (plain p u e s).0
  unfolding plain handle_in handle_out
  plain-Replies p u e s = elim (Bool-cases (u.direction == dir_in)) [
    | inl t ↦ rw t (in_taken-Replies u s (take_or_park e (asked u e) u u.seqnum))
    | inr f ↦ rw f (out_answer-Replies u _)
  ]

  on_endpoint-Replies :
      (p : Profile W) (now : ℕ) (u : Urb) (e : Endpoint) (o : Option (List IsoPacket)) (s : State W)
      → Replies u (on_endpoint p now u e o s).0
  unfolding on_endpoint handle_iso_in handle_iso_out
  on_endpoint-Replies p now u e none s = plain-Replies p u e s
  on_endpoint-Replies p now u e (some pkts) s =
      elim (Bool-cases (is_iso_type e.type && u.direction == dir_in)) [
        | inl t ↦ rw t (iso_done-Replies p now (length pkts) _ u _ _ (ground arith))
        | inr f ↦ elim (Bool-cases (is_iso_type e.type && u.direction == dir_out)) [
          | inl t ↦ rw (f, t) (iso_done-Replies p now (length pkts) _ u _ _ (ground arith))
          | inr g ↦ rw (f, g) (plain-Replies p u e s)
        ]
      ]

  data_urb-Replies :
      (p : Profile W) (now : ℕ) (u : Urb) (o : Option Endpoint) (s : State W)
      → Replies u (data_urb p now u o s).0
  unfolding data_urb
  data_urb-Replies p now u none s = λ r h. ground arith
  data_urb-Replies p now u (some e) s = elim (Bool-cases e.halted) [
    | inl t ↦ rw t (λ r h. ground arith)
    | inr f ↦ simp f (on_endpoint-Replies p now u e u.iso_packets s)
  ]

  -- Whatever the handlers and the endpoint do: a URB that `handle_urb` answers keeps the sequence
  -- number, device, direction and endpoint of the request, so the reply on the wire names it.
  pub handle_urb-SameRequest :
      (p : Profile W) (now : ℕ) (u r : Urb) (s : State W)
      → (handle_urb p now u s).0 ≡ answered r
      → SameRequest u r
  unfolding handle_urb
  handle_urb-SameRequest p now u r s = elim (Bool-cases (u.ep == 0)) [
    | inl t ↦ rw t (
        or_crash-Replies u (handle_control p u s).0 (λ v h. handle_control-SameRequest p u v s h) r)
    | inr f ↦ rw f (data_urb-Replies p now u (lookup (u.ep, u.direction) s.ep_map) s r)
  ]
