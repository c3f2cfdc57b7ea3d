-- ===== src/Device/Transfer.antt =====
-- usbip/device.py: `handle_urb`, with the server's `respond`, and the cancelling of a URB.
-- `now` is the reading of the monotonic clock, in microseconds.
pub mod Laws
pub mod Halt
pub mod Data
pub mod Cancel
use usbip_python.Base.{
  ℕ, zero, suc, ◌+◌, ◌-◌, ◌*◌, ◌^◌, max, Bool, true, false, ◌&&◌, List, [], ◌∷◌, ◌++◌, map, Option,
  none, some, length, take, drop, ltb, ◌==◌, if◌then◌else◌, ℤ, pos, negsuc, join,
}
use usbip_python.Struct.{Bytes}
use usbip_python.Core.{dir_in, dir_out}
use usbip_python.Core.Urb.{Urb, IsoPacket}
use usbip_python.Endpoint.{
  Endpoint, XferType, iso, control, bulk, interrupt, take_or_park, put_out, cancel, stall_status,
}
use usbip_python.Device.EpMap.{Key, EpMap, lookup, insert}
use usbip_python.Device.State.{State, Profile, Answer, reply, stalls, crash, finish}
use usbip_python.Device.Control.{handle_control}

-- The URB to respond to now; a URB that is parked or waits for the pacer; an uncaught exception.
pub data Handled : Type 0 where
  answered : Urb → Handled
  parks crashes : Handled

abbrev pub or_crash : Option Urb → Handled
or_crash none = crashes
or_crash (some u) = answered u

abbrev pub is_iso_type : XferType → Bool
is_iso_type iso = true
is_iso_type _ = false

-- pkt[2], pkt[3] = len(ch), 0, where `ch` is the packet's chunk, or empty.
unfoldable pub fill : List IsoPacket → List Bytes → List IsoPacket
fill [] chunks = []
fill (p ∷ ps) [] = record p { actual_length = 0; status = 0 } ∷ fill ps []
fill (p ∷ ps) (c ∷ cs) = record p { actual_length = length c; status = 0 } ∷ fill ps cs

unfoldable pub gathered : List IsoPacket → List Bytes → Bytes
gathered [] chunks = []
gathered (p ∷ ps) [] = []
gathered (p ∷ ps) (c ∷ cs) = c ++ gathered ps cs

abbrev requested_lengths : List IsoPacket → List ℕ
requested_lengths [] = []
requested_lengths (p ∷ ps) = p.length ∷ requested_lengths ps

abbrev iso_slices : Bytes → List IsoPacket → List Bytes
iso_slices buffer [] = []
iso_slices buffer (p ∷ ps) = take p.length (drop p.offset buffer) ∷ iso_slices buffer ps

-- pkt[2], pkt[3] = pkt[1], 0
abbrev pub accepted : IsoPacket → IsoPacket
accepted p = record p { actual_length = p.length; status = 0 }

-- The service interval of an endpoint in microseconds.
unfoldable pub frame : Bool → Endpoint → ℕ
frame high_speed e =
    let bint = if e.interval == 0 then 1 else e.interval in
    if high_speed then 125 * 2 ^ (bint - 1) else bint * 1000

-- _iso_deadline: the endpoint's clock goes on from now at the earliest.
unfoldable pub advance : Bool → ℕ → ℕ → Endpoint → Endpoint
unfolding frame
advance high_speed now npkts e = record e {
  iso_deadline = max now e.iso_deadline + frame high_speed e * npkts;
}

abbrev urb_key : Urb → Key
urb_key u = (u.ep, u.direction)

-- urb.length or ep.mps
abbrev asked : Urb → Endpoint → ℤ
asked u e = elim u.length [ pos n ↦ (if n == 0 then pos e.mps else pos n) | negsuc n ↦ negsuc n ]

without_seqnum : ℕ → List (ℕ × Urb) → List (ℕ × Urb)
without_seqnum seqnum [] = []
without_seqnum seqnum ((d, u) ∷ q) =
    let rest = without_seqnum seqnum q in if u.seqnum == seqnum then rest else (d, u) ∷ rest

-- The first endpoint, in the order of the dict, that had the URB parked drops it.
cancel_first : ℕ → EpMap → EpMap
cancel_first seqnum [] = []
cancel_first seqnum ((k, e) ∷ m) =
    let (e', found) = cancel e seqnum in
    let rest = (k, e) ∷ cancel_first seqnum m in if found then (k, e') ∷ m else rest

module _ {W : Type 0} where
  -- An isochronous completion: at once, or at its deadline by the pacer.
  unfoldable pub iso_done : Profile W → ℕ → ℕ → Key → Urb → State W → Handled × State W
  unfolding advance
  iso_done p now npkts key urb s =
      if p.iso_paced
      then (elim (lookup key s.ep_map) as (λ _. Handled × State W) [
        | none ↦ (crashes, s)
        | some e ↦
            (let e' = advance p.high_speed now npkts e in
              (
                parks,
                record s {
                  ep_map = insert key e' s.ep_map;
                  pace_q = s.pace_q ++ ((e'.iso_deadline, urb) ∷ []);
                },
              ))
      ])
      else (answered urb, s)

  iso_chunks :
      Option (List ℕ → State W → List Bytes × State W) → List ℕ → State W → List Bytes × State W
  iso_chunks none lengths s = ([], s)
  iso_chunks (some f) lengths s = f lengths s

  unfoldable pub handle_iso_in : Profile W → ℕ → Urb → List IsoPacket → State W → Handled × State W
  unfolding iso_chunks iso_done
  handle_iso_in p now urb pkts s =
      let (chunks, s') = iso_chunks (p.on_iso_in (urb_key urb)) (requested_lengths pkts) s in
      let buf = gathered pkts chunks in
      iso_done p now (length pkts) (urb_key urb)
        (record urb {
          iso_packets = some (fill pkts chunks);
          buffer = buf;
          actual = pos (length buf);
          status = pos 0;
        })
        s'

  iso_consume : Option (List Bytes → State W → State W) → List Bytes → State W → State W
  iso_consume none packets s = s
  iso_consume (some f) packets s = f packets s

  unfoldable pub handle_iso_out : Profile W → ℕ → Urb → List IsoPacket → State W → Handled × State W
  unfolding iso_consume iso_done
  handle_iso_out p now urb pkts s =
      iso_done p now (length pkts) (urb_key urb)
        (record urb { iso_packets = some (map accepted pkts); actual = pos 0; status = pos 0 })
        (iso_consume (p.on_iso_out (urb_key urb)) (iso_slices urb.buffer pkts) s)

  in_taken : Urb → State W → Endpoint × Option Bytes → Handled × State W
  in_taken urb s (e, none) = (parks, record s { ep_map = insert (urb_key urb) e s.ep_map })
  in_taken urb s (e, some chunk) =
      (answered (finish urb chunk (pos 0)), record s { ep_map = insert (urb_key urb) e s.ep_map })

  -- Queued data at once, else the URB is parked.
  unfoldable pub handle_in : Urb → Endpoint → State W → Handled × State W
  unfolding in_taken
  handle_in urb e s = in_taken urb s (take_or_park e (asked urb e) urb urb.seqnum)

  out_answer : Urb → Answer × State W → Handled × State W
  out_answer urb (reply bs, s) =
      (answered (record urb { actual = pos (length urb.buffer); status = pos 0 }), s)
  out_answer urb (stalls, s) = (answered (record urb { status = stall_status }), s)
  out_answer urb (crash, s) = (crashes, s)

  -- The endpoint's hook consumes the data; without one it is queued for `read`.
  unfoldable pub handle_out : Profile W → Urb → Endpoint → State W → Handled × State W
  unfolding out_answer
  handle_out p urb e s = out_answer urb (elim (p.on_out (urb_key urb)) as (λ _. Answer × State W) [
    | some f ↦ f urb.buffer s
    | none ↦ (reply [], record s { ep_map = insert (urb_key urb) (put_out e urb.buffer) s.ep_map })
  ])

  plain : Profile W → Urb → Endpoint → State W → Handled × State W
  unfolding handle_in handle_out
  plain p urb e s = if urb.direction == dir_in then handle_in urb e s else handle_out p urb e s

  -- Isochronous endpoints, for a URB that has packet descriptors.
  on_endpoint :
      Profile W → ℕ → Urb → Endpoint → Option (List IsoPacket) → State W → Handled × State W
  unfolding plain handle_iso_in handle_iso_out
  on_endpoint p now urb e none s = plain p urb e s
  on_endpoint p now urb e (some pkts) s =
      if is_iso_type e.type && urb.direction == dir_in
      then handle_iso_in p now urb pkts s
      else if is_iso_type e.type && urb.direction == dir_out
      then handle_iso_out p now urb pkts s
      else plain p urb e s

  data_urb : Profile W → ℕ → Urb → Option Endpoint → State W → Handled × State W
  unfolding on_endpoint
  data_urb p now urb none s = (answered (record urb { status = negsuc 18 }), s)
  data_urb p now urb (some e) s =
      if e.halted
      then (answered (record urb { buffer = []; actual = pos 0; status = stall_status }), s)
      else on_endpoint p now urb e urb.iso_packets s

  -- handle_urb(urb, respond)
  unfoldable pub handle_urb : Profile W → ℕ → Urb → State W → Handled × State W
  unfolding data_urb
  handle_urb p now urb s =
      if urb.ep == 0
      then (let (u, s') = handle_control p urb s in (or_crash u, s'))
      else data_urb p now urb (lookup (urb_key urb) s.ep_map) s

  -- cancel_urb(seqnum)
  unfoldable pub cancel_urb : ℕ → State W → State W
  unfolding without_seqnum cancel_first
  cancel_urb seqnum s = record s {
    pace_q = without_seqnum seqnum s.pace_q;
    ep_map = cancel_first seqnum s.ep_map;
  }
