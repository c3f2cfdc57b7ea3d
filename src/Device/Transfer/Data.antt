-- ===== src/Device/Transfer/Data.antt =====
-- usbip/device.py, `handle_urb`: URBs without isochronous packets for the endpoints other than 0.
use usbip_python.Base.{
  ℕ, zero, suc, ◌≤◌, ◌≡◌, ◌≢◌, ◌⊎◌, inl, inr, refl, sym, ap, ◌∙◌, arith, true, false, min, List, [],
  ◌∷◌, ◌++◌, Option, none, some, ℤ, pos, negsuc, join, length, ◌==◌, if◌then◌else◌, Bool-cases,
  length-take,
}
use usbip_python.Struct.{Bytes}
use usbip_python.Core.{dir_in}
use usbip_python.Core.Urb.{Urb, IsoPacket}
use usbip_python.Endpoint.{Endpoint, pop_locked, take_front, take_or_park, put_out, stall_status}
use usbip_python.Endpoint.Drain.{pop_locked-join}
use usbip_python.Device.EpMap.{Key, same, lookup, insert, lookup-insert}
use usbip_python.Device.State.{State, Profile, Answer, reply, stalls, crash}
use usbip_python.Device.Transfer.{
  Handled, answered, parks, crashes, asked, in_taken, handle_in, out_answer, handle_out, plain,
  on_endpoint, data_urb, handle_urb,
}

-- As many bytes as the request asks for, or as the endpoint's packets have if it asks for none.
abbrev pub Limit : Urb → Endpoint → ℕ → Type 0
Limit u e n = (1 ≤ n) × ((u.length ≡ pos n) ⊎ ((u.length ≡ pos 0) × (e.mps ≡ n)))

abbrev pub key_of : Urb → Key
key_of u = (u.ep, u.direction)

module _ {W : Type 0} where
  -- One endpoint is another, and nothing else has changed.
  abbrev pub Only : Key → Endpoint → State W → State W → Type 0
  Only k e s s' =
      ((j : Key) → lookup j s'.ep_map ≡ (if same k j then some e else lookup j s.ep_map))
      × (s' ≡ record s { ep_map = s'.ep_map })

  -- The endpoint of the URB, which is not halted.
  abbrev pub Runs : Urb → State W → Endpoint → Type 0
  Runs u s e = (lookup (key_of u) s.ep_map ≡ some e) × (e.halted ≡ false)

  -- What becomes of a data URB, and what it leaves.
  pub data Transferred (p : Profile W) (u : Urb) (s : State W) : Handled → State W → Type 0 where
    unknown :
        lookup (key_of u) s.ep_map ≡ none
        → Transferred p u s (answered (record u { status = negsuc 18 })) s
    halted :
        (e : Endpoint)
        → lookup (key_of u) s.ep_map ≡ some e
        → e.halted ≡ true
        → Transferred p u s
            (answered (record u { buffer = []; actual = pos 0; status = stall_status }))
            s
    waits :
        (e : Endpoint) (n : ℤ) (s' : State W)
        → Runs u s e
        → u.direction ≡ dir_in
        → e.q ≡ []
        → ((k : ℕ) → Limit u e k → n ≡ pos k)
        → Only
            (key_of u)
            (record e {
              pending = e.pending ++ (record { length = n; complete = u; seqnum = u.seqnum } ∷ []);
            })
            s
            s'
        → Transferred p u s parks s'
    given :
        (e : Endpoint) (chunk part : Bytes) (rest q : List Bytes) (s' : State W)
        → Runs u s e
        → u.direction ≡ dir_in
        → e.q ≡ chunk ∷ rest
        → part ++ join q ≡ join e.q
        → ((n : ℕ) → Limit u e n → length part ≡ min n (length chunk))
        → Only (key_of u) (record e { q = q }) s s'
        → Transferred p u s
            (answered (record u { buffer = part; actual = pos (length part); status = pos 0 }))
            s'
    queued :
        (e : Endpoint) (s' : State W)
        → Runs u s e
        → u.direction ≢ dir_in
        → p.on_out (key_of u) ≡ none
        → Only (key_of u) (record e { q = e.q ++ (u.buffer ∷ []) }) s s'
        → Transferred p u s
            (answered (record u { actual = pos (length u.buffer); status = pos 0 }))
            s'
    consumed :
        (e : Endpoint) (f : Bytes → State W → Answer × State W) (bs : Bytes) (s' : State W)
        → Runs u s e
        → u.direction ≢ dir_in
        → p.on_out (key_of u) ≡ some f
        → f u.buffer s ≡ (reply bs, s')
        → Transferred p u s
            (answered (record u { actual = pos (length u.buffer); status = pos 0 }))
            s'
    refused :
        (e : Endpoint) (f : Bytes → State W → Answer × State W) (s' : State W)
        → Runs u s e
        → u.direction ≢ dir_in
        → p.on_out (key_of u) ≡ some f
        → f u.buffer s ≡ (stalls, s')
        → Transferred p u s (answered (record u { status = stall_status })) s'
    raised :
        (e : Endpoint) (f : Bytes → State W → Answer × State W) (s' : State W)
        → Runs u s e
        → u.direction ≢ dir_in
        → p.on_out (key_of u) ≡ some f
        → f u.buffer s ≡ (crash, s')
        → Transferred p u s crashes s'

  Only-insert :
      (k : Key) (e : Endpoint) (s : State W)
      → Only k e s (record s { ep_map = insert k e s.ep_map })
  Only-insert k e s = (λ j. lookup-insert k j e s.ep_map, refl)

asked-Limit : (u : Urb) (e : Endpoint) (n : ℕ) → Limit u e n → asked u e ≡ pos n
asked-Limit u e n (l, inl h) = rw h (ground arith)
asked-Limit u e n (l, inr (h, m)) = rw h (ap pos m)

length-pop_locked :
    (n : ℕ) (z : ℤ) (chunk : Bytes) (rest : List Bytes)
    → z ≡ pos n
    → 1 ≤ n
    → length (pop_locked z chunk rest).0 ≡ min n (length chunk)
unfolding pop_locked
length-pop_locked zero z chunk rest h l = absurd (omega arith)
length-pop_locked (suc n) z chunk rest h l = rw h (ground (arith, length-take (suc n) chunk))

module _ {W : Type 0} (p : Profile W) (now : ℕ) (u : Urb) (s : State W) where
  abbrev Good : Handled × State W → Type 0
  Good (h, s') = Transferred p u s h s'

  taken-Good :
      (e : Endpoint) (q : List Bytes)
      → Runs u s e
      → u.direction ≡ dir_in
      → e.q ≡ q
      → Good (in_taken u s (take_front e q (asked u e) u u.seqnum))
  unfolding take_front in_taken
  taken-Good e [] r d h =
      waits e (asked u e) _ r d h (λ k l. asked-Limit u e k l) (Only-insert (key_of u) _ s)
  taken-Good e (chunk ∷ rest) r d h =
      let popped = pop_locked (asked u e) chunk rest in
      given e chunk popped.0 rest popped.1 _ r d h
        (pop_locked-join (asked u e) chunk rest ∙ ap join (sym h))
        (λ n l. length-pop_locked n (asked u e) chunk rest (asked-Limit u e n l) l.0)
        (Only-insert (key_of u) _ s)

  out_answer-Good :
      (e : Endpoint) (f : Bytes → State W → Answer × State W) (t : Answer × State W)
      → Runs u s e
      → u.direction ≢ dir_in
      → p.on_out (key_of u) ≡ some f
      → f u.buffer s ≡ t
      → Good (out_answer u t)
  unfolding out_answer
  out_answer-Good e f (reply bs, s') r d h q = consumed e f bs s' r d h q
  out_answer-Good e f (stalls, s') r d h q = refused e f s' r d h q
  out_answer-Good e f (crash, s') r d h q = raised e f s' r d h q

  handle_out-Good : (e : Endpoint) → Runs u s e → u.direction ≢ dir_in → Good (handle_out p u e s)
  unfolding handle_out out_answer put_out
  handle_out-Good e r d = hooked (p.on_out (key_of u)) refl
    where
      hooked :
          (o : Option (Bytes → State W → Answer × State W))
          → p.on_out (key_of u) ≡ o
          → Good (handle_out p u e s)
      hooked none h =
          rw h
            (queued e _ r d h (Only-insert (key_of u) (record e { q = e.q ++ (u.buffer ∷ []) }) s))
      hooked (some f) h = rw h (out_answer-Good e f (f u.buffer s) r d h refl)

  plain-Good : (e : Endpoint) → Runs u s e → Good (plain p u e s)
  unfolding plain handle_in take_or_park
  plain-Good e r = elim (Bool-cases (u.direction == dir_in)) [
    | inl t ↦ rw t (taken-Good e e.q r (ground arith) refl)
    | inr f ↦ rw f (handle_out-Good e r (λ d. absurd (ground arith)))
  ]

  on_endpoint-Good :
      (e : Endpoint) (o : Option (List IsoPacket))
      → o ≡ none
      → Runs u s e
      → Good (on_endpoint p now u e o s)
  unfolding on_endpoint
  on_endpoint-Good e none h r = plain-Good e r
  on_endpoint-Good e (some pkts) h r = absurd (some_none h)
    where
      some_none : some pkts ≡ none → ⊥
      some_none q = cc

  data_urb-Good :
      (o : Option Endpoint)
      → u.iso_packets ≡ none
      → lookup (key_of u) s.ep_map ≡ o
      → Good (data_urb p now u o s)
  unfolding data_urb
  data_urb-Good none plain_urb h = unknown h
  data_urb-Good (some e) plain_urb h = elim (Bool-cases e.halted) [
    | inl t ↦ rw t (halted e h t)
    | inr f ↦ simp f (on_endpoint-Good e u.iso_packets plain_urb (h, f))
  ]

  -- A URB without isochronous packets for an endpoint other than 0. There is no such endpoint: it is
  -- answered with the status -19. The endpoint is halted: with a stall and no data. IN, with data
  -- queued: with status 0 and the first bytes of the queue, as many of the front chunk as the URB asks
  -- for, or as a packet of the endpoint has if it asks for none, when that is a positive number; the
  -- queue keeps the rest. IN, with none: it is parked behind those that wait, with that number as its
  -- length, its URB and its sequence number. OUT: the hook of the endpoint gets the data, and the URB
  -- is answered with its length, with a stall, or the hook raises, as the hook says; without a hook
  -- the data is queued and the URB answered with its length. Nothing else of the device changes, but
  -- for what the hook does.
  pub handle_urb-Transferred :
      u.ep ≢ 0
      → u.iso_packets ≡ none
      → Transferred p u s (handle_urb p now u s).0 (handle_urb p now u s).1
  unfolding handle_urb
  handle_urb-Transferred nonzero plain_urb = elim (Bool-cases (u.ep == 0)) [
    | inl t ↦ absurd (nonzero (ground arith))
    | inr f ↦ rw f (data_urb-Good (lookup (key_of u) s.ep_map) plain_urb refl)
  ]
