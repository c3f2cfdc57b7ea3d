-- ===== src/Endpoint.antt =====
-- usbip/device.py, classes _EPSpec and Endpoint: a byte pipe between the device's program and the
-- URB handler. Each method runs under the endpoint's lock, so it is one step; the callbacks that it
-- makes after the lock is released are the list of completions that it returns. A wait that times
-- out is the empty queue, and waking a waiter changes no state.
pub mod Drain
pub mod Cancel
pub mod Run
use Prim.Native.Nat.{bit_and, bit_or}
use usbip_python.Base.{
  ℕ, zero, suc, Bool, true, false, ◌&&◌, not, List, [], ◌∷◌, ◌++◌, Option, none, some, map, ℤ, pos,
  negsuc, gtz, slice_to, slice_from, ◌==◌, if◌then◌else◌, length, ◌>>=◌,
}
use usbip_python.Struct.{Bytes}
use usbip_python.Core.{dir_in, dir_out}
use usbip_python.Core.Urb.{Urb}

pub data XferType : Type 0 where
  control iso bulk interrupt : XferType

pub record EpSpec : Type 0 where
  pub addr : ℕ
  pub type : XferType
  pub mps : ℕ
  pub interval : ℕ

-- In(addr, ...)
unfoldable pub in_spec : ℕ → XferType → ℕ → ℕ → EpSpec
in_spec addr type mps interval = record {
  addr = bit_or addr 0x80;
  type = type;
  mps = mps;
  interval = interval;
}

-- Out(addr, ...)
unfoldable pub out_spec : ℕ → XferType → ℕ → ℕ → EpSpec
out_spec addr type mps interval = record {
  addr = bit_and addr 0x7F;
  type = type;
  mps = mps;
  interval = interval;
}

-- An entry of `_pending`. `complete` is the URB that the completion callback captures.
pub record Parked : Type 0 where
  pub length : ℤ
  pub complete : Urb
  pub seqnum : ℕ

-- A callback made after the lock is released: the entry, the data and the status.
pub record Completion : Type 0 where
  pub entry : Parked
  pub chunk : Bytes
  pub status : ℤ

pub record Endpoint : Type 0 where
  pub addr : ℕ
  pub number : ℕ
  pub dir : ℕ
  pub type : XferType
  pub mps : ℕ
  pub interval : ℕ
  pub halted : Bool
  pub q : List Bytes
  pub pending : List Parked
  -- Microseconds of the monotonic clock.
  pub iso_deadline : ℕ

-- -EPIPE
abbrev pub stall_status : ℤ
stall_status = negsuc 31

-- Endpoint(spec)
unfoldable pub new : EpSpec → Endpoint
new s = record {
  addr = s.addr;
  number = bit_and s.addr 0x0F;
  dir = if bit_and s.addr 0x80 == 0 then dir_out else dir_in;
  type = s.type;
  mps = s.mps;
  interval = s.interval;
  halted = false;
  q = [];
  pending = [];
  iso_deadline = 0;
}

abbrev nonzero : ℤ → Bool
nonzero (pos zero) = false
nonzero z = true

-- _pop_locked, on a queue whose front is `chunk`: the data, and the queue left.
unfoldable pub pop_locked : ℤ → Bytes → List Bytes → Bytes × List Bytes
pop_locked n chunk rest =
    if nonzero n && gtz (length chunk) n
    then (slice_to n chunk, slice_from n chunk ∷ rest)
    else (chunk, rest)

-- The loop of `write`: while there are parked URBs and queued data.
unfoldable pub drain : List Parked → List Bytes → List Completion × List Parked × List Bytes
drain [] q = ([], [], q)
drain (p ∷ ps) [] = ([], p ∷ ps, [])
drain (p ∷ ps) (chunk ∷ rest) =
    let popped = pop_locked p.length chunk rest in
    let (done, ps', q') = drain ps popped.1 in
    (record { entry = p; chunk = popped.0; status = pos 0 } ∷ done, ps', q')

-- write(data)
unfoldable pub write : Endpoint → Bytes → Endpoint × List Completion
unfolding drain pop_locked
write e chunk =
    let (done, ps, q) = drain e.pending (e.q ++ (chunk ∷ [])) in
    (record e { q = q; pending = ps }, done)

read_front : Endpoint → List Bytes → Endpoint × Bytes
read_front e [] = (e, [])
read_front e (chunk ∷ rest) = (record e { q = rest }, chunk)

-- read(timeout): the empty bytes when the wait times out.
unfoldable pub read : Endpoint → Endpoint × Bytes
unfolding read_front
read e = read_front e e.q

unfoldable pub take_front : Endpoint → List Bytes → ℤ → Urb → ℕ → Endpoint × Option Bytes
unfolding pop_locked
take_front e [] n urb seqnum = (
  record e { pending = e.pending ++ (record { length = n; complete = urb; seqnum = seqnum } ∷ []) },
  none,
)
take_front e (chunk ∷ rest) n urb seqnum =
    let popped = pop_locked n chunk rest in (record e { q = popped.1 }, some popped.0)

-- take_or_park(length, complete, seqnum)
unfoldable pub take_or_park : Endpoint → ℤ → Urb → ℕ → Endpoint × Option Bytes
unfolding take_front
take_or_park e n urb seqnum = take_front e e.q n urb seqnum

-- Without the first entry that has the number, if there is one.
unfoldable pub without : ℕ → List Parked → Option (List Parked)
without s [] = none
without s (p ∷ ps) =
    let rest = (without s ps >>= λ r. some (p ∷ r)) in if p.seqnum == s then some ps else rest

-- cancel(seqnum)
unfoldable pub cancel : Endpoint → ℕ → Endpoint × Bool
unfolding without
cancel e seqnum = elim (without seqnum e.pending) [
  | none ↦ (e, false)
  | some ps ↦ (record e { pending = ps }, true)
]

take_in_front : Endpoint → List Bytes → ℤ → Endpoint × Bytes
unfolding pop_locked
take_in_front e [] n = (e, [])
take_in_front e (chunk ∷ rest) n =
    let popped = pop_locked n chunk rest in (record e { q = popped.1 }, popped.0)

-- _take_in(length, timeout)
unfoldable pub take_in : Endpoint → ℤ → Endpoint × Bytes
unfolding take_in_front
take_in e n = take_in_front e e.q n

-- _put_out(data)
unfoldable pub put_out : Endpoint → Bytes → Endpoint
put_out e chunk = record e { q = e.q ++ (chunk ∷ []) }

abbrev pub stalled : Parked → Completion
stalled p = record { entry = p; chunk = []; status = stall_status }

unfoldable pub stall : Endpoint → Endpoint × List Completion
stall e = (record e { halted = true; pending = [] }, map stalled e.pending)

unfoldable pub clear_halt : Endpoint → Endpoint
clear_halt e = record e { halted = false }

unfoldable pub reset : Endpoint → Endpoint
reset e = record e { q = []; pending = []; halted = false }
