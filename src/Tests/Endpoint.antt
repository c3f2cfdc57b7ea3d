-- ===== src/Tests/Endpoint.antt =====
-- usbip/device.py, Endpoint: runs, and the theorems at concrete endpoints.
use usbip_python.Base.{
  ℕ, ◌-◌, ◌≡◌, ◌⊎◌, refl, true, false, List, [], ◌∷◌, ◌++◌, none, pos, join, All, ◌==◌,
  if◌then◌else◌, replicate,
}
use usbip_python.Core.{dir_in}
use usbip_python.Core.Urb.{Urb}
use usbip_python.Endpoint.{
  Endpoint, Parked, bulk, clear_halt, in_spec, new, write, take_or_park, cancel, stall,
}
use usbip_python.Endpoint.Drain.{chunks, entries, Served, write_lem}
use usbip_python.Endpoint.Cancel.{count, seqs, cancel_lem}
use usbip_python.Endpoint.Run.{
  Op, writes, submits, unlinks, stalls, clears, Accounts, run, step, start, run-Accounts,
}

abbrev pub bulk_in : Endpoint
bulk_in = record {
  addr = 0x81;
  number = 1;
  dir = dir_in;
  type = bulk;
  mps = 64;
  interval = 0;
  halted = false;
  q = [];
  pending = [];
  iso_deadline = 0;
}

new_run : new (in_spec 0x81 bulk 64 0) ≡ bulk_in
unfolding new in_spec
new_run = refl

abbrev pub in_urb : ℕ → Urb
in_urb s = record {
  command = 1;
  seqnum = s;
  devid = 0x10002;
  direction = dir_in;
  ep = 1;
  flags = 0;
  length = pos 2;
  interval = pos 0;
  setup = replicate 8 0;
  buffer = [];
  status = pos 0;
  actual = pos 0;
  number_of_packets = pos 0;
  iso_packets = none;
}

abbrev parked : ℕ → Parked
parked s = record { length = pos 2; complete = in_urb s; seqnum = s }

abbrev pub two_parked : Endpoint
two_parked = record bulk_in { pending = parked 7 ∷ parked 8 ∷ [] }

-- Three bytes complete two URBs of two bytes each, in order.
write_run : chunks (write two_parked (1 ∷ 2 ∷ 3 ∷ [])).1 ≡ (1 ∷ 2 ∷ []) ∷ (3 ∷ []) ∷ []
unfolding write
write_run = refl

write_lem_example :
    (join (chunks (write two_parked (1 ∷ 2 ∷ 3 ∷ [])).1)
        ++ join (write two_parked (1 ∷ 2 ∷ 3 ∷ [])).0.q
      ≡ 1 ∷ 2 ∷ 3 ∷ [])
    × (entries (write two_parked (1 ∷ 2 ∷ 3 ∷ [])).1
          ++ (write two_parked (1 ∷ 2 ∷ 3 ∷ [])).0.pending
        ≡ parked 7 ∷ parked 8 ∷ [])
    × (((write two_parked (1 ∷ 2 ∷ 3 ∷ [])).0.pending ≡ [])
        ⊎ ((write two_parked (1 ∷ 2 ∷ 3 ∷ [])).0.q ≡ []))
    × All Served (write two_parked (1 ∷ 2 ∷ 3 ∷ [])).1
write_lem_example = write_lem two_parked (1 ∷ 2 ∷ 3 ∷ [])

cancel_lem_example :
    ((cancel two_parked 8).1 ≡ true)
    × ((j : ℕ)
        → count j (seqs (cancel two_parked 8).0.pending)
          ≡ count j (7 ∷ 8 ∷ []) - (if 8 == j then 1 else 0))
    × ((cancel two_parked 8).0.q ≡ [])
cancel_lem_example = cancel_lem two_parked 8

abbrev script : List Op
script =
    submits (pos 2) (in_urb 7) 7
    ∷ submits (pos 2) (in_urb 8) 8
    ∷ unlinks 7
    ∷ writes (1 ∷ 2 ∷ 3 ∷ [])
    ∷ stalls
    ∷ submits (pos 2) (in_urb 9) 9
    ∷ clears
    ∷ submits (pos 2) (in_urb 10) 10
    ∷ []

-- The unlinked URB gets nothing, and the byte that waits out the stall is delivered after it.
replay_run : (run (start bulk_in) script).h.answered ≡ 8 ∷ 9 ∷ 10 ∷ []
unfolding run step write take_or_park cancel stall clear_halt
replay_run = refl

run-Accounts_example : Accounts (run (start bulk_in) script)
run-Accounts_example = run-Accounts bulk_in script refl refl
