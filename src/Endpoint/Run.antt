-- ===== src/Endpoint/Run.antt =====
-- Runs of an IN endpoint between two resets: the program writes, stalls and clears a stall, and the
-- host submits and unlinks URBs, in any order.
use usbip_python.Base.{
  ℕ, ◌+◌, ◌-◌, ◌≡◌, refl, sym, ap, ◌∙◌, ◌⊎◌, arith, List, [], ◌∷◌, ◌++◌, ◌==◌, if◌then◌else◌, Bool,
  true, false, Option, none, some, inl, inr, ℤ, join, append_assoc, append-nil, map, Bool-cases,
}
use usbip_python.Struct.{Bytes}
use usbip_python.Core.Urb.{Urb}
use usbip_python.Endpoint.{
  Parked, Completion, Endpoint, write, take_or_park, take_front, cancel, stall, clear_halt, stalled,
  pop_locked,
}
use usbip_python.Endpoint.Drain.{entries, chunks, write_lem, pop_locked-join}
use usbip_python.Endpoint.Cancel.{count, count-append, seqs, seqs-append, cancel_parts}

pub data Op : Type 0 where
  writes : Bytes → Op
  submits : ℤ → Urb → ℕ → Op
  unlinks : ℕ → Op
  stalls clears : Op

-- What has happened: the bytes that the program wrote and those that the host got, and the sequence
-- numbers that were submitted, answered, and unlinked while they were parked.
pub record History : Type 0 where
  pub written : Bytes
  pub delivered : Bytes
  pub submitted : List ℕ
  pub answered : List ℕ
  pub unlinked : List ℕ

pub record Run : Type 0 where
  pub e : Endpoint
  pub h : History

completed : Endpoint × List Completion → Bytes → History → Run
completed (e, done) chunk h = record {
  e = e;
  h = record h {
    written = h.written ++ chunk;
    delivered = h.delivered ++ join (chunks done);
    answered = h.answered ++ seqs (entries done);
  };
}

-- A URB that `take_or_park` answers at once, or parks.
submitted_to : Endpoint × Option Bytes → ℕ → History → Run
submitted_to (e, none) s h = record { e = e; h = h }
submitted_to (e, some chunk) s h = record {
  e = e;
  h = record h { delivered = h.delivered ++ chunk; answered = h.answered ++ (s ∷ []) };
}

unlinked_from : Endpoint × Bool → ℕ → History → Run
unlinked_from (e, true) s h = record { e = e; h = record h { unlinked = h.unlinked ++ (s ∷ []) } }
unlinked_from (e, false) s h = record { e = e; h = h }

-- As `handle_urb` does, a halted endpoint answers with a stall and no data.
unfoldable pub step : Run → Op → Run
unfolding completed submitted_to unlinked_from
step r (writes chunk) = completed (write r.e chunk) chunk r.h
step r (submits n urb s) =
    let h = record r.h { submitted = r.h.submitted ++ (s ∷ []) } in
    if r.e.halted
    then record { e = r.e; h = record h { answered = h.answered ++ (s ∷ []) } }
    else submitted_to (take_or_park r.e n urb s) s h
step r (unlinks s) = unlinked_from (cancel r.e s) s r.h
step r stalls = completed (stall r.e) [] r.h
step r clears = record r { e = clear_halt r.e }

unfoldable pub run : Run → List Op → Run
run r [] = r
run r (op ∷ ops) = run (step r op) ops

abbrev pub start : Endpoint → Run
start e = record {
  e = e;
  h = record { written = []; delivered = []; submitted = []; answered = []; unlinked = [] };
}

-- Nothing is lost, repeated or reordered: the bytes delivered and those queued are the bytes
-- written. Every submitted number is answered, unlinked or parked, as often as it was submitted.
-- No URB waits while data is queued.
pub record Accounts (r : Run) : Type 0 where
  pub stream : r.h.delivered ++ join r.e.q ≡ r.h.written
  pub urbs :
      (s : ℕ)
      → count s r.h.submitted
        ≡ count s r.h.answered + count s r.h.unlinked + count s (seqs r.e.pending)
  pub matched : (r.e.pending ≡ []) ⊎ (r.e.q ≡ [])

writes-Accounts : (r : Run) (chunk : Bytes) → Accounts r → Accounts (step r (writes chunk))
unfolding step completed
writes-Accounts r chunk a =
    let (bytes, parked, ended, served) = write_lem r.e chunk in
    let e' = (write r.e chunk).0 in
    let done = (write r.e chunk).1 in
    record {
      stream =
          append_assoc r.h.delivered (join (chunks done)) (join e'.q)
          ∙ ap (λ (t : Bytes). r.h.delivered ++ t) bytes
          ∙ sym (append_assoc r.h.delivered (join r.e.q) chunk)
          ∙ ap (λ (t : Bytes). t ++ chunk) a.stream;
      urbs = λ s. omega (
        arith,
        a.urbs s,
        count-append s r.h.answered (seqs (entries done)),
        count-append s (seqs (entries done)) (seqs e'.pending),
        ap (count s) (sym (seqs-append (entries done) e'.pending) ∙ ap seqs parked),
      );
      matched = ended;
    }

unlinked_from-Accounts :
    (r : Run) (s : ℕ) (c : Endpoint × Bool)
    → c.1 ≡ (if count s (seqs r.e.pending) == 0 then false else true)
    → ((j : ℕ)
        → count j (seqs c.0.pending) ≡ count j (seqs r.e.pending) - (if s == j then 1 else 0))
    → c.0.q ≡ r.e.q
    → (r.e.pending ≡ [] → c.0.pending ≡ [])
    → (c.1 ≡ false → c.0.pending ≡ r.e.pending)
    → Accounts r
    → Accounts (unlinked_from c s r.h)
unfolding unlinked_from
unlinked_from-Accounts r s (e', true) found counts queue kept same a = record {
  stream = rw queue a.stream;
  urbs = λ j. ground (arith, a.urbs j, counts j, count-append j r.h.unlinked (s ∷ []));
  matched = elim a.matched [ inl p ↦ inl (kept p) | inr p ↦ inr (queue ∙ p) ];
}
unlinked_from-Accounts r s (e', false) found counts queue kept same a = record {
  stream = rw queue a.stream;
  urbs = λ j. rw (same refl) (a.urbs j);
  matched = elim a.matched [ inl p ↦ inl (kept p) | inr p ↦ inr (queue ∙ p) ];
}

unlinks-Accounts : (r : Run) (s : ℕ) → Accounts r → Accounts (step r (unlinks s))
unfolding step
unlinks-Accounts r s a =
    let (found, counts, queue, kept, same) = cancel_parts r.e s in
    unlinked_from-Accounts r s (cancel r.e s) found counts queue kept same a

front_Accounts :
    (r : Run) (n : ℤ) (urb : Urb) (s : ℕ) (q : List Bytes)
    → r.e.q ≡ q
    → Accounts r
    → Accounts (
        submitted_to
          (take_front r.e q n urb s)
          s
          (record r.h { submitted = r.h.submitted ++ (s ∷ []) }))
unfolding submitted_to take_front
front_Accounts r n urb s [] e a = record {
  stream = a.stream;
  urbs = λ j.
      let entry : Parked = record { length = n; complete = urb; seqnum = s } in
      omega (
        arith,
        a.urbs j,
        count-append j r.h.submitted (s ∷ []),
        ap (count j) (seqs-append r.e.pending (entry ∷ [])),
        count-append j (seqs r.e.pending) (s ∷ []),
      );
  matched = inr e;
}
front_Accounts r n urb s (chunk ∷ rest) e a = record {
  stream =
      append_assoc r.h.delivered (pop_locked n chunk rest).0 (join (pop_locked n chunk rest).1)
      ∙ rw (pop_locked-join n chunk rest) (rw e at a.stream);
  urbs = λ j. omega (
    arith,
    a.urbs j,
    count-append j r.h.submitted (s ∷ []),
    count-append j r.h.answered (s ∷ []),
  );
  matched = elim a.matched [ inl p ↦ inl p | inr p ↦ absurd (cc) ];
}

submits-Accounts :
    (r : Run) (n : ℤ) (urb : Urb) (s : ℕ) → Accounts r → Accounts (step r (submits n urb s))
unfolding step take_or_park
submits-Accounts r n urb s a = elim (Bool-cases r.e.halted) [
  | inl e ↦ simp e (record {
    stream = a.stream;
    urbs = λ j. omega (
      arith,
      a.urbs j,
      count-append j r.h.submitted (s ∷ []),
      count-append j r.h.answered (s ∷ []),
    );
    matched = a.matched;
  })
  | inr e ↦ simp e (front_Accounts r n urb s r.e.q refl a)
]

chunks-stalled : (ps : List Parked) → join (chunks (map stalled ps)) ≡ []
chunks-stalled [] = refl
chunks-stalled (p ∷ ps) = chunks-stalled ps

entries-stalled : (ps : List Parked) → entries (map stalled ps) ≡ ps
entries-stalled [] = refl
entries-stalled (p ∷ ps) = ap (◌∷◌ p) (entries-stalled ps)

stalls-Accounts : (r : Run) → Accounts r → Accounts (step r stalls)
unfolding step completed stall
stalls-Accounts r a = record {
  stream =
      rw (chunks-stalled r.e.pending, append-nil r.h.delivered, append-nil r.h.written) a.stream;
  urbs = λ j.
      rw (entries-stalled r.e.pending)
        (omega (arith, a.urbs j, count-append j r.h.answered (seqs r.e.pending)));
  matched = inl refl;
}

clears-Accounts : (r : Run) → Accounts r → Accounts (step r clears)
unfolding step clear_halt
clears-Accounts r a = record { stream = a.stream; urbs = a.urbs; matched = a.matched }

step-Accounts : (r : Run) (op : Op) → Accounts r → Accounts (step r op)
step-Accounts r (writes chunk) a = writes-Accounts r chunk a
step-Accounts r (submits n urb s) a = submits-Accounts r n urb s a
step-Accounts r (unlinks s) a = unlinks-Accounts r s a
step-Accounts r stalls a = stalls-Accounts r a
step-Accounts r clears a = clears-Accounts r a

keeps_Accounts : (r : Run) (ops : List Op) → Accounts r → Accounts (run r ops)
unfolding run
keeps_Accounts r [] a = a
keeps_Accounts r (op ∷ ops) a = keeps_Accounts (step r op) ops (step-Accounts r op a)

-- From an endpoint with an empty queue and no parked URB, after any operations in any order: the
-- bytes that the host got, followed by those queued, are the bytes that the program wrote; each
-- sequence number has been submitted as often as it was answered, unlinked while parked, or is
-- still parked; and no URB is parked while data is queued.
pub run-Accounts :
    (e : Endpoint) (ops : List Op) → e.q ≡ [] → e.pending ≡ [] → Accounts (run (start e) ops)
run-Accounts e ops hq hp =
    keeps_Accounts (start e) ops
      (record { stream = rw hq refl; urbs = λ s. rw hp refl; matched = inl hp })
