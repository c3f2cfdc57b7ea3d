-- ===== src/Endpoint/Cancel.antt =====
-- Sequence numbers: how often one is parked, and what `cancel` does to that.
use usbip_python.Base.{
  ℕ, ◌+◌, ◌-◌, ◌≡◌, refl, ap, arith, List, [], ◌∷◌, ◌++◌, ◌==◌, if◌then◌else◌, Bool, true, false,
  Option, none, some, inl, inr, ◌>>=◌, ==→eq, Bool-cases,
}
use usbip_python.Endpoint.{Parked, Endpoint, without, cancel}

abbrev pub count : ℕ → List ℕ → ℕ
count s [] = 0
count s (n ∷ ns) = (if n == s then 1 else 0) + count s ns

pub count-append : (s : ℕ) (xs ys : List ℕ) → count s (xs ++ ys) ≡ count s xs + count s ys
count-append s [] ys = omega arith
count-append s (x ∷ xs) ys = omega (arith, count-append s xs ys)

abbrev pub seqs : List Parked → List ℕ
seqs [] = []
seqs (p ∷ ps) = p.seqnum ∷ seqs ps

pub seqs-append : (ps rs : List Parked) → seqs (ps ++ rs) ≡ seqs ps ++ seqs rs
seqs-append [] rs = refl
seqs-append (p ∷ ps) rs = ap (◌∷◌ p.seqnum) (seqs-append ps rs)

-- `without` drops one entry that has the number, and answers `none` only if none has it.
abbrev pub Drops : ℕ → List Parked → Option (List Parked) → Type 0
Drops s ps none = count s (seqs ps) ≡ 0
Drops s ps (some rs) = (j : ℕ) → count j (seqs ps) ≡ (if s == j then 1 else 0) + count j (seqs rs)

cons_Drops :
    (s : ℕ) (p : Parked) (ps : List Parked) (o : Option (List Parked))
    → Drops s ps o
    → Drops s (p ∷ ps) (if p.seqnum == s then some ps else (o >>= λ r. some (p ∷ r)))
cons_Drops s p ps o h = elim (Bool-cases (p.seqnum == s)) [
  | inl e ↦ rw e (λ j. rw (==→eq p.seqnum s e) refl)
  | inr e ↦ rw e (past o h e)
]
  where
    past :
        (o : Option (List Parked))
        → Drops s ps o
        → (p.seqnum == s) ≡ false
        → Drops s (p ∷ ps) (o >>= λ r. some (p ∷ r))
    past none d e = rw e (omega arith)
    past (some rs) d e = λ j. omega (arith, d j)

without-Drops : (s : ℕ) (ps : List Parked) → Drops s ps (without s ps)
unfolding without
without-Drops s [] = refl
without-Drops s (p ∷ ps) = cons_Drops s p ps (without s ps) (without-Drops s ps)

pub cancel_parts :
    (e : Endpoint) (s : ℕ)
    → ((cancel e s).1 ≡ (if count s (seqs e.pending) == 0 then false else true))
      × ((j : ℕ)
          → count j (seqs (cancel e s).0.pending)
            ≡ count j (seqs e.pending) - (if s == j then 1 else 0))
      × ((cancel e s).0.q ≡ e.q)
      × (e.pending ≡ [] → (cancel e s).0.pending ≡ [])
      × ((cancel e s).1 ≡ false → (cancel e s).0.pending ≡ e.pending)
unfolding cancel
cancel_parts e s = parts (without s e.pending) (without-Drops s e.pending)
  where
    after : Option (List Parked) → Endpoint × Bool
    after o = elim o [ none ↦ (e, false) | some ps ↦ (record e { pending = ps }, true) ]

    parts :
        (o : Option (List Parked))
        → Drops s e.pending o
        → ((after o).1 ≡ (if count s (seqs e.pending) == 0 then false else true))
          × ((j : ℕ)
              → count j (seqs (after o).0.pending)
                ≡ count j (seqs e.pending) - (if s == j then 1 else 0))
          × ((after o).0.q ≡ e.q)
          × (e.pending ≡ [] → (after o).0.pending ≡ [])
          × ((after o).1 ≡ false → (after o).0.pending ≡ e.pending)
    parts none d = (ground arith, λ j. ground arith, refl, λ h. h, λ _. refl)
    parts (some rs) d = (
      ground (arith, d s),
      λ j. ground (arith, d j),
      refl,
      λ h. absurd (ground (arith, d s, ap (λ (ps : List Parked). count s (seqs ps)) h)),
      λ h. cc,
    )

-- `cancel` answers whether the number was parked. If it was, one entry with the number is gone; no
-- other number's entries change, and neither does the queue.
pub cancel_lem :
    (e : Endpoint) (s : ℕ)
    → ((cancel e s).1 ≡ (if count s (seqs e.pending) == 0 then false else true))
      × ((j : ℕ)
          → count j (seqs (cancel e s).0.pending)
            ≡ count j (seqs e.pending) - (if s == j then 1 else 0))
      × ((cancel e s).0.q ≡ e.q)
cancel_lem e s = let (found, counts, queue, _, _) = cancel_parts e s in (found, counts, queue)
