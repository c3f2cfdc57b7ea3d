-- ===== src/Endpoint/Drain.antt =====
-- The loop of `write`: parked URBs are completed in order, with the queued bytes in order, until
-- one of the two runs out, and none gets more than it asked for.
use usbip_python.Base.{
  ℕ, zero, suc, ◌≤◌, ◌≡◌, refl, sym, ap, ◌∙◌, ◌⊎◌, inl, inr, List, [], ◌∷◌, ◌++◌, ℤ, pos, join,
  append_assoc, append-nil, All, arith, length, Bool-cases, gtz, ◌&&◌, slice_to, slice_from,
  slice_to-append-slice_from, length-take, join-append,
}
use usbip_python.Struct.{Bytes}
use usbip_python.Endpoint.{Parked, Completion, Endpoint, pop_locked, nonzero, drain, write}

abbrev pub entries : List Completion → List Parked
entries [] = []
entries (c ∷ cs) = c.entry ∷ entries cs

abbrev pub chunks : List Completion → List Bytes
chunks [] = []
chunks (c ∷ cs) = c.chunk ∷ chunks cs

-- No bytes are lost or reordered when a chunk is split, also at a negative length.
pub pop_locked-join :
    (n : ℤ) (chunk : Bytes) (rest : List Bytes)
    → (pop_locked n chunk rest).0 ++ join (pop_locked n chunk rest).1 ≡ join (chunk ∷ rest)
unfolding pop_locked
pop_locked-join n chunk rest = elim (Bool-cases (nonzero n && gtz (length chunk) n)) [
  | inl e ↦ rw e (
      sym (append_assoc (slice_to n chunk) (slice_from n chunk) (join rest))
      ∙ ap (λ (t : Bytes). t ++ join rest) (slice_to-append-slice_from n chunk))
  | inr e ↦ rw e refl
]

-- A URB that asks for n bytes gets n at most.
pub pop_locked-le :
    (n : ℕ) (chunk : Bytes) (rest : List Bytes)
    → 1 ≤ n
    → length (pop_locked (pos n) chunk rest).0 ≤ n
unfolding pop_locked
pop_locked-le zero chunk rest h = elim h [ ]
pop_locked-le (suc n) chunk rest h = ground (arith, length-take (suc n) chunk)

pub drain-entries :
    (ps : List Parked) (q : List Bytes) → entries (drain ps q).0 ++ (drain ps q).1 ≡ ps
unfolding drain
drain-entries [] q = refl
drain-entries (p ∷ ps) [] = refl
drain-entries (p ∷ ps) (c ∷ q) = ap (◌∷◌ p) (drain-entries ps (pop_locked p.length c q).1)

pub drain-join :
    (ps : List Parked) (q : List Bytes)
    → join (chunks (drain ps q).0) ++ join (drain ps q).2 ≡ join q
unfolding drain
drain-join [] q = refl
drain-join (p ∷ ps) [] = refl
drain-join (p ∷ ps) (c ∷ q) =
    let popped = pop_locked p.length c q in
    append_assoc popped.0 (join (chunks (drain ps popped.1).0)) (join (drain ps popped.1).2)
    ∙ ap (λ (t : Bytes). popped.0 ++ t) (drain-join ps popped.1)
    ∙ pop_locked-join p.length c q

pub drain_ends : (ps : List Parked) (q : List Bytes) → ((drain ps q).1 ≡ []) ⊎ ((drain ps q).2 ≡ [])
unfolding drain
drain_ends [] q = inl refl
drain_ends (p ∷ ps) [] = inr refl
drain_ends (p ∷ ps) (c ∷ q) = drain_ends ps (pop_locked p.length c q).1

-- What a completion that `write` makes may carry.
abbrev pub Served : Completion → Type 0
Served c = (c.status ≡ pos 0) × ((n : ℕ) → c.entry.length ≡ pos n → 1 ≤ n → length c.chunk ≤ n)

pub drain-Served : (ps : List Parked) (q : List Bytes) → All Served (drain ps q).0
unfolding drain
drain-Served [] q = tt
drain-Served (p ∷ ps) [] = tt
drain-Served (p ∷ ps) (c ∷ q) =
    ((refl, λ n e h. rw e (pop_locked-le n c q h)), drain-Served ps (pop_locked p.length c q).1)

join_snoc : (q : List Bytes) (chunk : Bytes) → join (q ++ (chunk ∷ [])) ≡ join q ++ chunk
join_snoc q chunk = join-append q (chunk ∷ []) ∙ ap (λ (t : Bytes). join q ++ t) (append-nil chunk)

-- `write` completes the oldest parked URBs, in order, with a prefix of what is queued and written,
-- in order: the bytes given out and those still queued are the queue and the new data, the URBs
-- completed and those still parked are the URBs that were parked. It stops only when no URB is
-- parked or nothing is queued, each completion reports success, and a URB with a positive length
-- gets no more than that.
pub write_lem :
    (e : Endpoint) (chunk : Bytes)
    → (join (chunks (write e chunk).1) ++ join (write e chunk).0.q ≡ join e.q ++ chunk)
      × (entries (write e chunk).1 ++ (write e chunk).0.pending ≡ e.pending)
      × (((write e chunk).0.pending ≡ []) ⊎ ((write e chunk).0.q ≡ []))
      × All Served (write e chunk).1
unfolding write
write_lem e chunk =
    let q = e.q ++ (chunk ∷ []) in
    (
      drain-join e.pending q ∙ join_snoc e.q chunk,
      drain-entries e.pending q,
      drain_ends e.pending q,
      drain-Served e.pending q,
    )
