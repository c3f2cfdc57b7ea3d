-- ===== src/Mtp/Machine/DataPhase.antt =====
-- A data container may come in any number of transfers.
use usbip_python.Base.{
  ℕ, zero, suc, ◌+◌, ◌≤◌, ◌<◌, ◌≡◌, inl, inr, refl, sym, ap, ◌∙◌, arith, true, false, Bool-cases,
  List, [], ◌∷◌, ◌++◌, append_assoc, append-nil, Option, none, some, ◌>>=◌, if◌then◌else◌, leb,
  leb→le, le→leb, length, length-append, take, drop, take-all, drop-append_eq, join, All,
}
use usbip_python.Struct.{Bytes, from_le}
use usbip_python.Mtp.{Backend, Platform}
use usbip_python.Mtp.Machine.{Mtp, Rx, Call}
use usbip_python.Mtp.Machine.Bulk.{
  Result, complete_rx, needed, collected, collect, handle_out, on_out, run,
}
use usbip_python.Mtp.Machine.Answers.{begun}

take-append_le : (n : ℕ) (xs ys : Bytes) → n ≤ length xs → take n (xs ++ ys) ≡ take n xs
take-append_le zero xs ys h = refl
take-append_le (suc n) [] ys h = absurd (omega arith)
take-append_le (suc n) (x ∷ xs) ys h = ap (◌∷◌ x) (take-append_le n xs ys (omega arith))

-- What `need` is when `b` has come of a container of n bytes.
abbrev expected : ℕ → Bytes → Option ℕ
expected n b = if leb 12 (length b) then some n else none

needed-expected :
    (n : ℕ) (b c rest : Bytes)
    → from_le (take 4 ((b ++ c) ++ rest)) ≡ n
    → needed (expected n b) (b ++ c) ≡ expected n (b ++ c)
needed-expected n b c rest h = elim (Bool-cases (leb 12 (length b))) [
  | inl t ↦
      (let longer : leb 12 (length (b ++ c)) ≡ true =
          le→leb _ _ (omega (arith, leb→le _ _ t, length-append b c)) in
        rw (t, longer) refl)
  | inr f ↦ elim (Bool-cases (leb 12 (length (b ++ c)))) [
    | inl t ↦
        (let same : from_le (take 4 (b ++ c)) ≡ n =
            ap from_le (sym (take-append_le 4 (b ++ c) rest (omega (arith, leb→le _ _ t)))) ∙ h in
          rw (f, t, same) refl)
    | inr g ↦ rw (f, g) refl
  ]
]

abbrev pub NonEmpty : Bytes → Type 0
NonEmpty c = 1 ≤ length c

module _ {B : Type 0} where
  -- The interface when `b` has come.
  abbrev holding : Mtp B → Rx → ℕ → Bytes → Mtp B
  holding s w n b = record s { rx = some (record w { buf = b; need = expected n b }) }

  last-run : (r : Result B) → (do (s1, calls) ← r; some (s1, calls ++ [])) ≡ r
  last-run none = refl
  last-run (some (s, calls)) = ap (λ (x : List Call). some (s, x)) (append-nil calls)

  silent-run : (r : Result B) → (do (s1, calls) ← r; some (s1, [] ++ calls)) ≡ r
  silent-run none = refl
  silent-run (some (s, calls)) = refl

module _ {B : Type 0} (backend : Backend B) (platform : Platform) where
  -- One more transfer.
  on_out-holding :
      (s : Mtp B) (w : Rx) (n : ℕ) (b c rest : Bytes)
      → from_le (take 4 ((b ++ c) ++ rest)) ≡ n
      → on_out backend platform (holding s w n b) c
        ≡ collected backend platform
            (holding s w n b)
            (record w { buf = b ++ c; need = expected n (b ++ c) })
            (expected n (b ++ c))
  unfolding on_out handle_out collect
  on_out-holding s w n b c rest h = rw (needed-expected n b c rest h) refl

  -- Before the end of the container, it is kept.
  collected-short :
      (s : Mtp B) (w : Rx) (n : ℕ) (b c : Bytes)
      → length c < n
      → collected backend platform
          (holding s w n b)
          (record w { buf = c; need = expected n c })
          (expected n c)
        ≡ some (holding s w n c, [])
  unfolding collected
  collected-short s w n b c short = elim (Bool-cases (leb 12 (length c))) [
    | inl t ↦ (let no : leb n (length c) ≡ false = ground arith in rw (t, no) refl)
    | inr f ↦ rw f refl
  ]

  -- At its end, it is handled.
  collected-whole :
      (s : Mtp B) (w : Rx) (n : ℕ) (b head payload : Bytes)
      → length head ≡ 12
      → n ≡ 12 + length payload
      → collected backend platform
          (holding s w n b)
          (record w { buf = head ++ payload; need = expected n (head ++ payload) })
          (expected n (head ++ payload))
        ≡ complete_rx backend platform (record s { rx = none }) w payload
  unfolding collected complete_rx
  collected-whole s w n b head payload size total =
      let long : length (head ++ payload) ≡ n = omega (arith, length-append head payload) in
      let t : leb 12 (length (head ++ payload)) ≡ true = le→leb _ _ (omega arith) in
      let u : leb n (length (head ++ payload)) ≡ true = le→leb _ _ (omega arith) in
      let p : drop 12 (take n (head ++ payload)) ≡ payload =
        ap (drop 12) (take-all n (head ++ payload) (omega arith))
        ∙ drop-append_eq 12 head payload size in
      rw (t, u, p) refl

  run-holding :
      (s : Mtp B) (w : Rx) (n : ℕ) (head payload b c : Bytes) (chunks : List Bytes)
      → length head ≡ 12
      → n ≡ 12 + length payload
      → from_le (take 4 (head ++ payload)) ≡ n
      → b ++ (c ++ join chunks) ≡ head ++ payload
      → All NonEmpty chunks
      → run backend platform (holding s w n b) (c ∷ chunks)
        ≡ complete_rx backend platform (record s { rx = none }) w payload
  unfolding run
  run-holding s w n head payload b c [] size total field all ne =
      let whole : b ++ c ≡ head ++ payload = ap (◌++◌ b) (sym (append-nil c)) ∙ all in
      let read : from_le (take 4 ((b ++ c) ++ [])) ≡ n =
        ap (λ x. from_le (take 4 x)) (append-nil (b ++ c) ∙ whole) ∙ field in
      let ends : on_out backend platform (holding s w n b) c
          ≡ complete_rx backend platform (record s { rx = none }) w payload =
        on_out-holding s w n b c [] read
        ∙ ap
            (λ (x : Bytes).
              collected backend platform (holding s w n b)
                (record w { buf = x; need = expected n x }) (expected n x))
            whole
        ∙ collected-whole s w n b head payload size total in
      last-run (on_out backend platform (holding s w n b) c) ∙ ends
  run-holding s w n head payload b c (d ∷ ds) size total field all (some_d, ne) =
      let rest = join (d ∷ ds) in
      let whole : (b ++ c) ++ rest ≡ head ++ payload = append_assoc b c rest ∙ all in
      let read : from_le (take 4 ((b ++ c) ++ rest)) ≡ n =
        ap (λ x. from_le (take 4 x)) whole ∙ field in
      let short : length (b ++ c) < n = omega (
        arith,
        total,
        size,
        some_d,
        ap length whole,
        length-append (b ++ c) rest,
        length-append d (join ds),
        length-append head payload,
      ) in
      let first = on_out-holding s w n b c rest read ∙ collected-short s w n b (b ++ c) short in
      ap
        (λ (r : Result B). do
          (s1, calls) ← r
          (s2, more) ← run backend platform s1 (d ∷ ds)
          some (s2, calls ++ more))
        first
      ∙ silent-run (run backend platform (holding s w n (b ++ c)) (d ∷ ds))
      ∙ run-holding s w n head payload (b ++ c) d ds size total field whole ne

  -- The data container of a transaction, a header of 12 bytes whose length field is the container's size
  -- and the payload, is handled as a whole and in the same way however it is split into transfers that are
  -- not empty.
  pub run-data_phase :
      (s : Mtp B) (command head payload c : Bytes) (chunks : List Bytes)
      → length head ≡ 12
      → from_le (take 4 (head ++ payload)) ≡ 12 + length payload
      → c ++ join chunks ≡ head ++ payload
      → All NonEmpty chunks
      → run backend platform (record s { rx = some (begun command) }) (c ∷ chunks)
        ≡ complete_rx backend platform (record s { rx = none }) (begun command) payload
  run-data_phase s command head payload c chunks size field all ne =
      run-holding s (begun command) (12 + length payload) head payload [] c chunks size refl field
        all ne
