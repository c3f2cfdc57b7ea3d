-- ===== src/Core/Walk/Laws.antt =====
-- The walk of `iter_descriptors` ends, reads back concatenated descriptors, and yields a prefix of
-- what it walks over, in slices of two bytes at least.
use usbip_python.Base.{
  ℕ, zero, suc, ◌+◌, ◌≤◌, ◌≡◌, refl, sym, ap, ◌∙◌, arith, List, [], ◌∷◌, ◌++◌, length, take, drop,
  get_or, join, All, length-append, length-drop, length-take, take-append_length,
  drop-append_length, get_or-drop, get_or-append_zero, get_or-take_zero, append_assoc, append-nil,
  drop-drop, take-append-drop, inl, inr, ◌⊎◌,
}
use usbip_python.Struct.{Bytes}
use usbip_python.Core.Walk.{iter_from, iter_descriptors}

-- A descriptor: two bytes at least, the first of which is its length.
pub record IsDescriptor (d : Bytes) : Type 0 where
  pub long : 2 ≤ length d
  pub counted : get_or d 0 0 ≡ length d

-- Any fuel that covers what is left of the blob gives the same walk.
pub iter_from_fuel :
    (f g : ℕ) (blob : Bytes) (i : ℕ)
    → length blob ≤ f + i
    → length blob ≤ g + i
    → iter_from f blob i ≡ iter_from g blob i
unfolding iter_from
iter_from_fuel zero zero blob i hf hg = refl
iter_from_fuel zero (suc g) blob i hf hg = ground arith
iter_from_fuel (suc f) zero blob i hf hg = ground arith
iter_from_fuel (suc f) (suc g) blob i hf hg =
    ground (arith, iter_from_fuel f g blob (i + get_or blob i 0))

walk_head :
    (fuel : ℕ) (blob : Bytes) (i : ℕ)
    → 2 ≤ get_or blob i 0
    → i + 2 ≤ length blob
    → iter_from (suc fuel) blob i
      ≡ take (get_or blob i 0) (drop i blob) ∷ iter_from fuel blob (i + get_or blob i 0)
unfolding iter_from
walk_head fuel blob i h k = ground arith

iter_from-join :
    (fuel : ℕ) (pre : Bytes) (ds : List Bytes)
    → All IsDescriptor ds
    → length (join ds) ≤ fuel
    → iter_from fuel (pre ++ join ds) (length pre) ≡ ds
unfolding iter_from
iter_from-join zero pre [] h hf = refl
iter_from-join (suc fuel) pre [] h hf = ground (arith, ap length (append-nil pre))
iter_from-join zero pre (d ∷ ds) (h, hs) hf =
    absurd (omega (arith, h.long, length-append d (join ds)))
iter_from-join (suc fuel) pre (d ∷ ds) (h, hs) hf =
    let blob = pre ++ (d ++ join ds) in
    let here : drop (length pre) blob ≡ d ++ join ds = drop-append_length pre (d ++ join ds) in
    let blen : get_or blob (length pre) 0 ≡ length d =
      sym (get_or-drop (length pre) blob 0)
      ∙ ap (λ (t : Bytes). get_or t 0 0) here
      ∙ get_or-append_zero d (join ds) 0 (omega (arith, h.long))
      ∙ h.counted in
    walk_head fuel blob (length pre) (rw blen h.long)
      (omega (arith, h.long, length-append pre (d ++ join ds), length-append d (join ds)))
    ∙ rw
        (
          blen,
          here,
          take-append_length d (join ds),
          sym (length-append pre d),
          sym (append_assoc pre d (join ds)),
        )
        (ap (◌∷◌ d)
          (iter_from-join fuel (pre ++ d) ds hs (omega (arith, h.long, length-append d (join ds)))))

-- Descriptors that are concatenated behind any header are yielded one by one.
pub iter_descriptors-join :
    (header : Bytes) (ds : List Bytes)
    → All IsDescriptor ds
    → iter_descriptors (header ++ join ds) (length header) ≡ ds
unfolding iter_descriptors
iter_descriptors-join header ds h =
    iter_from-join _ header ds h (omega (arith, length-append header (join ds)))

-- One round stops, or yields a slice and goes on behind it.
walk_cases :
    (fuel : ℕ) (blob : Bytes) (i : ℕ)
    → (iter_from (suc fuel) blob i ≡ [])
      ⊎ ((i + 2 ≤ length blob)
          × (2 ≤ get_or blob i 0)
          × (iter_from (suc fuel) blob i
              ≡ take (get_or blob i 0) (drop i blob) ∷ iter_from fuel blob (i + get_or blob i 0)))
unfolding iter_from
walk_cases fuel blob i = ground arith

pub iter_from_prefix :
    (fuel : ℕ) (blob : Bytes) (i : ℕ)
    → (rest : Bytes) × (join (iter_from fuel blob i) ++ rest ≡ drop i blob)
iter_from_prefix zero blob i = unfold iter_from in (drop i blob, refl)
iter_from_prefix (suc fuel) blob i = elim (walk_cases fuel blob i) [
  | inl e ↦ rw e (drop i blob, refl)
  | inr (_, _, e) ↦
      let n = get_or blob i 0 in
      let (rest, more) = iter_from_prefix fuel blob (i + n) in
      rw e (
        rest,
        append_assoc (take n (drop i blob)) (join (iter_from fuel blob (i + n))) rest
            ∙ rw (more, sym (drop-drop i n blob)) (take-append-drop n (drop i blob)),
      )
]

-- A yielded slice has two bytes at least, and no more than its first byte says.
abbrev pub Slice : Bytes → Type 0
Slice d = (2 ≤ length d) × (length d ≤ get_or d 0 0)

Slice-take :
    (n i : ℕ) (blob : Bytes)
    → 2 ≤ n
    → i + 2 ≤ length blob
    → get_or blob i 0 ≡ n
    → Slice (take n (drop i blob))
Slice-take n i blob h k e =
    rw (get_or-take_zero n (drop i blob) 0 (omega arith), get_or-drop i blob 0, e)
      (omega (arith, length-take n (drop i blob), length-drop i blob))

pub iter_from-All : (fuel : ℕ) (blob : Bytes) (i : ℕ) → All Slice (iter_from fuel blob i)
iter_from-All zero blob i = unfold iter_from in tt
iter_from-All (suc fuel) blob i = elim (walk_cases fuel blob i) [
  | inl e ↦ rw e tt
  | inr (k, h, e) ↦
      rw e (
        Slice-take (get_or blob i 0) i blob h k refl,
        iter_from-All fuel blob (i + get_or blob i 0),
      )
]

-- Whatever the blob: the slices, joined, are a prefix of what stands behind the offset, each has
-- its length and type byte, and none is longer than its first byte says.
pub iter_descriptors_total :
    (blob : Bytes) (offset : ℕ)
    → ((rest : Bytes) × (join (iter_descriptors blob offset) ++ rest ≡ drop offset blob))
      × All Slice (iter_descriptors blob offset)
unfolding iter_descriptors
iter_descriptors_total blob offset = (iter_from_prefix _ blob offset, iter_from-All _ blob offset)
