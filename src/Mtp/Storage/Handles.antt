-- ===== src/Mtp/Storage/Handles.antt =====
-- Handles name places: a rescan keeps them, and no two places share one.
use usbip_python.Base.{
  ℕ, ◌+◌, ◌<◌, ◌≡◌, ◌≢◌, ◌⊎◌, inl, inr, refl, sym, ◌∙◌, arith, true, Bool-cases, List, [], ◌∷◌,
  ◌++◌, none, some, ◌==◌, ==_refl, ==→eq, and-true, if_true, if_false,
}
use usbip_python.Core.Text.{Text}
use usbip_python.Mtp.Storage.{Place, Handles, same_place, handle_at, is_among, still_alive}
use usbip_python.Mtp.Names.{same_text}

same_text_refl : (t : Text) → same_text t t ≡ true
unfolding same_text
same_text_refl [] = refl
same_text_refl (c ∷ cs) = rw (==_refl c) (same_text_refl cs)

same_text→eq : (t u : Text) → same_text t u ≡ true → t ≡ u
unfolding same_text
same_text→eq [] [] h = refl
same_text→eq [] (d ∷ ds) h = absurd (ground arith)
same_text→eq (c ∷ cs) [] h = absurd (ground arith)
same_text→eq (c ∷ cs) (d ∷ ds) h =
    let (head, tail) = and-true (c == d) (same_text cs ds) h in
    let x = ==→eq c d head in let xs = same_text→eq cs ds tail in λ n. x n ∷ xs n

pub same_place_refl : (k : Place) → same_place k k ≡ true
same_place_refl (i, t) = rw (==_refl i) (same_text_refl t)

pub same_place→eq : (j k : Place) → same_place j k ≡ true → j ≡ k
same_place→eq (i, t) (j, u) h =
    let (left, right) = and-true (i == j) (same_text t u) h in
    let x = ==→eq i j left in let y = same_text→eq t u right in λ n. (x n, y n)

-- The handle is none of those of the table.
abbrev pub Absent : ℕ → Handles → Type 0
Absent h [] = Unit {0}
Absent h ((k, g) ∷ m) = (g ≢ h) × Absent h m

-- The handles are below `next`, and no two of them are equal.
abbrev pub Numbered : ℕ → Handles → Type 0
Numbered n [] = Unit {0}
Numbered n ((k, h) ∷ m) = (h < n) × (Absent h m × Numbered n m)

pub Numbered-Absent : (n : ℕ) (m : Handles) → Numbered n m → Absent n m
Numbered-Absent n [] w = tt
Numbered-Absent n ((k, h) ∷ m) (lt, (a, w)) =
    (λ e. absurd (omega (arith, e, lt)), Numbered-Absent n m w)

pub Absent-append :
    (h : ℕ) (m : Handles) (k : Place) (g : ℕ) → Absent h m → g ≢ h → Absent h (m ++ ((k, g) ∷ []))
Absent-append h [] k g a ne = (ne, tt)
Absent-append h ((j, f) ∷ m) k g (x, a) ne = (x, Absent-append h m k g a ne)

pub Numbered-append :
    (n : ℕ) (m : Handles) (k : Place) → Numbered n m → Numbered (n + 1) (m ++ ((k, n) ∷ []))
Numbered-append n [] k w = (omega arith, (tt, tt))
Numbered-append n ((j, h) ∷ m) k (lt, (a, w)) = (
  omega arith,
  (Absent-append h m k n a (λ e. absurd (omega (arith, e, lt))), Numbered-append n m k w),
)

Absent-still_alive :
    (h : ℕ) (alive : List Place) (m : Handles) → Absent h m → Absent h (still_alive alive m)
unfolding still_alive
Absent-still_alive h alive [] a = tt
Absent-still_alive h alive ((k, g) ∷ m) (x, a) = elim (Bool-cases (is_among k alive)) [
  | inl e ↦ rw e (x, Absent-still_alive h alive m a)
  | inr e ↦ rw e (Absent-still_alive h alive m a)
]

pub Numbered-still_alive :
    (n : ℕ) (alive : List Place) (m : Handles) → Numbered n m → Numbered n (still_alive alive m)
unfolding still_alive
Numbered-still_alive n alive [] w = tt
Numbered-still_alive n alive ((k, h) ∷ m) (lt, (a, w)) = elim (Bool-cases (is_among k alive)) [
  | inl e ↦ rw e (lt, (Absent-still_alive h alive m a, Numbered-still_alive n alive m w))
  | inr e ↦ rw e (Numbered-still_alive n alive m w)
]

-- A handle that is there stays when one is added.
pub handle_at-append :
    (k j : Place) (h g : ℕ) (m : Handles)
    → handle_at k m ≡ some g
    → handle_at k (m ++ ((j, h) ∷ [])) ≡ some g
unfolding handle_at
handle_at-append k j h g [] e = absurd (ground arith)
handle_at-append k j h g ((i, f) ∷ m) e = elim (Bool-cases (same_place i k)) [
  | inl t ↦ rw t (sym (if_true (same_place i k) (some f) (handle_at k m) t) ∙ e)
  | inr t ↦
      rw t (
        handle_at-append k j h g m (sym (if_false (same_place i k) (some f) (handle_at k m) t) ∙ e))
]

pub some_not_none : (f : ℕ) → some f ≢ none
some_not_none f h = cc

pub some_injective : {f g : ℕ} → some f ≡ some g → f ≡ g
some_injective h = cc

pub handle_at-append_new :
    (k : Place) (n : ℕ) (m : Handles)
    → handle_at k m ≡ none
    → handle_at k (m ++ ((k, n) ∷ [])) ≡ some n
unfolding handle_at
handle_at-append_new k n [] e = rw (same_place_refl k) refl
handle_at-append_new k n ((i, f) ∷ m) e = elim (Bool-cases (same_place i k)) [
  | inl t ↦ absurd (some_not_none f (sym (if_true (same_place i k) (some f) (handle_at k m) t) ∙ e))
  | inr t ↦
      rw t (
        handle_at-append_new k n m (sym (if_false (same_place i k) (some f) (handle_at k m) t) ∙ e))
]

pub handle_at-still_alive :
    (k : Place) (alive : List Place) (m : Handles)
    → is_among k alive ≡ true
    → handle_at k (still_alive alive m) ≡ handle_at k m
unfolding handle_at still_alive
handle_at-still_alive k alive [] h = refl
handle_at-still_alive k alive ((j, g) ∷ m) h = elim (Bool-cases (same_place j k)) [
  | inl t ↦ (let kept : is_among j alive ≡ true = rw (same_place→eq j k t) h in rw (kept, t) refl)
  | inr t ↦ elim (Bool-cases (is_among j alive)) [
    | inl a ↦ rw (a, t) (handle_at-still_alive k alive m h)
    | inr a ↦ rw (a, t) (handle_at-still_alive k alive m h)
  ]
]

pub handle_at-append_cases :
    (k j : Place) (h g : ℕ) (m : Handles)
    → handle_at k (m ++ ((j, h) ∷ [])) ≡ some g
    → (handle_at k m ≡ some g) ⊎ (g ≡ h)
unfolding handle_at
handle_at-append_cases k j h g [] e = elim (Bool-cases (same_place j k)) [
  | inl t ↦ inr (some_injective (sym e ∙ if_true (same_place j k) (some h) none t))
  | inr t ↦ absurd (some_not_none g (sym e ∙ if_false (same_place j k) (some h) none t))
]
handle_at-append_cases k j h g ((i, f) ∷ m) e = elim (Bool-cases (same_place i k)) [
  | inl t ↦ inl (rw t (sym (if_true (same_place i k) (some f) _ t) ∙ e))
  | inr t ↦
      rw t (handle_at-append_cases k j h g m (sym (if_false (same_place i k) (some f) _ t) ∙ e))
]
