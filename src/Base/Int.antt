-- ===== src/Base/Int.antt =====
-- Python's integers, where the program meets negative ones, and slices at such a bound.
use Prim.Native.Nat.{ℕ, zero, suc, ◌-◌}
use mathlib.Core.Path.{◌≡◌}
use mathlib.Core.Bool.{Bool, true, false}
use mathlib.Core.List.{List, ◌++◌}
use usbip_python.Base.Lists.{length, take, drop, take-append-drop}
use usbip_python.Base.Tests.{ltb}

-- `negsuc n` is -(n + 1).
pub data ℤ : Type 0 where
  pos : ℕ → ℤ
  negsuc : ℕ → ℤ

-- `0 < z`
abbrev pub is_pos : ℤ → Bool
is_pos (pos zero) = false
is_pos (pos (suc n)) = true
is_pos (negsuc n) = false

-- `max(0, z)`
abbrev pub to_nat : ℤ → ℕ
to_nat (pos n) = n
to_nat (negsuc n) = 0

-- `n > z`, for a length n
abbrev pub gtz : ℕ → ℤ → Bool
gtz n (pos m) = ltb m n
gtz n (negsuc m) = true

module _ {ℓ} {A : Type ℓ} where
  -- `xs[:z]` and `xs[z:]`: a negative bound counts from the end.
  abbrev pub slice_to : ℤ → List A → List A
  slice_to (pos n) xs = take n xs
  slice_to (negsuc n) xs = take (length xs - suc n) xs

  abbrev pub slice_from : ℤ → List A → List A
  slice_from (pos n) xs = drop n xs
  slice_from (negsuc n) xs = drop (length xs - suc n) xs

  pub slice_to-append-slice_from : (z : ℤ) (xs : List A) → slice_to z xs ++ slice_from z xs ≡ xs
  slice_to-append-slice_from (pos n) xs = take-append-drop n xs
  slice_to-append-slice_from (negsuc n) xs = take-append-drop (length xs - suc n) xs
