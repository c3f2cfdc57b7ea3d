-- ===== src/Struct.antt =====
-- Python's `struct`, as the program uses it: unsigned fields of 1, 2 or 4 bytes (B, H, I) in
-- either byte order, and the signed 4-byte field (i), packed as its two's complement word.
-- A byte is a number; `none` is a raised `struct.error`.
pub mod Int
pub mod Laws
pub mod Inverse
use usbip_python.Base.{
  ℕ, zero, suc, ◌+◌, ◌-◌, ◌*◌, ◌/◌, ◌%◌, ◌^◌, ◌<◌, Option, none, some, List, [], ◌∷◌, ◌++◌, map,
  reverse, ℤ, pos, negsuc, ltb, leb, ◌==◌, if◌then◌else◌, length, take, drop, ◌>>=◌,
}

abbrev pub Bytes : Type 0
Bytes = List ℕ

abbrev pub IsByte : ℕ → Type 0
IsByte b = b < 256

-- The first character of a format, `<` or `>`.
pub data Order : Type 0 where
  little big : Order

-- The k low bytes of v, the lowest first.
unfoldable pub to_le : ℕ → ℕ → Bytes
to_le zero v = []
to_le (suc k) v = (v % 256) ∷ to_le k (v / 256)

unfoldable pub from_le : Bytes → ℕ
from_le [] = 0
from_le (b ∷ bs) = b + 256 * from_le bs

abbrev pub encode : Order → ℕ → ℕ → Bytes
encode little k v = to_le k v
encode big k v = reverse (to_le k v)

abbrev pub decode : Order → Bytes → ℕ
decode little bs = from_le bs
decode big bs = from_le (reverse bs)

-- A field is its size in bytes and its value.
abbrev pub Field : Type 0
Field = ℕ × ℕ

unfoldable pub pack_field : Order → Field → Option Bytes
pack_field o (k, v) = if ltb v (256 ^ k) then some (encode o k v) else none

unfoldable pub pack : Order → List Field → Option Bytes
unfolding pack_field
pack o [] = some []
pack o (f ∷ fs) = do b ← pack_field o f; bs ← pack o fs; some (b ++ bs)

abbrev pub sum : List ℕ → ℕ
sum [] = 0
sum (n ∷ ns) = n + sum ns

unfoldable pub unpack_fields : Order → List ℕ → Bytes → List ℕ
unpack_fields o [] raw = []
unpack_fields o (k ∷ ks) raw = decode o (take k raw) ∷ unpack_fields o ks (drop k raw)

-- The buffer must have exactly the size of the format.
unfoldable pub unpack : Order → List ℕ → Bytes → Option (List ℕ)
unfolding unpack_fields
unpack o ks raw = if length raw == sum ks then some (unpack_fields o ks raw) else none

-- `i`: the word that a signed field is packed as, and back.
unfoldable pub to_word : ℤ → Option ℕ
to_word (pos n) = if ltb n (2 ^ 31) then some n else none
to_word (negsuc n) = if ltb n (2 ^ 31) then some (2 ^ 32 - 1 - n) else none

unfoldable pub of_word : ℕ → ℤ
of_word w = if ltb w (2 ^ 31) then pos w else negsuc (2 ^ 32 - 1 - w)

abbrev pub sizes : List Field → List ℕ
sizes [] = []
sizes ((k, v) ∷ fs) = k ∷ sizes fs

abbrev pub values : List Field → List ℕ
values [] = []
values ((k, v) ∷ fs) = v ∷ values fs

abbrev pub Fits : List Field → Type 0
Fits [] = Unit {0}
Fits ((k, v) ∷ fs) = (v < 256 ^ k) × Fits fs
