-- ===== src/Struct/Int.antt =====
-- One field: encoding and decoding are inverse to each other.
use native.Mathlib.Nat.{pow-suc}
use mathlib.Core.List.{reverse-reverse, reverse-cons}
use usbip_python.Base.{
  ℕ, zero, suc, ◌+◌, ◌*◌, ◌/◌, ◌%◌, ◌^◌, ◌<◌, ◌≡◌, refl, sym, ap, ◌∙◌, arith, [], ◌∷◌, reverse,
  length, length-reverse, All, All-append, some, ℤ, pos, negsuc,
}
use usbip_python.Struct.{
  Bytes, IsByte, Order, little, big, to_le, from_le, encode, decode, to_word, of_word,
}

length-to_le : (k v : ℕ) → length (to_le k v) ≡ k
unfolding to_le
length-to_le zero v = refl
length-to_le (suc k) v = ap suc (length-to_le k (v / 256))

pub length-encode : (o : Order) (k v : ℕ) → length (encode o k v) ≡ k
length-encode little k v = length-to_le k v
length-encode big k v = length-reverse (to_le k v) ∙ length-to_le k v

from_le-to_le : (k v : ℕ) → v < 256 ^ k → from_le (to_le k v) ≡ v
unfolding to_le from_le
from_le-to_le zero v h = omega arith
from_le-to_le (suc k) v h = omega (arith, from_le-to_le k (v / 256) (omega (arith, pow-suc 256 k)))

pub decode-encode : (o : Order) (k v : ℕ) → v < 256 ^ k → decode o (encode o k v) ≡ v
decode-encode little k v h = from_le-to_le k v h
decode-encode big k v h = rw (reverse-reverse (to_le k v)) (from_le-to_le k v h)

to_le-from_le : (bs : Bytes) → All IsByte bs → to_le (length bs) (from_le bs) ≡ bs
unfolding to_le from_le
to_le-from_le [] h = refl
to_le-from_le (b ∷ bs) (hb, h) =
    let low : (b + 256 * from_le bs) % 256 ≡ b = omega arith in
    let high : (b + 256 * from_le bs) / 256 ≡ from_le bs = omega arith in
    rw (low, high) (ap (◌∷◌ b) (to_le-from_le bs h))

pub All-reverse : (bs : Bytes) → All IsByte bs → All IsByte (reverse bs)
All-reverse [] h = tt
All-reverse (b ∷ bs) (hb, h) =
    rw (reverse-cons b bs) (All-append IsByte (reverse bs) (b ∷ []) (All-reverse bs h) (hb, tt))

pub encode-decode :
    (o : Order) (bs : Bytes) → All IsByte bs → encode o (length bs) (decode o bs) ≡ bs
encode-decode little bs h = to_le-from_le bs h
encode-decode big bs h =
    rw (sym (length-reverse bs), to_le-from_le (reverse bs) (All-reverse bs h)) (reverse-reverse bs)

from_le-lt : (bs : Bytes) → All IsByte bs → from_le bs < 256 ^ length bs
unfolding from_le
from_le-lt [] h = omega arith
from_le-lt (b ∷ bs) (hb, h) = omega (arith, pow-suc 256 (length bs), from_le-lt bs h)

pub decode-lt : (o : Order) (bs : Bytes) → All IsByte bs → decode o bs < 256 ^ length bs
decode-lt little bs h = from_le-lt bs h
decode-lt big bs h = rw (sym (length-reverse bs)) (from_le-lt (reverse bs) (All-reverse bs h))

to_le-IsByte : (k v : ℕ) → All IsByte (to_le k v)
unfolding to_le
to_le-IsByte zero v = tt
to_le-IsByte (suc k) v = (omega arith, to_le-IsByte k (v / 256))

pub encode-IsByte : (o : Order) (k v : ℕ) → All IsByte (encode o k v)
encode-IsByte little k v = to_le-IsByte k v
encode-IsByte big k v = All-reverse (to_le k v) (to_le-IsByte k v)

-- A signed word is read back.
pub of_word-to_word : (z : ℤ) (w : ℕ) → to_word z ≡ some w → (of_word w ≡ z) × (w < 2 ^ 32)
unfolding to_word of_word
of_word-to_word (pos n) w h = (ground arith, ground arith)
of_word-to_word (negsuc n) w h = (ground arith, ground arith)

pub to_word-of_word : (w : ℕ) → w < 2 ^ 32 → to_word (of_word w) ≡ some w
unfolding to_word of_word
to_word-of_word w h = ground arith
