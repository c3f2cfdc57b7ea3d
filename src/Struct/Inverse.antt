-- ===== src/Struct/Inverse.antt =====
-- The other direction: the fields that `unpack` reads pack to the same bytes.
use usbip_python.Base.{
  ℕ, zero, suc, ◌≡◌, refl, arith, List, [], ◌∷◌, length, length-drop, length-take, take, drop,
  take-append-drop, All, some,
}
use usbip_python.Struct.{
  Bytes, IsByte, Order, Field, encode, decode, pack, sum, unpack_fields, unpack, Fits,
}
use usbip_python.Struct.Int.{encode-decode, decode-lt}
use usbip_python.Struct.Laws.{encode_all, pack-Fits_lem}

-- The fields of a format beside the values read.
unfoldable pub fields : List ℕ → List ℕ → List Field
fields [] vs = []
fields (k ∷ ks) [] = []
fields (k ∷ ks) (v ∷ vs) = (k, v) ∷ fields ks vs

pub All-take : (n : ℕ) (bs : Bytes) → All IsByte bs → All IsByte (take n bs)
All-take zero bs h = tt
All-take (suc n) [] h = tt
All-take (suc n) (b ∷ bs) h = (h.0, All-take n bs h.1)

pub All-drop : (n : ℕ) (bs : Bytes) → All IsByte bs → All IsByte (drop n bs)
All-drop zero bs h = h
All-drop (suc n) [] h = tt
All-drop (suc n) (b ∷ bs) h = All-drop n bs h.1

pub Fits-fields :
    (o : Order) (ks : List ℕ) (raw : Bytes)
    → All IsByte raw
    → length raw ≡ sum ks
    → Fits (fields ks (unpack_fields o ks raw))
unfolding fields unpack_fields
Fits-fields o [] raw h e = tt
Fits-fields o (k ∷ ks) raw h e =
    let size : length (take k raw) ≡ k = omega (arith, length-take k raw) in
    (
      rw size at (decode-lt o (take k raw) (All-take k raw h)),
      Fits-fields o ks (drop k raw) (All-drop k raw h) (omega (arith, length-drop k raw)),
    )

encode_all-fields :
    (o : Order) (ks : List ℕ) (raw : Bytes)
    → All IsByte raw
    → length raw ≡ sum ks
    → encode_all o (fields ks (unpack_fields o ks raw)) ≡ raw
unfolding fields unpack_fields encode_all
encode_all-fields o [] [] h e = refl
encode_all-fields o [] (b ∷ raw) h e = absurd (omega arith)
encode_all-fields o (k ∷ ks) raw h e =
    let size : length (take k raw) ≡ k = omega (arith, length-take k raw) in
    let field : encode o k (decode o (take k raw)) ≡ take k raw =
      rw size at (encode-decode o (take k raw) (All-take k raw h)) in
    rw
      (
        field,
        encode_all-fields o ks (drop k raw) (All-drop k raw h) (omega (arith, length-drop k raw)),
      )
      (take-append-drop k raw)

pub length-unpack :
    (o : Order) (ks : List ℕ) (raw : Bytes) {vs : List ℕ}
    → unpack o ks raw ≡ some vs
    → length raw ≡ sum ks
unfolding unpack
length-unpack o ks raw h = ground arith

pub unpack-fields :
    (o : Order) (ks : List ℕ) (raw : Bytes) {vs : List ℕ}
    → unpack o ks raw ≡ some vs
    → vs ≡ unpack_fields o ks raw
unfolding unpack
unpack-fields o ks raw h = ground arith

-- Packing what `unpack` read from bytes gives the bytes again.
pub pack-unpack :
    (o : Order) (ks : List ℕ) (raw : Bytes) (vs : List ℕ)
    → All IsByte raw
    → unpack o ks raw ≡ some vs
    → pack o (fields ks vs) ≡ some raw
pack-unpack o ks raw vs h e =
    let size : length raw ≡ sum ks = length-unpack o ks raw e in
    rw (
      unpack-fields o ks raw e,
      pack-Fits_lem o _ (Fits-fields o ks raw h size),
      encode_all-fields o ks raw h size,
    )
