-- ===== src/Struct/Laws.antt =====
-- A list of fields: what `pack` writes, when it succeeds, and that `unpack` reads it back.
use usbip_python.Base.{
  ℕ, ◌^◌, ◌<◌, ◌≡◌, refl, ap, ◌∙◌, arith, List, [], ◌∷◌, ◌++◌, length, length-append, All,
  All-append, some, append_assoc, append-nil, Option-cases, lt→ltb, inl, inr, take, take-append_eq,
  drop-append_eq, get_or, ==_refl,
}
use usbip_python.Struct.{
  Bytes, IsByte, Order, little, to_le, Field, encode, pack, sum, unpack_fields, unpack, sizes,
  values, Fits,
}
use usbip_python.Struct.Int.{length-encode, decode-encode, encode-IsByte}

-- The bytes of the fields, with no range check.
unfoldable pub encode_all : Order → List Field → Bytes
encode_all o [] = []
encode_all o ((k, v) ∷ fs) = encode o k v ++ encode_all o fs

pub length-encode_all : (o : Order) (fs : List Field) → length (encode_all o fs) ≡ sum (sizes fs)
unfolding encode_all
length-encode_all o [] = refl
length-encode_all o ((k, v) ∷ fs) = omega (
  arith,
  length-append (encode o k v) (encode_all o fs),
  length-encode o k v,
  length-encode_all o fs,
)

-- In range, `pack` writes them.
pub pack-Fits_lem : (o : Order) (fs : List Field) → Fits fs → pack o fs ≡ some (encode_all o fs)
unfolding pack encode_all
pack-Fits_lem o [] h = refl
pack-Fits_lem o ((k, v) ∷ fs) (hv, h) = rw (lt→ltb v (256 ^ k) hv, pack-Fits_lem o fs h)

-- Out of range, it raises.
pub pack-Fits : (o : Order) (fs : List Field) {raw : Bytes} → pack o fs ≡ some raw → Fits fs
unfolding pack
pack-Fits o [] h = tt
pack-Fits o ((k, v) ∷ fs) h = elim (Option-cases (pack o fs)) [
  | inl e ↦ ground arith
  | inr (bs, e) ↦ (ground arith, pack-Fits o fs e)
]

pub pack-encode_all :
    (o : Order) (fs : List Field) {raw : Bytes} → pack o fs ≡ some raw → raw ≡ encode_all o fs
pack-encode_all o fs h = cc (pack-Fits_lem o fs (pack-Fits o fs h))

pub unpack_fields-encode_all :
    (o : Order) (fs : List Field) (rest : Bytes)
    → Fits fs
    → unpack_fields o (sizes fs) (encode_all o fs ++ rest) ≡ values fs
unfolding unpack_fields encode_all
unpack_fields-encode_all o [] rest h = refl
unpack_fields-encode_all o ((k, v) ∷ fs) rest (hv, h) =
    let field = encode o k v in
    let more = encode_all o fs in
    rw
      (
        append_assoc field more rest,
        take-append_eq k field (more ++ rest) (length-encode o k v),
        drop-append_eq k field (more ++ rest) (length-encode o k v),
        decode-encode o k v hv,
      )
      (ap (◌∷◌ v) (unpack_fields-encode_all o fs rest h))

-- `unpack` reads back what `pack` wrote.
pub unpack-pack :
    (o : Order) (fs : List Field) (raw : Bytes)
    → pack o fs ≡ some raw
    → unpack o (sizes fs) raw ≡ some (values fs)
unfolding unpack
unpack-pack o fs raw h =
    rw (pack-encode_all o fs h, length-encode_all o fs, ==_refl (sum (sizes fs)))
      (ap some (rw append-nil at (unpack_fields-encode_all o fs [] (pack-Fits o fs h))))

-- The size of a format is the size of what it packs.
pub length-pack :
    (o : Order) (fs : List Field) {raw : Bytes} → pack o fs ≡ some raw → length raw ≡ sum (sizes fs)
length-pack o fs h = rw (pack-encode_all o fs h) (length-encode_all o fs)

pub encode_all-IsByte : (o : Order) (fs : List Field) → All IsByte (encode_all o fs)
unfolding encode_all
encode_all-IsByte o [] = tt
encode_all-IsByte o ((k, v) ∷ fs) =
    All-append IsByte (encode o k v) (encode_all o fs) (encode-IsByte o k v)
      (encode_all-IsByte o fs)

pub pack-IsByte :
    (o : Order) (fs : List Field) {raw : Bytes} → pack o fs ≡ some raw → All IsByte raw
pack-IsByte o fs h = rw (pack-encode_all o fs h) (encode_all-IsByte o fs)

-- It reads it back from a longer buffer, cut to the size of the format.
pub unpack-pack_prefix :
    (o : Order) (fs : List Field) (raw rest : Bytes)
    → pack o fs ≡ some raw
    → unpack o (sizes fs) (take (sum (sizes fs)) (raw ++ rest)) ≡ some (values fs)
unpack-pack_prefix o fs raw rest h =
    rw (take-append_eq (sum (sizes fs)) raw rest (length-pack o fs h)) (unpack-pack o fs raw h)

-- A first field of one byte is the first byte.
pub pack_first :
    (n : ℕ) (fs : List Field) {raw : Bytes}
    → pack little ((1, n) ∷ fs) ≡ some raw
    → get_or raw 0 0 ≡ n
unfolding encode_all to_le
pack_first n fs {raw} h =
    let fits : n < 256 ^ 1 = (pack-Fits little ((1, n) ∷ fs) h).0 in
    ap (λ (t : Bytes). get_or t 0 0) (pack-encode_all little ((1, n) ∷ fs) h) ∙ omega arith
