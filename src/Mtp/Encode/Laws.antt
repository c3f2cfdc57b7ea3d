-- ===== src/Mtp/Encode/Laws.antt =====
-- What ptp_str and build_object_info write is read back.
use usbip_python.Base.{
  ℕ, suc, ◌+◌, ◌*◌, ◌/◌, ◌%◌, ◌^◌, ◌≤◌, ◌<◌, ◌≡◌, ◌⊎◌, refl, sym, ap, ◌∙◌, arith, Bool, false, [],
  ◌∷◌, ◌++◌, none, some, ◌>>=◌, ◌==◌, length, take, drop, get_elem?, All, take-all, take-append_eq,
  length-append,
}
use usbip_python.Struct.{Bytes, to_le, from_le, little}
use usbip_python.Core.Text.{Text, utf16, utf16_char}
use usbip_python.Mtp.Encode.{
  ptp_str, decode_unit, decode_utf16, before_nul, ptp_str_parse, object_info_head,
  build_object_info, ObjectInfo, parse_object_info, association,
}
use usbip_python.Struct.Int.{decode-encode}

-- A character of one UTF-16 unit that is not NUL.
abbrev pub IsPlain : ℕ → Type 0
IsPlain c = ((1 ≤ c) × (c < 0xD800)) ⊎ ((0xE000 ≤ c) × (c < 0x10000))

utf16_char-IsPlain : (c : ℕ) → IsPlain c → utf16_char c ≡ some (c % 256 ∷ c / 256 % 256 ∷ [])
unfolding utf16_char to_le
utf16_char-IsPlain c p = ground arith

decode_unit-IsPlain : (c : ℕ) → IsPlain c → decode_unit none c ≡ (c ∷ [], none)
unfolding decode_unit
decode_unit-IsPlain c p = ground arith

-- The units of a text of plain characters.
unfoldable pub units : Text → Bytes
units [] = []
units (c ∷ cs) = c % 256 ∷ c / 256 % 256 ∷ units cs

length-units : (t : Text) → length (units t) ≡ 2 * length t
unfolding units
length-units [] = refl
length-units (c ∷ cs) = omega (arith, length-units cs)

utf16-units : (t : Text) → All IsPlain t → utf16 t ≡ some (units t)
unfolding utf16 units
utf16-units [] p = refl
utf16-units (c ∷ cs) (p, ps) = rw (utf16_char-IsPlain c p, utf16-units cs ps) refl

decode_utf16-units :
    (t : Text) → All IsPlain t → before_nul (decode_utf16 none (units t ++ (0 ∷ 0 ∷ []))) ≡ t
unfolding decode_utf16 units before_nul decode_unit
decode_utf16-units [] p = refl
decode_utf16-units (c ∷ cs) (p, ps) =
    let unit : c % 256 + 256 * (c / 256 % 256) ≡ c = omega arith in
    let nonzero : (c == 0) ≡ false = ground arith in
    rw (unit, decode_unit-IsPlain c p, nonzero) (ap (◌∷◌ c) (decode_utf16-units cs ps))

get_elem?-append_length :
    (pre : Bytes) (x : ℕ) (ys : Bytes) → get_elem? (pre ++ (x ∷ ys)) (length pre) ≡ some x
get_elem?-append_length [] x ys = refl
get_elem?-append_length (p ∷ pre) x ys = get_elem?-append_length pre x ys

drop-append_suc :
    (pre : Bytes) (x : ℕ) (ys : Bytes) → drop (suc (length pre)) (pre ++ (x ∷ ys)) ≡ ys
drop-append_suc [] x ys = refl
drop-append_suc (p ∷ pre) x ys = drop-append_suc pre x ys

-- A text that the encoding keeps: plain characters, 254 at most.
abbrev pub Kept : Text → Type 0
Kept t = All IsPlain t × (length t ≤ 254)

-- The bytes of a kept text.
abbrev pub encoded : Text → Bytes
encoded [] = 0 ∷ []
encoded (c ∷ cs) = (length (c ∷ cs) + 1) ∷ (units (c ∷ cs) ++ (0 ∷ 0 ∷ []))

pub ptp_str-Kept : (t : Text) → Kept t → ptp_str t ≡ some (encoded t)
unfolding ptp_str
ptp_str-Kept [] k = refl
ptp_str-Kept (c ∷ cs) (p, n) =
    ap (λ (u : Text). utf16 u >>= (λ body. some ((length u + 1) ∷ (body ++ (0 ∷ 0 ∷ [])))))
      (take-all 254 (c ∷ cs) n)
    ∙ rw (utf16-units (c ∷ cs) p) refl

-- A kept text is read back, wherever it stands.
pub ptp_str_parse-encoded :
    (pre : Bytes) (t : Text) (rest : Bytes)
    → Kept t
    → ptp_str_parse (pre ++ (encoded t ++ rest)) (length pre)
      ≡ some (t, length pre + length (encoded t))
unfolding ptp_str_parse
ptp_str_parse-encoded pre [] rest k = rw (get_elem?-append_length pre 0 rest) refl
ptp_str_parse-encoded pre (c ∷ cs) rest (p, n) =
    let body = units (c ∷ cs) ++ (0 ∷ 0 ∷ []) in
    let k = length (c ∷ cs) + 1 in
    let size : length body ≡ 2 * k =
      omega (arith, length-append (units (c ∷ cs)) (0 ∷ 0 ∷ []), length-units (c ∷ cs)) in
    let next : length pre + 1 ≡ suc (length pre) = omega arith in
    let part : take (2 * k) (drop (length pre + 1) (pre ++ (k ∷ (body ++ rest)))) ≡ body =
      rw (next, drop-append_suc pre k (body ++ rest)) (take-append_eq (2 * k) body rest size) in
    let nonzero : (k == 0) ≡ false = ground arith in
    rw (get_elem?-append_length pre k (body ++ rest), nonzero, part, decode_utf16-units (c ∷ cs) p)
      (ap (λ (m : ℕ). some (c ∷ cs, m)) (omega (arith, size)))

length-object_info_head :
    (storage_id fmt size parent : ℕ) (is_dir : Bool)
    → length (object_info_head storage_id fmt size parent is_dir) ≡ 52
unfolding object_info_head to_le
length-object_info_head storage_id fmt size parent is_dir = refl

-- What a receiver reads back of a dataset that was built.
abbrev pub info : ℕ → ℕ → ℕ → Text → Bool → ObjectInfo
info fmt size parent name is_dir = record {
  fmt = fmt;
  size = size;
  parent = parent;
  assoc = association is_dir;
  name = name;
}

association-lt : (is_dir : Bool) → association is_dir < 65536
association-lt is_dir = ground arith

-- The fixed fields of the dataset.
abbrev fields : Bytes → Text → ObjectInfo
fields raw name = record {
  fmt = from_le (take 2 (drop 4 raw));
  size = from_le (take 4 (drop 8 raw));
  parent = from_le (take 4 (drop 38 raw));
  assoc = from_le (take 2 (drop 42 raw));
  name = name;
}

fields_lem :
    (storage_id fmt size parent : ℕ) (name : Text) (is_dir : Bool) (rest : Bytes)
    → fmt < 2 ^ 16
    → size < 2 ^ 32
    → parent < 2 ^ 32
    → fields (object_info_head storage_id fmt size parent is_dir ++ rest) name
      ≡ info fmt size parent name is_dir
unfolding object_info_head to_le
fields_lem storage_id fmt size parent name is_dir rest hf hs hp =
    let f = decode-encode little 2 fmt hf in
    let s = decode-encode little 4 size hs in
    let p = decode-encode little 4 parent hp in
    let a = decode-encode little 2 (association is_dir) (association-lt is_dir) in
    λ i. record { fmt = f i; size = s i; parent = p i; assoc = a i; name = name }

-- An ObjectInfo dataset that is built is read back: the format, the size, the parent, whether it is a
-- folder and the name, when they fit their fields and the two texts are kept.
pub parse_object_info-build_object_info :
    (storage_id fmt size parent : ℕ) (name : Text) (is_dir : Bool) (date : Text)
    → fmt < 2 ^ 16
    → size < 2 ^ 32
    → parent < 2 ^ 32
    → Kept name
    → Kept date
    → (build_object_info storage_id fmt size parent name is_dir date >>= parse_object_info)
      ≡ some (info fmt size parent name is_dir)
unfolding build_object_info parse_object_info ptp_str
parse_object_info-build_object_info storage_id fmt size parent name is_dir date hf hs hp kn kd =
    let head = object_info_head storage_id fmt size parent is_dir in
    let size_head = length-object_info_head storage_id fmt size parent is_dir in
    let rest = encoded date ++ (encoded date ++ (0 ∷ [])) in
    let parsed : ptp_str_parse (head ++ (encoded name ++ rest)) 52
        ≡ some (name, 52 + length (encoded name)) =
      rw (sym size_head) (ptp_str_parse-encoded head name rest kn) in
    rw (ptp_str-Kept name kn, ptp_str-Kept date kd, parsed)
      (ap some (fields_lem storage_id fmt size parent name is_dir (encoded name ++ rest) hf hs hp))
