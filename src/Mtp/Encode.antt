-- ===== src/Mtp/Encode.antt =====
-- usbip/classes/device/mtp.py: the encodings of PTP. `none` is an exception.
pub mod Laws
use usbip_python.Base.{
  ℕ, ◌+◌, ◌-◌, ◌*◌, Bool, true, false, ◌&&◌, List, [], ◌∷◌, ◌++◌, Option, none, some, ◌>>=◌, ◌==◌,
  if◌then◌else◌, ltb, leb, length, take, drop, get_elem?, map, join,
}
use usbip_python.Struct.{Bytes, to_le, from_le}
use usbip_python.Core.Text.{Text, utf16}

-- _u16, _u32 and _u64 keep the low bytes.
abbrev pub u16 : ℕ → Bytes
u16 v = to_le 2 v

abbrev pub u32 : ℕ → Bytes
u32 v = to_le 4 v

abbrev pub u64 : ℕ → Bytes
u64 v = to_le 8 v

-- ptp_str(text): the length byte counts characters, and the NUL.
unfoldable pub ptp_str : Text → Option Bytes
ptp_str [] = some (0 ∷ [])
ptp_str (c ∷ cs) = do
  body ← utf16 (take 254 (c ∷ cs))
  some ((length (take 254 (c ∷ cs)) + 1) ∷ (body ++ (0 ∷ 0 ∷ [])))

abbrev pub is_high : ℕ → Bool
is_high u = leb 0xD800 u && ltb u 0xDC00

abbrev pub is_low : ℕ → Bool
is_low u = leb 0xDC00 u && ltb u 0xE000

-- One unit of UTF-16 behind a high surrogate, or behind none: what it ends, and what it leaves.
unfoldable pub decode_unit : Option ℕ → ℕ → Text × Option ℕ
decode_unit none u =
    if is_high u then ([], some u) else if is_low u then (0xFFFD ∷ [], none) else (u ∷ [], none)
decode_unit (some h) u =
    if is_low u
    then ((0x10000 + (h - 0xD800) * 0x400 + (u - 0xDC00)) ∷ [], none)
    else if is_high u
    then (0xFFFD ∷ [], some u)
    else (0xFFFD ∷ u ∷ [], none)

-- raw.decode("utf-16-le", "replace")
unfoldable pub decode_utf16 : Option ℕ → Bytes → Text
unfolding decode_unit
decode_utf16 none [] = []
decode_utf16 (some h) [] = 0xFFFD ∷ []
decode_utf16 pending (b ∷ []) = 0xFFFD ∷ []
decode_utf16 pending (a ∷ b ∷ bs) =
    let (cs, pending') = decode_unit pending (a + 256 * b) in cs ++ decode_utf16 pending' bs

-- text.split("\x00", 1)[0]
unfoldable pub before_nul : Text → Text
before_nul [] = []
before_nul (c ∷ cs) = if c == 0 then [] else c ∷ before_nul cs

-- ptp_str_parse(buf, off): the text, and the offset behind it.
unfoldable pub ptp_str_parse : Bytes → ℕ → Option (Text × ℕ)
unfolding decode_utf16 before_nul
ptp_str_parse buf off = do
  nchars ← get_elem? buf off
  if nchars == 0
      then some ([], off + 1)
      else some (
        before_nul (decode_utf16 none (take (2 * nchars) (drop (off + 1) buf))),
        off + 1 + 2 * nchars,
      )

-- u16_array(items), u32_array(items)
unfoldable pub u16_array : List ℕ → Bytes
u16_array items = u32 (length items) ++ join (map u16 items)

unfoldable pub u32_array : List ℕ → Bytes
u32_array items = u32 (length items) ++ join (map u32 items)

abbrev pub association : Bool → ℕ
association is_dir = if is_dir then 1 else 0

-- The 52 bytes of the ObjectInfo dataset before its strings.
unfoldable pub object_info_head : ℕ → ℕ → ℕ → ℕ → Bool → Bytes
object_info_head storage_id fmt size parent is_dir =
    u32 storage_id
    ++ (u16 fmt
        ++ (u16 0
            ++ (u32 size
                ++ (u16 0
                    ++ (u32 0
                        ++ (u32 0
                            ++ (u32 0
                                ++ (u32 0
                                    ++ (u32 0
                                        ++ (u32 0
                                            ++ (u32 parent
                                                ++ (u16 (association is_dir)
                                                    ++ (u32 0 ++ u32 0)))))))))))))

-- build_object_info(storage_id, fmt, size, parent, name, is_dir, date)
unfoldable pub build_object_info : ℕ → ℕ → ℕ → ℕ → Text → Bool → Text → Option Bytes
unfolding object_info_head
build_object_info storage_id fmt size parent name is_dir date = do
  n ← ptp_str name
  d ← ptp_str date
  e ← ptp_str []
  some (object_info_head storage_id fmt size parent is_dir ++ (n ++ (d ++ (d ++ e))))

pub record ObjectInfo : Type 0 where
  pub fmt : ℕ
  pub size : ℕ
  pub parent : ℕ
  pub assoc : ℕ
  pub name : Text

-- parse_object_info(data)
unfoldable pub parse_object_info : Bytes → Option ObjectInfo
parse_object_info raw = do
  (name, _) ← ptp_str_parse raw 52
  some (record {
    fmt = from_le (take 2 (drop 4 raw));
    size = from_le (take 4 (drop 8 raw));
    parent = from_le (take 4 (drop 38 raw));
    assoc = from_le (take 2 (drop 42 raw));
    name = name;
  })
