-- ===== src/Mtp/Machine/ObjectProps.antt =====
-- usbip/classes/device/mtp.py: the properties of objects and their datasets. `none` is an exception; of what
-- may be None, too, the inner `none` is None.
use usbip_python.Base.{
  ℕ, ◌+◌, ◌||◌, List, [], ◌∷◌, ◌++◌, Option, none, some, ◌>>=◌, ◌==◌, if◌then◌else◌, map, replicate,
}
use usbip_python.Struct.{Bytes}
use usbip_python.Core.Text.{Text, utf8_char}
use usbip_python.Mtp.{Platform, all_ones}
use usbip_python.Mtp.Encode.{u16, u32, u64, ptp_str}
use usbip_python.Mtp.Storage.{Storage, Entry, Objects, object_at}
use usbip_python.Mtp.Storage.Query.{list_handles, descendants, sorted_handles}
use usbip_python.Mtp.Machine.{Params}

abbrev pub t_str : ℕ
t_str = 0xFFFF

abbrev pub opc_filename : ℕ
opc_filename = 0xDC07

abbrev pub opc_name : ℕ
opc_name = 0xDC44

-- PROP_TYPE, in the order of PROP_LIST.
abbrev prop_types : List (ℕ × ℕ)
prop_types =
    (0xDC01, 0x0006)
    ∷ (0xDC02, 0x0004)
    ∷ (0xDC03, 0x0004)
    ∷ (0xDC04, 0x0008)
    ∷ (opc_filename, t_str)
    ∷ (0xDC09, t_str)
    ∷ (0xDC0B, 0x0006)
    ∷ (0xDC41, 0x000A)
    ∷ (opc_name, t_str)
    ∷ []

abbrev firsts : List (ℕ × ℕ) → List ℕ
firsts rows = map (λ r. r.0) rows

-- PROP_LIST
unfoldable pub prop_list : List ℕ
prop_list = firsts prop_types

type_among : ℕ → List (ℕ × ℕ) → Option ℕ
type_among pc [] = none
type_among pc ((c, dtype) ∷ rest) = if c == pc then some dtype else type_among pc rest

-- TYPE_SIZES, of the types of the table.
abbrev type_size : ℕ → ℕ
type_size dtype =
    if dtype == 0x0002
    then 1
    else if dtype == 0x0004
    then 2
    else if dtype == 0x0006
    then 4
    else if dtype == 0x0008
    then 8
    else 16

-- _zero_value(dtype)
unfoldable pub zero_value : ℕ → Bytes
zero_value dtype = if dtype == t_str then 0 ∷ [] else replicate (type_size dtype) 0

desc_of : ℕ → Option ℕ → Option Bytes
unfolding zero_value
desc_of pc none = none
desc_of pc (some dtype) = some (
    u16 pc
    ++ (u16 dtype
        ++ ((if pc == opc_filename || pc == opc_name then 1 else 0)
            ∷ (zero_value dtype ++ (u32 0 ++ (0 ∷ []))))))

-- _object_prop_desc(pc): None is `none`.
unfoldable pub object_prop_desc : ℕ → Option Bytes
unfolding desc_of type_among
object_prop_desc pc = desc_of pc (type_among pc prop_types)

-- path.encode("utf-8", "replace")
or_question : Option Bytes → Bytes
or_question none = 0x3F ∷ []
or_question (some bs) = bs

unfoldable pub utf8_replace : Text → Bytes
unfolding or_question utf8_char
utf8_replace [] = []
utf8_replace (c ∷ cs) = or_question (utf8_char c) ++ utf8_replace cs

-- _dt(epoch)
abbrev pub dt : Platform → ℕ → Text
dt platform epoch = if epoch == 0 then [] else platform.local_time epoch

text_prop : Text → Option (Option (ℕ × Bytes))
text_prop t = do v ← ptp_str t; some (some (t_str, v))

-- The rows of an object, and how many they are.
row_of : ℕ → ℕ → Option (ℕ × Bytes) → ℕ × Bytes
row_of h pc none = (0, [])
row_of h pc (some (dtype, value)) = (1, u32 h ++ (u16 pc ++ (u16 dtype ++ value)))

abbrev joined : ℕ × Bytes → ℕ × Bytes → ℕ × Bytes
joined a b = (a.0 + b.0, a.1 ++ b.1)

-- The objects of a format: a handle that is not there raises.
unfoldable pub of_format : Objects → ℕ → List ℕ → Option (List ℕ)
of_format m fmt [] = some []
of_format m fmt (h ∷ hs) = do
  e ← object_at h m
  rest ← of_format m fmt hs
  some (if e.fmt == fmt then h ∷ rest else rest)

abbrev filtered : Objects → ℕ → List ℕ → Option (List ℕ)
filtered m fmt hs = if fmt == 0 then some hs else of_format m fmt hs

module _ {B : Type 0} (platform : Platform) where
  -- _prop(obj, pc)
  unfoldable pub prop : Storage B → Entry → ℕ → Option (Option (ℕ × Bytes))
  unfolding text_prop utf8_replace
  prop s e pc =
      if pc == 0xDC01
      then some (some (0x0006, u32 e.storage))
      else if pc == 0xDC02
      then some (some (0x0004, u16 e.fmt))
      else if pc == 0xDC03
      then some (some (0x0004, u16 (if s.read_only then 1 else 0)))
      else if pc == 0xDC04
      then some (some (0x0008, u64 e.size))
      else if pc == opc_filename
      then text_prop e.name
      else if pc == 0xDC09
      then text_prop (dt platform e.mtime)
      else if pc == 0xDC0B
      then some (some (0x0006, u32 e.parent))
      else if pc == 0xDC41
      then some (some (0x000A, platform.md5 (utf8_replace e.path)))
      else if pc == opc_name
      then text_prop e.name
      else some none

  prop_rows : Storage B → ℕ → Entry → List ℕ → Option (ℕ × Bytes)
  unfolding row_of prop
  prop_rows s h e [] = some (0, [])
  prop_rows s h e (pc ∷ pcs) = do
    pv ← prop s e pc
    rest ← prop_rows s h e pcs
    some (joined (row_of h pc pv) rest)

  entry_rows : Storage B → ℕ → List ℕ → Option Entry → Option (ℕ × Bytes)
  unfolding prop_rows
  entry_rows s h pcs none = some (0, [])
  entry_rows s h pcs (some e) = prop_rows s h e pcs

  object_rows : Storage B → List ℕ → List ℕ → Option (ℕ × Bytes)
  unfolding entry_rows object_at
  object_rows s pcs [] = some (0, [])
  object_rows s pcs (h ∷ hs) = do
    rows ← entry_rows s h pcs (object_at h s.objects)
    rest ← object_rows s pcs hs
    some (joined rows rest)

  listed : Storage B → ℕ → ℕ → List ℕ
  listed s h depth =
      if h == all_ones
      then sorted_handles (map (λ r. r.0) s.objects)
      else if h == 0
      then list_handles s all_ones 0 all_ones
      else h ∷ (if depth == all_ones then descendants s h else [])

  -- _object_prop_list(params)
  unfoldable pub object_prop_list : Storage B → Params → Option Bytes
  unfolding listed object_rows of_format prop_list
  object_prop_list s p = do
    hs ← filtered s.objects p.p1 (listed s p.p0 p.p4)
    (count, out) ← object_rows s (if p.p2 == 0 || p.p2 == all_ones then prop_list else p.p2 ∷ []) hs
    some (u32 count ++ out)
