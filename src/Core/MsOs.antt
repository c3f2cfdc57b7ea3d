-- ===== src/Core/MsOs.antt =====
-- usbip/core.py: the Microsoft OS 1.0 and 2.0 descriptors.
use Prim.Native.Nat.{bit_and}
use Prim.Native.Char.{code}
use Prim.Native.String.{String}
use usbip_python.Base.{
  ℕ, ◌+◌, Option, none, some, List, [], ◌∷◌, ◌++◌, ltb, if◌then◌else◌, length, take, drop,
  replicate, ljust, ◌>>=◌,
}
use usbip_python.Struct.{Bytes, little}
use usbip_python.Struct.{pack}
use usbip_python.Core.{dt_string}
use usbip_python.Core.Text.{Text, utf16}

-- The code points of a literal of the source.
abbrev pub codes : String → Text
codes String.[] = []
codes (String.◌∷◌ c s) = code c ∷ codes s

-- `bytes((b,))`
unfoldable pub to_byte : ℕ → Option ℕ
to_byte b = if ltb b 256 then some b else none

unfoldable pub ms_os1_string : ℕ → Option Bytes
ms_os1_string vendor_code = do
  name ← utf16 (codes "MSFT100")
  some ((0x12 ∷ dt_string ∷ []) ++ (name ++ (bit_and vendor_code 0xFF ∷ 0x00 ∷ [])))

-- `compat[:8].ljust(8, b"\x00")`
abbrev pub padded_id : Bytes → Bytes
padded_id compat = ljust 8 0 (take 8 compat)

unfoldable pub compatid_section : ℕ → Bytes → Option Bytes
unfolding to_byte
compatid_section first compat = do
  b ← to_byte first
  some ((b ∷ 0x01 ∷ []) ++ (padded_id compat ++ (replicate 8 0 ++ replicate 6 0)))

unfoldable pub compatid_body : List (ℕ × Bytes) → Option Bytes
unfolding compatid_section
compatid_body [] = some []
compatid_body ((first, compat) ∷ rest) = do
  s ← compatid_section first compat
  more ← compatid_body rest
  some (s ++ more)

unfoldable pub ms_os1_compatid : List (ℕ × Bytes) → Option Bytes
unfolding compatid_body
ms_os1_compatid sections = do
  body ← compatid_body sections
  header ←
      pack little ((4, 16 + length body) ∷ (2, 0x0100) ∷ (2, 0x0004) ∷ (1, length sections) ∷ [])
  some ((header ++ replicate 7 0) ++ body)

-- With no GUID the set is empty.
unfoldable pub ms_os1_extprops : Option Text → Option Bytes
ms_os1_extprops none = pack little ((4, 10) ∷ (2, 0x0100) ∷ (2, 0x0005) ∷ (2, 0) ∷ [])
ms_os1_extprops (some guid) = do
  name ← utf16 (codes "DeviceInterfaceGUID" ++ (0 ∷ []))
  value ← utf16 (guid ++ (0 ∷ []))
  start ← pack little ((4, 0) ∷ (4, 1) ∷ (2, length name) ∷ [])
  size ← pack little ((4, length value) ∷ [])
  let draft = start ++ (name ++ (size ++ value))
  total ← pack little ((4, length draft) ∷ [])
  let section = total ++ drop 4 draft
  header ← pack little ((4, 10 + length section) ∷ (2, 0x0100) ∷ (2, 0x0005) ∷ (2, 1) ∷ [])
  some (header ++ section)

-- The registry property of a feature block, if there is a GUID.
unfoldable pub ms_os2_regprop : Option Text → Option Bytes
ms_os2_regprop none = some []
ms_os2_regprop (some guid) = do
  name ← utf16 (codes "DeviceInterfaceGUIDs" ++ (0 ∷ []))
  value ← utf16 (guid ++ (0 ∷ 0 ∷ []))
  start ← pack little ((2, 0x07) ∷ (2, length name) ∷ [])
  size ← pack little ((2, length value) ∷ [])
  let body = start ++ (name ++ (size ++ value))
  header ← pack little ((2, 4 + length body) ∷ (2, 0x04) ∷ [])
  some (header ++ body)

unfoldable pub ms_os2_feature : Bytes → Option Text → Option Bytes
unfolding ms_os2_regprop
ms_os2_feature compatible guid = do
  header ← pack little ((2, 0x14) ∷ (2, 0x03) ∷ [])
  regprop ← ms_os2_regprop guid
  some ((header ++ (padded_id compatible ++ replicate 8 0)) ++ regprop)

unfoldable pub set_header : Bytes → Option Bytes
set_header body = do
  header ← pack little ((2, 10) ∷ (2, 0x00) ∷ (4, 0x06030000) ∷ (2, 10 + length body) ∷ [])
  some (header ++ body)

unfoldable pub ms_os2_set : Bytes → Option Text → Option Bytes
unfolding ms_os2_feature set_header
ms_os2_set compatible guid = do body ← ms_os2_feature compatible guid; set_header body

-- An entry is (first_interface, compatible, guid).
abbrev pub Entry : Type 0
Entry = ℕ × Bytes × Option Text

unfoldable pub function_subsets : List Entry → Option Bytes
unfolding ms_os2_feature
function_subsets [] = some []
function_subsets ((first, compatible, guid) ∷ rest) = do
  body ← ms_os2_feature compatible guid
  header ← pack little ((2, 8) ∷ (2, 0x0002) ∷ (1, first) ∷ (1, 0) ∷ (2, 8 + length body) ∷ [])
  more ← function_subsets rest
  some ((header ++ body) ++ more)

unfoldable pub ms_os2_set_subsets : List Entry → Option Bytes
unfolding function_subsets set_header
ms_os2_set_subsets entries = do
  subsets ← function_subsets entries
  header ← pack little ((2, 8) ∷ (2, 0x0001) ∷ (1, 0) ∷ (1, 0) ∷ (2, 8 + length subsets) ∷ [])
  set_header (header ++ subsets)
