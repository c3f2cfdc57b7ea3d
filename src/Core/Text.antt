-- ===== src/Core/Text.antt =====
-- usbip/core.py: the string descriptors. A text is the list of its code points.
use usbip_python.Base.{
  ℕ, ◌+◌, ◌-◌, ◌/◌, ◌%◌, ◌≡◌, arith, Option, none, some, List, [], ◌∷◌, ◌++◌, ltb, ◌&&◌, ◌||◌, leb,
  if◌then◌else◌, length, ◌>>=◌,
}
use usbip_python.Struct.{Bytes, to_le, little}
use usbip_python.Struct
use usbip_python.Core.{dt_string}
use usbip_python.Core.Walk.Laws.{IsDescriptor}

abbrev pub Text : Type 0
Text = List ℕ

-- `c.encode("utf-16-le")` of one character: a surrogate is refused, and what does not fit two
-- bytes becomes a pair of surrogates.
unfoldable pub utf16_char : ℕ → Option Bytes
utf16_char c =
    if ltb c 0xD800 || (leb 0xE000 c && ltb c 0x10000)
    then some (to_le 2 c)
    else if leb 0x10000 c && ltb c 0x110000
    then some (to_le 2 (0xD800 + (c - 0x10000) / 0x400) ++ to_le 2 (0xDC00 + (c - 0x10000) % 0x400))
    else none

unfoldable pub utf16 : Text → Option Bytes
unfolding utf16_char
utf16 [] = some []
utf16 (c ∷ cs) = do b ← utf16_char c; bs ← utf16 cs; some (b ++ bs)

-- `c.encode("utf-8")` of one character.
unfoldable pub utf8_char : ℕ → Option Bytes
utf8_char c =
    if ltb c 0x80
    then some (c ∷ [])
    else if ltb c 0x800
    then some ((0xC0 + c / 64) ∷ (0x80 + c % 64) ∷ [])
    else if ltb c 0xD800 || (leb 0xE000 c && ltb c 0x10000)
    then some ((0xE0 + c / 4096) ∷ (0x80 + c / 64 % 64) ∷ (0x80 + c % 64) ∷ [])
    else if leb 0x10000 c && ltb c 0x110000
    then some
        ((0xF0 + c / 262144) ∷ (0x80 + c / 4096 % 64) ∷ (0x80 + c / 64 % 64) ∷ (0x80 + c % 64) ∷ [])
    else none

unfoldable pub utf8 : Text → Option Bytes
unfolding utf8_char
utf8 [] = some []
utf8 (c ∷ cs) = do b ← utf8_char c; bs ← utf8 cs; some (b ++ bs)

-- `bytes([len(data) + 2, DT_STRING]) + data`: a length above 255 is refused.
unfoldable pub string_descriptor : Text → Option Bytes
string_descriptor text = do
  bs ← utf16 text
  if ltb (length bs + 2) 256 then some ((length bs + 2) ∷ dt_string ∷ bs) else none

unfoldable pub langid_descriptor : ℕ → Option Bytes
langid_descriptor lang = Struct.pack little ((1, 4) ∷ (1, dt_string) ∷ (2, lang) ∷ [])

-- A string descriptor says its own length.
pub string_descriptor-IsDescriptor :
    (text : Text) {d : Bytes} → string_descriptor text ≡ some d → IsDescriptor d
unfolding string_descriptor
string_descriptor-IsDescriptor text {d} h = ground arith
