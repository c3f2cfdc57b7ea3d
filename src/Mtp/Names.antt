-- ===== src/Mtp/Names.antt =====
-- usbip/classes/device/mtp.py: names and paths, how they compare, and the formats of their extensions.
use usbip_python.Base.{
  ℕ, ◌+◌, Bool, true, false, ◌&&◌, ◌||◌, List, [], ◌∷◌, ◌++◌, Option, none, some, ◌==◌,
  if◌then◌else◌, ltb, leb,
}
use usbip_python.Core.Text.{Text}
use usbip_python.Core.MsOs.{codes}
use usbip_python.Mtp.{fmt_undefined}

unfoldable pub same_text : Text → Text → Bool
same_text [] [] = true
same_text [] (d ∷ ds) = false
same_text (c ∷ cs) [] = false
same_text (c ∷ cs) (d ∷ ds) = c == d && same_text cs ds

-- How texts compare.
unfoldable pub text_le : Text → Text → Bool
text_le [] ds = true
text_le (c ∷ cs) [] = false
text_le (c ∷ cs) (d ∷ ds) = ltb c d || (c == d && text_le cs ds)

unfoldable pub insert_name : Text → List Text → List Text
unfolding text_le
insert_name t [] = t ∷ []
insert_name t (u ∷ us) = if text_le t u then t ∷ u ∷ us else u ∷ insert_name t us

-- sorted(names)
unfoldable pub sorted_names : List Text → List Text
unfolding insert_name
sorted_names [] = []
sorted_names (t ∷ ts) = insert_name t (sorted_names ts)

-- f"{relpath}/{name}" if relpath else name
unfoldable pub child_path : Text → Text → Text
child_path [] name = name
child_path (c ∷ cs) name = (c ∷ cs) ++ (0x2F ∷ name)

abbrev pub lower : ℕ → ℕ
lower c = if leb 0x41 c && leb c 0x5A then c + 0x20 else c

abbrev pub lower_text : Text → Text
lower_text [] = []
lower_text (c ∷ cs) = lower c ∷ lower_text cs

-- What follows the last dot, if there is one.
unfoldable pub extension : Text → Option Text
extension [] = none
extension (c ∷ cs) = elim (extension cs) [
  | none ↦ if c == 0x2E then some cs else none
  | some e ↦ some e
]

-- _FMT_BY_EXT, without the dots.
abbrev fmt_by_ext : List (Text × ℕ)
fmt_by_ext =
    (codes "txt", 0x3004)
    ∷ (codes "htm", 0x3005)
    ∷ (codes "html", 0x3005)
    ∷ (codes "wav", 0x3008)
    ∷ (codes "mp3", 0x3009)
    ∷ (codes "avi", 0x300A)
    ∷ (codes "mpg", 0x300B)
    ∷ (codes "mpeg", 0x300B)
    ∷ (codes "asf", 0x300C)
    ∷ (codes "jpg", 0x3801)
    ∷ (codes "jpeg", 0x3801)
    ∷ (codes "bmp", 0x3804)
    ∷ (codes "gif", 0x3807)
    ∷ (codes "png", 0x380B)
    ∷ (codes "tif", 0x380D)
    ∷ (codes "tiff", 0x380D)
    ∷ (codes "wma", 0xB901)
    ∷ (codes "ogg", 0xB902)
    ∷ (codes "aac", 0xB903)
    ∷ (codes "flac", 0xB906)
    ∷ (codes "wmv", 0xB981)
    ∷ (codes "mp4", 0xB982)
    ∷ (codes "m4a", 0xB982)
    ∷ (codes "3gp", 0xB984)
    ∷ (codes "xml", 0xBA82)
    ∷ (codes "doc", 0xBA83)
    ∷ (codes "xls", 0xBA85)
    ∷ []

unfoldable pub fmt_among : Text → List (Text × ℕ) → ℕ
unfolding same_text
fmt_among t [] = fmt_undefined
fmt_among t ((e, f) ∷ rest) = if same_text e t then f else fmt_among t rest

-- _fmt_of(name): no letter but an ASCII one becomes a letter of the table in lower case.
unfoldable pub fmt_of : Text → ℕ
unfolding extension fmt_among
fmt_of name = elim (extension name) [
  | none ↦ fmt_undefined
  | some e ↦ fmt_among (lower_text e) fmt_by_ext
]
