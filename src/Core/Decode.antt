-- ===== src/Core/Decode.antt =====
-- `bytes.decode(errors="replace")` of Python: UTF-8, with U+FFFD for each ill-formed part.
use usbip_python.Base.{
  ℕ, ◌+◌, ◌-◌, ◌*◌, ◌≤◌, ◌<◌, ◌≡◌, refl, ap, ◌&&◌, [], ◌∷◌, ◌++◌, some, ltb, leb, ◌==◌,
  if◌then◌else◌, All, lt→ltb,
}
use usbip_python.Struct.{Bytes}
use usbip_python.Core.Text.{Text, utf8, utf8_char}

-- Inside a sequence: how many bytes are to come, the code point so far, and the range that the next
-- byte has to be in.
pub record Pending : Type 0 where
  pub needed : ℕ
  pub point : ℕ
  pub lower : ℕ
  pub upper : ℕ

abbrev between : Pending
between = record { needed = 0; point = 0; lower = 0x80; upper = 0xBF }

abbrev replacement : ℕ
replacement = 0xFFFD

-- A byte that begins a character.
unfoldable pub begin_char : ℕ → Text × Pending
begin_char b =
    if ltb b 0x80
    then (b ∷ [], between)
    else if leb 0xC2 b && leb b 0xDF
    then ([], record between { needed = 1; point = b - 0xC0 })
    else if leb 0xE0 b && leb b 0xEF
    then (
      [],
      record {
        needed = 2;
        point = b - 0xE0;
        lower = if b == 0xE0 then 0xA0 else 0x80;
        upper = if b == 0xED then 0x9F else 0xBF;
      },
    )
    else if leb 0xF0 b && leb b 0xF4
    then (
      [],
      record {
        needed = 3;
        point = b - 0xF0;
        lower = if b == 0xF0 then 0x90 else 0x80;
        upper = if b == 0xF4 then 0x8F else 0xBF;
      },
    )
    else (replacement ∷ [], between)

-- One byte: the characters that it completes.
unfoldable pub step : Pending → ℕ → Text × Pending
unfolding begin_char
step s b =
    let point = s.point * 64 + (b - 0x80) in
    let (text, next) = begin_char b in
    if s.needed == 0
    then (text, next)
    else if leb s.lower b && leb b s.upper
    then (if s.needed == 1
        then (point ∷ [], between)
        else ([], record between { needed = s.needed - 1; point = point }))
    else (replacement ∷ text, next)

unfoldable pub decode_from : Pending → Bytes → Text
unfolding step
decode_from s [] = if s.needed == 0 then [] else replacement ∷ []
decode_from s (b ∷ bs) = let (text, s') = step s b in text ++ decode_from s' bs

unfoldable pub decode_text : Bytes → Text
unfolding decode_from
decode_text bs = decode_from between bs

-- A text of ASCII characters, none of them NUL.
abbrev pub IsAscii : Text → Type 0
IsAscii t = All (λ c. (1 ≤ c) × (c < 0x80)) t

pub decode-ascii : (t : Text) → IsAscii t → decode_text t ≡ t
unfolding decode_text decode_from step begin_char
decode-ascii [] a = refl
decode-ascii (c ∷ cs) ((lo, hi), a) = rw (lt→ltb c 0x80 hi) (ap (◌∷◌ c) (decode-ascii cs a))

pub utf8-ascii : (t : Text) → IsAscii t → utf8 t ≡ some t
unfolding utf8 utf8_char
utf8-ascii [] a = refl
utf8-ascii (c ∷ cs) ((lo, hi), a) = rw (lt→ltb c 0x80 hi, utf8-ascii cs a) refl
