-- ===== src/Core/Bos.antt =====
-- usbip/core.py: the BOS descriptor, its platform capabilities, and the WebUSB URL descriptor.
use Prim.Native.Nat.{bit_and}
use usbip_python.Base.{
  ℕ, ◌+◌, Option, some, List, [], ◌∷◌, ◌++◌, Bool, true, false, ◌&&◌, ◌==◌, if◌then◌else◌, length,
  drop, join, ◌>>=◌,
}
use usbip_python.Struct.{Bytes, little, pack}
use usbip_python.Core.{dt_bos}
use usbip_python.Core.Text.{Text, utf8}
use usbip_python.Core.MsOs.{codes, to_byte}

abbrev pub msos20_uuid : Bytes
msos20_uuid =
    0xDF ∷ 0x60 ∷ 0xDD ∷ 0xD8 ∷ 0x89 ∷ 0x45 ∷ 0xC7 ∷ 0x4C ∷ 0x9C ∷ 0xD2 ∷ 0x65 ∷ 0x9D ∷ 0x9E ∷ 0x64
    ∷ 0x8A ∷ 0x9F ∷ []

abbrev pub webusb_uuid : Bytes
webusb_uuid =
    0x38 ∷ 0xB6 ∷ 0x08 ∷ 0x34 ∷ 0xA9 ∷ 0x09 ∷ 0xA0 ∷ 0x47 ∷ 0x8B ∷ 0xFD ∷ 0xA0 ∷ 0x76 ∷ 0x88 ∷ 0x15
    ∷ 0xB6 ∷ 0x65 ∷ []

unfoldable pub msos2_platform_cap : ℕ → ℕ → Option Bytes
msos2_platform_cap vendor_code set_total_len = do
  tail ←
      pack little
        ((4, 0x06030000) ∷ (2, set_total_len) ∷ (1, bit_and vendor_code 0xFF) ∷ (1, 0) ∷ [])
  some ((28 ∷ 0x10 ∷ 0x05 ∷ 0x00 ∷ []) ++ (msos20_uuid ++ tail))

unfoldable pub webusb_platform_cap : ℕ → ℕ → Option Bytes
webusb_platform_cap vendor_code landing_page = do
  tail ←
      pack little
        ((2, 0x0100) ∷ (1, bit_and vendor_code 0xFF) ∷ (1, bit_and landing_page 0xFF) ∷ [])
  some ((24 ∷ 0x10 ∷ 0x05 ∷ 0x00 ∷ []) ++ (webusb_uuid ++ tail))

unfoldable pub starts_with : Text → Text → Bool
starts_with [] text = true
starts_with (c ∷ cs) [] = false
starts_with (c ∷ cs) (t ∷ ts) = c == t && starts_with cs ts

-- bScheme and the URL behind it.
unfoldable pub url_scheme : Text → ℕ × Text
unfolding starts_with
url_scheme url =
    if starts_with (codes "https://") url
    then (1, drop 8 url)
    else if starts_with (codes "http://") url
    then (0, drop 7 url)
    else (255, url)

unfoldable pub webusb_url : Text → Option Bytes
unfolding url_scheme to_byte
webusb_url url = do
  let (scheme, rest) = url_scheme url
  body ← utf8 rest
  size ← to_byte (3 + length body)
  some ((size ∷ 0x03 ∷ scheme ∷ []) ++ body)

unfoldable pub bos : List Bytes → Option Bytes
bos caps = do
  let body = join caps
  header ← pack little ((1, 5) ∷ (1, dt_bos) ∷ (2, 5 + length body) ∷ (1, length caps) ∷ [])
  some (header ++ body)
