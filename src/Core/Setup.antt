-- ===== src/Core/Setup.antt =====
-- usbip/core.py, class Setup: the 8-byte SETUP packet.
use Prim.Native.Nat.{bit_and}
use usbip_python.Base.{
  ℕ, ◌/◌, ◌^◌, ◌≡◌, refl, Option, none, some, List, [], ◌∷◌, ◌++◌, ◌==◌, if◌then◌else◌, take, ◌>>=◌,
  All, >>=-some, ap,
}
use mathlib.Core.Option.{some-injective}
use usbip_python.Struct.{Bytes, IsByte, Field, Fits, little}
use usbip_python.Struct
use usbip_python.Struct.Laws.{unpack-pack_prefix}
use usbip_python.Struct.Inverse.{fields, pack-unpack, All-take}
use usbip_python.Core.{dir_out, dir_in}

pub record Setup : Type 0 where
  pub bm_request_type : ℕ
  pub b_request : ℕ
  pub w_value : ℕ
  pub w_index : ℕ
  pub w_length : ℕ

abbrev pub setup_fields : Setup → List Field
setup_fields s =
    (1, s.bm_request_type)
    ∷ (1, s.b_request)
    ∷ (2, s.w_value)
    ∷ (2, s.w_index)
    ∷ (2, s.w_length)
    ∷ []

unfoldable pub pack : Setup → Option Bytes
pack s = Struct.pack little (setup_fields s)

abbrev of_values : List ℕ → Option Setup
of_values (rt ∷ rq ∷ v ∷ i ∷ l ∷ []) =
    some (record { bm_request_type = rt; b_request = rq; w_value = v; w_index = i; w_length = l })
of_values _ = none

unfoldable pub parse : Bytes → Option Setup
parse raw = Struct.unpack little (1 ∷ 1 ∷ 2 ∷ 2 ∷ 2 ∷ []) (take 8 raw) >>= of_values

unfoldable pub direction : Setup → ℕ
direction s = if bit_and s.bm_request_type 0x80 == 0 then dir_out else dir_in

-- `(bmRequestType >> 5) & 0x03`
unfoldable pub type : Setup → ℕ
type s = bit_and (s.bm_request_type / 2 ^ 5) 0x03

unfoldable pub recipient : Setup → ℕ
recipient s = bit_and s.bm_request_type 0x1F

-- A packed SETUP packet is parsed back, whatever follows it in the buffer.
pub parse-pack_setup :
    (s : Setup) (raw rest : Bytes) → pack s ≡ some raw → parse (raw ++ rest) ≡ some s
unfolding pack parse
parse-pack_setup s raw rest h = rw (unpack-pack_prefix little (setup_fields s) raw rest h) refl

parse_values :
    (vs : List ℕ) {s : Setup}
    → of_values vs ≡ some s
    → fields (1 ∷ 1 ∷ 2 ∷ 2 ∷ 2 ∷ []) vs ≡ setup_fields s
unfolding fields
parse_values (a ∷ b ∷ c ∷ d ∷ e ∷ []) h = ap setup_fields (some-injective _ _ h)
parse_values _ h = cc

-- Packing a parsed SETUP packet gives back the eight bytes that it was parsed from.
pub pack-parse_setup :
    (raw : Bytes) (s : Setup) → All IsByte raw → parse raw ≡ some s → pack s ≡ some (take 8 raw)
unfolding pack parse
pack-parse_setup raw s bytes h =
    let (vs, u, v) =
      >>=-some (Struct.unpack little (1 ∷ 1 ∷ 2 ∷ 2 ∷ 2 ∷ []) (take 8 raw)) of_values h in
    rw (← parse_values vs v)
      (pack-unpack little (1 ∷ 1 ∷ 2 ∷ 2 ∷ 2 ∷ []) (take 8 raw) vs (All-take 8 raw bytes) u)
