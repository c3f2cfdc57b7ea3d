-- ===== src/Core/ConfigurationDescriptor.antt =====
-- usbip/core.py, class ConfigurationDescriptor: the 9-byte configuration descriptor.
use usbip_python.Base.{
  ℕ, ◌≡◌, arith, refl, Option, none, some, List, [], ◌∷◌, ◌++◌, take, ◌>>=◌, length, sym, ◌∙◌,
}
use usbip_python.Struct.{Bytes, IsByte, Field, Fits, little}
use usbip_python.Struct
use usbip_python.Struct.Laws.{unpack-pack_prefix, length-pack, pack_first}
use usbip_python.Core.Walk.Laws.{IsDescriptor}
use usbip_python.Core.{dt_config}

pub record ConfigurationDescriptor : Type 0 where
  pub w_total_length : ℕ
  pub b_num_interfaces : ℕ
  pub b_configuration_value : ℕ
  pub i_configuration : ℕ
  pub bm_attributes : ℕ
  pub b_max_power : ℕ

-- What `pack` hands to `struct.pack`, bLength and bDescriptorType first.
abbrev pub configuration_fields : ConfigurationDescriptor → List Field
configuration_fields d =
    (1, 9)
    ∷ (1, dt_config)
    ∷ (2, d.w_total_length)
    ∷ (1, d.b_num_interfaces)
    ∷ (1, d.b_configuration_value)
    ∷ (1, d.i_configuration)
    ∷ (1, d.bm_attributes)
    ∷ (1, d.b_max_power)
    ∷ []

unfoldable pub pack : ConfigurationDescriptor → Option Bytes
pack d = Struct.pack little (configuration_fields d)

abbrev of_values : List ℕ → Option ConfigurationDescriptor
of_values (_ ∷ _ ∷ v0 ∷ v1 ∷ v2 ∷ v3 ∷ v4 ∷ v5 ∷ []) = some (record {
  w_total_length = v0;
  b_num_interfaces = v1;
  b_configuration_value = v2;
  i_configuration = v3;
  bm_attributes = v4;
  b_max_power = v5;
})
of_values _ = none

unfoldable pub parse : Bytes → Option ConfigurationDescriptor
parse raw = Struct.unpack little (1 ∷ 1 ∷ 2 ∷ 1 ∷ 1 ∷ 1 ∷ 1 ∷ 1 ∷ []) (take 9 raw) >>= of_values

pub length-pack_configuration :
    (d : ConfigurationDescriptor) {raw : Bytes} → pack d ≡ some raw → length raw ≡ 9
unfolding pack
length-pack_configuration d h = length-pack little (configuration_fields d) h

-- A packed descriptor is parsed back, whatever follows it in the buffer, and says its own length.
pub parse-pack_configuration :
    (d : ConfigurationDescriptor) (raw rest : Bytes)
    → pack d ≡ some raw
    → (parse (raw ++ rest) ≡ some d) × IsDescriptor raw
unfolding pack parse
parse-pack_configuration d raw rest h =
    let size : length raw ≡ 9 = length-pack little (configuration_fields d) h in
    (
      rw (unpack-pack_prefix little (configuration_fields d) raw rest h) refl,
      record { long = omega arith; counted = pack_first 9 _ h ∙ sym size },
    )
