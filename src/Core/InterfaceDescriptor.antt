-- ===== src/Core/InterfaceDescriptor.antt =====
-- usbip/core.py, class InterfaceDescriptor: the 9-byte interface descriptor.
use usbip_python.Base.{
  ℕ, ◌≡◌, arith, refl, Option, none, some, List, [], ◌∷◌, ◌++◌, take, ◌>>=◌, length, sym, ◌∙◌,
}
use usbip_python.Struct.{Bytes, IsByte, Field, Fits, little}
use usbip_python.Struct
use usbip_python.Struct.Laws.{unpack-pack_prefix, length-pack, pack_first}
use usbip_python.Core.Walk.Laws.{IsDescriptor}
use usbip_python.Core.{dt_interface}

pub record InterfaceDescriptor : Type 0 where
  pub b_interface_number : ℕ
  pub b_alternate_setting : ℕ
  pub b_num_endpoints : ℕ
  pub b_interface_class : ℕ
  pub b_interface_sub_class : ℕ
  pub b_interface_protocol : ℕ
  pub i_interface : ℕ

-- What `pack` hands to `struct.pack`, bLength and bDescriptorType first.
abbrev pub interface_fields : InterfaceDescriptor → List Field
interface_fields d =
    (1, 9)
    ∷ (1, dt_interface)
    ∷ (1, d.b_interface_number)
    ∷ (1, d.b_alternate_setting)
    ∷ (1, d.b_num_endpoints)
    ∷ (1, d.b_interface_class)
    ∷ (1, d.b_interface_sub_class)
    ∷ (1, d.b_interface_protocol)
    ∷ (1, d.i_interface)
    ∷ []

unfoldable pub pack : InterfaceDescriptor → Option Bytes
pack d = Struct.pack little (interface_fields d)

abbrev of_values : List ℕ → Option InterfaceDescriptor
of_values (_ ∷ _ ∷ v0 ∷ v1 ∷ v2 ∷ v3 ∷ v4 ∷ v5 ∷ v6 ∷ []) = some (record {
  b_interface_number = v0;
  b_alternate_setting = v1;
  b_num_endpoints = v2;
  b_interface_class = v3;
  b_interface_sub_class = v4;
  b_interface_protocol = v5;
  i_interface = v6;
})
of_values _ = none

unfoldable pub parse : Bytes → Option InterfaceDescriptor
parse raw = Struct.unpack little (1 ∷ 1 ∷ 1 ∷ 1 ∷ 1 ∷ 1 ∷ 1 ∷ 1 ∷ 1 ∷ []) (take 9 raw) >>= of_values

pub length-pack_interface :
    (d : InterfaceDescriptor) {raw : Bytes} → pack d ≡ some raw → length raw ≡ 9
unfolding pack
length-pack_interface d h = length-pack little (interface_fields d) h

-- A packed descriptor is parsed back, whatever follows it in the buffer, and says its own length.
pub parse-pack_interface :
    (d : InterfaceDescriptor) (raw rest : Bytes)
    → pack d ≡ some raw
    → (parse (raw ++ rest) ≡ some d) × IsDescriptor raw
unfolding pack parse
parse-pack_interface d raw rest h =
    let size : length raw ≡ 9 = length-pack little (interface_fields d) h in
    (
      rw (unpack-pack_prefix little (interface_fields d) raw rest h) refl,
      record { long = omega arith; counted = pack_first 9 _ h ∙ sym size },
    )
