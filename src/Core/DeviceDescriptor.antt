-- ===== src/Core/DeviceDescriptor.antt =====
-- usbip/core.py, class DeviceDescriptor: the 18-byte device descriptor.
use usbip_python.Base.{
  ℕ, ◌≡◌, arith, refl, Option, none, some, List, [], ◌∷◌, ◌++◌, take, ◌>>=◌, length, sym, ◌∙◌,
}
use usbip_python.Struct.{Bytes, IsByte, Field, Fits, little}
use usbip_python.Struct
use usbip_python.Struct.Laws.{unpack-pack_prefix, length-pack, pack_first}
use usbip_python.Core.Walk.Laws.{IsDescriptor}
use usbip_python.Core.{dt_device}

pub record DeviceDescriptor : Type 0 where
  pub bcd_usb : ℕ
  pub b_device_class : ℕ
  pub b_device_sub_class : ℕ
  pub b_device_protocol : ℕ
  pub b_max_packet_size0 : ℕ
  pub id_vendor : ℕ
  pub id_product : ℕ
  pub bcd_device : ℕ
  pub i_manufacturer : ℕ
  pub i_product : ℕ
  pub i_serial_number : ℕ
  pub b_num_configurations : ℕ

-- What `pack` hands to `struct.pack`, bLength and bDescriptorType first.
abbrev pub device_fields : DeviceDescriptor → List Field
device_fields d =
    (1, 18)
    ∷ (1, dt_device)
    ∷ (2, d.bcd_usb)
    ∷ (1, d.b_device_class)
    ∷ (1, d.b_device_sub_class)
    ∷ (1, d.b_device_protocol)
    ∷ (1, d.b_max_packet_size0)
    ∷ (2, d.id_vendor)
    ∷ (2, d.id_product)
    ∷ (2, d.bcd_device)
    ∷ (1, d.i_manufacturer)
    ∷ (1, d.i_product)
    ∷ (1, d.i_serial_number)
    ∷ (1, d.b_num_configurations)
    ∷ []

unfoldable pub pack : DeviceDescriptor → Option Bytes
pack d = Struct.pack little (device_fields d)

abbrev of_values : List ℕ → Option DeviceDescriptor
of_values (_ ∷ _ ∷ v0 ∷ v1 ∷ v2 ∷ v3 ∷ v4 ∷ v5 ∷ v6 ∷ v7 ∷ v8 ∷ v9 ∷ v10 ∷ v11 ∷ []) =
    some (record {
      bcd_usb = v0;
      b_device_class = v1;
      b_device_sub_class = v2;
      b_device_protocol = v3;
      b_max_packet_size0 = v4;
      id_vendor = v5;
      id_product = v6;
      bcd_device = v7;
      i_manufacturer = v8;
      i_product = v9;
      i_serial_number = v10;
      b_num_configurations = v11;
    })
of_values _ = none

unfoldable pub parse : Bytes → Option DeviceDescriptor
parse raw =
    Struct.unpack little (1 ∷ 1 ∷ 2 ∷ 1 ∷ 1 ∷ 1 ∷ 1 ∷ 2 ∷ 2 ∷ 2 ∷ 1 ∷ 1 ∷ 1 ∷ 1 ∷ []) (take 18 raw)
    >>= of_values

pub length-pack_device : (d : DeviceDescriptor) {raw : Bytes} → pack d ≡ some raw → length raw ≡ 18
unfolding pack
length-pack_device d h = length-pack little (device_fields d) h

-- A packed descriptor is parsed back, whatever follows it in the buffer, and says its own length.
pub parse-pack_device :
    (d : DeviceDescriptor) (raw rest : Bytes)
    → pack d ≡ some raw
    → (parse (raw ++ rest) ≡ some d) × IsDescriptor raw
unfolding pack parse
parse-pack_device d raw rest h =
    let size : length raw ≡ 18 = length-pack little (device_fields d) h in
    (
      rw (unpack-pack_prefix little (device_fields d) raw rest h) refl,
      record { long = omega arith; counted = pack_first 18 _ h ∙ sym size },
    )
