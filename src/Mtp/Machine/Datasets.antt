-- ===== src/Mtp/Machine/Datasets.antt =====
-- usbip/classes/device/mtp.py: the builders of the datasets. `none` is an exception; of what may be None,
-- too, the inner `none` is None.
use usbip_python.Mtp.Machine.ObjectProps.{t_str, dt}
use usbip_python.Base.{
  ℕ, zero, suc, ◌+◌, ◌/◌, ◌%◌, min, List, [], ◌∷◌, ◌++◌, Option, none, some, ◌>>=◌, ◌==◌,
  if◌then◌else◌, ltb, map,
}
use usbip_python.Struct.{Bytes}
use usbip_python.Core.Text.{Text}
use usbip_python.Core.MsOs.{codes}
use usbip_python.Mtp.{
  Backend, Platform, all_ones, fmt_undefined, fmt_association, ev_object_added, ev_object_removed,
}
use usbip_python.Mtp.Encode.{u16, u32, u64, ptp_str, u16_array, build_object_info}
use usbip_python.Mtp.Storage.{Storage, Entry}
use usbip_python.Mtp.Storage.Query.{disk_usage, store_description}
use usbip_python.Mtp.Machine.{Mtp, Op, operations}

abbrev pub dpc_sync_partner : ℕ
dpc_sync_partner = 0xD401

abbrev pub dpc_friendly_name : ℕ
dpc_friendly_name = 0xD402

abbrev ev_store_added : ℕ
ev_store_added = 0x4004

-- A digit of `x`.
abbrev hex_digit : ℕ → ℕ
hex_digit d = if ltb d 10 then 0x30 + d else 0x57 + d

hex_digits : ℕ → ℕ → Text
hex_digits zero n = []
hex_digits (suc k) n = hex_digits k (n / 16) ++ (hex_digit (n % 16) ∷ [])

-- f"vol-{storage_id:08x}", of an id of 32 bits.
unfoldable pub volume_label : ℕ → Text
unfolding hex_digits
volume_label storage_id = codes "vol-" ++ hex_digits 8 storage_id

abbrev playback : List ℕ
playback = fmt_undefined ∷ fmt_association ∷ 0x3004 ∷ 0x3009 ∷ 0x3801 ∷ 0x380B ∷ 0xB982 ∷ []

abbrev op_codes : List (ℕ × Op) → List ℕ
op_codes rows = map (λ r. r.0) rows

prop_desc_of : ℕ → Option Text → Option (Option Bytes)
prop_desc_of pc none = some none
prop_desc_of pc (some text) = do
  cur ← ptp_str text
  some (some (u16 pc ++ (u16 t_str ++ (1 ∷ 0 ∷ (cur ++ (0 ∷ []))))))

prop_value_of : Option Text → Option (Option Bytes)
prop_value_of none = some none
prop_value_of (some text) = do v ← ptp_str text; some (some v)

module _ {B : Type 0} where
  -- _device_info()
  unfoldable pub device_info : Mtp B → Option Bytes
  unfolding ptp_str u16_array
  device_info s = do
    extension ← ptp_str (codes "microsoft.com: 1.0; android.com: 1.0;")
    manufacturer ← ptp_str s.manufacturer
    model ← ptp_str s.model
    version ← ptp_str (codes "1.0")
    serial ← ptp_str s.serial
    some (
        u16 100
        ++ (u32 6
            ++ (u16 100
                ++ (extension
                    ++ (u16 0
                        ++ (u16_array (op_codes operations)
                            ++ (u16_array
                                  (ev_object_added ∷ ev_object_removed ∷ ev_store_added ∷ [])
                                ++ (u16_array (dpc_friendly_name ∷ dpc_sync_partner ∷ [])
                                    ++ (u16_array []
                                        ++ (u16_array playback
                                            ++ (manufacturer
                                                ++ (model ++ (version ++ serial)))))))))))))

  device_prop : Mtp B → ℕ → Option Text
  device_prop s pc =
      if pc == dpc_friendly_name
      then some s.friendly_name
      else if pc == dpc_sync_partner
      then some s.sync_partner
      else none

  -- _device_prop_desc(pc)
  unfoldable pub device_prop_desc : Mtp B → ℕ → Option (Option Bytes)
  unfolding device_prop prop_desc_of
  device_prop_desc s pc = prop_desc_of pc (device_prop s pc)

  -- _device_prop_value(pc)
  unfoldable pub device_prop_value : Mtp B → ℕ → Option (Option Bytes)
  unfolding device_prop prop_value_of
  device_prop_value s pc = prop_value_of (device_prop s pc)

or_zeros : Option (ℕ × ℕ) → ℕ × ℕ
or_zeros none = (0, 0)
or_zeros (some u) = u

-- _object_info(obj)
unfoldable pub object_info : Platform → Entry → Option Bytes
unfolding build_object_info
object_info platform e =
    build_object_info e.storage e.fmt (min e.size all_ones) e.parent e.name e.is_dir
      (dt platform e.mtime)

module _ {B : Type 0} (backend : Backend B) where
  -- _storage_info(storage_id)
  unfoldable pub storage_info : Storage B → ℕ → Option Bytes
  unfolding or_zeros disk_usage store_description volume_label
  storage_info s storage_id = do
    let (total, free) = or_zeros (disk_usage backend s storage_id)
    description ← ptp_str (store_description backend s storage_id)
    label ← ptp_str (volume_label storage_id)
    some (
        u16 3
        ++ (u16 2
            ++ (u16 (if s.read_only then 1 else 0)
                ++ (u64 total ++ (u64 free ++ (u32 all_ones ++ (description ++ label)))))))
