-- ===== src/HostMtp/Operations.antt =====
-- usbip/classes/host/mtp.py: the convenience operations of the host.
use Prim.Native.Nat.{bit_and}
use usbip_python.Base.{
  ℕ, ◌/◌, ◌^◌, List, [], ◌∷◌, Option, none, some, ◌==◌, if◌then◌else◌, length, get_or,
}
use usbip_python.Struct.{Bytes}
use usbip_python.Core.Text.{Text}
use usbip_python.Mtp.{fmt_undefined, fmt_association}
use usbip_python.Mtp.Encode.{ptp_str, build_object_info, parse_object_info, ObjectInfo}
use usbip_python.Mtp.Machine.ObjectProps.{opc_filename}
use usbip_python.HostMtp.{Handle, Drive, pure, or_raise, ok, ◌>>=◌}
use usbip_python.HostMtp.Datasets.{
  read_u32_array, DeviceInfo, parse_device_info, Props, parse_prop_list,
}

-- offset & 0xFFFFFFFF and offset >> 32
abbrev low : ℕ → ℕ
low v = bit_and v 0xFFFFFFFF

abbrev high : ℕ → ℕ
high v = v / 2 ^ 32

-- fmt or FMT_UNDEFINED, or FMT_ASSOCIATION
abbrev format_of : ℕ → ℕ
format_of fmt = if fmt == 0 then fmt_undefined else fmt

module _ {S : Type 0} (handle : Handle S) (patience : ℕ) where
  -- The data of an operation; no data is an error of what reads it.
  data_of : ℕ → List ℕ → Drive S Bytes
  data_of op ps = ok handle patience op ps none >>= λ r. or_raise r.1

  done : ℕ → List ℕ → Option Bytes → Drive S (Unit {0})
  done op ps data_out = ok handle patience op ps data_out >>= λ r. pure tt

  -- The first parameter, or 0.
  first : ℕ → List ℕ → Option Bytes → Drive S ℕ
  first op ps data_out = ok handle patience op ps data_out >>= λ r. pure (get_or r.0 0 0)

  set_session : ℕ → Drive S (Unit {0})
  set_session sid (d, s) = pure tt (record d { session = sid }, s)

  unfoldable pub open_session : ℕ → Drive S (Unit {0})
  unfolding done set_session
  open_session sid = done 0x1002 (sid ∷ []) none >>= λ _. set_session sid

  unfoldable pub close_session : Drive S (Unit {0})
  unfolding done set_session
  close_session = done 0x1003 [] none >>= λ _. set_session 0

  unfoldable pub fetch_device_info : Drive S DeviceInfo
  unfolding data_of
  fetch_device_info = data_of 0x1001 [] >>= λ raw. or_raise (parse_device_info raw)

  unfoldable pub storage_ids : Drive S (List ℕ)
  unfolding data_of
  storage_ids = data_of 0x1004 [] >>= λ raw. pure (read_u32_array raw)

  unfoldable pub num_objects : ℕ → ℕ → ℕ → Drive S ℕ
  unfolding first
  num_objects parent storage fmt = first 0x1006 (storage ∷ fmt ∷ parent ∷ []) none

  unfoldable pub object_handles : ℕ → ℕ → ℕ → Drive S (List ℕ)
  unfolding data_of
  object_handles parent storage fmt =
      data_of 0x1007 (storage ∷ fmt ∷ parent ∷ []) >>= λ raw. pure (read_u32_array raw)

  unfoldable pub fetch_object_info : ℕ → Drive S ObjectInfo
  unfolding data_of
  fetch_object_info h = data_of 0x1008 (h ∷ []) >>= λ raw. or_raise (parse_object_info raw)

  -- What returns the data, which may be None.
  fetched : ℕ → List ℕ → Drive S (Option Bytes)
  fetched op ps = ok handle patience op ps none >>= λ r. pure r.1

  unfoldable pub fetch_storage_info : ℕ → Drive S (Option Bytes)
  unfolding fetched
  fetch_storage_info storage_id = fetched 0x1005 (storage_id ∷ [])

  unfoldable pub get_object : ℕ → Drive S (Option Bytes)
  unfolding fetched
  get_object h = fetched 0x1009 (h ∷ [])

  unfoldable pub get_partial_object : ℕ → ℕ → ℕ → Drive S (Option Bytes)
  unfolding fetched
  get_partial_object h offset count = fetched 0x101B (h ∷ offset ∷ count ∷ [])

  unfoldable pub get_partial_object_64 : ℕ → ℕ → ℕ → Drive S (Option Bytes)
  unfolding fetched
  get_partial_object_64 h offset count = fetched 0x95C1 (h ∷ low offset ∷ high offset ∷ count ∷ [])

  unfoldable pub object_prop_value : ℕ → ℕ → Drive S (Option Bytes)
  unfolding fetched
  object_prop_value h pc = fetched 0x9803 (h ∷ pc ∷ [])

  unfoldable pub fetch_device_prop : ℕ → Drive S (Option Bytes)
  unfolding fetched
  fetch_device_prop pc = fetched 0x1015 (pc ∷ [])

  unfoldable pub fetch_prop_list : ℕ → ℕ → ℕ → Drive S Props
  unfolding data_of
  fetch_prop_list h fmt pc =
      data_of 0x9805 (h ∷ fmt ∷ pc ∷ 0 ∷ 0 ∷ []) >>= λ raw. or_raise (parse_prop_list raw)

  -- send_object_info(parent, name, size, fmt, storage): the handle that was reserved.
  unfoldable pub send_object_info : ℕ → Text → ℕ → ℕ → ℕ → Drive S ℕ
  send_object_info parent name size fmt storage =
      or_raise
        (build_object_info storage (format_of fmt) size parent name (fmt == fmt_association) [])
      >>= λ info. ok handle patience 0x100C (storage ∷ parent ∷ []) (some info) >>= λ r.
          pure (get_or r.0 2 0)

  unfoldable pub send_object : Bytes → Drive S (Unit {0})
  unfolding done
  send_object content = done 0x100D [] (some content)

  unfoldable pub create_file : ℕ → Text → Bytes → ℕ → Drive S ℕ
  unfolding send_object_info send_object
  create_file parent name content storage =
      send_object_info parent name (length content) 0 storage >>= λ h.
      send_object content >>= λ _. pure h

  unfoldable pub create_dir : ℕ → Text → ℕ → Drive S ℕ
  unfolding send_object_info
  create_dir parent name storage = send_object_info parent name 0 fmt_association storage

  unfoldable pub delete_object : ℕ → Drive S (Unit {0})
  unfolding done
  delete_object h = done 0x100B (h ∷ 0 ∷ []) none

  unfoldable pub set_object_prop_value : ℕ → ℕ → Bytes → Drive S (Unit {0})
  unfolding done
  set_object_prop_value h pc value = done 0x9804 (h ∷ pc ∷ []) (some value)

  unfoldable pub rename_object : ℕ → Text → Drive S (Unit {0})
  unfolding set_object_prop_value
  rename_object h name = or_raise (ptp_str name) >>= set_object_prop_value h opc_filename

  unfoldable pub move_object : ℕ → ℕ → ℕ → Drive S (Unit {0})
  unfolding done
  move_object h parent storage = done 0x1019 (h ∷ storage ∷ parent ∷ []) none

  unfoldable pub copy_object : ℕ → ℕ → ℕ → Drive S ℕ
  unfolding first
  copy_object h parent storage = first 0x101A (h ∷ storage ∷ parent ∷ []) none

  unfoldable pub begin_edit : ℕ → Drive S (Unit {0})
  unfolding done
  begin_edit h = done 0x95C4 (h ∷ []) none

  unfoldable pub end_edit : ℕ → Drive S (Unit {0})
  unfolding done
  end_edit h = done 0x95C5 (h ∷ []) none

  unfoldable pub truncate_object : ℕ → ℕ → Drive S (Unit {0})
  unfolding done
  truncate_object h size = done 0x95C3 (h ∷ low size ∷ high size ∷ []) none

  unfoldable pub send_partial_object : ℕ → ℕ → Bytes → Drive S ℕ
  unfolding first
  send_partial_object h offset content =
      first 0x95C2 (h ∷ low offset ∷ high offset ∷ length content ∷ []) (some content)
