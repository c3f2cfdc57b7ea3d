-- ===== src/Mtp/Machine/Execute.antt =====
-- usbip/classes/device/mtp.py, MTP._dispatch: what each operation does behind the session gate.
use Prim.Native.Nat.{bit_or}
use usbip_python.Base.{
  ℕ, ◌*◌, ◌^◌, Bool, true, false, [], ◌∷◌, Option, none, some, ◌>>=◌, ◌==◌, if◌then◌else◌, length,
}
use usbip_python.Struct.{Bytes}
use usbip_python.Core.Text.{Text}
use usbip_python.Mtp.{
  Backend, Platform, rc_ok, rc_general_error, rc_session_not_open, rc_operation_not_supported,
  rc_invalid_storage_id, rc_invalid_object_handle, rc_deviceprop_not_supported, rc_store_read_only,
  rc_no_valid_object_info, rc_invalid_parent, rc_invalid_parameter, rc_session_already_open,
  rc_invalid_object_prop_code, rc_object_prop_not_supported, ev_object_removed,
}
use usbip_python.Mtp.Encode.{u16_array, u32_array}
use usbip_python.Mtp.Storage.{Storage, Entry, object_at}
use usbip_python.Mtp.Storage.Query.{list_handles, target, read, is_some, index_among}
use usbip_python.Mtp.Storage.Edit.{delete, rename, copy, truncate}
use usbip_python.Mtp.Machine.{
  Mtp, Op, Params, Effect, responds, sends, notifies, receives, with_storage,
}
use usbip_python.Mtp.Machine.Datasets.{
  device_info, storage_info, object_info, device_prop_desc, device_prop_value,
}
use usbip_python.Mtp.Machine.ObjectProps.{prop, prop_list, object_prop_desc, object_prop_list}

-- Whether the operation needs no session.
abbrev pub is_open_to_all : Op → Bool
is_open_to_all Op.get_device_info = true
is_open_to_all Op.open_session = true
is_open_to_all _ = false

-- low | (high << 32)
abbrev pub offset_64 : ℕ → ℕ → ℕ
offset_64 low high = bit_or low (high * 2 ^ 32)

module _ {B : Type 0} where
  -- self._resp(rc, txid)
  abbrev pub refuses : Mtp B → ℕ → Effect B
  refuses s rc = some (s, responds rc [])

  -- self._data_ok(code, txid, payload), of a payload that may raise.
  unfoldable pub gives : Mtp B → Option Bytes → Effect B
  gives s payload = do bs ← payload; some (s, sends bs [])

  -- The payload, or a response where it is None.
  unfoldable pub gives_or : Mtp B → ℕ → Option Bytes → Effect B
  gives_or s rc none = refuses s rc
  gives_or s rc (some bs) = some (s, sends bs [])

  abbrev pub begins_unless_read_only : Mtp B → Effect B
  begins_unless_read_only s =
      if s.storage.read_only then refuses s rc_store_read_only else some (s, receives)

  unfoldable pub begins_sending : Mtp B → Option ℕ → Effect B
  begins_sending s none = refuses s rc_no_valid_object_info
  begins_sending s (some h) = some (s, receives)

  unfoldable pub begins_for_file : Mtp B → Option Entry → Effect B
  begins_for_file s none = refuses s rc_invalid_object_handle
  begins_for_file s (some e) =
      if e.is_dir then refuses s rc_invalid_object_handle else some (s, receives)

  -- OpenSession
  unfoldable pub begin_session : Mtp B → ℕ → Effect B
  begin_session s p0 =
      if s.session == 0
      then if p0 == 0
        then refuses s rc_invalid_parameter
        else some (record s { session = p0 }, responds rc_ok [])
      else some (s, responds rc_session_already_open (s.session ∷ []))

module _ {B : Type 0} (backend : Backend B) (platform : Platform) where
  unfoldable pub info_of : Mtp B → Option Entry → Effect B
  unfolding gives
  info_of s none = refuses s rc_invalid_object_handle
  info_of s (some e) = gives s (object_info platform e)

  -- GetObject: the content of a file.
  unfoldable pub content_of : Mtp B → ℕ → Option Entry → Effect B
  unfolding gives
  content_of s h none = refuses s rc_invalid_object_handle
  content_of s h (some e) =
      if e.is_dir
      then refuses s rc_invalid_object_handle
      else gives s (read backend s.storage h 0 none)

  -- GetPartialObject and GetPartialObject64
  unfoldable pub part_of : Mtp B → ℕ → ℕ → ℕ → Option Entry → Effect B
  part_of s h off size none = refuses s rc_invalid_object_handle
  part_of s h off size (some e) = if e.is_dir then refuses s rc_invalid_object_handle else (do
    chunk ← read backend s.storage h off (some size)
    some (s, sends chunk (length chunk ∷ [])))

  unfoldable pub deleted : Mtp B → ℕ → Bool × Storage B → Effect B
  deleted s h (done, storage) = some (
    with_storage s storage,
    if done then notifies [] ev_object_removed (h ∷ []) else responds rc_invalid_object_handle [],
  )

  unfoldable pub prop_of : Mtp B → ℕ → Option Entry → Effect B
  unfolding gives_or
  prop_of s pc none = refuses s rc_invalid_object_handle
  prop_of s pc (some e) = do
    pv ← prop platform s.storage e pc
    gives_or s rc_object_prop_not_supported (do (_, value) ← pv; some value)

  -- What a change of the store answers: RC_OK, or the code.
  unfoldable pub changed : Mtp B → ℕ → Bool × Storage B → Effect B
  changed s rc (done, storage) =
      some (with_storage s storage, responds (if done then rc_ok else rc) [])

  unfoldable pub moves : Mtp B → ℕ → Option Entry → Option (ℕ × Text) → Effect B
  unfolding changed
  moves s h none tgt = refuses s rc_invalid_object_handle
  moves s h (some e) none = refuses s rc_invalid_parent
  moves s h (some e) (some (si, dir)) = do
    r ← rename backend platform s.storage h si dir e.name
    changed s rc_general_error r

  unfoldable pub copies : Mtp B → ℕ → Option Entry → Option (ℕ × Text) → Effect B
  copies s h none tgt = refuses s rc_invalid_object_handle
  copies s h (some e) none = refuses s rc_invalid_parent
  copies s h (some e) (some (si, dir)) = do
    (g, storage) ← copy backend platform s.storage h si dir e.name
    some (with_storage s storage, responds rc_ok (g ∷ []))

  unfoldable pub truncates : Mtp B → ℕ → ℕ → Option Entry → Effect B
  unfolding changed
  truncates s h size none = refuses s rc_invalid_object_handle
  truncates s h size (some e) =
      if e.is_dir
      then refuses s rc_invalid_object_handle
      else (do r ← truncate backend platform s.storage h size; changed s rc_general_error r)

  -- The operations, with a session or without.
  unfoldable pub execute : Mtp B → Op → Params → Effect B
  unfolding gives gives_or begins_sending begin_session info_of content_of part_of deleted prop_of
      moves copies begins_for_file truncates
  execute s Op.get_device_info p = gives s (device_info s)
  execute s Op.open_session p = begin_session s p.p0
  execute s Op.close_session p = some (record s { session = 0 }, responds rc_ok [])
  execute s Op.get_storage_ids p = gives s (some (u32_array s.storage.storage_ids))
  execute s Op.get_storage_info p =
      if is_some (index_among p.p0 s.storage.storage_ids)
      then gives s (storage_info backend s.storage p.p0)
      else refuses s rc_invalid_storage_id
  execute s Op.get_num_objects p =
      some (s, responds rc_ok (length (list_handles s.storage p.p0 p.p1 p.p2) ∷ []))
  execute s Op.get_object_handles p =
      gives s (some (u32_array (list_handles s.storage p.p0 p.p1 p.p2)))
  execute s Op.get_object_info p = info_of s (object_at p.p0 s.storage.objects)
  execute s Op.get_object p = content_of s p.p0 (object_at p.p0 s.storage.objects)
  execute s Op.delete_object p =
      if s.storage.read_only
      then refuses s rc_store_read_only
      else (do r ← delete backend platform s.storage p.p0; deleted s p.p0 r)
  execute s Op.send_object_info p = begins_unless_read_only s
  execute s Op.send_object p =
      if s.storage.read_only then refuses s rc_store_read_only else begins_sending s s.send_target
  execute s Op.get_partial_object p = part_of s p.p0 p.p1 p.p2 (object_at p.p0 s.storage.objects)
  execute s Op.get_device_prop_desc p =
      device_prop_desc s p.p0 >>= gives_or s rc_deviceprop_not_supported
  execute s Op.get_device_prop_value p =
      device_prop_value s p.p0 >>= gives_or s rc_deviceprop_not_supported
  execute s Op.set_device_prop_value p = some (s, receives)
  execute s Op.get_object_props_supported p = gives s (some (u16_array prop_list))
  execute s Op.get_object_prop_desc p =
      gives_or s rc_invalid_object_prop_code (object_prop_desc p.p0)
  execute s Op.get_object_prop_value p = prop_of s p.p1 (object_at p.p0 s.storage.objects)
  execute s Op.get_object_prop_list p = gives s (object_prop_list platform s.storage p)
  execute s Op.get_object_references p = gives s (some (u32_array []))
  execute s Op.move_object p =
      if s.storage.read_only
      then refuses s rc_store_read_only
      else moves s p.p0 (object_at p.p0 s.storage.objects) (target s.storage p.p1 p.p2)
  execute s Op.copy_object p =
      if s.storage.read_only
      then refuses s rc_store_read_only
      else copies s p.p0 (object_at p.p0 s.storage.objects) (target s.storage p.p1 p.p2)
  execute s Op.set_object_prop_value p = begins_unless_read_only s
  execute s Op.get_partial_object_64 p =
      part_of s p.p0 (offset_64 p.p1 p.p2) p.p3 (object_at p.p0 s.storage.objects)
  execute s Op.send_partial_object p =
      if s.storage.read_only
      then refuses s rc_store_read_only
      else begins_for_file s (object_at p.p0 s.storage.objects)
  execute s Op.truncate_object p =
      if s.storage.read_only
      then refuses s rc_store_read_only
      else truncates s p.p0 (offset_64 p.p1 p.p2) (object_at p.p0 s.storage.objects)
  execute s Op.begin_edit_object p =
      refuses s
        (if is_some (object_at p.p0 s.storage.objects) then rc_ok else rc_invalid_object_handle)
  execute s Op.end_edit_object p =
      refuses s
        (if is_some (object_at p.p0 s.storage.objects) then rc_ok else rc_invalid_object_handle)
  execute s Op.unsupported p = refuses s rc_operation_not_supported

  -- The session gate, and the operation behind it.
  unfoldable pub perform : Mtp B → Op → Params → Effect B
  unfolding execute
  perform s op p =
      if is_open_to_all op
      then execute s op p
      else if s.session == 0
      then refuses s rc_session_not_open
      else execute s op p
