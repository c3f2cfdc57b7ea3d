-- ===== src/Mtp/Machine/Receive.antt =====
-- usbip/classes/device/mtp.py, class MTP: what the data of a data-out phase does.
use usbip_python.Base.{
  ℕ, Bool, ◌||◌, List, [], ◌∷◌, Option, none, some, ◌>>=◌, ◌==◌, if◌then◌else◌, ltb, length,
  get_elem?,
}
use usbip_python.Struct.{Bytes}
use usbip_python.Core.Text.{Text}
use usbip_python.Mtp.{
  Backend, Platform, rc_ok, rc_general_error, rc_invalid_object_handle, rc_no_valid_object_info,
  rc_invalid_parent, rc_object_prop_not_supported, ev_object_added, fmt_association,
}
use usbip_python.Mtp.Encode.{ptp_str_parse, parse_object_info, ObjectInfo}
use usbip_python.Mtp.Storage.{Storage, Entry, object_at}
use usbip_python.Mtp.Storage.Query.{target, parent_dir, or_zero}
use usbip_python.Mtp.Storage.Edit.{make_dir, make_file, write_file, rename, pwrite}
use usbip_python.Mtp.Machine.{Mtp, Op, Params, Outcome, Effect, responds, notifies, with_storage}
use usbip_python.Mtp.Machine.Datasets.{dpc_friendly_name, dpc_sync_partner}
use usbip_python.Mtp.Machine.ObjectProps.{opc_filename, opc_name}
use usbip_python.Mtp.Machine.Execute.{refuses, offset_64}

-- The text of a property that is set: what raises is caught.
abbrev text_or_empty : Option (Text × ℕ) → Text
text_or_empty none = []
text_or_empty (some (t, _)) = t

-- What an object that was made answers: its handle, and an event when it has one.
abbrev pub announces : List ℕ → Option ℕ → Outcome
announces ps none = responds rc_ok ps
announces ps (some h) = if h == 0 then responds rc_ok ps else notifies ps ev_object_added (h ∷ [])

module _ {B : Type 0} where
  -- _recv_device_prop(txid, params, payload): the two codes differ, so at most one text is set.
  unfoldable pub recv_device_prop : Mtp B → Params → Bytes → Effect B
  recv_device_prop s p payload =
      let value = text_or_empty (ptp_str_parse payload 0) in
      refuses
        (record s {
          friendly_name = if p.p0 == dpc_friendly_name then value else s.friendly_name;
          sync_partner = if p.p0 == dpc_sync_partner then value else s.sync_partner;
        })
        rc_ok

  -- The object is made: a file is the target of the next SendObject.
  unfoldable pub made : Mtp B → ℕ → Bool → ℕ → Option ℕ × Storage B → Effect B
  made s p1 is_dir si (h, storage) = do
    storage_id ← get_elem? storage.storage_ids si
    some (
      record s { storage = storage; send_target = if is_dir then none else h },
      announces (storage_id ∷ p1 ∷ or_zero h ∷ []) h,
    )

  unfoldable pub answered : Mtp B → ℕ → ℕ → List ℕ → Bool × Storage B → Effect B
  answered s good bad ps (done, storage) =
      some (with_storage s storage, if done then responds good ps else responds bad [])

module _ {B : Type 0} (backend : Backend B) (platform : Platform) where
  unfoldable pub make : Mtp B → ℕ → ObjectInfo → Text → Option (ℕ × Text) → Effect B
  unfolding made
  make s p1 info [] tgt = refuses s rc_invalid_parent
  make s p1 info (c ∷ cs) none = refuses s rc_invalid_parent
  make s p1 info (c ∷ cs) (some (si, dir)) = do
    let is_dir = info.fmt == fmt_association
    r ← (if is_dir then make_dir else make_file) backend platform s.storage si dir (c ∷ cs)
    made s p1 is_dir si r

  -- _recv_object_info(txid, params, payload)
  unfoldable pub recv_object_info : Mtp B → Params → Bytes → Effect B
  unfolding make
  recv_object_info s p payload = if ltb (length payload) 52 then refuses s rc_general_error else (do
    info ← parse_object_info payload
    make s p.p1 info info.name (target s.storage p.p0 p.p1))

  unfoldable pub write_to : Mtp B → Bytes → ℕ → Option Entry → Effect B
  write_to s payload h none = refuses s rc_no_valid_object_info
  write_to s payload h (some e) = do
    storage ← write_file backend platform s.storage h payload
    some (with_storage s storage, notifies [] ev_object_added (h ∷ []))

  unfoldable pub write_target : Mtp B → Bytes → Option ℕ → Effect B
  unfolding write_to
  write_target s payload none = refuses s rc_no_valid_object_info
  write_target s payload (some h) = write_to s payload h (object_at h s.storage.objects)

  -- _recv_object(txid, payload)
  unfoldable pub recv_object : Mtp B → Bytes → Effect B
  unfolding write_target
  recv_object s payload = write_target (record s { send_target = none }) payload s.send_target

  unfoldable pub rename_to : Mtp B → ℕ → Text → ℕ × Text → Effect B
  unfolding answered
  rename_to s h [] dir = refuses s rc_general_error
  rename_to s h (c ∷ cs) (si, dir) = do
    r ← rename backend platform s.storage h si dir (c ∷ cs)
    answered s rc_ok rc_general_error [] r

  unfoldable pub set_prop : Mtp B → ℕ → ℕ → Bytes → Option Entry → Effect B
  unfolding rename_to
  set_prop s h pc payload none = refuses s rc_invalid_object_handle
  set_prop s h pc payload (some e) =
      if pc == opc_filename || pc == opc_name
      then (do
        (name, _) ← ptp_str_parse payload 0
        dir ← parent_dir s.storage h
        rename_to s h name dir)
      else refuses s rc_object_prop_not_supported

  -- _recv_set_object_prop(txid, params, payload)
  unfoldable pub recv_set_object_prop : Mtp B → Params → Bytes → Effect B
  unfolding set_prop
  recv_set_object_prop s p payload = set_prop s p.p0 p.p1 payload (object_at p.p0 s.storage.objects)

  -- _recv_send_partial(txid, params, payload)
  unfoldable pub recv_send_partial : Mtp B → Params → Bytes → Effect B
  unfolding answered
  recv_send_partial s p payload = do
    r ← pwrite backend platform s.storage p.p0 (offset_64 p.p1 p.p2) payload
    answered s rc_ok rc_invalid_object_handle (length payload ∷ []) r

  -- The handler of the operation that asked for the data: none of the others does.
  abbrev pub receive : Mtp B → Op → Params → Bytes → Option (Effect B)
  receive s Op.send_object_info p payload = some (recv_object_info s p payload)
  receive s Op.send_object p payload = some (recv_object s payload)
  receive s Op.set_device_prop_value p payload = some (recv_device_prop s p payload)
  receive s Op.set_object_prop_value p payload = some (recv_set_object_prop s p payload)
  receive s Op.send_partial_object p payload = some (recv_send_partial s p payload)
  receive s _ p payload = none
