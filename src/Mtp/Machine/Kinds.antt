-- ===== src/Mtp/Machine/Kinds.antt =====
-- usbip/classes/device/mtp.py, MTP._dispatch: which operations have data, and in which direction.
pub mod Operations
use usbip_python.Base.{
  ℕ, ◌≡◌, ◌≢◌, refl, arith, Bool, true, false, List, [], ◌∷◌, Option, none, some, ◌>>=◌, OnReturn,
  bind-OnReturn, if-OnReturn, if◌then◌else◌, ◌==◌, length,
}
use usbip_python.Struct.{Bytes}
use usbip_python.Core.Text.{Text}
use usbip_python.Mtp.{
  Backend, Platform, rc_ok, rc_general_error, rc_invalid_object_handle, rc_store_read_only,
  rc_session_not_open, rc_invalid_storage_id, rc_object_prop_not_supported, rc_session_already_open,
}
use usbip_python.Mtp.Storage.{Storage, Entry}
use usbip_python.Mtp.Storage.Query.{is_some, index_among}
use usbip_python.Mtp.Storage.Edit.{delete, rename, copy, truncate}
use usbip_python.Mtp.Machine.{Mtp, Op, Params, Outcome, Effect, responds, sends, notifies, receives}
use usbip_python.Mtp.Machine.Datasets.{storage_info}
use usbip_python.Mtp.Machine.Execute.{
  refuses, gives, gives_or, begin_session, info_of, content_of, part_of, deleted, prop_of, moves,
  copies, changed, truncates, begins_for_file, begins_sending, offset_64, execute, perform,
  is_open_to_all,
}

-- The operations with a data-out phase.
abbrev pub TakesData : Op → Type 0
TakesData Op.send_object_info = Unit {0}
TakesData Op.send_object = Unit {0}
TakesData Op.set_device_prop_value = Unit {0}
TakesData Op.set_object_prop_value = Unit {0}
TakesData Op.send_partial_object = Unit {0}
TakesData _ = ⊥

-- The operations that succeed with a response alone.
abbrev pub HasNoData : Op → Type 0
HasNoData Op.open_session = Unit {0}
HasNoData Op.close_session = Unit {0}
HasNoData Op.get_num_objects = Unit {0}
HasNoData Op.move_object = Unit {0}
HasNoData Op.copy_object = Unit {0}
HasNoData Op.truncate_object = Unit {0}
HasNoData Op.begin_edit_object = Unit {0}
HasNoData Op.end_edit_object = Unit {0}
HasNoData _ = ⊥

-- The operations that succeed with data for the host.
abbrev pub GivesData : Op → Type 0
GivesData Op.get_device_info = Unit {0}
GivesData Op.get_storage_ids = Unit {0}
GivesData Op.get_storage_info = Unit {0}
GivesData Op.get_object_handles = Unit {0}
GivesData Op.get_object_info = Unit {0}
GivesData Op.get_object = Unit {0}
GivesData Op.get_partial_object = Unit {0}
GivesData Op.get_device_prop_desc = Unit {0}
GivesData Op.get_device_prop_value = Unit {0}
GivesData Op.get_object_props_supported = Unit {0}
GivesData Op.get_object_prop_desc = Unit {0}
GivesData Op.get_object_prop_value = Unit {0}
GivesData Op.get_object_prop_list = Unit {0}
GivesData Op.get_object_references = Unit {0}
GivesData Op.get_partial_object_64 = Unit {0}
GivesData _ = ⊥

-- What a handler of the operation may call.
pub data Fits (op : Op) : Outcome → Type 0 where
  refused : (rc : ℕ) (ps : List ℕ) → rc ≢ rc_ok → Fits op (responds rc ps)
  passed : (ps : List ℕ) → HasNoData op → Fits op (responds rc_ok ps)
  gave : (payload : Bytes) (ps : List ℕ) → GivesData op → Fits op (sends payload ps)
  removed :
      (ps : List ℕ) (ev : ℕ) (es : List ℕ) → op ≡ Op.delete_object → Fits op (notifies ps ev es)
  began : TakesData op → Fits op receives

module _ {B : Type 0} where
  abbrev pub FitsOp : Op → Mtp B × Outcome → Type 0
  FitsOp op (s, o) = Fits op o

  refuses-Fits : (s : Mtp B) (op : Op) (rc : ℕ) → rc ≢ rc_ok → OnReturn (FitsOp op) (refuses s rc)
  refuses-Fits s op rc n = refused rc [] n

  gives-Fits :
      (s : Mtp B) (op : Op) (payload : Option Bytes)
      → GivesData op
      → OnReturn (FitsOp op) (gives s payload)
  unfolding gives
  gives-Fits s op none d = tt
  gives-Fits s op (some bs) d = gave bs [] d

  gives_or-Fits :
      (s : Mtp B) (op : Op) (rc : ℕ) (payload : Option Bytes)
      → rc ≢ rc_ok
      → GivesData op
      → OnReturn (FitsOp op) (gives_or s rc payload)
  unfolding gives_or
  gives_or-Fits s op rc none n d = refused rc [] n
  gives_or-Fits s op rc (some bs) n d = gave bs [] d

  maybe-Fits :
      (s : Mtp B) (op : Op) (rc : ℕ) (found : Option (Option Bytes))
      → rc ≢ rc_ok
      → GivesData op
      → OnReturn (FitsOp op) (found >>= gives_or s rc)
  maybe-Fits s op rc none n d = tt
  maybe-Fits s op rc (some payload) n d = gives_or-Fits s op rc payload n d

  begin_session-Fits : (s : Mtp B) (p0 : ℕ) → OnReturn (FitsOp Op.open_session) (begin_session s p0)
  unfolding begin_session
  begin_session-Fits s p0 =
      if-OnReturn (FitsOp Op.open_session) (s.session == 0) _ _
        (if-OnReturn (FitsOp Op.open_session) (p0 == 0) _ _ (refused _ [] (λ e. omega arith))
          (passed [] tt))
        (refused rc_session_already_open (s.session ∷ []) (λ e. omega arith))

  begins_for_file-Fits :
      (s : Mtp B) (op : Op) (e : Option Entry)
      → TakesData op
      → OnReturn (FitsOp op) (begins_for_file s e)
  unfolding begins_for_file
  begins_for_file-Fits s op none t = refused _ [] (λ e. omega arith)
  begins_for_file-Fits s op (some e) t =
      if-OnReturn (FitsOp op) e.is_dir _ _ (refused _ [] (λ e. omega arith)) (began t)

  begins_sending-Fits :
      (s : Mtp B) (target : Option ℕ) → OnReturn (FitsOp Op.send_object) (begins_sending s target)
  unfolding begins_sending
  begins_sending-Fits s none = refused _ [] (λ e. omega arith)
  begins_sending-Fits s (some h) = began tt

  writable-Fits :
      (s : Mtp B) (op : Op) (r : Effect B)
      → OnReturn (FitsOp op) r
      → OnReturn (FitsOp op) (if s.storage.read_only then refuses s rc_store_read_only else r)
  writable-Fits s op r h =
      if-OnReturn (FitsOp op) _ (refuses s rc_store_read_only) r (refused _ [] (λ e. omega arith)) h

  known-Fits :
      (s : Mtp B) (op : Op) (known : Bool)
      → HasNoData op
      → OnReturn (FitsOp op) (refuses s (if known then rc_ok else rc_invalid_object_handle))
  known-Fits s op true d = passed [] d
  known-Fits s op false d = refused _ [] (λ e. omega arith)
