-- ===== src/Mtp/Machine/Pending.antt =====
-- The operations leave the pending data-out phase as it is.
use usbip_python.Base.{
  ℕ, ◌≡◌, refl, Option, none, some, OnReturn, bind-OnReturn, if-OnReturn, if◌then◌else◌, ◌==◌,
}
use usbip_python.Core.Text.{Text}
use usbip_python.Mtp.{
  Backend, Platform, rc_invalid_object_handle, rc_store_read_only, rc_session_not_open,
}
use usbip_python.Mtp.Storage.{Entry}
use usbip_python.Mtp.Machine.{Mtp, Op, Params, Outcome, Effect, receives}
use usbip_python.Mtp.Machine.Execute.{
  refuses, moves, copies, changed, truncates, begins_for_file, begins_sending, deleted, execute,
  perform, is_open_to_all,
}
use usbip_python.Mtp.Storage.Edit.{delete, rename, copy, truncate}
use usbip_python.Mtp.Machine.Frame.{Same, IsReading, reads-Same}

module _ {B : Type 0} where
  abbrev pub KeepsRx : Mtp B → Mtp B × Outcome → Type 0
  KeepsRx s (s', o) = s'.rx ≡ s.rx

  Same-KeepsRx :
      (s : Mtp B) (op : Op) (r : Effect B) → OnReturn (Same s op) r → OnReturn (KeepsRx s) r
  Same-KeepsRx s op none h = tt
  Same-KeepsRx s op (some r) (e, (f, a)) = f

module _ {B : Type 0} (backend : Backend B) (platform : Platform) where
  moves-KeepsRx :
      (s : Mtp B) (h : ℕ) (e : Option Entry) (tgt : Option (ℕ × Text))
      → OnReturn (KeepsRx s) (moves backend platform s h e tgt)
  unfolding moves changed
  moves-KeepsRx s h none tgt = refl
  moves-KeepsRx s h (some e) none = refl
  moves-KeepsRx s h (some e) (some (si, dir)) =
      bind-OnReturn (rename backend platform s.storage h si dir e.name) _ (KeepsRx s) (λ r _. refl)

  copies-KeepsRx :
      (s : Mtp B) (h : ℕ) (e : Option Entry) (tgt : Option (ℕ × Text))
      → OnReturn (KeepsRx s) (copies backend platform s h e tgt)
  unfolding copies
  copies-KeepsRx s h none tgt = refl
  copies-KeepsRx s h (some e) none = refl
  copies-KeepsRx s h (some e) (some (si, dir)) =
      bind-OnReturn (copy backend platform s.storage h si dir e.name) _ (KeepsRx s) (λ r _. refl)

  truncates-KeepsRx :
      (s : Mtp B) (h size : ℕ) (e : Option Entry)
      → OnReturn (KeepsRx s) (truncates backend platform s h size e)
  unfolding truncates changed
  truncates-KeepsRx s h size none = refl
  truncates-KeepsRx s h size (some e) =
      if-OnReturn (KeepsRx s) e.is_dir (refuses s rc_invalid_object_handle) _ refl
        (bind-OnReturn (truncate backend platform s.storage h size) _ (KeepsRx s) (λ r _. refl))

  begins_for_file-KeepsRx :
      (s : Mtp B) (e : Option Entry) → OnReturn (KeepsRx s) (begins_for_file s e)
  unfolding begins_for_file
  begins_for_file-KeepsRx s none = refl
  begins_for_file-KeepsRx s (some e) =
      if-OnReturn (KeepsRx s) e.is_dir (refuses s rc_invalid_object_handle) (some (s, receives))
        refl refl

  begins_sending-KeepsRx :
      (s : Mtp B) (target : Option ℕ) → OnReturn (KeepsRx s) (begins_sending s target)
  unfolding begins_sending
  begins_sending-KeepsRx s none = refl
  begins_sending-KeepsRx s (some h) = refl

  writable-KeepsRx :
      (s : Mtp B) (r : Effect B)
      → OnReturn (KeepsRx s) r
      → OnReturn (KeepsRx s) (if s.storage.read_only then refuses s rc_store_read_only else r)
  writable-KeepsRx s r h = if-OnReturn (KeepsRx s) _ (refuses s rc_store_read_only) r refl h

  reads-KeepsRx :
      (s : Mtp B) (op : Op) (p : Params)
      → IsReading op
      → OnReturn (KeepsRx s) (execute backend platform s op p)
  reads-KeepsRx s op p h = Same-KeepsRx s op _ (reads-Same backend platform s op p h)

  execute-KeepsRx :
      (s : Mtp B) (op : Op) (p : Params) → OnReturn (KeepsRx s) (execute backend platform s op p)
  unfolding execute deleted
  execute-KeepsRx s Op.delete_object p =
      writable-KeepsRx s _
        (bind-OnReturn (delete backend platform s.storage p.p0) _ (KeepsRx s) (λ r _. refl))
  execute-KeepsRx s Op.send_object_info p = writable-KeepsRx s (some (s, receives)) refl
  execute-KeepsRx s Op.send_object p = writable-KeepsRx s _ (begins_sending-KeepsRx s s.send_target)
  execute-KeepsRx s Op.move_object p = writable-KeepsRx s _ (moves-KeepsRx s p.p0 _ _)
  execute-KeepsRx s Op.copy_object p = writable-KeepsRx s _ (copies-KeepsRx s p.p0 _ _)
  execute-KeepsRx s Op.set_object_prop_value p = writable-KeepsRx s (some (s, receives)) refl
  execute-KeepsRx s Op.send_partial_object p = writable-KeepsRx s _ (begins_for_file-KeepsRx s _)
  execute-KeepsRx s Op.truncate_object p = writable-KeepsRx s _ (truncates-KeepsRx s p.p0 _ _)
  execute-KeepsRx s Op.get_device_info p = reads-KeepsRx s Op.get_device_info p tt
  execute-KeepsRx s Op.open_session p = reads-KeepsRx s Op.open_session p tt
  execute-KeepsRx s Op.close_session p = reads-KeepsRx s Op.close_session p tt
  execute-KeepsRx s Op.get_storage_ids p = reads-KeepsRx s Op.get_storage_ids p tt
  execute-KeepsRx s Op.get_storage_info p = reads-KeepsRx s Op.get_storage_info p tt
  execute-KeepsRx s Op.get_num_objects p = reads-KeepsRx s Op.get_num_objects p tt
  execute-KeepsRx s Op.get_object_handles p = reads-KeepsRx s Op.get_object_handles p tt
  execute-KeepsRx s Op.get_object_info p = reads-KeepsRx s Op.get_object_info p tt
  execute-KeepsRx s Op.get_object p = reads-KeepsRx s Op.get_object p tt
  execute-KeepsRx s Op.get_partial_object p = reads-KeepsRx s Op.get_partial_object p tt
  execute-KeepsRx s Op.get_device_prop_desc p = reads-KeepsRx s Op.get_device_prop_desc p tt
  execute-KeepsRx s Op.get_device_prop_value p = reads-KeepsRx s Op.get_device_prop_value p tt
  execute-KeepsRx s Op.set_device_prop_value p = reads-KeepsRx s Op.set_device_prop_value p tt
  execute-KeepsRx s Op.get_object_props_supported p =
      reads-KeepsRx s Op.get_object_props_supported p tt
  execute-KeepsRx s Op.get_object_prop_desc p = reads-KeepsRx s Op.get_object_prop_desc p tt
  execute-KeepsRx s Op.get_object_prop_value p = reads-KeepsRx s Op.get_object_prop_value p tt
  execute-KeepsRx s Op.get_object_prop_list p = reads-KeepsRx s Op.get_object_prop_list p tt
  execute-KeepsRx s Op.get_object_references p = reads-KeepsRx s Op.get_object_references p tt
  execute-KeepsRx s Op.get_partial_object_64 p = reads-KeepsRx s Op.get_partial_object_64 p tt
  execute-KeepsRx s Op.begin_edit_object p = reads-KeepsRx s Op.begin_edit_object p tt
  execute-KeepsRx s Op.end_edit_object p = reads-KeepsRx s Op.end_edit_object p tt
  execute-KeepsRx s Op.unsupported p = reads-KeepsRx s Op.unsupported p tt

  pub perform-KeepsRx :
      (s : Mtp B) (op : Op) (p : Params) → OnReturn (KeepsRx s) (perform backend platform s op p)
  unfolding perform
  perform-KeepsRx s op p =
      if-OnReturn (KeepsRx s) (is_open_to_all op) _ _ (execute-KeepsRx s op p) (
        if-OnReturn (KeepsRx s) (s.session == 0) (refuses s rc_session_not_open) _ refl
          (execute-KeepsRx s op p))
