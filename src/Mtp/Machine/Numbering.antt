-- ===== src/Mtp/Machine/Numbering.antt =====
-- The operations of the interface keep the handles of its storage apart.
use mathlib.Core.Path.{subst}
use usbip_python.Base.{
  ℕ, sym, Option, none, some, ◌>>=◌, OnReturn, if-OnReturn, if◌then◌else◌, ◌==◌,
}
use usbip_python.Core.Text.{Text}
use usbip_python.Mtp.{
  Backend, Platform, rc_invalid_object_handle, rc_store_read_only, rc_session_not_open,
}
use usbip_python.Mtp.Storage.{Storage, Entry}
use usbip_python.Mtp.Storage.Edit.{delete, rename, copy, truncate}
use usbip_python.Mtp.Storage.Numbering.{
  Sound, SoundPair, delete-Sound, rename-Sound, copy-Sound, truncate-Sound,
}
use usbip_python.Mtp.Machine.{Mtp, Op, Params, Outcome, Effect, receives}
use usbip_python.Mtp.Machine.Execute.{
  refuses, moves, copies, changed, truncates, begins_for_file, begins_sending, deleted, execute,
  perform, is_open_to_all,
}
use usbip_python.Mtp.Machine.Frame.{Same, IsReading, reads-Same}

module _ {B : Type 0} where
  abbrev pub SoundAfter : Mtp B × Outcome → Type 0
  SoundAfter (s, o) = Sound s.storage

  Same-Sound :
      (s : Mtp B) (op : Op) (r : Effect B)
      → Sound s.storage
      → OnReturn (Same s op) r
      → OnReturn SoundAfter r
  Same-Sound s op none w h = tt
  Same-Sound s op (some r) w (e, x) = subst (λ (t : Storage B). Sound t) (sym e) w

  -- An operation of the storage, and what is made of its result.
  pub stored-Sound :
      {A : Type 0} (r : Option (A × Storage B)) (f : A × Storage B → Effect B)
      → OnReturn SoundPair r
      → ((x : A × Storage B) → Sound x.1 → OnReturn SoundAfter (f x))
      → OnReturn SoundAfter (r >>= f)
  stored-Sound none f h k = tt
  stored-Sound (some x) f h k = k x h

  writable-Sound :
      (s : Mtp B) (r : Effect B)
      → Sound s.storage
      → OnReturn SoundAfter r
      → OnReturn SoundAfter (if s.storage.read_only then refuses s rc_store_read_only else r)
  writable-Sound s r w h =
      if-OnReturn SoundAfter s.storage.read_only (refuses s rc_store_read_only) r w h

  begins_for_file-Sound :
      (s : Mtp B) (e : Option Entry) → Sound s.storage → OnReturn SoundAfter (begins_for_file s e)
  unfolding begins_for_file
  begins_for_file-Sound s none w = w
  begins_for_file-Sound s (some e) w =
      if-OnReturn SoundAfter e.is_dir (refuses s rc_invalid_object_handle) (some (s, receives)) w w

  begins_sending-Sound :
      (s : Mtp B) (t : Option ℕ) → Sound s.storage → OnReturn SoundAfter (begins_sending s t)
  unfolding begins_sending
  begins_sending-Sound s none w = w
  begins_sending-Sound s (some h) w = w

module _ {B : Type 0} (backend : Backend B) (platform : Platform) where
  moves-Sound :
      (s : Mtp B) (h : ℕ) (e : Option Entry) (tgt : Option (ℕ × Text))
      → Sound s.storage
      → OnReturn SoundAfter (moves backend platform s h e tgt)
  unfolding moves changed
  moves-Sound s h none tgt w = w
  moves-Sound s h (some e) none w = w
  moves-Sound s h (some e) (some (si, dir)) w =
      stored-Sound (rename backend platform s.storage h si dir e.name) _
        (rename-Sound backend platform s.storage h si dir e.name w) (λ x y. y)

  copies-Sound :
      (s : Mtp B) (h : ℕ) (e : Option Entry) (tgt : Option (ℕ × Text))
      → Sound s.storage
      → OnReturn SoundAfter (copies backend platform s h e tgt)
  unfolding copies
  copies-Sound s h none tgt w = w
  copies-Sound s h (some e) none w = w
  copies-Sound s h (some e) (some (si, dir)) w =
      stored-Sound (copy backend platform s.storage h si dir e.name) _
        (copy-Sound backend platform s.storage h si dir e.name w) (λ x y. y)

  truncates-Sound :
      (s : Mtp B) (h size : ℕ) (e : Option Entry)
      → Sound s.storage
      → OnReturn SoundAfter (truncates backend platform s h size e)
  unfolding truncates changed
  truncates-Sound s h size none w = w
  truncates-Sound s h size (some e) w =
      if-OnReturn SoundAfter e.is_dir (refuses s rc_invalid_object_handle) _ w (
        stored-Sound (truncate backend platform s.storage h size) _
          (truncate-Sound backend platform s.storage h size w) (λ x y. y))

  reads-Sound :
      (s : Mtp B) (op : Op) (p : Params)
      → IsReading op
      → Sound s.storage
      → OnReturn SoundAfter (execute backend platform s op p)
  reads-Sound s op p h w = Same-Sound s op _ w (reads-Same backend platform s op p h)

  execute-Sound :
      (s : Mtp B) (op : Op) (p : Params)
      → Sound s.storage
      → OnReturn SoundAfter (execute backend platform s op p)
  unfolding execute deleted
  execute-Sound s Op.delete_object p w = writable-Sound s _ w (
      stored-Sound (delete backend platform s.storage p.p0) _
        (delete-Sound backend platform s.storage p.p0 w) (λ x y. y))
  execute-Sound s Op.send_object_info p w = writable-Sound s (some (s, receives)) w w
  execute-Sound s Op.send_object p w = writable-Sound s _ w (begins_sending-Sound s s.send_target w)
  execute-Sound s Op.move_object p w = writable-Sound s _ w (moves-Sound s p.p0 _ _ w)
  execute-Sound s Op.copy_object p w = writable-Sound s _ w (copies-Sound s p.p0 _ _ w)
  execute-Sound s Op.set_object_prop_value p w = writable-Sound s (some (s, receives)) w w
  execute-Sound s Op.send_partial_object p w = writable-Sound s _ w (begins_for_file-Sound s _ w)
  execute-Sound s Op.truncate_object p w = writable-Sound s _ w (truncates-Sound s p.p0 _ _ w)
  execute-Sound s Op.get_device_info p w = reads-Sound s Op.get_device_info p tt w
  execute-Sound s Op.open_session p w = reads-Sound s Op.open_session p tt w
  execute-Sound s Op.close_session p w = reads-Sound s Op.close_session p tt w
  execute-Sound s Op.get_storage_ids p w = reads-Sound s Op.get_storage_ids p tt w
  execute-Sound s Op.get_storage_info p w = reads-Sound s Op.get_storage_info p tt w
  execute-Sound s Op.get_num_objects p w = reads-Sound s Op.get_num_objects p tt w
  execute-Sound s Op.get_object_handles p w = reads-Sound s Op.get_object_handles p tt w
  execute-Sound s Op.get_object_info p w = reads-Sound s Op.get_object_info p tt w
  execute-Sound s Op.get_object p w = reads-Sound s Op.get_object p tt w
  execute-Sound s Op.get_partial_object p w = reads-Sound s Op.get_partial_object p tt w
  execute-Sound s Op.get_device_prop_desc p w = reads-Sound s Op.get_device_prop_desc p tt w
  execute-Sound s Op.get_device_prop_value p w = reads-Sound s Op.get_device_prop_value p tt w
  execute-Sound s Op.set_device_prop_value p w = reads-Sound s Op.set_device_prop_value p tt w
  execute-Sound s Op.get_object_props_supported p w =
      reads-Sound s Op.get_object_props_supported p tt w
  execute-Sound s Op.get_object_prop_desc p w = reads-Sound s Op.get_object_prop_desc p tt w
  execute-Sound s Op.get_object_prop_value p w = reads-Sound s Op.get_object_prop_value p tt w
  execute-Sound s Op.get_object_prop_list p w = reads-Sound s Op.get_object_prop_list p tt w
  execute-Sound s Op.get_object_references p w = reads-Sound s Op.get_object_references p tt w
  execute-Sound s Op.get_partial_object_64 p w = reads-Sound s Op.get_partial_object_64 p tt w
  execute-Sound s Op.begin_edit_object p w = reads-Sound s Op.begin_edit_object p tt w
  execute-Sound s Op.end_edit_object p w = reads-Sound s Op.end_edit_object p tt w
  execute-Sound s Op.unsupported p w = reads-Sound s Op.unsupported p tt w

  pub perform-Sound :
      (s : Mtp B) (op : Op) (p : Params)
      → Sound s.storage
      → OnReturn SoundAfter (perform backend platform s op p)
  unfolding perform
  perform-Sound s op p w = if-OnReturn SoundAfter (is_open_to_all op) _ _ (execute-Sound s op p w) (
      if-OnReturn SoundAfter (s.session == 0) (refuses s rc_session_not_open) _ w
        (execute-Sound s op p w))
