-- ===== src/Mtp/Machine/Kinds/Operations.antt =====
-- usbip/classes/device/mtp.py, MTP._dispatch: every operation calls what belongs to it.
use usbip_python.Base.{
  ℕ, ◌≢◌, refl, arith, Bool, true, false, [], ◌∷◌, Option, none, some, ◌>>=◌, OnReturn,
  bind-OnReturn, if-OnReturn, ◌==◌, length,
}
use usbip_python.Struct.{Bytes}
use usbip_python.Core.Text.{Text}
use usbip_python.Mtp.{
  Backend, Platform, rc_ok, rc_general_error, rc_invalid_object_handle, rc_session_not_open,
  rc_invalid_storage_id, rc_object_prop_not_supported,
}
use usbip_python.Mtp.Storage.{Storage, Entry}
use usbip_python.Mtp.Storage.Query.{is_some, index_among}
use usbip_python.Mtp.Storage.Edit.{delete, rename, copy, truncate}
use usbip_python.Mtp.Machine.{Mtp, Op, Params, sends, receives}
use usbip_python.Mtp.Machine.Datasets.{storage_info}
use usbip_python.Mtp.Machine.Execute.{
  refuses, gives, gives_or, info_of, content_of, part_of, deleted, prop_of, moves, copies, changed,
  truncates, offset_64, execute, perform, is_open_to_all,
}
use usbip_python.Mtp.Machine.Kinds.{
  refused, passed, gave, removed, began, HasNoData, GivesData, FitsOp, gives-Fits, gives_or-Fits,
  maybe-Fits, begin_session-Fits, begins_for_file-Fits, begins_sending-Fits, writable-Fits,
  known-Fits,
}

module _ {B : Type 0} (backend : Backend B) (platform : Platform) where
  changed-Fits :
      (s : Mtp B) (op : Op) (rc : ℕ) (x : Bool × Storage B)
      → rc ≢ rc_ok
      → HasNoData op
      → OnReturn (FitsOp op) (changed backend platform s rc x)
  unfolding changed
  changed-Fits s op rc (true, storage) n d = passed [] d
  changed-Fits s op rc (false, storage) n d = refused rc [] n

  deleted-Fits :
      (s : Mtp B) (h : ℕ) (x : Bool × Storage B)
      → OnReturn (FitsOp Op.delete_object) (deleted backend platform s h x)
  unfolding deleted
  deleted-Fits s h (true, storage) = removed [] _ (h ∷ []) refl
  deleted-Fits s h (false, storage) = refused _ [] (λ e. omega arith)

  info_of-Fits :
      (s : Mtp B) (e : Option Entry)
      → OnReturn (FitsOp Op.get_object_info) (info_of backend platform s e)
  unfolding info_of
  info_of-Fits s none = refused _ [] (λ e. omega arith)
  info_of-Fits s (some e) = gives-Fits s _ _ tt

  content_of-Fits :
      (s : Mtp B) (h : ℕ) (e : Option Entry)
      → OnReturn (FitsOp Op.get_object) (content_of backend platform s h e)
  unfolding content_of
  content_of-Fits s h none = refused _ [] (λ e. omega arith)
  content_of-Fits s h (some e) =
      if-OnReturn (FitsOp Op.get_object) e.is_dir _ _ (refused _ [] (λ e. omega arith))
        (gives-Fits s _ _ tt)

  part_of-Fits :
      (s : Mtp B) (op : Op) (h off size : ℕ) (e : Option Entry)
      → GivesData op
      → OnReturn (FitsOp op) (part_of backend platform s h off size e)
  unfolding part_of
  part_of-Fits s op h off size none d = refused _ [] (λ e. omega arith)
  part_of-Fits s op h off size (some e) d =
      if-OnReturn (FitsOp op) e.is_dir (refuses s rc_invalid_object_handle) _
        (refused _ [] (λ e. omega arith))
        (bind-OnReturn _ (λ (c : Bytes). some (s, sends c (length c ∷ []))) (FitsOp op)
          (λ c eq. gave c (length c ∷ []) d))

  value-Fits :
      (s : Mtp B) (pv : Option (Option (ℕ × Bytes)))
      → OnReturn
          (FitsOp Op.get_object_prop_value)
          (do v ← pv; gives_or s rc_object_prop_not_supported (do (_, value) ← v; some value))
  value-Fits s none = tt
  value-Fits s (some v) = gives_or-Fits s _ _ _ (λ e. omega arith) tt

  prop_of-Fits :
      (s : Mtp B) (pc : ℕ) (e : Option Entry)
      → OnReturn (FitsOp Op.get_object_prop_value) (prop_of backend platform s pc e)
  unfolding prop_of
  prop_of-Fits s pc none = refused _ [] (λ e. omega arith)
  prop_of-Fits s pc (some e) = value-Fits s _

  moves-Fits :
      (s : Mtp B) (h : ℕ) (e : Option Entry) (tgt : Option (ℕ × Text))
      → OnReturn (FitsOp Op.move_object) (moves backend platform s h e tgt)
  unfolding moves
  moves-Fits s h none tgt = refused _ [] (λ e. omega arith)
  moves-Fits s h (some e) none = refused _ [] (λ e. omega arith)
  moves-Fits s h (some e) (some (si, dir)) =
      bind-OnReturn (rename backend platform s.storage h si dir e.name) _ (FitsOp Op.move_object)
        (λ r _. changed-Fits s _ rc_general_error r (λ e. omega arith) tt)

  copies-Fits :
      (s : Mtp B) (h : ℕ) (e : Option Entry) (tgt : Option (ℕ × Text))
      → OnReturn (FitsOp Op.copy_object) (copies backend platform s h e tgt)
  unfolding copies
  copies-Fits s h none tgt = refused _ [] (λ e. omega arith)
  copies-Fits s h (some e) none = refused _ [] (λ e. omega arith)
  copies-Fits s h (some e) (some (si, dir)) =
      bind-OnReturn (copy backend platform s.storage h si dir e.name) _ (FitsOp Op.copy_object)
        (λ r _. passed (r.0 ∷ []) tt)

  truncates-Fits :
      (s : Mtp B) (h size : ℕ) (e : Option Entry)
      → OnReturn (FitsOp Op.truncate_object) (truncates backend platform s h size e)
  unfolding truncates
  truncates-Fits s h size none = refused _ [] (λ e. omega arith)
  truncates-Fits s h size (some e) =
      if-OnReturn (FitsOp Op.truncate_object) e.is_dir _ _ (refused _ [] (λ e. omega arith)) (
        bind-OnReturn (truncate backend platform s.storage h size) _ (FitsOp Op.truncate_object)
          (λ r _. changed-Fits s _ rc_general_error r (λ e. omega arith) tt))

  execute-Fits :
      (s : Mtp B) (op : Op) (p : Params) → OnReturn (FitsOp op) (execute backend platform s op p)
  unfolding execute
  execute-Fits s Op.get_device_info p = gives-Fits s _ _ tt
  execute-Fits s Op.open_session p = begin_session-Fits s p.p0
  execute-Fits s Op.close_session p = passed [] tt
  execute-Fits s Op.get_storage_ids p = gave _ [] tt
  execute-Fits s Op.get_storage_info p =
      if-OnReturn (FitsOp Op.get_storage_info) (is_some (index_among p.p0 s.storage.storage_ids))
        (gives s (storage_info backend s.storage p.p0)) (refuses s rc_invalid_storage_id)
        (gives-Fits s Op.get_storage_info (storage_info backend s.storage p.p0) tt)
        (refused _ [] (λ e. omega arith))
  execute-Fits s Op.get_num_objects p = passed _ tt
  execute-Fits s Op.get_object_handles p = gave _ [] tt
  execute-Fits s Op.get_object_info p = info_of-Fits s _
  execute-Fits s Op.get_object p = content_of-Fits s p.p0 _
  execute-Fits s Op.delete_object p = writable-Fits s _ _ (
      bind-OnReturn (delete backend platform s.storage p.p0) _ (FitsOp Op.delete_object)
        (λ r _. deleted-Fits s p.p0 r))
  execute-Fits s Op.send_object_info p = writable-Fits s _ (some (s, receives)) (began tt)
  execute-Fits s Op.send_object p = writable-Fits s _ _ (begins_sending-Fits s s.send_target)
  execute-Fits s Op.get_partial_object p = part_of-Fits s _ p.p0 p.p1 p.p2 _ tt
  execute-Fits s Op.get_device_prop_desc p = maybe-Fits s _ _ _ (λ e. omega arith) tt
  execute-Fits s Op.get_device_prop_value p = maybe-Fits s _ _ _ (λ e. omega arith) tt
  execute-Fits s Op.set_device_prop_value p = began tt
  execute-Fits s Op.get_object_props_supported p = gave _ [] tt
  execute-Fits s Op.get_object_prop_desc p = gives_or-Fits s _ _ _ (λ e. omega arith) tt
  execute-Fits s Op.get_object_prop_value p = prop_of-Fits s p.p1 _
  execute-Fits s Op.get_object_prop_list p = gives-Fits s _ _ tt
  execute-Fits s Op.get_object_references p = gave _ [] tt
  execute-Fits s Op.move_object p = writable-Fits s _ _ (moves-Fits s p.p0 _ _)
  execute-Fits s Op.copy_object p = writable-Fits s _ _ (copies-Fits s p.p0 _ _)
  execute-Fits s Op.set_object_prop_value p = writable-Fits s _ (some (s, receives)) (began tt)
  execute-Fits s Op.get_partial_object_64 p = part_of-Fits s _ p.p0 (offset_64 p.p1 p.p2) p.p3 _ tt
  execute-Fits s Op.send_partial_object p = writable-Fits s _ _ (begins_for_file-Fits s _ _ tt)
  execute-Fits s Op.truncate_object p = writable-Fits s _ _ (truncates-Fits s p.p0 _ _)
  execute-Fits s Op.begin_edit_object p = known-Fits s _ _ tt
  execute-Fits s Op.end_edit_object p = known-Fits s _ _ tt
  execute-Fits s Op.unsupported p = refused _ [] (λ e. omega arith)

  pub perform-Fits :
      (s : Mtp B) (op : Op) (p : Params) → OnReturn (FitsOp op) (perform backend platform s op p)
  unfolding perform
  perform-Fits s op p = if-OnReturn (FitsOp op) (is_open_to_all op) _ _ (execute-Fits s op p) (
      if-OnReturn (FitsOp op) (s.session == 0) (refuses s rc_session_not_open) _
        (refused _ [] (λ e. omega arith)) (execute-Fits s op p))
