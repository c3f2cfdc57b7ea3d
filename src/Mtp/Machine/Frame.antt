-- ===== src/Mtp/Machine/Frame.antt =====
-- Over a read-only storage, the operations leave the storage as it is.
use usbip_python.Base.{
  ℕ, ◌≡◌, refl, arith, Bool, true, false, [], ◌∷◌, Option, none, some, ◌>>=◌, OnReturn, if-OnReturn,
  if◌then◌else◌, ◌==◌, length,
}
use usbip_python.Struct.{Bytes}
use usbip_python.Mtp.{Backend, Platform, rc_invalid_storage_id, rc_session_not_open}
use usbip_python.Mtp.Storage.{Entry}
use usbip_python.Mtp.Machine.{
  Mtp, Op, Params, Outcome, Effect, resp, give_data, send_event, begin_rx, sends,
}
use usbip_python.Mtp.Machine.Execute.{
  refuses, gives, gives_or, begin_session, info_of, content_of, part_of, prop_of, offset_64,
  execute, perform, is_open_to_all,
}
use usbip_python.Mtp.Storage.Query.{is_some, index_among}
use usbip_python.Mtp.Machine.Datasets.{storage_info}

-- Only SetDevicePropValue asks for data.
abbrev pub Asks : Op → Outcome → Type 0
Asks op [] = Unit {0}
Asks op (begin_rx ∷ acts) = (op ≡ Op.set_device_prop_value) × Asks op acts
Asks op (resp _ _ ∷ acts) = Asks op acts
Asks op (give_data _ ∷ acts) = Asks op acts
Asks op (send_event _ _ ∷ acts) = Asks op acts

-- The operations that change no store and take no data for one.
abbrev pub IsReading : Op → Type 0
IsReading Op.delete_object = ⊥
IsReading Op.send_object_info = ⊥
IsReading Op.send_object = ⊥
IsReading Op.move_object = ⊥
IsReading Op.copy_object = ⊥
IsReading Op.set_object_prop_value = ⊥
IsReading Op.send_partial_object = ⊥
IsReading Op.truncate_object = ⊥
IsReading _ = Unit {0}

module _ {B : Type 0} where
  -- The storage stays, and no data is asked for but a property's.
  abbrev pub Same : Mtp B → Op → Mtp B × Outcome → Type 0
  Same s op (s', o) = (s'.storage ≡ s.storage) × ((s'.rx ≡ s.rx) × Asks op o)

  -- What stands behind a guard that is met does not matter.
  guarded :
      (P : Mtp B × Outcome → Type 0) (b : Bool) (x y : Effect B)
      → b ≡ true
      → OnReturn P x
      → OnReturn P (if b then x else y)
  guarded P true x y h px = px
  guarded P false x y h px = absurd (ground arith)

  gives-Same :
      (s : Mtp B) (op : Op) (payload : Option Bytes) → OnReturn (Same s op) (gives s payload)
  unfolding gives
  gives-Same s op none = tt
  gives-Same s op (some bs) = (refl, (refl, tt))

  gives_or-Same :
      (s : Mtp B) (op : Op) (rc : ℕ) (payload : Option Bytes)
      → OnReturn (Same s op) (gives_or s rc payload)
  unfolding gives_or
  gives_or-Same s op rc none = (refl, (refl, tt))
  gives_or-Same s op rc (some bs) = (refl, (refl, tt))

  -- A dataset that may be None.
  maybe-Same :
      (s : Mtp B) (op : Op) (rc : ℕ) (found : Option (Option Bytes))
      → OnReturn (Same s op) (found >>= gives_or s rc)
  maybe-Same s op rc none = tt
  maybe-Same s op rc (some payload) = gives_or-Same s op rc payload

module _ {B : Type 0} (backend : Backend B) (platform : Platform) where
  info_of-Same :
      (s : Mtp B) (op : Op) (e : Option Entry) → OnReturn (Same s op) (info_of backend platform s e)
  unfolding info_of
  info_of-Same s op none = (refl, (refl, tt))
  info_of-Same s op (some e) = gives-Same s op _

  content_of-Same :
      (s : Mtp B) (op : Op) (h : ℕ) (e : Option Entry)
      → OnReturn (Same s op) (content_of backend platform s h e)
  unfolding content_of
  content_of-Same s op h none = (refl, (refl, tt))
  content_of-Same s op h (some e) =
      if-OnReturn _ e.is_dir _ _ (refl, (refl, tt)) (gives-Same s op _)

  sends_part-Same :
      (s : Mtp B) (op : Op) (chunk : Option Bytes)
      → OnReturn (Same s op) (do c ← chunk; some (s, sends c (length c ∷ [])))
  sends_part-Same s op none = tt
  sends_part-Same s op (some c) = (refl, (refl, tt))

  part_of-Same :
      (s : Mtp B) (op : Op) (h off size : ℕ) (e : Option Entry)
      → OnReturn (Same s op) (part_of backend platform s h off size e)
  unfolding part_of
  part_of-Same s op h off size none = (refl, (refl, tt))
  part_of-Same s op h off size (some e) =
      if-OnReturn _ e.is_dir _ _ (refl, (refl, tt)) (sends_part-Same s op _)

  value-Same :
      (s : Mtp B) (op : Op) (rc : ℕ) (pv : Option (Option (ℕ × Bytes)))
      → OnReturn (Same s op) (do v ← pv; gives_or s rc (do (_, value) ← v; some value))
  value-Same s op rc none = tt
  value-Same s op rc (some v) = gives_or-Same s op rc _

  prop_of-Same :
      (s : Mtp B) (op : Op) (pc : ℕ) (e : Option Entry)
      → OnReturn (Same s op) (prop_of backend platform s pc e)
  unfolding prop_of
  prop_of-Same s op pc none = (refl, (refl, tt))
  prop_of-Same s op pc (some e) = value-Same s op _ _

  begin_session-Same : (s : Mtp B) (op : Op) (p0 : ℕ) → OnReturn (Same s op) (begin_session s p0)
  unfolding begin_session
  begin_session-Same s op p0 =
      if-OnReturn _ (s.session == 0) _ _
        (if-OnReturn _ (p0 == 0) _ _ (refl, (refl, tt)) (refl, (refl, tt))) (refl, (refl, tt))

  pub reads-Same :
      (s : Mtp B) (op : Op) (p : Params)
      → IsReading op
      → OnReturn (Same s op) (execute backend platform s op p)
  unfolding execute
  reads-Same s Op.get_device_info p h = gives-Same s _ _
  reads-Same s Op.open_session p h = begin_session-Same s _ p.p0
  reads-Same s Op.close_session p h = (refl, (refl, tt))
  reads-Same s Op.get_storage_ids p h = (refl, (refl, tt))
  reads-Same s Op.get_storage_info p h =
      if-OnReturn (Same s Op.get_storage_info) (is_some (index_among p.p0 s.storage.storage_ids))
        (gives s (storage_info backend s.storage p.p0)) (refuses s rc_invalid_storage_id)
        (gives-Same s Op.get_storage_info (storage_info backend s.storage p.p0)) (refl, (refl, tt))
  reads-Same s Op.get_num_objects p h = (refl, (refl, tt))
  reads-Same s Op.get_object_handles p h = (refl, (refl, tt))
  reads-Same s Op.get_object_info p h = info_of-Same s _ _
  reads-Same s Op.get_object p h = content_of-Same s _ p.p0 _
  reads-Same s Op.get_partial_object p h = part_of-Same s _ p.p0 p.p1 p.p2 _
  reads-Same s Op.get_device_prop_desc p h = maybe-Same s _ _ _
  reads-Same s Op.get_device_prop_value p h = maybe-Same s _ _ _
  reads-Same s Op.set_device_prop_value p h = (refl, (refl, (refl, tt)))
  reads-Same s Op.get_object_props_supported p h = (refl, (refl, tt))
  reads-Same s Op.get_object_prop_desc p h = gives_or-Same s _ _ _
  reads-Same s Op.get_object_prop_value p h = prop_of-Same s _ p.p1 _
  reads-Same s Op.get_object_prop_list p h = gives-Same s _ _
  reads-Same s Op.get_object_references p h = (refl, (refl, tt))
  reads-Same s Op.get_partial_object_64 p h = part_of-Same s _ p.p0 (offset_64 p.p1 p.p2) p.p3 _
  reads-Same s Op.begin_edit_object p h = (refl, (refl, tt))
  reads-Same s Op.end_edit_object p h = (refl, (refl, tt))
  reads-Same s Op.unsupported p h = (refl, (refl, tt))
  reads-Same s Op.delete_object p h = absurd h
  reads-Same s Op.send_object_info p h = absurd h
  reads-Same s Op.send_object p h = absurd h
  reads-Same s Op.move_object p h = absurd h
  reads-Same s Op.copy_object p h = absurd h
  reads-Same s Op.set_object_prop_value p h = absurd h
  reads-Same s Op.send_partial_object p h = absurd h
  reads-Same s Op.truncate_object p h = absurd h

  execute-Same :
      (s : Mtp B) (op : Op) (p : Params)
      → s.storage.read_only ≡ true
      → OnReturn (Same s op) (execute backend platform s op p)
  unfolding execute
  execute-Same s Op.delete_object p h = guarded _ _ _ _ h (refl, (refl, tt))
  execute-Same s Op.send_object_info p h = guarded _ _ _ _ h (refl, (refl, tt))
  execute-Same s Op.send_object p h = guarded _ _ _ _ h (refl, (refl, tt))
  execute-Same s Op.move_object p h = guarded _ _ _ _ h (refl, (refl, tt))
  execute-Same s Op.copy_object p h = guarded _ _ _ _ h (refl, (refl, tt))
  execute-Same s Op.set_object_prop_value p h = guarded _ _ _ _ h (refl, (refl, tt))
  execute-Same s Op.send_partial_object p h = guarded _ _ _ _ h (refl, (refl, tt))
  execute-Same s Op.truncate_object p h = guarded _ _ _ _ h (refl, (refl, tt))
  execute-Same s Op.get_device_info p h = reads-Same s Op.get_device_info p tt
  execute-Same s Op.open_session p h = reads-Same s Op.open_session p tt
  execute-Same s Op.close_session p h = reads-Same s Op.close_session p tt
  execute-Same s Op.get_storage_ids p h = reads-Same s Op.get_storage_ids p tt
  execute-Same s Op.get_storage_info p h = reads-Same s Op.get_storage_info p tt
  execute-Same s Op.get_num_objects p h = reads-Same s Op.get_num_objects p tt
  execute-Same s Op.get_object_handles p h = reads-Same s Op.get_object_handles p tt
  execute-Same s Op.get_object_info p h = reads-Same s Op.get_object_info p tt
  execute-Same s Op.get_object p h = reads-Same s Op.get_object p tt
  execute-Same s Op.get_partial_object p h = reads-Same s Op.get_partial_object p tt
  execute-Same s Op.get_device_prop_desc p h = reads-Same s Op.get_device_prop_desc p tt
  execute-Same s Op.get_device_prop_value p h = reads-Same s Op.get_device_prop_value p tt
  execute-Same s Op.set_device_prop_value p h = reads-Same s Op.set_device_prop_value p tt
  execute-Same s Op.get_object_props_supported p h = reads-Same s Op.get_object_props_supported p tt
  execute-Same s Op.get_object_prop_desc p h = reads-Same s Op.get_object_prop_desc p tt
  execute-Same s Op.get_object_prop_value p h = reads-Same s Op.get_object_prop_value p tt
  execute-Same s Op.get_object_prop_list p h = reads-Same s Op.get_object_prop_list p tt
  execute-Same s Op.get_object_references p h = reads-Same s Op.get_object_references p tt
  execute-Same s Op.get_partial_object_64 p h = reads-Same s Op.get_partial_object_64 p tt
  execute-Same s Op.begin_edit_object p h = reads-Same s Op.begin_edit_object p tt
  execute-Same s Op.end_edit_object p h = reads-Same s Op.end_edit_object p tt
  execute-Same s Op.unsupported p h = reads-Same s Op.unsupported p tt

  pub perform-Same :
      (s : Mtp B) (op : Op) (p : Params)
      → s.storage.read_only ≡ true
      → OnReturn (Same s op) (perform backend platform s op p)
  unfolding perform
  perform-Same s op p h = if-OnReturn (Same s op) (is_open_to_all op) _ _ (execute-Same s op p h) (
      if-OnReturn (Same s op) (s.session == 0) (refuses s rc_session_not_open) _ (refl, (refl, tt))
        (execute-Same s op p h))
