-- ===== src/Mtp/Machine/Received.antt =====
-- The handlers of data-out phases keep the handles of the storage apart.
use usbip_python.Base.{
  ℕ, Bool, true, false, [], ◌∷◌, Option, none, some, OnReturn, bind-OnReturn, if-OnReturn,
  OnReturn-some, if◌then◌else◌, ◌==◌, ltb, length, ◌||◌, get_elem?,
}
use usbip_python.Struct.{Bytes}
use usbip_python.Core.Text.{Text}
use usbip_python.Mtp.{
  Backend, Platform, rc_general_error, rc_object_prop_not_supported, fmt_association,
}
use usbip_python.Mtp.Encode.{ptp_str_parse, parse_object_info, ObjectInfo}
use usbip_python.Mtp.Storage.{Storage, Entry, object_at}
use usbip_python.Mtp.Storage.Query.{parent_dir, target}
use usbip_python.Mtp.Storage.Edit.{rename, make_dir, make_file, write_file, pwrite}
use usbip_python.Mtp.Storage.Numbering.{
  Sound, SoundPair, rename-Sound, make_dir-Sound, make_file-Sound, write_file-Sound, pwrite-Sound,
}
use usbip_python.Mtp.Machine.{Mtp, Op, Params, Effect}
use usbip_python.Mtp.Machine.ObjectProps.{opc_filename, opc_name}
use usbip_python.Mtp.Machine.Execute.{refuses, offset_64}
use usbip_python.Mtp.Machine.Receive.{
  made, make, recv_object_info, write_to, write_target, recv_object, recv_device_prop, answered,
  rename_to, set_prop, recv_set_object_prop, recv_send_partial, receive,
}
use usbip_python.Mtp.Machine.Numbering.{SoundAfter, stored-Sound}

module _ {B : Type 0} where
  -- The handler of an operation, if it has one.
  abbrev pub SoundIf : Option (Effect B) → Type 0
  SoundIf none = Unit {0}
  SoundIf (some r) = OnReturn SoundAfter r

  made-Sound :
      (s : Mtp B) (p1 : ℕ) (is_dir : Bool) (si : ℕ) (x : Option ℕ × Storage B)
      → Sound x.1
      → OnReturn SoundAfter (made s p1 is_dir si x)
  unfolding made
  made-Sound s p1 is_dir si (h, storage) w =
      bind-OnReturn (get_elem? storage.storage_ids si) _ SoundAfter (λ i e. w)

  recv_device_prop-Sound :
      (s : Mtp B) (p : Params) (payload : Bytes)
      → Sound s.storage
      → OnReturn SoundAfter (recv_device_prop s p payload)
  unfolding recv_device_prop
  recv_device_prop-Sound s p payload w = w

module _ {B : Type 0} (backend : Backend B) (platform : Platform) where
  made_dir-Sound :
      (is_dir : Bool) (s : Storage B) (si : ℕ) (dir name : Text)
      → Sound s
      → OnReturn SoundPair ((if is_dir then make_dir else make_file) backend platform s si dir name)
  made_dir-Sound true s si dir name w = make_dir-Sound backend platform s si dir name w
  made_dir-Sound false s si dir name w = make_file-Sound backend platform s si dir name w

  make-Sound :
      (s : Mtp B) (p1 : ℕ) (info : ObjectInfo) (name : Text) (tgt : Option (ℕ × Text))
      → Sound s.storage
      → OnReturn SoundAfter (make backend platform s p1 info name tgt)
  unfolding make
  make-Sound s p1 info [] tgt w = w
  make-Sound s p1 info (c ∷ cs) none w = w
  make-Sound s p1 info (c ∷ cs) (some (si, dir)) w =
      stored-Sound _ _ (made_dir-Sound (info.fmt == fmt_association) s.storage si dir (c ∷ cs) w)
        (λ x y. made-Sound s p1 (info.fmt == fmt_association) si x y)

  recv_object_info-Sound :
      (s : Mtp B) (p : Params) (payload : Bytes)
      → Sound s.storage
      → OnReturn SoundAfter (recv_object_info backend platform s p payload)
  unfolding recv_object_info
  recv_object_info-Sound s p payload w =
      if-OnReturn SoundAfter (ltb (length payload) 52) (refuses s rc_general_error) _ w (
        bind-OnReturn (parse_object_info payload) _ SoundAfter
          (λ info e. make-Sound s p.p1 info info.name (target s.storage p.p0 p.p1) w))

  write_to-Sound :
      (s : Mtp B) (payload : Bytes) (h : ℕ) (e : Option Entry)
      → Sound s.storage
      → OnReturn SoundAfter (write_to backend platform s payload h e)
  unfolding write_to
  write_to-Sound s payload h none w = w
  write_to-Sound s payload h (some e) w =
      bind-OnReturn (write_file backend platform s.storage h payload) _ SoundAfter (λ t eq.
        OnReturn-some _ t Sound eq (write_file-Sound backend platform s.storage h payload w))

  write_target-Sound :
      (s : Mtp B) (payload : Bytes) (t : Option ℕ)
      → Sound s.storage
      → OnReturn SoundAfter (write_target backend platform s payload t)
  unfolding write_target
  write_target-Sound s payload none w = w
  write_target-Sound s payload (some h) w = write_to-Sound s payload h _ w

  recv_object-Sound :
      (s : Mtp B) (payload : Bytes)
      → Sound s.storage
      → OnReturn SoundAfter (recv_object backend platform s payload)
  unfolding recv_object
  recv_object-Sound s payload w =
      write_target-Sound (record s { send_target = none }) payload s.send_target w

  rename_to-Sound :
      (s : Mtp B) (h : ℕ) (name : Text) (dir : ℕ × Text)
      → Sound s.storage
      → OnReturn SoundAfter (rename_to backend platform s h name dir)
  unfolding rename_to answered
  rename_to-Sound s h [] dir w = w
  rename_to-Sound s h (c ∷ cs) (si, dir) w =
      stored-Sound (rename backend platform s.storage h si dir (c ∷ cs)) _
        (rename-Sound backend platform s.storage h si dir (c ∷ cs) w) (λ x y. y)

  set_prop-Sound :
      (s : Mtp B) (h pc : ℕ) (payload : Bytes) (e : Option Entry)
      → Sound s.storage
      → OnReturn SoundAfter (set_prop backend platform s h pc payload e)
  unfolding set_prop
  set_prop-Sound s h pc payload none w = w
  set_prop-Sound s h pc payload (some e) w =
      if-OnReturn SoundAfter (pc == opc_filename || pc == opc_name) _
        (refuses s rc_object_prop_not_supported)
        (bind-OnReturn (ptp_str_parse payload 0) _ SoundAfter (λ x eq.
          bind-OnReturn (parent_dir s.storage h) _ SoundAfter
            (λ dir eq1. rename_to-Sound s h x.0 dir w)))
        w

  recv_set_object_prop-Sound :
      (s : Mtp B) (p : Params) (payload : Bytes)
      → Sound s.storage
      → OnReturn SoundAfter (recv_set_object_prop backend platform s p payload)
  unfolding recv_set_object_prop
  recv_set_object_prop-Sound s p payload w =
      set_prop-Sound s p.p0 p.p1 payload (object_at p.p0 s.storage.objects) w

  recv_send_partial-Sound :
      (s : Mtp B) (p : Params) (payload : Bytes)
      → Sound s.storage
      → OnReturn SoundAfter (recv_send_partial backend platform s p payload)
  unfolding recv_send_partial answered
  recv_send_partial-Sound s p payload w =
      stored-Sound (pwrite backend platform s.storage p.p0 (offset_64 p.p1 p.p2) payload) _
        (pwrite-Sound backend platform s.storage p.p0 (offset_64 p.p1 p.p2) payload w) (λ x y. y)

  pub receive-Sound :
      (s : Mtp B) (op : Op) (p : Params) (payload : Bytes)
      → Sound s.storage
      → SoundIf (receive backend platform s op p payload)
  receive-Sound s Op.send_object_info p payload w = recv_object_info-Sound s p payload w
  receive-Sound s Op.send_object p payload w = recv_object-Sound s payload w
  receive-Sound s Op.set_device_prop_value p payload w = recv_device_prop-Sound s p payload w
  receive-Sound s Op.set_object_prop_value p payload w = recv_set_object_prop-Sound s p payload w
  receive-Sound s Op.send_partial_object p payload w = recv_send_partial-Sound s p payload w
  receive-Sound s _ p payload w = tt
