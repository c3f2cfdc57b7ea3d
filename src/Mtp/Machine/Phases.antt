-- ===== src/Mtp/Machine/Phases.antt =====
-- Every data-out phase ends with one response of its transaction.
use usbip_python.Base.{
  ℕ, Bool, true, false, [], ◌∷◌, Option, none, some, OnReturn, bind-OnReturn, if-OnReturn,
  OnReturn-some, if◌then◌else◌, ◌==◌, ltb, length, ◌||◌, get_elem?,
}
use usbip_python.Struct.{Bytes}
use usbip_python.Core.Text.{Text}
use usbip_python.Mtp.{
  fmt_association, Backend, Platform, rc_general_error, rc_object_prop_not_supported,
}
use usbip_python.Mtp.Encode.{ptp_str_parse, parse_object_info, ObjectInfo}
use usbip_python.Mtp.Storage.{Storage, Entry, object_at}
use usbip_python.Mtp.Storage.Query.{or_zero, parent_dir, target}
use usbip_python.Mtp.Storage.Edit.{make_file, make_dir, rename, write_file, pwrite}
use usbip_python.Mtp.Machine.{Mtp, Op, Params, Effect}
use usbip_python.Mtp.Machine.ObjectProps.{opc_filename, opc_name}
use usbip_python.Mtp.Machine.Execute.{refuses, offset_64}
use usbip_python.Mtp.Machine.Receive.{
  made, make, recv_object_info, write_to, write_target, recv_object, recv_device_prop, answered,
  rename_to, set_prop, recv_set_object_prop, recv_send_partial, receive,
}
use usbip_python.Base.{Bool-cases, inl, inr, All, join, ◌+◌, ◌≡◌, refl, sym, ◌∙◌, List, ◌++◌, take}
use usbip_python.Struct.{from_le}
use usbip_python.Mtp.Machine.{Outcome, Call, Rx, op_of, notifies, responds}
use usbip_python.Mtp.Machine.Kinds.{TakesData}
use usbip_python.Mtp.Machine.Receive.{announces}
use usbip_python.Mtp.Machine.Bulk.{perform_acts, conclude, finish, complete_rx, run}
use usbip_python.Mtp.Machine.Answers.{OneResponse, by_response, by_event, begun, code_of, txid_of}
use usbip_python.Mtp.Machine.DataPhase.{NonEmpty, run-data_phase}

-- One response, with an event behind it or not.
data IsFinal : Outcome → Type 0 where
  alone : (rc : ℕ) (ps : List ℕ) → IsFinal (responds rc ps)
  with_event : (ps : List ℕ) (ev : ℕ) (es : List ℕ) → IsFinal (notifies ps ev es)

announces-IsFinal : (ps : List ℕ) (h : Option ℕ) → IsFinal (announces ps h)
announces-IsFinal ps none = alone _ _
announces-IsFinal ps (some h) = elim (Bool-cases (h == 0)) [
  | inl t ↦ rw t (alone _ _)
  | inr f ↦ rw f (with_event _ _ _)
]

answered-IsFinal :
    (done : Bool) (good bad : ℕ) (ps : List ℕ)
    → IsFinal (if done then responds good ps else responds bad [])
answered-IsFinal true good bad ps = alone _ _
answered-IsFinal false good bad ps = alone _ _

module _ {B : Type 0} where
  -- The phase is over, and what it ends with is no other phase.
  abbrev Ended : Mtp B × Outcome → Type 0
  Ended (s, o) = (s.rx ≡ none) × IsFinal o

  abbrev EndedIf : Option (Effect B) → Type 0
  EndedIf none = ⊥
  EndedIf (some r) = OnReturn Ended r

  made-Ended :
      (s : Mtp B) (p1 : ℕ) (is_dir : Bool) (si : ℕ) (x : Option ℕ × Storage B)
      → s.rx ≡ none
      → OnReturn Ended (made s p1 is_dir si x)
  unfolding made
  made-Ended s p1 is_dir si (h, storage) w =
      bind-OnReturn (get_elem? storage.storage_ids si)
        (λ i. some (
          record s { storage = storage; send_target = if is_dir then none else h },
          announces (i ∷ p1 ∷ or_zero h ∷ []) h,
        ))
        Ended (λ i e. (w, announces-IsFinal (i ∷ p1 ∷ or_zero h ∷ []) h))

  abbrev EndsAnswered : Rx → Mtp B × List Call → Type 0
  EndsAnswered w (s, calls) = OneResponse w.txid calls × (s.rx ≡ none)

  conclude-Ended :
      (w : Rx) (s : Mtp B) (o : Outcome)
      → s.rx ≡ none
      → IsFinal o
      → OnReturn (EndsAnswered w) (conclude w.code w.txid w.params (s, o))
  unfolding conclude perform_acts
  conclude-Ended w s _ e (alone rc ps) = (by_response rc ps, e)
  conclude-Ended w s _ e (with_event ps ev es) = (by_event ps ev es, e)

  finish-Ended :
      (s : Mtp B) (w : Rx) (r : Option (Effect B))
      → EndedIf r
      → OnReturn (EndsAnswered w) (finish s w r)
  unfolding finish
  finish-Ended s w none h = absurd h
  finish-Ended s w (some none) h = tt
  finish-Ended s w (some (some (s', o))) h = conclude-Ended w s' o h.0 h.1

module _ {B : Type 0} (backend : Backend B) (platform : Platform) where
  make-Ended :
      (s : Mtp B) (p1 : ℕ) (info : ObjectInfo) (name : Text) (tgt : Option (ℕ × Text))
      → s.rx ≡ none
      → OnReturn Ended (make backend platform s p1 info name tgt)
  unfolding make
  make-Ended s p1 info [] tgt w = (w, alone _ _)
  make-Ended s p1 info (c ∷ cs) none w = (w, alone _ _)
  make-Ended s p1 info (c ∷ cs) (some (si, dir)) w =
      let is_dir = info.fmt == fmt_association in
      bind-OnReturn
        ((if is_dir then make_dir else make_file) backend platform s.storage si dir (c ∷ cs))
        (made s p1 is_dir si) Ended (λ x e. made-Ended s p1 is_dir si x w)

  recv_object_info-Ended :
      (s : Mtp B) (p : Params) (payload : Bytes)
      → s.rx ≡ none
      → OnReturn Ended (recv_object_info backend platform s p payload)
  unfolding recv_object_info
  recv_object_info-Ended s p payload w =
      if-OnReturn Ended (ltb (length payload) 52) (refuses s rc_general_error) _ (w, alone _ _)
        (bind-OnReturn (parse_object_info payload) _ Ended
          (λ info e. make-Ended s p.p1 info info.name (target s.storage p.p0 p.p1) w))

  write_to-Ended :
      (s : Mtp B) (payload : Bytes) (h : ℕ) (e : Option Entry)
      → s.rx ≡ none
      → OnReturn Ended (write_to backend platform s payload h e)
  unfolding write_to
  write_to-Ended s payload h none w = (w, alone _ _)
  write_to-Ended s payload h (some e) w =
      bind-OnReturn (write_file backend platform s.storage h payload) _ Ended
        (λ t eq. (w, with_event _ _ _))

  write_target-Ended :
      (s : Mtp B) (payload : Bytes) (t : Option ℕ)
      → s.rx ≡ none
      → OnReturn Ended (write_target backend platform s payload t)
  unfolding write_target
  write_target-Ended s payload none w = (w, alone _ _)
  write_target-Ended s payload (some h) w = write_to-Ended s payload h _ w

  recv_object-Ended :
      (s : Mtp B) (payload : Bytes)
      → s.rx ≡ none
      → OnReturn Ended (recv_object backend platform s payload)
  unfolding recv_object
  recv_object-Ended s payload w =
      write_target-Ended (record s { send_target = none }) payload s.send_target w

  recv_device_prop-Ended :
      (s : Mtp B) (p : Params) (payload : Bytes)
      → s.rx ≡ none
      → OnReturn Ended (recv_device_prop s p payload)
  unfolding recv_device_prop
  recv_device_prop-Ended s p payload w = (w, alone _ _)

  rename_to-Ended :
      (s : Mtp B) (h : ℕ) (name : Text) (dir : ℕ × Text)
      → s.rx ≡ none
      → OnReturn Ended (rename_to backend platform s h name dir)
  unfolding rename_to answered
  rename_to-Ended s h [] dir w = (w, alone _ _)
  rename_to-Ended s h (c ∷ cs) (si, dir) w =
      bind-OnReturn (rename backend platform s.storage h si dir (c ∷ cs)) _ Ended
        (λ x e. (w, answered-IsFinal x.0 _ _ _))

  set_prop-Ended :
      (s : Mtp B) (h pc : ℕ) (payload : Bytes) (e : Option Entry)
      → s.rx ≡ none
      → OnReturn Ended (set_prop backend platform s h pc payload e)
  unfolding set_prop
  set_prop-Ended s h pc payload none w = (w, alone _ _)
  set_prop-Ended s h pc payload (some e) w =
      if-OnReturn Ended (pc == opc_filename || pc == opc_name) _
        (refuses s rc_object_prop_not_supported)
        (bind-OnReturn (ptp_str_parse payload 0) _ Ended (λ x eq.
          bind-OnReturn (parent_dir s.storage h) _ Ended
            (λ dir eq1. rename_to-Ended s h x.0 dir w)))
        (w, alone _ _)

  recv_set_object_prop-Ended :
      (s : Mtp B) (p : Params) (payload : Bytes)
      → s.rx ≡ none
      → OnReturn Ended (recv_set_object_prop backend platform s p payload)
  unfolding recv_set_object_prop
  recv_set_object_prop-Ended s p payload w =
      set_prop-Ended s p.p0 p.p1 payload (object_at p.p0 s.storage.objects) w

  recv_send_partial-Ended :
      (s : Mtp B) (p : Params) (payload : Bytes)
      → s.rx ≡ none
      → OnReturn Ended (recv_send_partial backend platform s p payload)
  unfolding recv_send_partial answered
  recv_send_partial-Ended s p payload w =
      bind-OnReturn (pwrite backend platform s.storage p.p0 (offset_64 p.p1 p.p2) payload) _ Ended
        (λ x e. (w, answered-IsFinal x.0 _ _ _))

  receive-Ended :
      (s : Mtp B) (op : Op) (p : Params) (payload : Bytes)
      → s.rx ≡ none
      → TakesData op
      → EndedIf (receive backend platform s op p payload)
  receive-Ended s Op.send_object_info p payload w t = recv_object_info-Ended s p payload w
  receive-Ended s Op.send_object p payload w t = recv_object-Ended s payload w
  receive-Ended s Op.set_device_prop_value p payload w t = recv_device_prop-Ended s p payload w
  receive-Ended s Op.set_object_prop_value p payload w t = recv_set_object_prop-Ended s p payload w
  receive-Ended s Op.send_partial_object p payload w t = recv_send_partial-Ended s p payload w
  receive-Ended s _ p payload w t = absurd t

  complete_rx-Ended :
      (s : Mtp B) (w : Rx) (payload : Bytes)
      → s.rx ≡ none
      → TakesData (op_of w.code)
      → OnReturn (EndsAnswered w) (complete_rx backend platform s w payload)
  unfolding complete_rx
  complete_rx-Ended s w payload e t =
      finish-Ended s w (receive backend platform s (op_of w.code) w.params payload)
        (receive-Ended s (op_of w.code) w.params payload e t)

  -- The data-out phase of a command, for an operation that takes data: once its data container has come, in
  -- whatever transfers that are not empty, and unless the handler raises, the command has got exactly one
  -- response of its transaction, and nothing is pending.
  pub data_phase_is_answered :
      (s : Mtp B) (command head payload c : Bytes) (chunks : List Bytes) (s' : Mtp B)
      (calls : List Call)
      → TakesData (op_of (code_of command))
      → length head ≡ 12
      → from_le (take 4 (head ++ payload)) ≡ 12 + length payload
      → c ++ join chunks ≡ head ++ payload
      → All NonEmpty chunks
      → run backend platform (record s { rx = some (begun command) }) (c ∷ chunks)
        ≡ some (s', calls)
      → OneResponse (txid_of command) calls × (s'.rx ≡ none)
  data_phase_is_answered s command head payload c chunks s' calls t size field all ne e =
      OnReturn-some _ (s', calls) (EndsAnswered (begun command))
        (sym (run-data_phase backend platform s command head payload c chunks size field all ne)
          ∙ e)
        (complete_rx-Ended (record s { rx = none }) (begun command) payload refl t)
