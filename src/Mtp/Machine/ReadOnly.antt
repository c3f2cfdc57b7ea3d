-- ===== src/Mtp/Machine/ReadOnly.antt =====
-- Over a read-only storage, no transfer changes what is stored.
use mathlib.Core.Path.{subst}
use usbip_python.Base.{
  ℕ, ◌+◌, ◌^◌, ◌≡◌, refl, sym, ap, ◌∙◌, true, List, [], ◌∷◌, ◌++◌, Option, none, some, ◌>>=◌,
  OnReturn, if-OnReturn, OnReturn-some, ltb, leb, length,
}
use usbip_python.Struct.{Bytes}
use usbip_python.Mtp.{Backend, Platform}
use usbip_python.Mtp.Storage.{Storage}
use usbip_python.Mtp.Machine.{
  Mtp, Rx, Op, Params, Outcome, Effect, Call, op_of, in_write, intr_write, response, data_container,
  event, Act, resp, give_data, send_event, begin_rx,
}
use usbip_python.Mtp.Machine.Receive.{recv_device_prop}
use usbip_python.Mtp.Machine.Bulk.{
  Result, behind, perform_acts, conclude, dispatch, finish, complete_rx, needed, collected, collect,
  handle_out, on_out, run,
}
use usbip_python.Mtp.Machine.Frame.{Asks, Same, perform-Same}

-- No data-out phase is pending but that of a device property.
abbrev pub Harmless : Option Rx → Type 0
Harmless none = Unit {0}
Harmless (some w) = op_of w.code ≡ Op.set_device_prop_value

module _ {B : Type 0} where
  -- What a transfer keeps.
  abbrev Kept : Mtp B → Mtp B × List Call → Type 0
  Kept s (s', calls) = (s'.storage ≡ s.storage) × Harmless s'.rx

  behind-Kept :
      (s : Mtp B) (calls : List Call) (r : Result B)
      → OnReturn (Kept s) r
      → OnReturn (Kept s) (behind calls r)
  behind-Kept s calls none k = tt
  behind-Kept s calls (some (s', more)) k = k

  acts-Kept :
      (s : Mtp B) (code txid : ℕ) (p : Params) (s' : Mtp B) (acts : List Act)
      → s'.storage ≡ s.storage
      → Asks (op_of code) acts
      → Harmless s'.rx
      → OnReturn (Kept s) (perform_acts code txid p s' acts)
  unfolding perform_acts
  acts-Kept s code txid p s' [] e a h = (e, h)
  acts-Kept s code txid p s' (resp rc ps ∷ acts) e a h =
      behind-Kept s (in_write (response rc txid ps) ∷ []) _ (acts-Kept s code txid p s' acts e a h)
  acts-Kept s code txid p s' (give_data payload ∷ acts) e a h =
      if-OnReturn (Kept s) (ltb (12 + length payload) (2 ^ 32)) _ none
        (behind-Kept s (in_write (data_container code txid payload) ∷ []) _
          (acts-Kept s code txid p s' acts e a h))
        tt
  acts-Kept s code txid p s' (send_event ev es ∷ acts) e a h =
      behind-Kept s (intr_write (event ev es) ∷ []) _ (acts-Kept s code txid p s' acts e a h)
  acts-Kept s code txid p s' (begin_rx ∷ acts) e a h =
      acts-Kept s code txid p
        (record s' {
          rx = some (record { code = code; txid = txid; params = p; buf = []; need = none });
        })
        acts e a.1 a.0

  conclude-Kept :
      (s : Mtp B) (code txid : ℕ) (p : Params) (r : Mtp B × Outcome)
      → Same s (op_of code) r
      → Harmless s.rx
      → OnReturn (Kept s) (conclude code txid p r)
  unfolding conclude
  conclude-Kept s code txid p (s', acts) (e, (f, asks)) h =
      acts-Kept s code txid p s' acts e asks (subst (λ (x : Option Rx). Harmless x) (sym f) h)

  concluded-Kept :
      (s : Mtp B) (code txid : ℕ) (p : Params) (r : Effect B)
      → OnReturn (Same s (op_of code)) r
      → Harmless s.rx
      → OnReturn (Kept s) (r >>= conclude code txid p)
  concluded-Kept s code txid p none k h = tt
  concluded-Kept s code txid p (some r) k h = conclude-Kept s code txid p r k h

  recv_device_prop-Same :
      (s : Mtp B) (op : Op) (p : Params) (payload : Bytes)
      → OnReturn (Same s op) (recv_device_prop s p payload)
  unfolding recv_device_prop
  recv_device_prop-Same s op p payload = (refl, (refl, tt))

  appended-Kept :
      (s s1 : Mtp B) (calls : List Call) (r : Result B)
      → s1.storage ≡ s.storage
      → OnReturn (Kept s1) r
      → OnReturn (Kept s) (do (s2, more) ← r; some (s2, calls ++ more))
  appended-Kept s s1 calls none e k = tt
  appended-Kept s s1 calls (some r) e (f, h) = (f ∙ e, h)

  then-Kept :
      (s : Mtp B) (r : Result B) (k : Mtp B → Result B)
      → OnReturn (Kept s) r
      → ((s1 : Mtp B) → s1.storage ≡ s.storage → Harmless s1.rx → OnReturn (Kept s1) (k s1))
      → OnReturn (Kept s) (do (s1, calls) ← r; (s2, more) ← k s1; some (s2, calls ++ more))
  then-Kept s none k first next = tt
  then-Kept s (some (s1, calls)) k (e, h) next = appended-Kept s s1 calls (k s1) e (next s1 e h)

module _ {B : Type 0} (backend : Backend B) (platform : Platform) where
  dispatch-Kept :
      (s : Mtp B) (raw : Bytes)
      → s.storage.read_only ≡ true
      → Harmless s.rx
      → OnReturn (Kept s) (dispatch backend platform s raw)
  unfolding dispatch
  dispatch-Kept s raw ro h =
      if-OnReturn (Kept s) (ltb (length raw) 12) (some (s, [])) _ (refl, h)
        (concluded-Kept s _ _ _ _ (perform-Same backend platform s _ _ ro) h)

  complete_rx-Kept :
      (s : Mtp B) (w : Rx) (payload : Bytes)
      → s.rx ≡ none
      → Harmless (some w)
      → OnReturn (Kept s) (complete_rx backend platform s w payload)
  unfolding complete_rx finish
  complete_rx-Kept s w payload idle h = rw h (
      concluded-Kept s w.code w.txid w.params _ (recv_device_prop-Same s _ w.params payload)
        (subst (λ (x : Option Rx). Harmless x) (sym idle) tt))

  collected-Kept :
      (s : Mtp B) (w : Rx) (need : Option ℕ)
      → Harmless (some w)
      → OnReturn (Kept s) (collected backend platform s w need)
  unfolding collected
  collected-Kept s w none h = (refl, h)
  collected-Kept s w (some n) h =
      if-OnReturn (Kept s) (leb n (length w.buf)) _ (some (record s { rx = some w }, []))
        (complete_rx-Kept (record s { rx = none }) w _ refl h) (refl, h)

  handle_out-Kept :
      (s : Mtp B) (chunk : Bytes) (rx : Option Rx)
      → s.rx ≡ rx
      → s.storage.read_only ≡ true
      → Harmless rx
      → OnReturn (Kept s) (handle_out backend platform s chunk rx)
  unfolding handle_out collect
  handle_out-Kept s chunk none e ro h =
      dispatch-Kept s chunk ro (subst (λ (x : Option Rx). Harmless x) (sym e) h)
  handle_out-Kept s chunk (some w) e ro h =
      let buf = w.buf ++ chunk in
      collected-Kept s (record w { buf = buf; need = needed w.need buf }) (needed w.need buf) h

  on_out-Kept :
      (s : Mtp B) (chunk : Bytes)
      → s.storage.read_only ≡ true
      → Harmless s.rx
      → OnReturn (Kept s) (on_out backend platform s chunk)
  unfolding on_out
  on_out-Kept s chunk ro h = handle_out-Kept s chunk s.rx refl ro h

  run-Kept :
      (s : Mtp B) (chunks : List Bytes)
      → s.storage.read_only ≡ true
      → Harmless s.rx
      → OnReturn (Kept s) (run backend platform s chunks)
  unfolding run
  run-Kept s [] ro h = (refl, h)
  run-Kept s (chunk ∷ chunks) ro h =
      then-Kept s (on_out backend platform s chunk) (λ s1. run backend platform s1 chunks)
        (on_out-Kept s chunk ro h)
        (λ s1 e h1. run-Kept s1 chunks (ap (λ (x : Storage B). x.read_only) e ∙ ro) h1)

  -- Over a read-only storage, while no data-out phase is pending but that of a device property, whatever
  -- transfers come, in whatever order, the storage stays as it is: its stores, its objects and its handles.
  pub run_read_only :
      (s : Mtp B) (chunks : List Bytes) (s' : Mtp B) (calls : List Call)
      → s.storage.read_only ≡ true
      → Harmless s.rx
      → run backend platform s chunks ≡ some (s', calls)
      → s'.storage ≡ s.storage
  run_read_only s chunks s' calls ro h e =
      (OnReturn-some _ (s', calls) (Kept s) e (run-Kept s chunks ro h)).0
