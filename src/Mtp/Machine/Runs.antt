-- ===== src/Mtp/Machine/Runs.antt =====
-- Whatever transfers come, no two places of the storage share a handle.
use usbip_python.Base.{
  ℕ, ◌+◌, ◌^◌, ◌≡◌, List, [], ◌∷◌, ◌++◌, Option, none, some, ◌>>=◌, OnReturn, bind-OnReturn,
  if-OnReturn, OnReturn-some, ltb, leb, length, take, drop,
}
use usbip_python.Struct.{Bytes}
use usbip_python.Core.Text.{Text}
use usbip_python.Mtp.{Backend, Platform}
use usbip_python.Mtp.Storage
use usbip_python.Mtp.Storage.{Storage, Entry, object_at}
use usbip_python.Mtp.Storage.Handles.{Numbered}
use usbip_python.Mtp.Storage.Numbering.{Sound, new-Sound}
use usbip_python.Mtp.Machine.{
  Mtp, Rx, Params, Outcome, Effect, Call, op_of, in_write, intr_write, response, data_container,
  event, Act, resp, give_data, send_event, begin_rx, new,
}
use usbip_python.Mtp.Machine.Receive.{receive}
use usbip_python.Mtp.Machine.Bulk.{
  Result, behind, perform_acts, conclude, dispatch, finish, complete_rx, needed, collected, collect,
  handle_out, on_out, run,
}
use usbip_python.Mtp.Machine.Numbering.{SoundAfter, perform-Sound}
use usbip_python.Mtp.Machine.Received.{SoundIf, receive-Sound}

module _ {B : Type 0} where
  abbrev SoundRun : Mtp B × List Call → Type 0
  SoundRun (s, calls) = Sound s.storage

  behind-Sound :
      (calls : List Call) (r : Result B) → OnReturn SoundRun r → OnReturn SoundRun (behind calls r)
  behind-Sound calls none w = tt
  behind-Sound calls (some (s, more)) w = w

  acts-Sound :
      (code txid : ℕ) (p : Params) (s : Mtp B) (acts : List Act)
      → Sound s.storage
      → OnReturn SoundRun (perform_acts code txid p s acts)
  unfolding perform_acts
  acts-Sound code txid p s [] w = w
  acts-Sound code txid p s (resp rc ps ∷ acts) w =
      behind-Sound (in_write (response rc txid ps) ∷ []) _ (acts-Sound code txid p s acts w)
  acts-Sound code txid p s (give_data payload ∷ acts) w =
      if-OnReturn SoundRun (ltb (12 + length payload) (2 ^ 32)) _ none
        (behind-Sound (in_write (data_container code txid payload) ∷ []) _
          (acts-Sound code txid p s acts w))
        tt
  acts-Sound code txid p s (send_event ev es ∷ acts) w =
      behind-Sound (intr_write (event ev es) ∷ []) _ (acts-Sound code txid p s acts w)
  acts-Sound code txid p s (begin_rx ∷ acts) w =
      acts-Sound code txid p
        (record s {
          rx = some (record { code = code; txid = txid; params = p; buf = []; need = none });
        })
        acts w

  conclude-Sound :
      (code txid : ℕ) (p : Params) (r : Mtp B × Outcome)
      → SoundAfter r
      → OnReturn SoundRun (conclude code txid p r)
  unfolding conclude
  conclude-Sound code txid p (s, acts) w = acts-Sound code txid p s acts w

  concluded-Sound :
      (code txid : ℕ) (p : Params) (r : Effect B)
      → OnReturn SoundAfter r
      → OnReturn SoundRun (r >>= conclude code txid p)
  concluded-Sound code txid p none h = tt
  concluded-Sound code txid p (some r) h = conclude-Sound code txid p r h

  finish-Sound :
      (s : Mtp B) (w : Rx) (r : Option (Effect B))
      → Sound s.storage
      → SoundIf r
      → OnReturn SoundRun (finish s w r)
  unfolding finish
  finish-Sound s w none k h = k
  finish-Sound s w (some r) k h = concluded-Sound w.code w.txid w.params r h

module _ {B : Type 0} (backend : Backend B) (platform : Platform) where
  dispatch-Sound :
      (s : Mtp B) (raw : Bytes)
      → Sound s.storage
      → OnReturn SoundRun (dispatch backend platform s raw)
  unfolding dispatch
  dispatch-Sound s raw w =
      if-OnReturn SoundRun (ltb (length raw) 12) (some (s, [])) _ w
        (concluded-Sound _ _ _ _ (perform-Sound backend platform s _ _ w))

  complete_rx-Sound :
      (s : Mtp B) (w : Rx) (payload : Bytes)
      → Sound s.storage
      → OnReturn SoundRun (complete_rx backend platform s w payload)
  unfolding complete_rx
  complete_rx-Sound s w payload k =
      finish-Sound s w (receive backend platform s (op_of w.code) w.params payload) k
        (receive-Sound backend platform s (op_of w.code) w.params payload k)

  collected-Sound :
      (s : Mtp B) (w : Rx) (need : Option ℕ)
      → Sound s.storage
      → OnReturn SoundRun (collected backend platform s w need)
  unfolding collected
  collected-Sound s w none k = k
  collected-Sound s w (some n) k =
      if-OnReturn SoundRun (leb n (length w.buf)) _ (some (record s { rx = some w }, []))
        (complete_rx-Sound (record s { rx = none }) w (drop 12 (take n w.buf)) k) k

  handle_out-Sound :
      (s : Mtp B) (chunk : Bytes) (rx : Option Rx)
      → Sound s.storage
      → OnReturn SoundRun (handle_out backend platform s chunk rx)
  unfolding handle_out collect
  handle_out-Sound s chunk none k = dispatch-Sound s chunk k
  handle_out-Sound s chunk (some w) k =
      let buf = w.buf ++ chunk in
      collected-Sound s (record w { buf = buf; need = needed w.need buf }) (needed w.need buf) k

  run-Sound :
      (s : Mtp B) (chunks : List Bytes)
      → Sound s.storage
      → OnReturn SoundRun (run backend platform s chunks)
  unfolding run on_out
  run-Sound s [] k = k
  run-Sound s (chunk ∷ chunks) k =
      bind-OnReturn (on_out backend platform s chunk) _ SoundRun (λ x e.
        bind-OnReturn (run backend platform x.0 chunks) _ SoundRun (λ y e'.
          OnReturn-some _ y SoundRun e' (
            run-Sound x.0 chunks (OnReturn-some _ x SoundRun e (handle_out-Sound s chunk s.rx k)))))

  -- From the start, whatever the stores hold and whatever transfers come, in whatever order, no two
  -- places of the storage have the same handle, and every handle is below the next one to be given.
  pub handles_stay_apart :
      (stores : List B) (storage : Storage B) (name manufacturer : Text) (serial : Option Text)
      (chunks : List Bytes) (s : Mtp B) (calls : List Call)
      → Storage.new backend platform stores ≡ some storage
      → run backend platform (new storage name manufacturer serial) chunks ≡ some (s, calls)
      → Numbered s.storage.next s.storage.handle_of
  unfolding new
  handles_stay_apart stores storage name manufacturer serial chunks s calls start e =
      OnReturn-some _ (s, calls) SoundRun e
        (run-Sound (new storage name manufacturer serial) chunks
          (OnReturn-some _ storage Sound start (new-Sound backend platform stores)))
