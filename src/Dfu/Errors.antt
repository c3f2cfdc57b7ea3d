-- ===== src/Dfu/Errors.antt =====
-- A block that a target refuses: the host learns of it from GETSTATUS.
use Prim.Native.Nat.{bit_and}
use usbip_python.Base.{
  ℕ, ◌*◌, ◌<◌, ◌≡◌, ◌⊎◌, inl, inr, refl, ap, ◌∙◌, sym, List, [], ◌∷◌, some, get_elem?, All, lt→ltb,
}
use usbip_python.Struct.{Bytes}
use usbip_python.Core.Setup.{Setup}
use usbip_python.Device.State.{reply}
use usbip_python.Dfu.{
  DfuState, dfu_idle, dfu_error, refused, Backend, Target, Dfu, put, after_write, dnload, begun,
  polled, get_status, on_control,
}
use usbip_python.Dfu.Machine.{DfuOp, control, select, dfu_step, dfu_run}

-- A class request with the number `n`.
abbrev pub Asks : ℕ → Setup → Type 0
Asks n setup = (bit_and setup.bm_request_type 0x60 ≡ 0x20) × (setup.b_request ≡ n)

-- DETACH, GETSTATUS and GETSTATE, which do not change the state of a class that is in dfuERROR.
abbrev pub IsPoll : DfuOp → Type 0
IsPoll (control setup payload) = Asks 0 setup ⊎ (Asks 3 setup ⊎ Asks 5 setup)
IsPoll (select alt) = ⊥

abbrev pub Idles : {T : Type 0} → Dfu T → Type 0
Idles s = (s.state ≡ dfu_idle) × (s.status ≡ 0)

module _ {T : Type 0} (backend : Backend T) where
  get_status_error : (s : Dfu T) → s.state ≡ dfu_error → (get_status s).1 ≡ s
  unfolding get_status
  get_status_error s e = ap (λ (q : DfuState). record s { state = q }) (ap polled e ∙ sym e)

  poll_lem :
      (s : Dfu T) (setup : Setup) (payload : Bytes)
      → s.state ≡ dfu_error
      → Asks 0 setup ⊎ (Asks 3 setup ⊎ Asks 5 setup)
      → (on_control backend s setup payload).1 ≡ s
  unfolding on_control
  poll_lem s setup payload e (inl (c, r)) = rw (c, r) refl
  poll_lem s setup payload e (inr (inl (c, r))) = rw (c, r) (get_status_error s e)
  poll_lem s setup payload e (inr (inr (c, r))) = rw (c, r) refl

  polls_lem :
      (s : Dfu T) (ops : List DfuOp)
      → s.state ≡ dfu_error
      → All IsPoll ops
      → dfu_run backend s ops ≡ s
  unfolding dfu_run dfu_step
  polls_lem s [] e p = refl
  polls_lem s (control setup payload ∷ ops) e (p, ps) =
      rw (poll_lem s setup payload e p) (polls_lem s ops e ps)
  polls_lem s (select alt ∷ ops) e (p, ps) = absurd p

  dnload_refused :
      (s : Dfu T) (t : Target T) (setup : Setup) (b : ℕ) (bs : Bytes) (code : ℕ) (c : T)
      → get_elem? s.targets s.cur ≡ some t
      → Asks 1 setup
      → backend.write
          (begun backend setup.w_value t.content)
          (setup.w_value * s.transfer_size)
          (b ∷ bs)
        ≡ refused code c
      → on_control backend s setup (b ∷ bs)
        ≡ (reply [], record (put s t c) { state = dfu_error; status = code })
  unfolding on_control dnload after_write
  dnload_refused s t setup b bs code c found (k, r) w = rw (k, r, found, w) refl

  reported :
      (s : Dfu T) (poll : Setup)
      → s.state ≡ dfu_error
      → s.status < 256
      → Asks 3 poll
      → (on_control backend s poll []).0 ≡ reply (s.status ∷ 0 ∷ 0 ∷ 0 ∷ 10 ∷ 0 ∷ [])
  unfolding on_control get_status
  reported s poll e small (k, r) = rw (k, r, lt→ltb s.status 256 small, e) refl

  cleared :
      (s : Dfu T) (clear : Setup)
      → Asks 4 clear ⊎ Asks 6 clear
      → Idles (on_control backend s clear []).1
  unfolding on_control
  cleared s clear (inl (k, r)) = rw (k, r) (refl, refl)
  cleared s clear (inr (k, r)) = rw (k, r) (refl, refl)

  -- A DNLOAD block that the selected target refuses with a status code: the block is acknowledged,
  -- and however often the host then asks for DETACH, GETSTATUS or GETSTATE, the next GETSTATUS
  -- reports the code and dfuERROR; CLRSTATUS or ABORT leaves dfuIDLE with status OK.
  pub refused_block_lem :
      (s : Dfu T) (t : Target T) (setup poll clear : Setup) (b : ℕ) (bs : Bytes) (code : ℕ) (c : T)
      (ops : List DfuOp)
      → get_elem? s.targets s.cur ≡ some t
      → Asks 1 setup
      → backend.write
          (begun backend setup.w_value t.content)
          (setup.w_value * s.transfer_size)
          (b ∷ bs)
        ≡ refused code c
      → code < 256
      → All IsPoll ops
      → Asks 3 poll
      → Asks 4 clear ⊎ Asks 6 clear
      → ((on_control backend s setup (b ∷ bs)).0 ≡ reply [])
        × ((on_control backend
              (dfu_run backend (on_control backend s setup (b ∷ bs)).1 ops)
              poll
              []).0
            ≡ reply (code ∷ 0 ∷ 0 ∷ 0 ∷ 10 ∷ 0 ∷ []))
        × Idles
            (on_control backend
              (dfu_run backend (on_control backend s setup (b ∷ bs)).1 ops)
              clear
              []).1
  refused_block_lem s t setup poll clear b bs code c ops found ask w small polls ask' ask'' =
      rw (dnload_refused s t setup b bs code c found ask w) (
        rw (polls_lem (record (put s t c) { state = dfu_error; status = code }) ops refl polls) (
          refl,
          reported (record (put s t c) { state = dfu_error; status = code }) poll refl small ask',
          cleared (record (put s t c) { state = dfu_error; status = code }) clear ask'',
        ))
