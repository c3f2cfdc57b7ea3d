-- ===== src/Dfu/Machine.antt =====
-- The states that the class goes through, whatever the host sends.
use Prim.Native.Nat.{bit_and}
use usbip_python.Base.{
  ℕ, ◌≤◌, ◌<◌, ◌≡◌, arith, refl, Bool, true, false, ◌||◌, List, [], ◌∷◌, Option, none, some, ◌==◌,
  if◌then◌else◌, length, get_elem?, length-set_elem, get_elem?-lt,
}
use usbip_python.Struct.{Bytes}
use usbip_python.Core.Setup.{Setup}
use usbip_python.Device.State.{Answer}
use usbip_python.Dfu.{
  DfuState, dfu_idle, dnload_sync, dnload_idle, manifest_sync, upload_idle, dfu_error, Stored,
  stored, refused, full, Backend, Target, Dfu, set_alt, select_alt, put, after_write, dnload,
  upload, after_read, polled, get_status, with_target, on_control,
}

-- What a host does: control requests to the interface, and SET_INTERFACE.
pub data DfuOp : Type 0 where
  control : Setup → Bytes → DfuOp
  select : ℕ → DfuOp

-- A state of the class with the status that may stand in it.
pub data Phase : DfuState → ℕ → Type 0 where
  idle : Phase dfu_idle 0
  synced : Phase dnload_sync 0
  loading : Phase dnload_idle 0
  manifesting : Phase manifest_sync 0
  uploading : Phase upload_idle 0
  failed : (code : ℕ) → 1 ≤ code → code < 256 → Phase dfu_error code

pub record IsValid {T : Type 0} (s : Dfu T) : Type 0 where
  pub in_phase : Phase s.state s.status
  pub selected : s.cur < length s.targets

-- The codes of DFUError are status codes of errors.
abbrev pub ReportsErrors : {T : Type 0} → Stored T → Type 0
ReportsErrors (refused code c) = (1 ≤ code) × (code < 256)
ReportsErrors _ = Unit {0}

module _ {T : Type 0} (backend : Backend T) where
  unfoldable pub dfu_step : Dfu T → DfuOp → Dfu T
  unfolding on_control set_alt
  dfu_step s (control setup payload) = (on_control backend s setup payload).1
  dfu_step s (select alt) = set_alt s alt

  unfoldable pub dfu_run : Dfu T → List DfuOp → Dfu T
  unfolding dfu_step
  dfu_run s [] = s
  dfu_run s (op ∷ ops) = dfu_run (dfu_step s op) ops

  if-IsValid :
      (b : Bool) (x y : Answer × Dfu T) → IsValid x.1 → IsValid y.1 → IsValid (if b then x else y).1
  if-IsValid true x y p q = p
  if-IsValid false x y p q = q

  polled-Phase : (q : DfuState) (status : ℕ) → Phase q status → Phase (polled q) status
  polled-Phase _ _ idle = idle
  polled-Phase _ _ synced = loading
  polled-Phase _ _ loading = loading
  polled-Phase _ _ manifesting = idle
  polled-Phase _ _ uploading = uploading
  polled-Phase _ _ (failed code p q) = failed code p q

  put_selected :
      (s : Dfu T) (t : Target T) (c : T)
      → s.cur < length s.targets
      → s.cur < length (put s t c).targets
  put_selected s t c h = omega (arith, length-set_elem s.cur (record t { content = c }) s.targets)

  after_write-IsValid :
      (s : Dfu T) (t : Target T) (r : Stored T)
      → IsValid s
      → ReportsErrors r
      → IsValid (after_write s t r).1
  unfolding after_write
  after_write-IsValid s t (stored c) v h = record {
    in_phase = synced;
    selected = put_selected s t c v.selected;
  }
  after_write-IsValid s t (refused code c) v (h, k) = record {
    in_phase = failed code h k;
    selected = put_selected s t c v.selected;
  }
  after_write-IsValid s t (full c) v h = record {
    in_phase = failed 8 (omega arith) (omega arith);
    selected = put_selected s t c v.selected;
  }

  after_read-IsValid : (s : Dfu T) (o : Option Bytes) → IsValid s → IsValid (after_read s o).1
  unfolding after_read
  after_read-IsValid s none v = v
  after_read-IsValid s (some []) v = record { in_phase = idle; selected = v.selected }
  after_read-IsValid s (some (b ∷ bs)) v = record { in_phase = uploading; selected = v.selected }

  module _
      (honest : (c : T) (offset : ℕ) (bs : Bytes) → ReportsErrors (backend.write c offset bs)) where
    dnload-IsValid :
        (s : Dfu T) (t : Target T) (setup : Setup) (payload : Bytes)
        → IsValid s
        → IsValid (dnload backend s t setup payload).1
    unfolding dnload
    dnload-IsValid s t setup [] v = record {
      in_phase = manifesting;
      selected = put_selected s t _ v.selected;
    }
    dnload-IsValid s t setup (b ∷ bs) v = after_write-IsValid s t _ v (honest _ _ _)

    with_target-IsValid :
        (s : Dfu T) (f : Target T → Answer × Dfu T) (o : Option (Target T))
        → IsValid s
        → ((t : Target T) → IsValid (f t).1)
        → IsValid (with_target s f o).1
    with_target-IsValid s f none v g = v
    with_target-IsValid s f (some t) v g = g t

    on_control-IsValid :
        (s : Dfu T) (setup : Setup) (payload : Bytes)
        → IsValid s
        → IsValid (on_control backend s setup payload).1
    unfolding on_control get_status upload
    on_control-IsValid s setup payload v =
        if-IsValid (bit_and setup.bm_request_type 0x60 == 0x20) _ _
          (if-IsValid (setup.b_request == 1) _ _
            (with_target-IsValid s _ (get_elem? s.targets s.cur) v
              (λ t. dnload-IsValid s t setup payload v))
            (if-IsValid (setup.b_request == 2) _ _
              (with_target-IsValid s _ (get_elem? s.targets s.cur) v
                (λ t. after_read-IsValid s _ v))
              (if-IsValid (setup.b_request == 3) _ _
                (record {
                  in_phase = polled-Phase s.state s.status v.in_phase;
                  selected = v.selected;
                })
                (if-IsValid (setup.b_request == 5) _ _ v (
                  if-IsValid (setup.b_request == 4 || setup.b_request == 6) _ _
                    (record { in_phase = idle; selected = v.selected })
                    (if-IsValid (setup.b_request == 0) _ _ v v))))))
          v

    select_alt-IsValid :
        (s : Dfu T) (alt : ℕ) (o : Option (Target T))
        → get_elem? s.targets alt ≡ o
        → IsValid s
        → IsValid (select_alt s alt o)
    select_alt-IsValid s alt none e v = v
    select_alt-IsValid s alt (some t) e v = record {
      in_phase = idle;
      selected = get_elem?-lt s.targets alt t e;
    }

    -- Whatever requests and alternate settings a host sends to a valid interface, whose targets
    -- report errors by non-zero status bytes: the class is in dfuIDLE, dfuDNLOAD_SYNC,
    -- dfuDNLOAD_IDLE, dfuMANIFEST_SYNC or dfuUPLOAD_IDLE with status OK, or in dfuERROR with a
    -- status that is not OK and fits a byte; and the selected target exists.
    pub dfu_run-IsValid : (s : Dfu T) (ops : List DfuOp) → IsValid s → IsValid (dfu_run s ops)
    unfolding dfu_run dfu_step set_alt
    dfu_run-IsValid s [] v = v
    dfu_run-IsValid s (control setup payload ∷ ops) v =
        dfu_run-IsValid (on_control backend s setup payload).1 ops
          (on_control-IsValid s setup payload v)
    dfu_run-IsValid s (select alt ∷ ops) v =
        dfu_run-IsValid (set_alt s alt) ops
          (select_alt-IsValid s alt (get_elem? s.targets alt) refl v)
