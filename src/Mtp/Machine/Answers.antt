-- ===== src/Mtp/Machine/Answers.antt =====
-- What a command container is answered with.
use usbip_python.Base.{
  ℕ, ◌+◌, ◌≤◌, ◌≡◌, ◌≢◌, refl, sym, ap, ◌∙◌, arith, false, List, [], ◌∷◌, Option, none, some,
  OnReturn, bind-OnReturn, if-OnReturn, OnReturn-some, ltb, length, take, drop,
}
use usbip_python.Struct.{Bytes, from_le}
use usbip_python.Mtp.{Backend, Platform, rc_ok, rc_session_not_open}
use usbip_python.Mtp.Machine.{
  Mtp, Op, Rx, Outcome, Call, in_write, intr_write, response, data_container, event, op_of,
}
use usbip_python.Mtp.Machine.Execute.{perform, is_open_to_all}
use usbip_python.Mtp.Machine.Pending.{KeepsRx, perform-KeepsRx}
use usbip_python.Mtp.Machine.Kinds.{Fits, FitsOp, TakesData, HasNoData, GivesData}
use usbip_python.Mtp.Machine.Kinds.Operations.{perform-Fits}
use usbip_python.Mtp.Machine.Bulk.{perform_acts, conclude, params_of, dispatch, handle_out, on_out}

-- The code and the transaction of a command container.
abbrev pub code_of : Bytes → ℕ
code_of raw = from_le (take 2 (drop 6 raw))

abbrev pub txid_of : Bytes → ℕ
txid_of raw = from_le (take 4 (drop 8 raw))

-- One response of the transaction, alone or with an event behind it.
pub data OneResponse (txid : ℕ) : List Call → Type 0 where
  by_response : (rc : ℕ) (ps : List ℕ) → OneResponse txid (in_write (response rc txid ps) ∷ [])
  by_event :
      (ps : List ℕ) (ev : ℕ) (es : List ℕ)
      → OneResponse txid (in_write (response rc_ok txid ps) ∷ intr_write (event ev es) ∷ [])

-- The data-out phase of a command, of which nothing has come.
abbrev pub begun : Bytes → Rx
begun raw = record {
  code = code_of raw;
  txid = txid_of raw;
  params = params_of raw;
  buf = [];
  need = none;
}

-- What the command of an operation leads to, and what is pending then: a response that is not RC_OK;
-- RC_OK alone, for an operation without data; the data and RC_OK, for one that gives data; RC_OK and an
-- event, for DeleteObject; or nothing written and the data-out phase, for an operation that takes data.
pub data Served (op : Op) (raw : Bytes) (rx : Option Rx) : List Call → Type 0 where
  refused :
      (rc : ℕ) (ps : List ℕ)
      → rc ≢ rc_ok
      → rx ≡ none
      → Served op raw rx (in_write (response rc (txid_of raw) ps) ∷ [])
  passed :
      (ps : List ℕ)
      → HasNoData op
      → rx ≡ none
      → Served op raw rx (in_write (response rc_ok (txid_of raw) ps) ∷ [])
  gave :
      (payload : Bytes) (ps : List ℕ)
      → GivesData op
      → rx ≡ none
      → Served op raw rx (
          in_write (data_container (code_of raw) (txid_of raw) payload)
          ∷ in_write (response rc_ok (txid_of raw) ps)
          ∷ [])
  removed :
      (ps : List ℕ) (ev : ℕ) (es : List ℕ)
      → op ≡ Op.delete_object
      → rx ≡ none
      → Served op raw rx
          (in_write (response rc_ok (txid_of raw) ps) ∷ intr_write (event ev es) ∷ [])
  began : TakesData op → rx ≡ some (begun raw) → Served op raw rx []

module _ {B : Type 0} where
  abbrev Ends : Op → Bytes → Mtp B × List Call → Type 0
  Ends op raw (s', calls) = Served op raw s'.rx calls

  conclude-Ends :
      (s : Mtp B) (op : Op) (raw : Bytes) (s' : Mtp B) (o : Outcome)
      → s'.rx ≡ none
      → Fits op o
      → OnReturn (Ends op raw) (conclude (code_of raw) (txid_of raw) (params_of raw) (s', o))
  unfolding conclude perform_acts
  conclude-Ends s op raw s' _ e (Fits.refused rc ps n) = refused rc ps n e
  conclude-Ends s op raw s' _ e (Fits.passed ps d) = passed ps d e
  conclude-Ends s op raw s' _ e (Fits.gave payload ps d) =
      if-OnReturn (Ends op raw) (ltb (12 + length payload) 4294967296) _ none (gave payload ps d e)
        tt
  conclude-Ends s op raw s' _ e (Fits.removed ps ev es d) = removed ps ev es d e
  conclude-Ends s op raw s' _ e (Fits.began t) = began t refl

-- The session gate.
abbrev pub Gated : {B : Type 0} → Mtp B → Bytes → List Call → Type 0
Gated s raw calls =
    is_open_to_all (op_of (code_of raw)) ≡ false
    → s.session ≡ 0
    → calls ≡ in_write (response rc_session_not_open (txid_of raw) []) ∷ []

module _ {B : Type 0} (backend : Backend B) (platform : Platform) where
  dispatch-Ends :
      (s : Mtp B) (raw : Bytes)
      → s.rx ≡ none
      → 12 ≤ length raw
      → OnReturn (Ends (op_of (code_of raw)) raw) (dispatch backend platform s raw)
  unfolding dispatch
  dispatch-Ends s raw idle size =
      let op = op_of (code_of raw) in
      let long : ltb (length raw) 12 ≡ false = ground arith in
      rw long (
        bind-OnReturn (perform backend platform s op (params_of raw)) _ (Ends op raw) (λ r eq.
          conclude-Ends s op raw r.0 r.1
            (OnReturn-some _ r (KeepsRx s) eq (perform-KeepsRx backend platform s _ _) ∙ idle)
            (OnReturn-some _ r (FitsOp op) eq (perform-Fits backend platform s _ _))))

  abbrev IsGated : Mtp B → Bytes → Mtp B × List Call → Type 0
  IsGated s raw (s', calls) = calls ≡ in_write (response rc_session_not_open (txid_of raw) []) ∷ []

  dispatch-IsGated :
      (s : Mtp B) (raw : Bytes)
      → 12 ≤ length raw
      → is_open_to_all (op_of (code_of raw)) ≡ false
      → s.session ≡ 0
      → OnReturn (IsGated s raw) (dispatch backend platform s raw)
  unfolding dispatch perform conclude perform_acts
  dispatch-IsGated s raw size closed no_session =
      let long : ltb (length raw) 12 ≡ false = ground arith in rw (long, closed, no_session) refl

  -- A command container that comes while no data is awaited, unless it raises, is answered as its
  -- operation wants: a response that is not RC_OK; RC_OK alone only for an operation without data; data
  -- with RC_OK only for an operation that gives data; RC_OK and an event only for DeleteObject; each with
  -- the transaction of the command, the data with its code, nothing else and nothing pending. Only an
  -- operation that takes data writes nothing, and its data phase begins. Without a session, every
  -- operation but GetDeviceInfo and OpenSession gets RC_SESSION_NOT_OPEN alone.
  pub command_is_answered :
      (s : Mtp B) (raw : Bytes) (s' : Mtp B) (calls : List Call)
      → s.rx ≡ none
      → 12 ≤ length raw
      → on_out backend platform s raw ≡ some (s', calls)
      → Served (op_of (code_of raw)) raw s'.rx calls × Gated s raw calls
  unfolding on_out handle_out
  command_is_answered s raw s' calls idle size e =
      let same : dispatch backend platform s raw ≡ some (s', calls) =
        sym (ap (handle_out backend platform s raw) idle) ∙ e in
      (
        OnReturn-some _ (s', calls) (Ends (op_of (code_of raw)) raw) same
            (dispatch-Ends s raw idle size),
        λ closed no_session.
            OnReturn-some _ (s', calls) (IsGated s raw) same
              (dispatch-IsGated s raw size closed no_session),
      )
