-- ===== src/Msc/Bot/Safety.antt =====
-- Whatever a host sends, a protected unit keeps its medium, and a WRITE that is under way fits its
-- unit.
use mathlib.Core.Option.{some-injective}
use usbip_python.Base.{
  set_elem, get_elem?-set_elem, ℕ, zero, suc, ◌+◌, ◌*◌, ◌≤◌, ◌≡◌, ◌⊎◌, inl, inr, refl, sym, ◌∙◌,
  false, ◌&&◌, List, [], ◌∷◌, ◌++◌, Option, none, some, ◌>>=◌, ◌==◌, length, take, get_elem?,
  Bool-cases, leb,
}
use usbip_python.Struct.{Bytes}
use usbip_python.Core.Setup.{Setup}
use usbip_python.Msc.{Store, Lun, Msc, Pending, Sense, sense_lun_not_supported}
use usbip_python.Msc.Scsi.{Reply, passes, gives, fails, receives, dispatch}
use usbip_python.Msc.Scsi.Sound.{Fits, Sound, raises, keeps, dispatch-Sound}
use usbip_python.Msc.Bot.{
  Call, Effect, csw, stall_data_phase, ended, data_in, fail, answer, go_on, to_unit, run_cbw,
  handle_cbw, same_bytes, cbw_signature, stored, written, recv_write, on_out, on_control,
}

-- What a host does: data to the OUT endpoint, and control requests.
pub data HostOp : Type 0 where
  out : Bytes → HostOp
  control : Setup → HostOp

module _ {M : Type 0} (store : Store M) where
  abbrev left : Msc M → Effect M → Msc M
  left s none = s
  left s (some (s', calls)) = s'

  -- The state after one transfer. An exception ends the connection, and is taken to change nothing.
  unfoldable pub host_step : Msc M → HostOp → Msc M
  unfolding on_out on_control
  host_step s (out chunk) = left s (on_out store s chunk)
  host_step s (control setup) = (on_control s setup).1

  unfoldable pub host_run : Msc M → List HostOp → Msc M
  unfolding host_step
  host_run s [] = s
  host_run s (op ∷ ops) = host_run (host_step s op) ops

  -- A WRITE that is under way names a unit that can be written, in range, and waits for its blocks.
  abbrev pub WriteFits : List (Lun M) → Option Pending → Type 0
  WriteFits us none = Unit {0}
  WriteFits us (some w) =
      (u : Lun M) × (get_elem? us w.lun ≡ some u)
      × (u.read_only ≡ false)
      × (w.lba + w.count ≤ store.num_blocks u.medium_state)
      × (w.need ≡ w.count * store.block_size u.medium_state)

  -- Unit by unit: the protection is the same, and the medium too unless the unit can be written.
  abbrev pub Protected : List (Lun M) → List (Lun M) → Type 0
  Protected [] [] = Unit {0}
  Protected (u ∷ us) (v ∷ vs) =
      (v.read_only ≡ u.read_only)
      × ((u.read_only ≡ false) ⊎ (v.medium_state ≡ u.medium_state))
      × Protected us vs
  Protected _ _ = ⊥

  Protected-refl : (us : List (Lun M)) → Protected us us
  Protected-refl [] = tt
  Protected-refl (u ∷ us) = (refl, inr refl, Protected-refl us)

  Protected-trans : (us vs ws : List (Lun M)) → Protected us vs → Protected vs ws → Protected us ws
  Protected-trans [] [] [] p q = tt
  Protected-trans [] [] (w ∷ ws) p q = absurd q
  Protected-trans [] (v ∷ vs) ws p q = absurd p
  Protected-trans (u ∷ us) [] ws p q = absurd p
  Protected-trans (u ∷ us) (v ∷ vs) [] p q = absurd q
  Protected-trans (u ∷ us) (v ∷ vs) (w ∷ ws) (same, m, p) (same', m', q) =
      (same' ∙ same, both m m', Protected-trans us vs ws p q)
    where
      both :
          (u.read_only ≡ false) ⊎ (v.medium_state ≡ u.medium_state)
          → (v.read_only ≡ false) ⊎ (w.medium_state ≡ v.medium_state)
          → (u.read_only ≡ false) ⊎ (w.medium_state ≡ u.medium_state)
      both (inl a) b = inl a
      both (inr a) (inl b) = inl (sym same ∙ b)
      both (inr a) (inr b) = inr (b ∙ a)

  -- A unit is replaced by one that may stand in its place.
  put-Protected :
      (i : ℕ) (u v : Lun M) (us : List (Lun M))
      → get_elem? us i ≡ some u
      → v.read_only ≡ u.read_only
      → (u.read_only ≡ false) ⊎ (v.medium_state ≡ u.medium_state)
      → Protected us (set_elem i v us)
  put-Protected i u v [] h same m = tt
  put-Protected zero u v (w ∷ us) h same m = rw (some-injective _ _ h) (same, m, Protected-refl us)
  put-Protected (suc i) u v (w ∷ us) h same m = (refl, inr refl, put-Protected i u v us h same m)

  -- What a handler that returns leaves, from the units `us`.
  pub data Kept (us : List (Lun M)) : Effect M → Type 0 where
    raised : Kept us none
    kept :
        (s : Msc M) (calls : List Call)
        → Protected us s.luns
        → WriteFits s.luns s.pending
        → Kept us (some (s, calls))

  ended-Kept :
      (us : List (Lun M)) (s : Msc M) (calls : List Call) (bs : Option Bytes)
      → Protected us s.luns
      → WriteFits s.luns s.pending
      → Kept us (ended s calls bs)
  ended-Kept us s calls none p w = raised
  ended-Kept us s calls (some bs) p w = kept s _ p w

  idle_fits : (us : List (Lun M)) (o : Option Pending) → o ≡ none → WriteFits us o
  idle_fits us none e = tt
  idle_fits us (some w) e = cc

  fail-Kept :
      (us : List (Lun M)) (s : Msc M) (lun : ℕ) (tag : Bytes) (dlen : ℕ) (sense : Sense)
      → Protected us s.luns
      → s.pending ≡ none
      → Kept us (fail s lun tag dlen sense)
  unfolding fail
  fail-Kept us s lun tag dlen sense p idle = found (get_elem? s.luns lun) refl
    where
      found :
          (o : Option (Lun M))
          → get_elem? s.luns lun ≡ o
          → Kept us (
              o >>= λ u.
              ended
                (record s { luns = set_elem lun (record u { sense = sense }) s.luns })
                (stall_data_phase s.cbw_in dlen)
                (csw tag dlen 1))
      found none e = raised
      found (some u) e =
          ended-Kept us _ _ (csw tag dlen 1)
            (Protected-trans us s.luns _ p
              (put-Protected lun u (record u { sense = sense }) s.luns e refl (inr refl)))
            (idle_fits _ s.pending idle)

  answer-Kept :
      (us : List (Lun M)) (s : Msc M) (lun : ℕ) (tag : Bytes) (dlen : ℕ) (u v : Lun M) (r : Reply)
      → Protected us s.luns
      → s.pending ≡ none
      → get_elem? s.luns lun ≡ some v
      → v.medium_state ≡ u.medium_state
      → v.read_only ≡ u.read_only
      → Fits store u r
      → Kept us (answer store s lun tag dlen v r)
  unfolding answer data_in
  answer-Kept us s lun tag dlen u v passes p idle found medium same fits =
      ended-Kept us s [] (csw tag 0 0) p (idle_fits s.luns s.pending idle)
  answer-Kept us s lun tag dlen u v (gives bs) p idle found medium same fits =
      ended-Kept us s _ (csw tag _ 0) p (idle_fits s.luns s.pending idle)
  answer-Kept us s lun tag dlen u v (fails sense) p idle found medium same fits =
      fail-Kept us s lun tag dlen sense p idle
  answer-Kept us s lun tag dlen u v (receives lba count) p idle found medium same (free, range) =
      kept _ [] p (v, found, same ∙ free, rw (← medium) at range, refl)

  to_unit-Kept :
      (s : Msc M) (lun : ℕ) (tag : Bytes) (dlen : ℕ) (cdb : Bytes) (o : Option (Lun M))
      → s.pending ≡ none
      → get_elem? s.luns lun ≡ o
      → Kept s.luns (to_unit store s lun tag dlen cdb o)
  unfolding to_unit
  to_unit-Kept s lun tag dlen cdb none idle found =
      fail-Kept s.luns s 0 tag dlen sense_lun_not_supported (Protected-refl s.luns) idle
  to_unit-Kept s lun tag dlen cdb (some u) idle found =
      go (dispatch store s u dlen cdb) (dispatch-Sound store u s dlen cdb)
    where
      go :
          (o : Option (Lun M × Reply))
          → Sound store u o
          → Kept s.luns (o >>= go_on store s lun tag dlen)
      go o raises = raised
      go o (keeps v r medium same fits) =
          answer-Kept s.luns (record s { luns = set_elem lun v s.luns }) lun tag dlen u v r
            (put-Protected lun u v s.luns found same (inr medium)) idle
            (get_elem?-set_elem lun u v s.luns found) medium same fits

  handle_cbw-Kept :
      (s : Msc M) (cbw : Bytes) → s.pending ≡ none → Kept s.luns (handle_cbw store s cbw)
  unfolding handle_cbw run_cbw
  handle_cbw-Kept s cbw idle =
      elim (Bool-cases (length cbw == 31 && same_bytes (take 4 cbw) cbw_signature)) [
        | inl t ↦ rw t (to_unit-Kept _ _ _ _ _ _ idle refl)
        | inr f ↦ rw f (kept s [] (Protected-refl s.luns) (idle_fits s.luns s.pending idle))
      ]

  recv_write-Kept :
      (s : Msc M) (w : Pending) (chunk : Bytes)
      → WriteFits s.luns (some w)
      → Kept s.luns (recv_write store s w chunk)
  unfolding recv_write written
  recv_write-Kept s w chunk (u, found, free, range, need) =
      elim (Bool-cases (leb w.need (length (w.buf ++ chunk)))) [
        | inl t ↦
            rw (t, found)
              (ended-Kept s.luns _ [] (csw w.tag 0 0)
                (put-Protected w.lun u (stored store u w (w.buf ++ chunk)) s.luns found refl
                  (inl free))
                tt)
        | inr f ↦ rw f (kept _ [] (Protected-refl s.luns) (u, found, free, range, need))
      ]

  on_out-Kept :
      (s : Msc M) (chunk : Bytes) → WriteFits s.luns s.pending → Kept s.luns (on_out store s chunk)
  unfolding on_out
  on_out-Kept s chunk fits = go s.pending refl fits
    where
      go :
          (o : Option Pending)
          → s.pending ≡ o
          → WriteFits s.luns o
          → Kept s.luns (elim o as (λ _. Effect M) [
            | some w ↦ recv_write store s w chunk
            | none ↦ handle_cbw store s chunk
          ])
      go none e f = handle_cbw-Kept s chunk e
      go (some w) e f = recv_write-Kept s w chunk f

  -- What holds between two transfers.
  abbrev Between : List (Lun M) → Msc M → Type 0
  Between us s = Protected us s.luns × WriteFits s.luns s.pending

  left-Between :
      (us : List (Lun M)) (s : Msc M) (o : Effect M)
      → Between us s
      → Kept s.luns o
      → Between us (left s o)
  left-Between us s o b raised = b
  left-Between us s o (p, f) (kept s' calls p' f') = (Protected-trans us s.luns s'.luns p p', f')

  control-Between :
      (us : List (Lun M)) (s : Msc M) (setup : Setup)
      → Between us s
      → Between us (on_control s setup).1
  unfolding on_control
  control-Between us s setup (p, f) = elim (Bool-cases (setup.b_request == 0xFE)) [
    | inl t ↦ rw t (p, f)
    | inr g ↦ elim (Bool-cases (setup.b_request == 0xFF)) [
      | inl t ↦ rw (g, t) (p, tt)
      | inr h ↦ rw (g, h) (p, f)
    ]
  ]

  run-Between :
      (us : List (Lun M)) (s : Msc M) (ops : List HostOp)
      → Between us s
      → Between us (host_run s ops)
  unfolding host_run host_step
  run-Between us s [] b = b
  run-Between us s (out chunk ∷ ops) b =
      run-Between us (left s (on_out store s chunk)) ops
        (left-Between us s (on_out store s chunk) b (on_out-Kept s chunk b.1))
  run-Between us s (control setup ∷ ops) b =
      run-Between us (on_control s setup).1 ops (control-Between us s setup b)

  -- Whatever data and control requests a host sends to an interface with no WRITE under way: every
  -- unit keeps its protection, a protected unit keeps its medium, and a WRITE that is under way then
  -- names a unit that is not protected, lies in range, and waits for as many bytes as its blocks have.
  pub host_run-Protected :
      (s : Msc M) (ops : List HostOp)
      → s.pending ≡ none
      → Protected s.luns (host_run s ops).luns
        × WriteFits (host_run s ops).luns (host_run s ops).pending
  host_run-Protected s ops idle =
      run-Between s.luns s ops (Protected-refl s.luns, idle_fits s.luns s.pending idle)
