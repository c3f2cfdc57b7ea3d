-- ===== src/Msc/Bot/Answers.antt =====
-- Every command is answered: a data phase or a halt, and one CSW, or it waits for the data of a WRITE.
use Prim.Native.Nat.{bit_and}
use mathlib.Core.Option.{some-injective}
use usbip_python.Base.{
  set_elem, get_elem?-set_elem, ℕ, zero, suc, ◌+◌, ◌-◌, ◌^◌, ◌≤◌, ◌<◌, ◌≡◌, inl, inr, refl, ap,
  arith, Bool, true, false, List, [], ◌∷◌, ◌++◌, Option, none, some, ◌>>=◌, ◌==◌, if◌then◌else◌,
  length, take, drop, get_elem?, get_or, All, Bool-cases, Option-cases, length-take, length-drop,
  lt→ltb,
}
use usbip_python.Struct.{Bytes, IsByte, little, pack_field, to_le, from_le}
use usbip_python.Struct.Int.{decode-lt}
use usbip_python.Struct.Inverse.{All-take, All-drop}
use usbip_python.Msc.{Store, Lun, Msc, Pending, Sense, sense_lun_not_supported}
use usbip_python.Msc.Scsi.{Reply, passes, gives, fails, receives, dispatch}
use usbip_python.Msc.Scsi.Kinds.{Accords, Suits, dispatch-Suits}
use usbip_python.Msc.Scsi.Returns.{IsOrdinary, Returned, returned, dispatch-Returned}
use usbip_python.Msc.Bot.{
  Call, in_write, in_stall, out_stall, Effect, csw_signature, cbw_signature, same_bytes, csw,
  stall_data_phase, write_or_stall, data_in, fail, answer, go_on, to_unit, run_cbw, handle_cbw,
}

-- The CSW on the wire.
abbrev pub csw_bytes : Bytes → ℕ → ℕ → Bytes
csw_bytes tag residue status = csw_signature ++ (tag ++ (to_le 4 residue ++ (status ∷ [])))

-- What a command whose data phase has the payload puts on the pipes. BOT 1.0: the data that there is
-- and the residue make up the length that the CBW announced; where data was announced and there is
-- none, the pipe of its direction is halted before the CSW.
pub data DataPhase (to_host : Bool) (tag : Bytes) (dlen status : ℕ)
    : Bytes → List Call → Type 0 where
  sent :
      (payload : Bytes) (residue : ℕ)
      → 1 ≤ length payload
      → length payload + residue ≡ dlen
      → DataPhase to_host tag dlen status payload
          (in_write payload ∷ in_write (csw_bytes tag residue status) ∷ [])
  not_wanted :
      dlen ≡ 0 → DataPhase to_host tag dlen status [] (in_write (csw_bytes tag dlen status) ∷ [])
  halted :
      1 ≤ dlen
      → DataPhase to_host tag dlen status []
          ((if to_host then in_stall else out_stall) ∷ in_write (csw_bytes tag dlen status) ∷ [])

-- The WRITE that waits has the CBW's tag, the blocks that it names, and no data yet.
abbrev pub Waits : Bytes → ℕ → ℕ → Option Pending → Type 0
Waits tag lba count none = ⊥
Waits tag lba count (some w) = (w.tag ≡ tag) × (w.lba ≡ lba) × (w.count ≡ count) × (w.buf ≡ [])

-- What the host gets for the way in which the command goes on.
abbrev pub Answered : Bool → Bytes → ℕ → Reply → List Call → Option Pending → Type 0
Answered to_host tag dlen passes calls pending =
    (calls ≡ in_write (csw_bytes tag 0 0) ∷ []) × (pending ≡ none)
Answered to_host tag dlen (gives page) calls pending =
    DataPhase to_host tag dlen 0 (take dlen page) calls × (pending ≡ none)
Answered to_host tag dlen (fails sense) calls pending =
    DataPhase to_host tag dlen 1 [] calls × (pending ≡ none)
Answered to_host tag dlen (receives lba count) calls pending =
    (calls ≡ []) × Waits tag lba count pending

abbrev reply_of : {M : Type 0} → Option (Lun M × Reply) → Option Reply
reply_of none = none
reply_of (some (u, r)) = some r

-- The way in which the command of a block goes on for the unit that the CBW names.
abbrev pub wanted : {M : Type 0} → Store M → Msc M → ℕ → Bytes → Option (Lun M) → Option Reply
wanted store s dlen cdb none = some (fails sense_lun_not_supported)
wanted store s dlen cdb (some u) = reply_of (dispatch store s u dlen cdb)

csw_lem :
    (tag : Bytes) (residue status : ℕ)
    → residue < 2 ^ 32
    → csw tag residue status ≡ some (csw_bytes tag residue status)
unfolding csw pack_field
csw_lem tag residue status h = rw (lt→ltb residue (256 ^ 4) h) refl

-- The outcome of a handler that was started with no WRITE under way.
abbrev Good : {M : Type 0} → Bool → Bytes → ℕ → Reply → Effect M → Type 0
Good to_host tag dlen r none = ⊥
Good to_host tag dlen r (some (s, calls)) = Answered to_host tag dlen r calls s.pending

-- bmCBWFlags bit 7: the data phase goes to the host.
abbrev pub announces_in : Bytes → Bool
announces_in cbw = if bit_and (get_or cbw 12 0) 0x80 == 0 then false else true

stall-DataPhase :
    (to_host : Bool) (tag : Bytes) (dlen status : ℕ)
    → DataPhase to_host tag dlen status []
        (stall_data_phase to_host dlen ++ (in_write (csw_bytes tag dlen status) ∷ []))
unfolding stall_data_phase
stall-DataPhase to_host tag dlen status = elim (Bool-cases (dlen == 0)) [
  | inl t ↦ rw t (not_wanted (ground arith))
  | inr f ↦ rw f (halted (ground arith))
]

write-DataPhase :
    (to_host : Bool) (tag : Bytes) (dlen : ℕ) (payload : Bytes)
    → length payload ≤ dlen
    → DataPhase to_host tag dlen 0 payload (
        write_or_stall to_host dlen payload
        ++ (in_write (csw_bytes tag (dlen - length payload) 0) ∷ []))
write-DataPhase to_host tag dlen [] h = rw (zero_length dlen) (stall-DataPhase to_host tag dlen 0)
  where
    zero_length : (n : ℕ) → n - 0 ≡ n
    zero_length n = omega arith
write-DataPhase to_host tag dlen (b ∷ bs) h =
    sent (b ∷ bs) (dlen - length (b ∷ bs)) (omega arith) (omega arith)

-- The command block: cbw[15 : 15 + cblen]
abbrev pub block : Bytes → Bytes
block cbw = take (bit_and (get_or cbw 14 0) 0x1F) (drop 15 cbw)

module _ {M : Type 0} (store : Store M) where
  data_in-Good :
      (s : Msc M) (tag : Bytes) (dlen : ℕ) (page : Bytes)
      → dlen < 2 ^ 32
      → s.pending ≡ none
      → Good s.cbw_in tag dlen (gives page) (data_in s tag dlen page)
  unfolding data_in
  data_in-Good s tag dlen page h idle =
      let cut = take dlen page in
      rw (csw_lem tag (dlen - length cut) 0 (omega arith))
        (write-DataPhase s.cbw_in tag dlen cut (omega (arith, length-take dlen page)), idle)

  fail-Good :
      (s : Msc M) (lun : ℕ) (u : Lun M) (tag : Bytes) (dlen : ℕ) (sense : Sense)
      → dlen < 2 ^ 32
      → s.pending ≡ none
      → get_elem? s.luns lun ≡ some u
      → Good s.cbw_in tag dlen (fails sense) (fail s lun tag dlen sense)
  unfolding fail
  fail-Good s lun u tag dlen sense h idle found =
      rw (found, csw_lem tag dlen 1 h) (stall-DataPhase s.cbw_in tag dlen 1, idle)

  answer-Good :
      (s : Msc M) (lun : ℕ) (tag : Bytes) (dlen : ℕ) (u v : Lun M) (r : Reply)
      → dlen < 2 ^ 32
      → s.pending ≡ none
      → get_elem? s.luns lun ≡ some v
      → Good s.cbw_in tag dlen r (answer store s lun tag dlen u r)
  unfolding answer
  answer-Good s lun tag dlen u v passes h idle found =
      rw (csw_lem tag 0 0 (omega arith)) (refl, idle)
  answer-Good s lun tag dlen u v (gives bs) h idle found = data_in-Good s tag dlen bs h idle
  answer-Good s lun tag dlen u v (fails sense) h idle found =
      fail-Good s lun v tag dlen sense h idle found
  answer-Good s lun tag dlen u v (receives lba count) h idle found =
      (refl, (refl, refl, refl, refl))

  All-get_elem? :
      (P : Lun M → Type 0) (us : List (Lun M)) (i : ℕ) (u : Lun M)
      → All P us
      → get_elem? us i ≡ some u
      → P u
  All-get_elem? P [] i u a h = absurd (none_some h)
    where
      none_some : none ≡ some u → ⊥
      none_some q = cc
  All-get_elem? P (w ∷ us) zero u (p, a) h = rw (← some-injective _ _ h) p
  All-get_elem? P (w ∷ us) (suc i) u (p, a) h = All-get_elem? P us i u a h

  -- The handler returns, and the host gets what belongs to the way in which the command goes on.
  abbrev Outcome : Bool → Bytes → ℕ → ℕ → Option Reply → Effect M → Type 0
  Outcome to_host tag dlen op w o =
      (r : Reply) × (s : Msc M) × (calls : List Call) × (o ≡ some (s, calls))
      × (w ≡ some r)
      × Accords op r
      × Answered to_host tag dlen r calls s.pending

  to_Outcome :
      (to_host : Bool) (tag : Bytes) (dlen op : ℕ) (r : Reply) (o : Effect M)
      → Accords op r
      → Good to_host tag dlen r o
      → Outcome to_host tag dlen op (some r) o
  to_Outcome to_host tag dlen op r none a g = absurd g
  to_Outcome to_host tag dlen op r (some (s, calls)) a g = (r, s, calls, refl, refl, a, g)

  dispatched-Outcome :
      (s : Msc M) (lun : ℕ) (tag : Bytes) (dlen op : ℕ) (u : Lun M) (o : Option (Lun M × Reply))
      → dlen < 2 ^ 32
      → s.pending ≡ none
      → get_elem? s.luns lun ≡ some u
      → Suits op o
      → Returned o
      → Outcome s.cbw_in tag dlen op (reply_of o) (o >>= go_on store s lun tag dlen)
  dispatched-Outcome s lun tag dlen op u o h idle found suits (returned (v, r)) =
      to_Outcome s.cbw_in tag dlen op r _ suits (
        answer-Good (record s { luns = set_elem lun v s.luns }) lun tag dlen v v r h idle
          (get_elem?-set_elem lun u v s.luns found))

  three :
      (s : Msc M) (u : Lun M) (dlen : ℕ) (cdb : Bytes)
      → IsOrdinary store u
      → 3 ≤ length cdb
      → Returned (dispatch store s u dlen cdb)
        × Suits (get_or cdb 0 0) (dispatch store s u dlen cdb)
  three s u dlen [] o h = absurd (omega arith)
  three s u dlen (_ ∷ []) o h = absurd (omega arith)
  three s u dlen (_ ∷ _ ∷ []) o h = absurd (omega arith)
  three s u dlen (op ∷ flags ∷ page ∷ rest) o h = (
    dispatch-Returned store u o s dlen op flags page rest,
    dispatch-Suits store s u dlen op (flags ∷ page ∷ rest),
  )

  to_unit-Outcome :
      (s : Msc M) (lun : ℕ) (tag : Bytes) (dlen : ℕ) (cdb : Bytes)
      → dlen < 2 ^ 32
      → s.pending ≡ none
      → 1 ≤ length s.luns
      → All (IsOrdinary store) s.luns
      → 3 ≤ length cdb
      → Outcome s.cbw_in tag dlen
          (get_or cdb 0 0)
          (wanted store s dlen cdb (get_elem? s.luns lun))
          (to_unit store s lun tag dlen cdb (get_elem? s.luns lun))
  unfolding to_unit
  to_unit-Outcome s lun tag dlen cdb h idle some_luns all long =
      elim (Option-cases (get_elem? s.luns lun)) [
        | inl e ↦ rw e (
            to_Outcome s.cbw_in tag dlen (get_or cdb 0 0) (fails sense_lun_not_supported) _ tt
              (first s.luns refl some_luns))
        | inr (u, e) ↦
            let (returns, suits) =
              three s u dlen cdb (All-get_elem? (IsOrdinary store) s.luns lun u all e) long in
            rw e (dispatched-Outcome s lun tag dlen (get_or cdb 0 0) u _ h idle e suits returns)
      ]
    where
      first :
          (us : List (Lun M))
          → s.luns ≡ us
          → 1 ≤ length us
          → Good s.cbw_in tag dlen
              (fails sense_lun_not_supported)
              (fail s 0 tag dlen sense_lun_not_supported)
      first [] e l = absurd (omega arith)
      first (u ∷ us) e l =
          fail-Good s 0 u tag dlen sense_lun_not_supported h idle
            (ap (λ (l : List (Lun M)). get_elem? l 0) e)

  -- A valid CBW, to an interface with no WRITE under way, whose units are of ordinary size and whose
  -- command block has three bytes at least, whatever unit and command it names. The handler returns,
  -- and the host gets what belongs to the command's outcome for the unit that is named, a failure
  -- where there is none. Success without data, which only TEST UNIT READY, FORMAT UNIT and the
  -- commands with nothing to do have: one CSW of the tag, with no residue and status 0. Data, which
  -- only other commands and no WRITE have: what fits the announced length, behind it a CSW with the
  -- residue and status 0, and for no data at all the announced pipe is halted first. Failure: the
  -- halt, if data was announced, and a CSW with the announced length as residue and status 1. A WRITE:
  -- nothing yet, and it waits with the tag and the blocks that it names.
  pub handle_cbw_lem :
      (s : Msc M) (cbw : Bytes)
      → s.pending ≡ none
      → 1 ≤ length s.luns
      → All (IsOrdinary store) s.luns
      → length cbw ≡ 31
      → same_bytes (take 4 cbw) cbw_signature ≡ true
      → All IsByte cbw
      → 3 ≤ bit_and (get_or cbw 14 0) 0x1F
      → (r : Reply) × (s' : Msc M) × (calls : List Call) × (handle_cbw store s cbw
          ≡ some (s', calls))
        × (wanted store
              (record s { cbw_in = announces_in cbw })
              (from_le (take 4 (drop 8 cbw)))
              (block cbw)
              (get_elem? s.luns (bit_and (get_or cbw 13 0) 0x0F))
            ≡ some r)
        × Accords (get_or (block cbw) 0 0) r
        × Answered
            (announces_in cbw)
            (take 4 (drop 4 cbw))
            (from_le (take 4 (drop 8 cbw)))
            r
            calls
            s'.pending
  unfolding handle_cbw run_cbw
  handle_cbw_lem s cbw idle some_luns all size signed bytes long =
      let tag = take 4 (drop 4 cbw) in
      let dlen = from_le (take 4 (drop 8 cbw)) in
      let lun = bit_and (get_or cbw 13 0) 0x0F in
      let four : length (take 4 (drop 8 cbw)) ≡ 4 =
        omega (arith, length-take 4 (drop 8 cbw), length-drop 8 cbw) in
      let below : dlen < 2 ^ 32 =
        rw four at (
          decode-lt little (take 4 (drop 8 cbw))
            (All-take 4 (drop 8 cbw) (All-drop 8 cbw bytes))) in
      let enough : 3 ≤ length (block cbw) =
        omega
          (arith, length-take (bit_and (get_or cbw 14 0) 0x1F) (drop 15 cbw), length-drop 15 cbw) in
      rw (size, signed)
        (to_unit-Outcome (record s { cbw_in = announces_in cbw }) lun tag dlen (block cbw) below
          idle some_luns all enough)
