-- ===== src/Msc/Bot.antt =====
-- usbip/classes/device/msc.py: the Bulk-Only Transport. What the class does to its two endpoints is
-- the list of its calls, in order: `write` of the IN endpoint, and `stall` of either.
pub mod Answers
pub mod Safety
use Prim.Native.Nat.{bit_and}
use usbip_python.Base.{
  set_elem, get_elem?-set_elem, ℕ, zero, suc, ◌+◌, ◌-◌, ◌*◌, Bool, true, false, ◌&&◌, ◌||◌, List,
  [], ◌∷◌, ◌++◌, Option, none, some, ◌>>=◌, ◌==◌, if◌then◌else◌, ltb, leb, length, take, drop,
  get_elem?, get_or,
}
use usbip_python.Struct.{Bytes, little, pack_field, from_le}
use usbip_python.Core.Setup.{Setup}
use usbip_python.Device.State.{Answer, reply, stalls}
use usbip_python.Msc.{Store, Lun, Msc, Pending, Sense, sense_lun_not_supported}
use usbip_python.Msc.Scsi.{Reply, passes, gives, fails, receives, dispatch}

pub data Call : Type 0 where
  in_write : Bytes → Call
  in_stall out_stall : Call

-- What a handler leaves; `none` is an exception, which ends the connection.
abbrev pub Effect : Type 0 → Type 0
Effect M = Option (Msc M × List Call)

-- b"USBC" and b"USBS"
abbrev pub cbw_signature : Bytes
cbw_signature = 0x55 ∷ 0x53 ∷ 0x42 ∷ 0x43 ∷ []

abbrev pub csw_signature : Bytes
csw_signature = 0x55 ∷ 0x53 ∷ 0x42 ∷ 0x53 ∷ []

unfoldable pub same_bytes : Bytes → Bytes → Bool
same_bytes [] [] = true
same_bytes (a ∷ t) (b ∷ u) = (a == b) && same_bytes t u
same_bytes _ _ = false

-- _csw(tag, residue, status): the bytes that go to the IN endpoint.
unfoldable pub csw : Bytes → ℕ → ℕ → Option Bytes
csw tag residue status = do
  r ← pack_field little (4, residue)
  some (csw_signature ++ (tag ++ (r ++ (status ∷ []))))

-- _stall_data_phase(dlen)
unfoldable pub stall_data_phase : Bool → ℕ → List Call
stall_data_phase cbw_in dlen =
    if dlen == 0 then [] else (if cbw_in then in_stall else out_stall) ∷ []

abbrev pub write_or_stall : Bool → ℕ → Bytes → List Call
write_or_stall cbw_in dlen [] = stall_data_phase cbw_in dlen
write_or_stall cbw_in dlen (b ∷ bs) = in_write (b ∷ bs) ∷ []

module _ {M : Type 0} where
  -- A data phase, and the CSW behind it.
  abbrev pub ended : Msc M → List Call → Option Bytes → Effect M
  ended s calls none = none
  ended s calls (some bs) = some (s, calls ++ (in_write bs ∷ []))

  -- _data_in(tag, dlen, data)
  unfoldable pub data_in : Msc M → Bytes → ℕ → Bytes → Effect M
  unfolding stall_data_phase
  data_in s tag dlen payload =
      let sent = take dlen payload in
      ended s (write_or_stall s.cbw_in dlen sent) (csw tag (dlen - length sent) 0)

  -- _fail(lun, tag, dlen, sense, label)
  unfoldable pub fail : Msc M → ℕ → Bytes → ℕ → Sense → Effect M
  unfolding stall_data_phase
  fail s lun tag dlen sense = do
    u ← get_elem? s.luns lun
    ended (record s { luns = set_elem lun (record u { sense = sense }) s.luns })
        (stall_data_phase s.cbw_in dlen) (csw tag dlen 1)

  module _ (store : Store M) where
    -- The call with which `_dispatch` goes on.
    unfoldable pub answer : Msc M → ℕ → Bytes → ℕ → Lun M → Reply → Effect M
    unfolding data_in fail
    answer s lun tag dlen u passes = ended s [] (csw tag 0 0)
    answer s lun tag dlen u (gives bs) = data_in s tag dlen bs
    answer s lun tag dlen u (fails sense) = fail s lun tag dlen sense
    answer s lun tag dlen u (receives lba count) = some (
      record s {
        pending = some (record {
          lun = lun;
          tag = tag;
          lba = lba;
          count = count;
          need = count * store.block_size u.medium_state;
          buf = [];
        });
      },
      [],
    )

    abbrev pub go_on : Msc M → ℕ → Bytes → ℕ → Lun M × Reply → Effect M
    go_on s lun tag dlen (u, r) =
        answer (record s { luns = set_elem lun u s.luns }) lun tag dlen u r

    unfoldable pub to_unit : Msc M → ℕ → Bytes → ℕ → Bytes → Option (Lun M) → Effect M
    unfolding answer fail
    to_unit s lun tag dlen cdb none = fail s 0 tag dlen sense_lun_not_supported
    to_unit s lun tag dlen cdb (some u) = dispatch store s u dlen cdb >>= go_on s lun tag dlen

    -- A CBW that is valid: 31 bytes, with the signature.
    unfoldable pub run_cbw : Msc M → Bytes → Effect M
    unfolding to_unit
    run_cbw s cbw =
        let lun = bit_and (get_or cbw 13 0) 0x0F in
        let cblen = bit_and (get_or cbw 14 0) 0x1F in
        let s' = record s {
          cbw_in = if bit_and (get_or cbw 12 0) 0x80 == 0 then false else true;
        } in
        to_unit s' lun (take 4 (drop 4 cbw)) (from_le (take 4 (drop 8 cbw)))
          (take cblen (drop 15 cbw)) (get_elem? s.luns lun)

    -- _handle_cbw(cbw): an invalid CBW is dropped.
    unfoldable pub handle_cbw : Msc M → Bytes → Effect M
    unfolding run_cbw same_bytes
    handle_cbw s cbw =
        if length cbw == 31 && same_bytes (take 4 cbw) cbw_signature
        then run_cbw s cbw
        else some (s, [])

    abbrev pub stored : Lun M → Pending → Bytes → Lun M
    stored u w buf = record u {
      medium_state = store.write u.medium_state w.lba w.count (take w.need buf);
    }

    unfoldable pub written : Msc M → Pending → Bytes → Option (Lun M) → Effect M
    written s w buf none = none
    written s w buf (some u) =
        ended (record s { luns = set_elem w.lun (stored u w buf) s.luns; pending = none }) []
          (csw w.tag 0 0)

    -- _recv_write(data)
    unfoldable pub recv_write : Msc M → Pending → Bytes → Effect M
    unfolding written
    recv_write s w chunk =
        let buf = w.buf ++ chunk in
        if leb w.need (length buf)
        then written s w buf (get_elem? s.luns w.lun)
        else some (record s { pending = some (record w { buf = buf }) }, [])

    -- on_out(ep, data)
    unfoldable pub on_out : Msc M → Bytes → Effect M
    unfolding recv_write handle_cbw
    on_out s chunk = elim s.pending as (λ _. Effect M) [
      | some w ↦ recv_write s w chunk
      | none ↦ handle_cbw s chunk
    ]

  -- on_control(setup, data)
  unfoldable pub on_control : Msc M → Setup → Answer × Msc M
  on_control s setup =
      if setup.b_request == 0xFE
      then (reply ((length s.luns - 1) ∷ []), s)
      else if setup.b_request == 0xFF
      then (reply [], record s { pending = none })
      else (stalls, s)
