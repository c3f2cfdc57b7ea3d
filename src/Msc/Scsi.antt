-- ===== src/Msc/Scsi.antt =====
-- usbip/classes/device/msc.py, `_dispatch`: what a command descriptor block asks for.
pub mod Returns
pub mod Kinds
pub mod Sound
use Prim.Native.Nat.{bit_and}
use usbip_python.Base.{
  ℕ, ◌+◌, ◌*◌, Bool, true, false, ◌&&◌, ◌||◌, List, [], ◌∷◌, ◌++◌, Option, none, some, ◌>>=◌, ◌==◌,
  if◌then◌else◌, ltb, take, drop, get_elem?, replicate,
}
use usbip_python.Struct.{Bytes, big, decode}
use usbip_python.Msc.{
  Store, is_cdrom, Lun, Msc, Sense, sense_invalid_command, sense_invalid_field, sense_lba_range,
  sense_write_protect,
}
use usbip_python.Msc.Pages.{
  vpd, inquiry, request_sense, format_capacities, mode_sense, capacity, read_toc, configuration,
}

abbrev pub op_test_unit_ready : ℕ
op_test_unit_ready = 0x00

abbrev pub op_request_sense : ℕ
op_request_sense = 0x03

abbrev pub op_inquiry : ℕ
op_inquiry = 0x12

abbrev pub op_read_capacity_10 : ℕ
op_read_capacity_10 = 0x25

abbrev pub op_read_10 : ℕ
op_read_10 = 0x28

abbrev pub op_write_10 : ℕ
op_write_10 = 0x2A

abbrev pub op_read_12 : ℕ
op_read_12 = 0xA8

abbrev pub op_write_12 : ℕ
op_write_12 = 0xAA

-- How a command goes on: `_csw(tag, 0, 0)`, `_data_in(tag, dlen, data)`, `_fail(..., sense, ...)`, or
-- a WRITE (lba, count) that waits for its data.
pub data Reply : Type 0 where
  passes : Reply
  gives : Bytes → Reply
  fails : Sense → Reply
  receives : ℕ → ℕ → Reply

abbrev is_wide : Bytes → Bool
is_wide [] = false
is_wide (op ∷ cdb) = op == op_read_12 || op == op_write_12

-- _lba_count(cdb)
unfoldable pub lba_count : Bytes → ℕ × ℕ
lba_count cdb = (
  decode big (take 4 (drop 2 cdb)),
  if is_wide cdb then decode big (take 4 (drop 6 cdb)) else decode big (take 2 (drop 7 cdb)),
)

-- The commands that have nothing to do: PREVENT ALLOW, START STOP UNIT, SYNCHRONIZE CACHE, REZERO
-- UNIT, SEEK(10) and VERIFY(10).
abbrev pub is_no_op : ℕ → Bool
is_no_op op =
    op == 0x1E || (op == 0x1B || (op == 0x35 || (op == 0x01 || (op == 0x2B || op == 0x2F))))

abbrev pub page_or_fail : Option Bytes → Reply
page_or_fail none = fails sense_invalid_field
page_or_fail (some page) = gives page

-- A command leaves the unit as it is, but for its sense. `none` is an exception.
abbrev pub with_unit : {M : Type 0} → Lun M → Option Bytes → Option (Lun M × Reply)
with_unit u none = none
with_unit u (some bs) = some (u, gives bs)

module _ {M : Type 0} (store : Store M) where
  unfoldable pub inquire : Msc M → Lun M → Bytes → Option (Lun M × Reply)
  inquire s u cdb = do
    flags ← get_elem? cdb 1
    if bit_and flags 0x01 == 0
        then some (u, gives (inquiry s u))
        else (do page ← get_elem? cdb 2; some (u, page_or_fail (vpd u page)))

  out_of_range : Lun M → ℕ × ℕ → Bool
  out_of_range u (lba, count) = ltb (store.num_blocks u.medium_state) (lba + count)

  unfoldable pub read_command : Lun M → Bytes → Reply
  unfolding out_of_range
  read_command u cdb =
      let (lba, count) = lba_count cdb in
      if out_of_range u (lba, count)
      then fails sense_lba_range
      else gives (store.read u.medium_state lba count)

  unfoldable pub write_command : Lun M → Bytes → Reply
  unfolding out_of_range
  write_command u cdb =
      let (lba, count) = lba_count cdb in
      if u.read_only
      then fails sense_write_protect
      else if out_of_range u (lba, count)
      then fails sense_lba_range
      else receives lba count

  unfoldable pub mode_command : Lun M → Bytes → Bool → Option (Lun M × Reply)
  mode_command u cdb long_header = do
    page ← get_elem? cdb 2
    with_unit u (mode_sense store u long_header (bit_and page 0x3F))

  -- SERVICE ACTION IN(16), of which READ CAPACITY(16) is known.
  unfoldable pub service_action : Lun M → Bytes → Option (Lun M × Reply)
  service_action u cdb = do
    action ← get_elem? cdb 1
    if bit_and action 0x1F == 0x10
        then (do c ← capacity store 8 u; some (u, gives (c ++ replicate 20 0)))
        else some (u, fails sense_invalid_command)

  abbrev sensed : Bytes × Lun M → Option (Lun M × Reply)
  sensed (bs, u) = some (u, gives bs)

  -- The rest of `_dispatch`, behind REQUEST SENSE.
  unfoldable pub rare_command : Lun M → ℕ → ℕ → Bytes → Option (Lun M × Reply)
  unfolding mode_command
  rare_command u dlen op cdb =
      if op == 0x1A || op == 0x5A
      then mode_command u cdb (op == 0x5A)
      else if op == 0x04
      then some (u, if u.read_only then fails sense_write_protect else passes)
      else if is_no_op op
      then some (u, passes)
      else if op == 0x43 && is_cdrom u.medium
      then some (u, gives read_toc)
      else if op == 0x46 && is_cdrom u.medium
      then some (u, gives configuration)
      else if op == 0x4A
      then some (u, gives (take dlen (0x00 ∷ 0x06 ∷ 0x80 ∷ 0x00 ∷ 0x00 ∷ 0x00 ∷ 0x00 ∷ 0x00 ∷ [])))
      else some (u, fails sense_invalid_command)

  -- _dispatch(lun, tag, dlen, cdb), for a unit.
  unfoldable pub command : Msc M → Lun M → ℕ → ℕ → Bytes → Option (Lun M × Reply)
  unfolding inquire read_command write_command service_action rare_command
  command s u dlen op cdb =
      if op == op_test_unit_ready
      then some (u, passes)
      else if op == op_inquiry
      then inquire s u cdb
      else if op == 0x23
      then with_unit u (format_capacities store u)
      else if op == op_read_capacity_10
      then with_unit u (capacity store 4 u)
      else if op == 0x9E
      then service_action u cdb
      else if op == op_read_10 || op == op_read_12
      then some (u, read_command u cdb)
      else if op == op_write_10 || op == op_write_12
      then some (u, write_command u cdb)
      else if op == op_request_sense
      then sensed (request_sense u)
      else rare_command u dlen op cdb

  -- cdb[0] of an empty block raises.
  unfoldable pub dispatch : Msc M → Lun M → ℕ → Bytes → Option (Lun M × Reply)
  unfolding command
  dispatch s u dlen cdb = do op ← get_elem? cdb 0; command s u dlen op cdb
