-- ===== src/HostMsc.antt =====
-- usbip/classes/host/msc.py: the host's side of the Bulk-Only Transport.
-- The handle of the device (usbip/host.py) is a parameter; S is the state of the connection behind it.
pub mod Loop
use Prim.Native.Nat.{bit_and}
use usbip_python.Base.{
  ℕ, ◌+◌, ◌*◌, ◌/◌, ◌-◌, Bool, true, false, ◌&&◌, List, [], ◌∷◌, ◌++◌, Option, none, some, ◌==◌,
  if◌then◌else◌, ltb, length, take, drop, get_or, ljust, replicate,
}
use usbip_python.Base
use usbip_python.Struct.{Bytes, big, little, pack, decode}
use usbip_python.Core.{dt_interface, dt_endpoint}
use usbip_python.Core.Walk.{iter_descriptors}
use usbip_python.Msc.Scsi.{op_inquiry, op_read_10, op_write_10, op_read_capacity_10}
use usbip_python.Msc.Bot.{cbw_signature, csw_signature, same_bytes}

-- A call returns, raises Stall, or raises another exception.
pub data Result (A : Type 0) : Type 0 where
  got : A → Result A
  stalled failed : Result A

abbrev pub Act : Type 0 → Type 0 → Type 0
Act S A = S → Result A × S

pub record Handle (S : Type 0) : Type 0 where
  pub control_in : ℕ → ℕ → ℕ → ℕ → ℕ → Act S Bytes
  pub bulk_in : ℕ → ℕ → Act S Bytes
  pub bulk_out : ℕ → Bytes → Act S (Unit {0})
  pub clear_halt : ℕ → Act S (Unit {0})

pub record MscDriver : Type 0 where
  pub tag : ℕ
  pub ep_in : ℕ
  pub ep_out : ℕ

-- The driver with its connection.
abbrev pub Drive : Type 0 → Type 0 → Type 0
Drive S A = Act (MscDriver × S) A

abbrev pub next : {S A B : Type 0} → Result A → (A → Drive S B) → Drive S B
next (got a) f s = f a s
next stalled f s = (stalled, s)
next failed f s = (failed, s)

infixl 5 ◌>>=◌
abbrev pub ◌>>=◌ : {S A B : Type 0} → Drive S A → (A → Drive S B) → Drive S B
◌>>=◌ m f s = let (r, s') = m s in next r f s'

abbrev pub pure : {S A : Type 0} → A → Drive S A
pure a s = (got a, s)

abbrev pub raise : {S A : Type 0} → Drive S A
raise s = (failed, s)

-- A packing that may raise.
abbrev pub or_raise : {S : Type 0} → Option Bytes → Drive S Bytes
or_raise none = raise
or_raise (some bs) = pure bs

-- A call of the handle, for a driver with these endpoints.
abbrev pub call : {S A : Type 0} → (MscDriver → Act S A) → Drive S A
call f (d, s) = let (r, s') = f d s in (r, (d, s'))

abbrev pub next_tag : {S : Type 0} → Drive S ℕ
next_tag (d, s) = (got (d.tag + 1), (record d { tag = d.tag + 1 }, s))

-- The loop of _discover_endpoints over the configuration, from the defaults on. An interface
-- descriptor of 9 bytes says whether what follows is mass storage.
unfoldable pub discover : Bool → MscDriver → List Bytes → MscDriver
discover in_msc d [] = d
discover in_msc d (x ∷ xs) =
    let inside = discover (get_or x 5 0 == 0x08) d xs in
    let to_in = discover in_msc (record d { ep_in = get_or x 2 0 }) xs in
    let to_out = discover in_msc (record d { ep_out = get_or x 2 0 }) xs in
    let over = discover in_msc d xs in
    if get_or x 1 0 == dt_interface && ltb 8 (length x)
    then inside
    else if get_or x 1 0 == dt_endpoint
        && in_msc
        && ltb 4 (length x)
        && bit_and (get_or x 3 0) 0x03 == 2
    then if bit_and (get_or x 2 0) 0x80 == 0 then to_out else to_in
    else over

-- MSCDriver(handle), for the configuration that the device answers with; `none` if that fails.
unfoldable pub new_driver : Option Bytes → MscDriver
unfolding discover
new_driver none = record { tag = 0; ep_in = 0x81; ep_out = 0x01 }
new_driver (some cfg) =
    discover false (record { tag = 0; ep_in = 0x81; ep_out = 0x01 }) (iter_descriptors cfg 0)

-- _cdb10(opcode, lba, count)
unfoldable pub cdb10 : ℕ → ℕ → ℕ → Option Bytes
cdb10 op lba count = pack big ((1, op) ∷ (1, 0) ∷ (4, lba) ∷ (1, 0) ∷ (2, count) ∷ (1, 0) ∷ [])

-- The bytes of _cbw.
unfoldable pub cbw_bytes : ℕ → Bytes → ℕ → Bool → ℕ → Option Bytes
cbw_bytes tag cdb dlen direction_in lun =
    Base.◌>>=◌
      (pack little (
        (4, tag)
        ∷ (4, dlen)
        ∷ (1, if direction_in then 0x80 else 0x00)
        ∷ (1, lun)
        ∷ (1, length cdb)
        ∷ []))
      (λ fields. some (cbw_signature ++ (fields ++ (cdb ++ replicate (16 - length cdb) 0))))

-- What _csw makes of the bytes that it reads.
unfoldable pub csw_status : Bytes → Option ℕ
unfolding same_bytes
csw_status bs =
    if length bs == 13 && same_bytes (take 4 bs) csw_signature then some (get_or bs 12 0) else none

abbrev pub or_bad_csw : {S : Type 0} → Option ℕ → Drive S ℕ
or_bad_csw none = raise
or_bad_csw (some n) = pure n

module _ {S : Type 0} (handle : Handle S) where
  -- _cbw(cdb, dlen, direction_in, lun): the tag goes up even if the packing raises.
  unfoldable pub send_cbw : Bytes → ℕ → Bool → ℕ → Drive S (Unit {0})
  unfolding cbw_bytes
  send_cbw cdb dlen direction_in lun = do
    tag ← next_tag
    bs ← or_raise (cbw_bytes tag cdb dlen direction_in lun)
    call (λ d. handle.bulk_out d.ep_out bs)

  -- _csw()
  unfoldable pub read_csw : Drive S ℕ
  unfolding csw_status
  read_csw = do bs ← call (λ d. handle.bulk_in d.ep_in 13); or_bad_csw (csw_status bs)

  abbrev pub recovered : {A : Type 0} → (MscDriver → ℕ) → A → Result A → Drive S A
  recovered addr default (got a) = pure a
  recovered addr default failed = raise
  recovered addr default stalled = do _ ← call (λ d. handle.clear_halt (addr d)); pure default

  -- _data_phase(transfer, addr)
  unfoldable pub data_phase : {A : Type 0} → (MscDriver → ℕ) → A → Drive S A → Drive S A
  data_phase addr default transfer s = let (r, s') = transfer s in recovered addr default r s'

  -- command_in(cdb, dlen, lun)
  unfoldable pub command_in : Bytes → ℕ → ℕ → Drive S (Bytes × ℕ)
  unfolding send_cbw read_csw data_phase
  command_in cdb dlen lun = do
    _ ← send_cbw cdb dlen true lun
    bs ←
        if dlen == 0
        then pure []
        else data_phase (λ d. d.ep_in) [] (call (λ d. handle.bulk_in d.ep_in dlen))
    status ← read_csw
    pure (bs, status)

  abbrev pub send_payload : Bytes → Drive S (Unit {0})
  send_payload [] = pure tt
  send_payload (b ∷ bs) =
      data_phase (λ d. d.ep_out) tt (call (λ d. handle.bulk_out d.ep_out (b ∷ bs)))

  -- command_out(cdb, data, lun)
  unfoldable pub command_out : Bytes → Bytes → ℕ → Drive S ℕ
  unfolding send_cbw read_csw data_phase
  command_out cdb payload lun = do
    _ ← send_cbw cdb (length payload) false lun
    _ ← send_payload payload
    read_csw

  abbrev pub first_byte : Bytes → Drive S ℕ
  first_byte [] = raise
  first_byte (b ∷ bs) = pure b

  -- max_lun()
  unfoldable pub max_lun : Drive S ℕ
  max_lun = do bs ← call (λ d. handle.control_in 0xA1 0xFE 0 0 1); first_byte bs

  -- inquiry(lun)
  unfoldable pub host_inquiry : ℕ → Drive S Bytes
  unfolding command_in
  host_inquiry lun = do (bs, _) ← command_in (op_inquiry ∷ 0 ∷ 0 ∷ 0 ∷ 36 ∷ 0 ∷ []) 36 lun; pure bs

  -- read_capacity(lun)
  unfoldable pub read_capacity : ℕ → Drive S (ℕ × ℕ)
  unfolding command_in
  read_capacity lun = do
    (bs, _) ← command_in (op_read_capacity_10 ∷ replicate 9 0) 8 lun
    pure (decode big (take 4 bs) + 1, decode big (take 4 (drop 4 bs)))

  abbrev pub unless_failed : {A : Type 0} → A → ℕ → Drive S A
  unless_failed a status = if status == 0 then pure a else raise

  -- read_blocks(lba, count, block_size, lun)
  unfoldable pub read_blocks : ℕ → ℕ → ℕ → ℕ → Drive S Bytes
  unfolding cdb10 command_in
  read_blocks lba count block_size lun = do
    cdb ← or_raise (cdb10 op_read_10 lba count)
    (bs, status) ← command_in cdb (count * block_size) lun
    unless_failed bs status

  -- write_blocks(lba, data, block_size, lun)
  unfoldable pub write_blocks : ℕ → Bytes → ℕ → ℕ → Drive S ℕ
  unfolding cdb10 command_out
  write_blocks lba payload block_size lun = do
    _ ← if block_size == 0 then raise else pure tt
    cdb ← or_raise (cdb10 op_write_10 lba (length payload / block_size))
    status ← command_out cdb payload lun
    unless_failed (length payload / block_size) status
