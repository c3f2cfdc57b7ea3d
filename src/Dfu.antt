-- ===== src/Dfu.antt =====
-- usbip/classes/device/dfu.py: Device Firmware Upgrade, the states and the class requests.
-- What backs a target is what the application supplies: T is its state.
-- The text of events is left out, and with it a target's `length`.
pub mod Machine
pub mod Errors
pub mod Transfer
pub mod Download
pub mod RoundTrip
pub mod Added
use Prim.Native.Nat.{bit_and}
use usbip_python.Base.{
  ℕ, zero, suc, ◌+◌, ◌*◌, min, Bool, true, false, ◌||◌, List, [], ◌∷◌, ◌++◌, Option, none, some,
  ◌>>=◌, ◌==◌, if◌then◌else◌, ltb, get_elem?, set_elem,
}
use usbip_python.Struct.{Bytes, little, pack}
use usbip_python.Core.Text.{Text}
use usbip_python.Core.Setup.{Setup}
use usbip_python.Core.InterfaceDescriptor
use usbip_python.Core.InterfaceDescriptor.{InterfaceDescriptor}
use usbip_python.Device.State.{Answer, reply, stalls, crash}

pub data DfuState : Type 0 where
  app_idle app_detach dfu_idle dnload_sync dnbusy dnload_idle manifest_sync manifest
        manifest_wait_reset upload_idle dfu_error :
      DfuState

abbrev pub state_number : DfuState → ℕ
state_number app_idle = 0
state_number app_detach = 1
state_number dfu_idle = 2
state_number dnload_sync = 3
state_number dnbusy = 4
state_number dnload_idle = 5
state_number manifest_sync = 6
state_number manifest = 7
state_number manifest_wait_reset = 8
state_number upload_idle = 9
state_number dfu_error = 10

abbrev pub status_ok : ℕ
status_ok = 0

abbrev pub err_address : ℕ
err_address = 8

-- What `write` does: the block is stored, DFUError(status) is raised, or IndexError.
pub data Stored (T : Type 0) : Type 0 where
  stored : T → Stored T
  refused : ℕ → T → Stored T
  full : T → Stored T

-- `none` of `read` is an exception.
pub record Backend (T : Type 0) : Type 0 where
  pub write : T → ℕ → Bytes → Stored T
  pub read : T → ℕ → ℕ → Option Bytes
  pub begin_download : T → T
  pub finish_download : T → T

pub record Target (T : Type 0) : Type 0 where
  pub name : Text
  pub i_string : ℕ
  pub content : T

pub record Dfu (T : Type 0) : Type 0 where
  pub targets : List (Target T)
  pub transfer_size : ℕ
  pub attributes : ℕ
  pub detach_timeout : ℕ
  pub cur : ℕ
  pub state : DfuState
  pub status : ℕ

abbrev pub attr_default : ℕ
attr_default = 0x07

unfoldable pub new : {T : Type 0} → List (Target T) → ℕ → ℕ → ℕ → Dfu T
new targets transfer_size attributes detach_timeout = record {
  targets = targets;
  transfer_size = transfer_size;
  attributes = attributes;
  detach_timeout = detach_timeout;
  cur = 0;
  state = dfu_idle;
  status = status_ok;
}

abbrev pub upload_state : Bytes → DfuState
upload_state [] = dfu_idle
upload_state (_ ∷ _) = upload_idle

-- The state that GETSTATUS moves to, and reports.
abbrev pub polled : DfuState → DfuState
polled dnload_sync = dnload_idle
polled manifest_sync = dfu_idle
polled q = q

module _ {T : Type 0} where
  -- _functional()
  unfoldable pub functional : Dfu T → Option Bytes
  functional s = pack little (
      (1, 9)
      ∷ (1, 0x21)
      ∷ (1, s.attributes)
      ∷ (2, s.detach_timeout)
      ∷ (2, s.transfer_size)
      ∷ (2, 0x0110)
      ∷ [])

  abbrev pub alt_descriptor : ℕ → ℕ → Target T → InterfaceDescriptor
  alt_descriptor ifnum alt t = record {
    b_interface_number = ifnum;
    b_alternate_setting = alt;
    b_num_endpoints = 0;
    b_interface_class = 0xFE;
    b_interface_sub_class = 0x01;
    b_interface_protocol = 0x02;
    i_interface = t.i_string;
  }

  unfoldable pub alt_blocks : ℕ → ℕ → List (Target T) → Option Bytes
  alt_blocks ifnum alt [] = some []
  alt_blocks ifnum alt (t ∷ ts) = do
    d ← InterfaceDescriptor.pack (alt_descriptor ifnum alt t)
    ds ← alt_blocks ifnum (alt + 1) ts
    some (d ++ ds)

  -- descriptor_block(): one interface, an alternate setting per target.
  unfoldable pub descriptor_block : ℕ → Dfu T → Option Bytes
  unfolding alt_blocks functional
  descriptor_block ifnum s = do
    alts ← alt_blocks ifnum 0 s.targets
    f ← functional s
    some (alts ++ f)

  abbrev pub select_alt : Dfu T → ℕ → Option (Target T) → Dfu T
  select_alt s alt none = s
  select_alt s alt (some t) = record s { cur = alt; state = dfu_idle; status = status_ok }

  -- set_alt(alt)
  unfoldable pub set_alt : Dfu T → ℕ → Dfu T
  set_alt s alt = select_alt s alt (get_elem? s.targets alt)

  abbrev pub put : Dfu T → Target T → T → Dfu T
  put s t c = record s { targets = set_elem s.cur (record t { content = c }) s.targets }

  -- The block is acknowledged either way; GETSTATUS tells.
  unfoldable pub after_write : Dfu T → Target T → Stored T → Answer × Dfu T
  after_write s t (stored c) =
      (reply [], record (put s t c) { state = dnload_sync; status = status_ok })
  after_write s t (refused code c) =
      (reply [], record (put s t c) { state = dfu_error; status = code })
  after_write s t (full c) =
      (reply [], record (put s t c) { state = dfu_error; status = err_address })

  -- What `read` raises is not caught.
  unfoldable pub after_read : Dfu T → Option Bytes → Answer × Dfu T
  after_read s none = (crash, s)
  after_read s (some chunk) =
      (reply chunk, record s { state = upload_state chunk; status = status_ok })

  -- `self.target`, whose absence raises IndexError.
  abbrev pub with_target : Dfu T → (Target T → Answer × Dfu T) → Option (Target T) → Answer × Dfu T
  with_target s f none = (crash, s)
  with_target s f (some t) = f t

  unfoldable pub get_status : Dfu T → Answer × Dfu T
  get_status s = (
    if ltb s.status 256
        then reply (s.status ∷ 0 ∷ 0 ∷ 0 ∷ state_number (polled s.state) ∷ 0 ∷ [])
        else crash,
    record s { state = polled s.state },
  )

  module _ (backend : Backend T) where
    abbrev pub begun : ℕ → T → T
    begun zero c = backend.begin_download c
    begun (suc _) c = c

    -- _dnload(setup, data), for the current target.
    unfoldable pub dnload : Dfu T → Target T → Setup → Bytes → Answer × Dfu T
    unfolding after_write
    dnload s t setup [] = (
      reply [],
      record (put s t (backend.finish_download t.content)) {
        state = manifest_sync;
        status = status_ok;
      },
    )
    dnload s t setup (b ∷ bs) =
        after_write s t
          (backend.write (begun setup.w_value t.content) (setup.w_value * s.transfer_size) (b ∷ bs))

    -- _upload(setup), for the current target.
    unfoldable pub upload : Dfu T → Target T → Setup → Answer × Dfu T
    unfolding after_read
    upload s t setup = after_read s (
        backend.read t.content (setup.w_value * s.transfer_size)
          (min s.transfer_size setup.w_length))

    -- on_control(setup, data)
    unfoldable pub on_control : Dfu T → Setup → Bytes → Answer × Dfu T
    unfolding dnload upload get_status
    on_control s setup payload =
        if bit_and setup.bm_request_type 0x60 == 0x20
        then if setup.b_request == 1
          then with_target s (λ t. dnload s t setup payload) (get_elem? s.targets s.cur)
          else if setup.b_request == 2
          then with_target s (λ t. upload s t setup) (get_elem? s.targets s.cur)
          else if setup.b_request == 3
          then get_status s
          else if setup.b_request == 5
          then (reply (state_number s.state ∷ []), s)
          else if setup.b_request == 4 || setup.b_request == 6
          then (reply [], record s { state = dfu_idle; status = status_ok })
          else if setup.b_request == 0
          then (reply [], s)
          else (stalls, s)
        else (stalls, s)
