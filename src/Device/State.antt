-- ===== src/Device/State.antt =====
-- usbip/device.py, class USBDevice: its state, what is registered with it, and how URBs are completed.
-- What the program and the classes above register (control handlers, SET_INTERFACE handlers, data
-- callbacks, reset hooks, lazy descriptor blocks) are functions on the state; W is the state of
-- their own. `respond` is the list of the URBs that were responded to, the oldest first.
use usbip_python.Base.{ℕ, Bool, List, [], ◌∷◌, ◌++◌, map, Option, ℤ, pos, length}
use usbip_python.Struct.{Bytes}
use usbip_python.Core.Urb.{Urb}
use usbip_python.Core.Setup.{Setup}
use usbip_python.Core.Text.{Text}
use usbip_python.Endpoint.{Endpoint, Completion}
use usbip_python.Endpoint
use usbip_python.Device.EpMap.{Key, EpMap, each}

pub record State (W : Type 0) : Type 0 where
  pub ep_map : EpMap
  pub config : ℕ
  -- The isochronous pacer's entries: the deadline and the URB, in the order they were pushed.
  pub pace_q : List (ℕ × Urb)
  pub responded : List Urb
  pub world : W

-- Data, a raised Stall, or an exception that nothing catches, which ends the connection.
pub data Answer : Type 0 where
  reply : Bytes → Answer
  stalls crash : Answer

abbrev pub Action : Type 0 → Type 0
Action W = State W → Answer × State W

-- What enable_msos records: `group` is the index of the group, and none for the whole device.
pub record MsosEntry : Type 0 where
  pub group : Option ℕ
  pub compatible : Bytes
  pub guid : Option Text

pub record WebUsb : Type 0 where
  pub vendor : ℕ
  pub url : Text
  pub landing : ℕ

-- A block renders to bytes, or raises.
pub record DescriptorGroup (W : Type 0) : Type 0 where
  pub interface_numbers : List ℕ
  pub blocks : List (State W → Option Bytes)

-- What the program sets up before it plugs the device.
pub record Profile (W : Type 0) : Type 0 where
  pub vid : ℕ
  pub pid : ℕ
  pub bcd_device : ℕ
  pub bcd_usb : ℕ
  pub device_class : ℕ
  pub device_subclass : ℕ
  pub device_protocol : ℕ
  pub i_manufacturer : ℕ
  pub i_product : ℕ
  pub i_serial_number : ℕ
  pub strings : List (Option Text)
  pub msos : List MsosEntry
  pub msos_v1 : ℕ
  pub msos_v2 : ℕ
  pub webusb : Option WebUsb
  pub high_speed : Bool
  pub iso_paced : Bool
  pub groups : List (DescriptorGroup W)
  pub num_interfaces : ℕ
  pub ctrl : ℕ → Option (Setup → Bytes → Action W)
  pub fallback : Option (Setup → Bytes → Action W)
  pub set_alt : ℕ → Option (ℕ → Action W)
  pub reset_hooks : List (State W → State W)
  pub on_out : Key → Option (Bytes → Action W)
  pub on_iso_in : Key → Option (List ℕ → State W → List Bytes × State W)
  pub on_iso_out : Key → Option (List Bytes → State W → State W)

-- `complete(data, status)`: the result is put into the URB that the callback captures.
abbrev pub finish : Urb → Bytes → ℤ → Urb
finish u chunk status = record u { buffer = chunk; actual = pos (length chunk); status = status }

abbrev pub complete : Completion → Urb
complete c = finish c.entry.complete c.chunk c.status

module _ {W : Type 0} where
  abbrev pub respond_all : List Completion → State W → State W
  respond_all cs s = record s { responded = s.responded ++ map complete cs }

  run_hooks : List (State W → State W) → State W → State W
  run_hooks [] s = s
  run_hooks (f ∷ fs) s = run_hooks fs (f s)

  -- reset_io()
  unfoldable pub reset_io : Profile W → State W → State W
  unfolding run_hooks
  reset_io p s = run_hooks p.reset_hooks (record s { ep_map = each Endpoint.reset s.ep_map })
