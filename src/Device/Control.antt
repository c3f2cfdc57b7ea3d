-- ===== src/Device/Control.antt =====
-- usbip/device.py: control requests on endpoint 0.
pub mod Laws
pub mod Halt
use Prim.Native.Nat.{bit_and}
use usbip_python.Base.{
  ℕ, zero, suc, ◌+◌, ◌/◌, ◌^◌, Bool, true, false, ◌&&◌, ◌||◌, List, [], ◌∷◌, ◌++◌, Option, none,
  some, length, take, ltb, ◌==◌, if◌then◌else◌, ℤ, pos, negsuc,
}
use usbip_python.Struct.{Bytes}
use usbip_python.Core.{dir_in, dir_out, dt_device, dt_config, dt_string, dt_bos}
use usbip_python.Core.Setup
use usbip_python.Core.Setup.{Setup}
use usbip_python.Core.DeviceDescriptor
use usbip_python.Core.Urb.{Urb}
use usbip_python.Endpoint.{Endpoint, clear_halt, stall, stall_status}
use usbip_python.Device.EpMap.{Key, EpMap, lookup, insert}
use usbip_python.Device.State.{
  State, Profile, Answer, reply, stalls, crash, Action, respond_all, reset_io,
}
use usbip_python.Device.Config.{device_descriptor, config_bytes}
use usbip_python.Device.Vendor.{has_msos, string_bytes, bos_bytes, packed, vendor_descriptor}

-- STANDARD, VENDOR; the recipients INTERFACE and ENDPOINT; FEATURE_ENDPOINT_HALT.
abbrev pub standard_type : ℕ
standard_type = 0

abbrev pub vendor_type : ℕ
vendor_type = 2

abbrev pub to_interface : ℕ
to_interface = 1

abbrev pub to_endpoint : ℕ
to_endpoint = 2

abbrev pub feature_endpoint_halt : ℕ
feature_endpoint_halt = 0

-- The key of an endpoint address, as _ep_by_addr looks it up.
abbrev pub addr_key : ℕ → Key
addr_key addr = (bit_and addr 0x0F, if bit_and addr 0x80 == 0 then dir_out else dir_in)

abbrev halted_bytes : Option Endpoint → Bytes
halted_bytes none = 0 ∷ 0 ∷ []
halted_bytes (some e) = if e.halted then 1 ∷ 0 ∷ [] else 0 ∷ 0 ∷ []

-- The result that is put into the URB; an exception leaves none.
unfoldable pub control_result : Setup → Answer → Urb → Option Urb
control_result setup (reply bs) urb =
    if Setup.direction setup == dir_in
    then (let cut = take setup.w_length bs in
        some (record urb { buffer = cut; actual = pos (length cut); status = pos 0 }))
    else some (record urb { actual = pos setup.w_length; status = pos 0 })
control_result setup stalls urb = some (record urb { status = stall_status })
control_result setup crash urb = none

module _ {W : Type 0} where
  unfoldable pub ep_by_addr : State W → ℕ → Option Endpoint
  ep_by_addr s addr = lookup (addr_key addr) s.ep_map

  -- _route_control
  unfoldable pub route_control : Profile W → ℕ → Option (Setup → Bytes → Action W)
  route_control p ifnum = elim (p.ctrl ifnum) [ some h ↦ some h | none ↦ p.fallback ]

  abbrev ask : Option (Setup → Bytes → Action W) → Answer → Setup → Bytes → Action W
  ask none missing setup payload s = (missing, s)
  ask (some h) missing setup payload s = h setup payload s

  unfoldable pub get_descriptor : Profile W → Setup → Action W
  unfolding route_control
  get_descriptor p setup s =
      let dtype = setup.w_value / 2 ^ 8 in
      if dtype == dt_device
      then (packed (DeviceDescriptor.pack (device_descriptor p)), s)
      else if dtype == dt_config
      then (packed (config_bytes p s), s)
      else if dtype == dt_string
      then (string_bytes p (bit_and setup.w_value 0xFF), s)
      else if dtype == dt_bos && (has_msos p || (elim p.webusb [ none ↦ false | some w ↦ true ]))
      then (packed (bos_bytes p), s)
      else if ltb dtype 0x21
      then (stalls, s)
      else ask (route_control p (bit_and setup.w_index 0xFF)) stalls setup [] s

  -- The handler's value is not used; what it raises goes on.
  abbrev set_done : Answer × State W → Answer × State W
  set_done (reply bs, s) = (reply [], s)
  set_done (stalls, s) = (stalls, s)
  set_done (crash, s) = (crash, s)

  unfoldable pub set_interface : Profile W → Setup → Action W
  set_interface p setup s =
      elim (p.set_alt (bit_and setup.w_index 0xFF)) as (λ _. Answer × State W) [
        | none ↦ (reply [], s)
        | some h ↦ set_done (h (bit_and setup.w_value 0xFF) s)
      ]

  unfoldable pub get_status : Setup → State W → Bytes
  unfolding ep_by_addr
  get_status setup s = halted_bytes (
      if Setup.recipient setup == to_endpoint
      then ep_by_addr s (bit_and setup.w_index 0xFF)
      else none)

  put_endpoint : State W → ℕ → Endpoint → State W
  put_endpoint s addr e = record s { ep_map = insert (addr_key addr) e s.ep_map }

  set_halt : Bool → State W → ℕ → Option Endpoint → State W
  unfolding put_endpoint
  set_halt halt s addr none = s
  set_halt false s addr (some e) = put_endpoint s addr (clear_halt e)
  set_halt true s addr (some e) =
      let (e', done) = stall e in respond_all done (put_endpoint s addr e')

  -- CLEAR_FEATURE and SET_FEATURE.
  unfoldable pub feature : Bool → Setup → State W → State W
  unfolding set_halt ep_by_addr
  feature halt setup s =
      let addr = bit_and setup.w_index 0xFF in
      if Setup.recipient setup == to_endpoint && setup.w_value == feature_endpoint_halt
      then set_halt halt s addr (ep_by_addr s addr)
      else s

  -- _standard
  unfoldable pub standard : Profile W → Setup → Action W
  unfolding get_descriptor set_interface get_status feature
  standard p setup s =
      let request = setup.b_request in
      if request == 0x06
      then get_descriptor p setup s
      else if request == 0x09
      then (reply [], reset_io p (record s { config = bit_and setup.w_value 0xFF }))
      else if request == 0x08
      then (reply (s.config ∷ []), s)
      else if request == 0x0B
      then set_interface p setup s
      else if request == 0x0A
      then (reply (0 ∷ []), s)
      else if request == 0x00
      then (reply (get_status setup s), s)
      else if request == 0x01
      then (reply [], feature false setup s)
      else if request == 0x03
      then (reply [], feature true setup s)
      else if request == 0x05
      then (reply [], s)
      else (stalls, s)

  dispatch : Profile W → Setup → Bytes → Action W
  unfolding route_control
  dispatch p setup payload s =
      if Setup.recipient setup == to_interface
      then ask (route_control p (bit_and setup.w_index 0xFF)) stalls setup payload s
      else ask p.fallback (reply []) setup payload s

  abbrev or_dispatch : Option Answer → Answer × State W → State W → Answer × State W
  or_dispatch none other s = other
  or_dispatch (some a) other s = (a, s)

  -- The request of a SETUP packet, with the OUT data that came with it.
  unfoldable pub control_request : Profile W → Setup → Bytes → Action W
  unfolding standard dispatch
  control_request p setup payload s =
      if Setup.type setup == standard_type
      then standard p setup s
      else or_dispatch (if Setup.type setup == vendor_type then vendor_descriptor p setup else none)
          (dispatch p setup payload s) s

  handle_setup : Profile W → Urb → Option Setup → State W → Option Urb × State W
  unfolding control_request control_result
  handle_setup p urb none s = (none, s)
  handle_setup p urb (some setup) s =
      let (a, s') = control_request p setup urb.buffer s in (control_result setup a urb, s')

  -- _handle_control: `none` is an exception that ends the connection.
  unfoldable pub handle_control : Profile W → Urb → State W → Option Urb × State W
  unfolding handle_setup
  handle_control p urb s = handle_setup p urb (Setup.parse urb.setup) s
