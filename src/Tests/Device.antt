-- ===== src/Tests/Device.antt =====
-- usbip/device.py, USBDevice: runs, and the theorems at a concrete device.
use usbip_python.Base.{◌-◌, ℕ, ◌≡◌, refl, arith, false, List, [], ◌∷◌, ◌++◌, none, some, pos}
use usbip_python.Struct.{Bytes}
use usbip_python.Core.{dir_in}
use usbip_python.Core.Setup
use usbip_python.Core.Setup.{Setup}
use usbip_python.Core.ConfigurationDescriptor
use usbip_python.Core.Walk.{iter_descriptors}
use usbip_python.Core.Urb.{Urb}
use usbip_python.Endpoint.{Endpoint, stall, stall_status}
use usbip_python.Device.EpMap.{Key, EpMap, same, lookup}
use usbip_python.Device.Routing.{moved, route_endpoint}
use usbip_python.Device.Routing.Laws.{Routed, route_endpoint-Routed}
use usbip_python.Device.State.{State, Profile, DescriptorGroup}
use usbip_python.Device.Config.{config_descriptor, config_bytes}
use usbip_python.Device.Config.Walk.{
  expected_header, Renders, nothing, block, none_left, group, config_bytes_lem,
}
use usbip_python.Device.Control.{control_request, handle_control}
use usbip_python.Device.Control.Laws.{Controlled, handle_control-Controlled}
use usbip_python.Device.Control.Halt.{IsHaltFeature, setup_key, clear-set_halt_lem}
use usbip_python.Device.Transfer.{answered, parks, handle_urb}
use usbip_python.Device.Transfer.{cancel_urb}
use usbip_python.Device.Transfer.Cancel.{parked_count, paced_count, queued, cancel_urb_lem}
use usbip_python.Device.Transfer.Data.{Transferred, handle_urb-Transferred}
use usbip_python.Device.Transfer.Halt.{handle_urb-set_halt}
use usbip_python.Tests.Endpoint.{bulk_in, in_urb, two_parked}

abbrev interface_bytes : Bytes
interface_bytes = 9 ∷ 4 ∷ 0 ∷ 0 ∷ 1 ∷ 0xFF ∷ 0 ∷ 0 ∷ 0 ∷ []

abbrev endpoint_bytes : Bytes
endpoint_bytes = 7 ∷ 5 ∷ 0x81 ∷ 2 ∷ 64 ∷ 0 ∷ 0 ∷ []

abbrev vendor_group : DescriptorGroup ℕ
vendor_group = record {
  interface_numbers = 0 ∷ [];
  blocks = (λ s. some (interface_bytes ++ [])) ∷ (λ s. some (endpoint_bytes ++ [])) ∷ [];
}

abbrev pub profile : Profile ℕ
profile = record {
  vid = 0x1209;
  pid = 1;
  bcd_device = 0x0100;
  bcd_usb = 0x0200;
  device_class = 0;
  device_subclass = 0;
  device_protocol = 0;
  i_manufacturer = 0;
  i_product = 0;
  i_serial_number = 0;
  strings = none ∷ [];
  msos = [];
  msos_v1 = 0x20;
  msos_v2 = 0x21;
  webusb = none;
  high_speed = false;
  iso_paced = false;
  groups = vendor_group ∷ [];
  num_interfaces = 1;
  ctrl = λ i. none;
  fallback = none;
  set_alt = λ i. none;
  reset_hooks = [];
  on_out = λ k. none;
  on_iso_in = λ k. none;
  on_iso_out = λ k. none;
}

abbrev pub idle : State ℕ
idle = record {
  ep_map = ((1, dir_in), two_parked) ∷ [];
  config = 1;
  pace_q = [];
  responded = [];
  world = 0;
}

-- The declared number is taken, and the endpoint moves to number 2.
route_endpoint_moves :
    route_endpoint idle.ep_map bulk_in
    ≡ some (moved bulk_in 2, ((1, dir_in), two_parked) ∷ ((2, dir_in), moved bulk_in 2) ∷ [])
unfolding route_endpoint lookup usbip_python.Device.EpMap.insert
route_endpoint_moves = refl

route_endpoint-Routed_example : Routed idle.ep_map bulk_in (route_endpoint idle.ep_map bulk_in)
route_endpoint-Routed_example = route_endpoint-Routed idle.ep_map bulk_in

vendor_group-Renders :
    Renders idle vendor_group.blocks ((interface_bytes ∷ []) ++ ((endpoint_bytes ∷ []) ++ []))
vendor_group-Renders =
    block _ _ (interface_bytes ∷ []) _ refl (record { long = omega arith; counted = refl }, tt)
      (block _ _ (endpoint_bytes ∷ []) _ refl (record { long = omega arith; counted = refl }, tt)
        nothing)

abbrev pub blob : Bytes
blob = 9 ∷ 2 ∷ 25 ∷ 0 ∷ 1 ∷ 1 ∷ 0 ∷ 0x80 ∷ 50 ∷ interface_bytes ++ endpoint_bytes

abbrev descriptors : List Bytes
descriptors = interface_bytes ∷ endpoint_bytes ∷ []

pub config_bytes_run : config_bytes profile idle ≡ some blob
unfolding config_bytes ConfigurationDescriptor.pack usbip_python.Struct.pack
    usbip_python.Struct.to_le
config_bytes_run = refl

config_bytes_lem_example :
    (ConfigurationDescriptor.parse blob ≡ some (expected_header profile blob))
    × (iter_descriptors blob 9 ≡ descriptors)
config_bytes_lem_example =
    config_bytes_lem idle profile descriptors blob
      (group vendor_group [] _ [] vendor_group-Renders none_left) config_bytes_run

-- GET_DESCRIPTOR(device), of which the host asks for the first eight bytes.
abbrev pub get_device : Bytes
get_device = 0x80 ∷ 6 ∷ 0 ∷ 1 ∷ 0 ∷ 0 ∷ 8 ∷ 0 ∷ []

abbrev pub get_device_setup : Setup
get_device_setup = record {
  bm_request_type = 0x80;
  b_request = 6;
  w_value = 0x100;
  w_index = 0;
  w_length = 8;
}

abbrev pub control_urb : Urb
control_urb = record (in_urb 5) { ep = 0; setup = get_device }

abbrev pub control_reply : Urb
control_reply = record control_urb {
  buffer = 18 ∷ 1 ∷ 0 ∷ 2 ∷ 0 ∷ 0 ∷ 0 ∷ 64 ∷ [];
  actual = pos 8;
  status = pos 0;
}

get_device_parses : Setup.parse get_device ≡ some get_device_setup
unfolding Setup.parse usbip_python.Struct.unpack usbip_python.Struct.from_le
get_device_parses = refl

control_urb_run : (handle_control profile control_urb idle).0 ≡ some control_reply
unfolding handle_control Setup.parse usbip_python.Struct.unpack Setup.type
    usbip_python.Struct.from_le usbip_python.Core.DeviceDescriptor.pack usbip_python.Struct.pack
    usbip_python.Device.Config.device_descriptor Setup.direction usbip_python.Struct.to_le
control_urb_run = refl

handle_control-Controlled_example : Controlled get_device_setup control_urb control_reply
handle_control-Controlled_example =
    handle_control-Controlled profile control_urb control_reply get_device_setup idle
      get_device_parses control_urb_run

pub control_urb_answered : handle_urb profile 0 control_urb idle ≡ (answered control_reply, idle)
unfolding handle_urb handle_control Setup.parse usbip_python.Struct.unpack Setup.type
    usbip_python.Struct.from_le usbip_python.Core.DeviceDescriptor.pack usbip_python.Struct.pack
    usbip_python.Device.Config.device_descriptor Setup.direction usbip_python.Struct.to_le
control_urb_answered = refl

-- Three bytes are queued, and the host asks for two.
abbrev with_data : State ℕ
with_data = record idle {
  ep_map = ((1, dir_in), record bulk_in { q = (7 ∷ 8 ∷ 9 ∷ []) ∷ [] }) ∷ [];
}

handle_urb_gives :
    (handle_urb profile 0 (in_urb 9) with_data).0
    ≡ answered (record (in_urb 9) { buffer = 7 ∷ 8 ∷ []; actual = pos 2; status = pos 0 })
unfolding handle_urb lookup usbip_python.Endpoint.take_or_park
handle_urb_gives = refl

handle_urb-Transferred_example :
    Transferred profile
      (in_urb 9)
      with_data
      (handle_urb profile 0 (in_urb 9) with_data).0
      (handle_urb profile 0 (in_urb 9) with_data).1
handle_urb-Transferred_example =
    handle_urb-Transferred profile 0 (in_urb 9) with_data (λ e. omega arith) refl

-- An IN URB is parked while no data is queued.
handle_urb_parks : (handle_urb profile 0 (in_urb 9) idle).0 ≡ parks
unfolding handle_urb lookup usbip_python.Endpoint.take_or_park
handle_urb_parks = refl

abbrev set_halt_setup : Setup
set_halt_setup = record {
  bm_request_type = 0x02;
  b_request = 3;
  w_value = 0;
  w_index = 0x81;
  w_length = 0;
}

abbrev clear_halt_setup : Setup
clear_halt_setup = record set_halt_setup { b_request = 1 }

set_halt_setup-IsHaltFeature : IsHaltFeature 3 set_halt_setup
unfolding Setup.type Setup.recipient
set_halt_setup-IsHaltFeature = record {
  type = refl;
  recipient = refl;
  b_request = refl;
  w_value = refl;
}

clear_halt_setup-IsHaltFeature : IsHaltFeature 1 clear_halt_setup
unfolding Setup.type Setup.recipient
clear_halt_setup-IsHaltFeature = record {
  type = refl;
  recipient = refl;
  b_request = refl;
  w_value = refl;
}

idle_endpoint : lookup (setup_key set_halt_setup) idle.ep_map ≡ some two_parked
unfolding lookup
idle_endpoint = refl

-- Number 7 is parked, and is unlinked.
cancel_urb_lem_example :
    (parked_count 7 (cancel_urb 7 idle).ep_map ≡ parked_count 7 idle.ep_map - 1)
    × (paced_count 7 (cancel_urb 7 idle).pace_q ≡ 0)
    × (queued (cancel_urb 7 idle).ep_map ≡ queued idle.ep_map)
cancel_urb_lem_example = cancel_urb_lem 7 7 idle

handle_urb-set_halt_example :
    handle_urb profile 0 (in_urb 9) (control_request profile set_halt_setup [] idle).1 ≡ (
      answered (record (in_urb 9) { buffer = []; actual = pos 0; status = stall_status }),
      (control_request profile set_halt_setup [] idle).1,
    )
handle_urb-set_halt_example =
    handle_urb-set_halt profile set_halt_setup [] idle two_parked 0 (in_urb 9)
      set_halt_setup-IsHaltFeature idle_endpoint (λ e. omega arith) refl

clear-set_halt_lem_example :
    lookup
      (1, dir_in)
      (control_request profile clear_halt_setup []
        (control_request profile set_halt_setup [] idle).1).1.ep_map
    ≡ some bulk_in
clear-set_halt_lem_example =
    clear-set_halt_lem profile set_halt_setup clear_halt_setup [] idle two_parked
      set_halt_setup-IsHaltFeature clear_halt_setup-IsHaltFeature refl idle_endpoint (1, dir_in)
