-- ===== src/Device/Config.antt =====
-- usbip/device.py: the descriptors that a device serves.
pub mod Walk
use usbip_python.Base.{
  ℕ, zero, suc, ◌+◌, Bool, true, false, ◌&&◌, List, [], ◌∷◌, ◌++◌, Option, none, some, ◌>>=◌,
  length, get_elem?, ltb, leb, ◌==◌, if◌then◌else◌, get_or,
}
use usbip_python.Struct.{Bytes}
use usbip_python.Core.{dt_interface}
use usbip_python.Core.DeviceDescriptor
use usbip_python.Core.DeviceDescriptor.{DeviceDescriptor}
use usbip_python.Core.ConfigurationDescriptor
use usbip_python.Core.ConfigurationDescriptor.{ConfigurationDescriptor}
use usbip_python.Core.Walk.{iter_descriptors}
use usbip_python.Device.State.{State, Profile, DescriptorGroup}

module _ {W : Type 0} where
  unfoldable pub device_descriptor : Profile W → DeviceDescriptor
  device_descriptor p = record {
    bcd_usb = p.bcd_usb;
    b_device_class = p.device_class;
    b_device_sub_class = p.device_subclass;
    b_device_protocol = p.device_protocol;
    b_max_packet_size0 = 64;
    id_vendor = p.vid;
    id_product = p.pid;
    bcd_device = p.bcd_device;
    i_manufacturer = p.i_manufacturer;
    i_product = p.i_product;
    i_serial_number = p.i_serial_number;
    b_num_configurations = 1;
  }

  -- DescriptorGroup._render(): the blocks in order.
  unfoldable pub render : List (State W → Option Bytes) → State W → Option Bytes
  render [] s = some []
  render (b ∷ bs) s = do x ← b s; rest ← render bs s; some (x ++ rest)

  unfoldable pub render_groups : List (DescriptorGroup W) → State W → Option Bytes
  unfolding render
  render_groups [] s = some []
  render_groups (g ∷ gs) s = do x ← render g.blocks s; rest ← render_groups gs s; some (x ++ rest)

  abbrev pub config_descriptor : Profile W → Bytes → ConfigurationDescriptor
  config_descriptor p body = record {
    w_total_length = 9 + length body;
    b_num_interfaces = p.num_interfaces;
    b_configuration_value = 1;
    i_configuration = 0;
    bm_attributes = 0x80;
    b_max_power = 50;
  }

  unfoldable pub config_bytes : Profile W → State W → Option Bytes
  unfolding render_groups
  config_bytes p s = do
    body ← render_groups p.groups s
    header ← ConfigurationDescriptor.pack (config_descriptor p body)
    some (header ++ body)

-- (class, subclass, protocol)
abbrev pub Triple : Type 0
Triple = ℕ × ℕ × ℕ

-- `triples[ifnum] = t`, on a list that is kept sorted by the interface number.
unfoldable pub put_sorted : ℕ → Triple → List (ℕ × Triple) → List (ℕ × Triple)
put_sorted n t [] = (n, t) ∷ []
put_sorted n t ((m, u) ∷ rest) =
    let later = (m, u) ∷ put_sorted n t rest in
    if ltb n m then (n, t) ∷ (m, u) ∷ rest else if n == m then (n, t) ∷ rest else later

unfoldable pub collect : List Bytes → List (ℕ × Triple) → List (ℕ × Triple)
unfolding put_sorted
collect [] acc = acc
collect (d ∷ ds) acc = collect ds (
    if get_or d 1 0 == dt_interface && (leb 8 (length d) && get_or d 3 0 == 0)
    then put_sorted (get_or d 2 0) (get_or d 5 0, get_or d 6 0, get_or d 7 0) acc
    else acc)

unfoldable pub triples_of : List (ℕ × Triple) → List Triple
triples_of [] = []
triples_of ((n, t) ∷ rest) = t ∷ triples_of rest

module _ {W : Type 0} where
  unfoldable pub interface_triples : Profile W → State W → Option (List Triple)
  unfolding collect triples_of
  interface_triples p s = do
    blob ← config_bytes p s
    some (triples_of (collect (iter_descriptors blob 9) []))
