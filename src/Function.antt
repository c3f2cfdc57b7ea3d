-- ===== src/Function.antt =====
-- usbip/function.py: interfaces and functions, and how they are put on a device.
-- What a class overrides (its handlers, class-specific descriptors, the size of its endpoints) are
-- functions in the record of the interface; they act on the state of the device.
pub mod Routes
pub mod Laws
use usbip_python.Base.{
  ℕ, ◌+◌, Bool, true, false, ◌&&◌, ◌||◌, List, [], ◌∷◌, ◌++◌, Option, none, some, ◌>>=◌,
  if◌then◌else◌, length, map,
}
use usbip_python.Struct.{Bytes, little, pack}
use usbip_python.Core.{dt_interface_association}
use usbip_python.Core.Setup.{Setup}
use usbip_python.Core.InterfaceDescriptor
use usbip_python.Core.InterfaceDescriptor.{InterfaceDescriptor}
use usbip_python.Endpoint.{Endpoint}
use usbip_python.Device.EpMap.{Key, EpMap, same, lookup, insert}
use usbip_python.Device.State.{State, Profile, Action}
use usbip_python.Device.Build.{
  Build, render_endpoint, add_group, claim_interface, add_block, route, set_device_triple,
  on_control, is_set, on_set_alt, add_reset_hook, add_speed_hook,
}

pub record Interface (W : Type 0) : Type 0 where
  pub b_interface_class : ℕ
  pub b_interface_sub_class : ℕ
  pub b_interface_protocol : ℕ
  pub string_index : ℕ
  -- The values of `_endpoints`, as they are declared.
  pub endpoints : List Endpoint
  pub extra_descriptors : State W → Option Bytes
  pub on_control : Setup → Bytes → Action W
  pub set_alt : ℕ → Action W
  pub adjust_for_speed : ℕ → Endpoint → Endpoint
  pub on_reset : State W → State W
  pub on_out : Key → Bytes → Action W
  pub on_iso_in : Key → List ℕ → State W → List Bytes × State W
  pub on_iso_out : Key → List Bytes → State W → State W

pub record Function (W : Type 0) : Type 0 where
  pub interfaces : List (Interface W)
  pub iad : Bool
  pub iad_on_composite : Bool
  pub iad_class : ℕ
  pub iad_subclass : ℕ
  pub iad_protocol : ℕ
  pub iad_function_str : ℕ
  pub device_triple : Option (ℕ × ℕ × ℕ)
  -- `_on_added`
  pub on_added : Build W → Build W

-- An interface on a device: its number and the keys of its endpoints.
pub record Added (W : Type 0) : Type 0 where
  pub number : ℕ
  pub keys : List Key
  pub interface : Interface W

endpoint_blocks : EpMap → List Key → Option Bytes
endpoint_blocks m [] = some []
endpoint_blocks m (k ∷ ks) = do
  d ← render_endpoint (lookup k m)
  ds ← endpoint_blocks m ks
  some (d ++ ds)

module _ {W : Type 0} where
  abbrev pub interface_descriptor : Added W → InterfaceDescriptor
  interface_descriptor a = record {
    b_interface_number = a.number;
    b_alternate_setting = 0;
    b_num_endpoints = length a.keys;
    b_interface_class = a.interface.b_interface_class;
    b_interface_sub_class = a.interface.b_interface_sub_class;
    b_interface_protocol = a.interface.b_interface_protocol;
    i_interface = a.interface.string_index;
  }

  -- Interface.descriptor_block()
  unfoldable pub interface_block : Added W → State W → Option Bytes
  unfolding endpoint_blocks
  interface_block a s = do
    d ← InterfaceDescriptor.pack (interface_descriptor a)
    extra ← a.interface.extra_descriptors s
    eps ← endpoint_blocks s.ep_map a.keys
    some (d ++ (extra ++ eps))

  unfoldable pub interface_blocks : List (Added W) → State W → Option Bytes
  unfolding interface_block
  interface_blocks [] s = some []
  interface_blocks (a ∷ added) s = do
    d ← interface_block a s
    ds ← interface_blocks added s
    some (d ++ ds)

  abbrev pub first_interface : List (Added W) → Option ℕ
  first_interface [] = none
  first_interface (a ∷ _) = some a.number

  -- association_descriptor()
  unfoldable pub association_descriptor : Function W → Bool → List (Added W) → Option Bytes
  association_descriptor f composite added =
      if f.iad || (f.iad_on_composite && composite)
      then (do
        first ← first_interface added
        pack little (
            (1, 8)
            ∷ (1, dt_interface_association)
            ∷ (1, first)
            ∷ (1, length added)
            ∷ (1, f.iad_class)
            ∷ (1, f.iad_subclass)
            ∷ (1, f.iad_protocol)
            ∷ (1, f.iad_function_str)
            ∷ []))
      else some []

  -- Function.descriptor_block(). The flag is the device's: set_composite is called before any class is
  -- added, as its documentation wants, so it is the same when the block renders.
  unfoldable pub descriptor_block : Function W → Bool → List (Added W) → State W → Option Bytes
  unfolding association_descriptor interface_blocks
  descriptor_block f composite added s = do
    iad ← association_descriptor f composite added
    blocks ← interface_blocks added s
    some (iad ++ blocks)

  -- ep.on_out = iface.on_out and ep.on_iso = iface.on_iso, for the endpoint at a key.
  unfoldable pub hook_endpoint : Interface W → Key → Build W → Build W
  hook_endpoint iface k b = record b {
    profile = record b.profile {
      on_out = λ j. if same j k then some (iface.on_out k) else b.profile.on_out j;
      on_iso_in = λ j. if same j k then some (iface.on_iso_in k) else b.profile.on_iso_in j;
      on_iso_out = λ j. if same j k then some (iface.on_iso_out k) else b.profile.on_iso_out j;
    };
  }

  -- for ep in iface._endpoints.values(): the keys that they are routed to.
  unfoldable pub route_all : Interface W → List Endpoint → Build W → Option (List Key × Build W)
  unfolding route hook_endpoint
  route_all iface [] b = some ([], b)
  route_all iface (e ∷ es) b = do
    (r, b1) ← route b e
    (ks, b2) ← route_all iface es (hook_endpoint iface (r.number, r.dir) b1)
    some ((r.number, r.dir) ∷ ks, b2)

  abbrev pub adjust_one : Interface W → ℕ → Key → Option Endpoint → State W → State W
  adjust_one iface speed k none s = s
  adjust_one iface speed k (some e) s = record s {
    ep_map = insert k (iface.adjust_for_speed speed e) s.ep_map;
  }

  -- The speed hook: the interface's endpoints, where they are now.
  unfoldable pub adjust_keys : Interface W → List Key → ℕ → State W → State W
  adjust_keys iface [] speed s = s
  adjust_keys iface (k ∷ ks) speed s =
      adjust_keys iface ks speed (adjust_one iface speed k (lookup k s.ep_map) s)

  abbrev pub with_fallback : Interface W → Build W → Build W
  with_fallback iface b =
      if is_set b.profile.fallback then b else on_control b none iface.on_control

  -- The handlers of an interface with a number.
  unfoldable pub register : Interface W → ℕ → List Key → Build W → Build W
  unfolding adjust_keys on_control on_set_alt add_reset_hook add_speed_hook
  register iface n keys b = with_fallback iface (
      add_speed_hook
        (add_reset_hook (on_set_alt (on_control b (some n) iface.on_control) n iface.set_alt)
          iface.on_reset)
        (adjust_keys iface keys))

  -- One turn of the loop over the interfaces, in group `g`.
  unfoldable pub add_interface : ℕ → Interface W → Build W → Option (Added W × Build W)
  unfolding claim_interface route_all register
  add_interface g iface b = do
    let (n, b1) = claim_interface b g
    (keys, b2) ← route_all iface (map (iface.adjust_for_speed b1.speed) iface.endpoints) b1
    some (record { number = n; keys = keys; interface = iface }, register iface n keys b2)

  unfoldable pub add_interfaces :
      ℕ → List (Interface W) → Build W → Option (List (Added W) × Build W)
  unfolding add_interface
  add_interfaces g [] b = some ([], b)
  add_interfaces g (i ∷ more) b = do
    (a, b1) ← add_interface g i b
    (added, b2) ← add_interfaces g more b1
    some (a ∷ added, b2)

  abbrev pub apply_triple : Option (ℕ × ℕ × ℕ) → Build W → Build W
  apply_triple none b = b
  apply_triple (some t) b = set_device_triple b t

  -- Function._attach(dev): what is added, and the device.
  unfoldable pub attach : Function W → Build W → Option (List (Added W) × Build W)
  unfolding add_group set_device_triple add_interfaces add_block descriptor_block
  attach f b = do
    let (g, b1) = add_group b
    (added, b2) ← add_interfaces g f.interfaces (apply_triple f.device_triple b1)
    some (added, f.on_added (add_block b2 g (descriptor_block f b2.composite added)))
