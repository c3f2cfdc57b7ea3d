-- ===== src/Device/Build.antt =====
-- usbip/device.py: the methods of USBDevice and DescriptorGroup with which a program sets a device up.
-- A group is its index among the device's groups.
pub mod Laws
use usbip_python.Base.{
  ℕ, zero, suc, ◌+◌, Bool, true, false, List, [], ◌∷◌, ◌++◌, Option, none, some, ◌>>=◌, ◌==◌,
  if◌then◌else◌, leb, ltb, length, get_elem?, set_elem, ◌&&◌, not, ◌||◌,
}
use usbip_python.Struct.{Bytes}
use usbip_python.Core.{dt_interface_association}
use usbip_python.Core.Text.{Text}
use usbip_python.Core.MsOs.{codes}
use usbip_python.Core.Setup.{Setup}
use usbip_python.Core.Walk.{iter_descriptors}
use usbip_python.Core.EndpointDescriptor
use usbip_python.Core.EndpointDescriptor.{EndpointDescriptor}
use usbip_python.Endpoint.{Endpoint, EpSpec, XferType, control, iso, bulk, interrupt}
use usbip_python.Endpoint
use usbip_python.Device.EpMap.{Key, EpMap, lookup}
use usbip_python.Device.Routing.{route_endpoint}
use usbip_python.Device.State.{State, Profile, DescriptorGroup, MsosEntry, WebUsb, Action}
use usbip_python.Device.Vendor.{names_group, first_number}
use usbip_python.Device.Config.{render}

-- A device that is being set up; `high_speed` of the profile follows `speed`.
pub record Build (W : Type 0) : Type 0 where
  pub profile : Profile W
  pub state : State W
  pub composite : Bool
  pub speed : ℕ
  pub speed_hooks : List (ℕ → State W → State W)

abbrev is_iad : Option ℕ → Bool
is_iad none = false
is_iad (some kind) = kind == dt_interface_association

abbrev pub xfer_number : XferType → ℕ
xfer_number control = 0
xfer_number iso = 1
xfer_number bulk = 2
xfer_number interrupt = 3

abbrev pub endpoint_descriptor : Endpoint → Option Bytes
endpoint_descriptor e = EndpointDescriptor.pack (record {
  b_endpoint_address = e.addr;
  bm_attributes = xfer_number e.type;
  w_max_packet_size = e.mps;
  b_interval = e.interval;
})

-- `self._msos[i] = entry` for the entry of the same group, or `append`.
unfoldable pub put_entry : MsosEntry → List MsosEntry → List MsosEntry
put_entry new [] = new ∷ []
put_entry new (e ∷ es) = if names_group e.group new.group then new ∷ es else e ∷ put_entry new es

-- A vendor code that is not given, or 0, leaves what there is.
abbrev pub or_code : Option ℕ → ℕ → ℕ
or_code none old = old
or_code (some zero) old = old
or_code (some (suc n)) old = suc n

-- What a lazy block makes of the endpoint that it holds.
abbrev pub render_endpoint : Option Endpoint → Option Bytes
render_endpoint none = none
render_endpoint (some e) = endpoint_descriptor e

abbrev pub landing_of : Text → ℕ
landing_of [] = 0
landing_of (_ ∷ _) = 1

abbrev pub default_winusb_guid : Text
default_winusb_guid = codes "{D2A45C1E-7B3F-4A6E-9C2D-1E5F8B0A3C7D}"

abbrev pub or_default_guid : Option Text → Text
or_default_guid (some (c ∷ cs)) = c ∷ cs
or_default_guid _ = default_winusb_guid

abbrev pub winusb : Bytes
winusb = codes "WINUSB"

any_iad : List Bytes → Bool
any_iad [] = false
any_iad (d ∷ ds) = is_iad (get_elem? d 1) || any_iad ds

unwarned : List ℕ → List Bytes → List (ℕ × ℕ)
unfolding any_iad
unwarned ns ds = if any_iad ds then [] else (first_number ns, length ns) ∷ []

module _ {W : Type 0} where
  -- _add_string(text): no text has index 0.
  unfoldable pub add_string : Build W → Option Text → ℕ × Build W
  add_string b (some (c ∷ cs)) = (
    length b.profile.strings,
    record b { profile = record b.profile { strings = b.profile.strings ++ (some (c ∷ cs) ∷ []) } },
  )
  add_string b _ = (0, b)

  -- add_group()
  unfoldable pub add_group : Build W → ℕ × Build W
  add_group b = (
    length b.profile.groups,
    record b {
      profile = record b.profile {
        groups = b.profile.groups ++ (record { interface_numbers = []; blocks = [] } ∷ []);
      };
    },
  )

  unfoldable pub in_group :
      (DescriptorGroup W → DescriptorGroup W) → Option (DescriptorGroup W) → ℕ → Build W → Build W
  in_group f none g b = b
  in_group f (some group) g b = record b {
    profile = record b.profile { groups = set_elem g (f group) b.profile.groups };
  }

  -- DescriptorGroup.claim_interface(): the next free number.
  unfoldable pub claim_interface : Build W → ℕ → ℕ × Build W
  unfolding in_group
  claim_interface b g =
      let n = b.profile.num_interfaces in
      (
        n,
        in_group (λ group. record group { interface_numbers = group.interface_numbers ++ (n ∷ []) })
            (get_elem? b.profile.groups g) g
            (record b { profile = record b.profile { num_interfaces = n + 1 } }),
      )

  -- DescriptorGroup.add(block)
  unfoldable pub add_block : Build W → ℕ → (State W → Option Bytes) → Build W
  unfolding in_group
  add_block b g block =
      in_group (λ group. record group { blocks = group.blocks ++ (block ∷ []) })
        (get_elem? b.profile.groups g) g b

  -- route_endpoint(ep): `none` is the RuntimeError.
  unfoldable pub route : Build W → Endpoint → Option (Endpoint × Build W)
  route b e = do
    (r, m) ← route_endpoint b.state.ep_map e
    some (r, record b { state = record b.state { ep_map = m } })

  -- DescriptorGroup.add_endpoint(spec): the endpoint with its key, and the block in the group.
  unfoldable pub add_endpoint : Build W → ℕ → EpSpec → Option (Endpoint × Build W)
  unfolding route add_block
  add_endpoint b g spec = do
    (e, b') ← route b (Endpoint.new spec)
    some (e, add_block b' g (λ s. render_endpoint (lookup (e.number, e.dir) s.ep_map)))

  -- enable_msos(compatible, guid, function)
  unfoldable pub enable_msos : Build W → Bytes → Option Text → Option ℕ → Build W
  unfolding put_entry
  enable_msos b compatible guid group = record b {
    profile = record b.profile {
      msos =
          put_entry (record { group = group; compatible = compatible; guid = guid }) b.profile.msos;
      bcd_usb = 0x0210;
    };
  }

  -- enable_winusb(guid, function)
  unfoldable pub enable_winusb : Build W → Option Text → Option ℕ → Build W
  unfolding enable_msos
  enable_winusb b guid group = enable_msos b winusb (some (or_default_guid guid)) group

  -- set_msos_vendor_codes(v1, v2)
  unfoldable pub set_msos_vendor_codes : Build W → Option ℕ → Option ℕ → Build W
  set_msos_vendor_codes b v1 v2 = record b {
    profile = record b.profile {
      msos_v1 = or_code v1 b.profile.msos_v1;
      msos_v2 = or_code v2 b.profile.msos_v2;
    };
  }

  -- enable_webusb(vendor_code, url)
  unfoldable pub enable_webusb : Build W → ℕ → Text → Build W
  enable_webusb b vendor url = record b {
    profile = record b.profile {
      webusb = some (record { vendor = vendor; url = url; landing = landing_of url });
      bcd_usb = 0x0210;
    };
  }

  abbrev pub run_speed_hooks : ℕ → List (ℕ → State W → State W) → State W → State W
  run_speed_hooks speed [] s = s
  run_speed_hooks speed (f ∷ fs) s = run_speed_hooks speed fs (f speed s)

  -- set_speed(speed): SPEED_HIGH is 2.
  unfoldable pub set_speed : Build W → ℕ → Build W
  set_speed b speed = record b {
    speed = speed;
    profile = record b.profile { high_speed = leb 2 speed };
    state = run_speed_hooks speed b.speed_hooks b.state;
  }

  -- set_device_triple(cls, sub, proto): a composite device keeps its own.
  unfoldable pub set_device_triple : Build W → ℕ × ℕ × ℕ → Build W
  set_device_triple b (cls, sub, proto) = if b.composite then b else record b {
    profile = record b.profile {
      device_class = cls;
      device_subclass = sub;
      device_protocol = proto;
    };
  }

  -- set_composite()
  unfoldable pub set_composite : Build W → Build W
  set_composite b = record b {
    composite = true;
    profile = record b.profile {
      device_class = 0xEF;
      device_subclass = 0x02;
      device_protocol = 0x01;
    };
  }

  -- on_control(ifnum, handler): `none` is the fallback of the device.
  unfoldable pub on_control : Build W → Option ℕ → (Setup → Bytes → Action W) → Build W
  on_control b none handler = record b { profile = record b.profile { fallback = some handler } }
  on_control b (some n) handler = record b {
    profile = record b.profile { ctrl = λ k. if k == n then some handler else b.profile.ctrl k };
  }

  abbrev pub is_set : Option (Setup → Bytes → Action W) → Bool
  is_set none = false
  is_set (some _) = true

  -- has_control_fallback()
  abbrev pub has_control_fallback : Build W → Bool
  has_control_fallback b = is_set b.profile.fallback

  -- on_set_alt(ifnum, handler)
  unfoldable pub on_set_alt : Build W → ℕ → (ℕ → Action W) → Build W
  on_set_alt b n handler = record b {
    profile = record b.profile {
      set_alt = λ k. if k == n then some handler else b.profile.set_alt k;
    };
  }

  -- add_reset_hook(fn), add_speed_hook(fn)
  unfoldable pub add_reset_hook : Build W → (State W → State W) → Build W
  add_reset_hook b f = record b {
    profile = record b.profile { reset_hooks = b.profile.reset_hooks ++ (f ∷ []) };
  }

  unfoldable pub add_speed_hook : Build W → (ℕ → State W → State W) → Build W
  add_speed_hook b f = record b { speed_hooks = b.speed_hooks ++ (f ∷ []) }

  -- The groups of several interfaces that have no Interface Association Descriptor.
  iad_warnings : State W → List (DescriptorGroup W) → Option (List (ℕ × ℕ))
  unfolding unwarned
  iad_warnings s [] = some []
  iad_warnings s (g ∷ gs) = do
    here ←
        if ltb 1 (length g.interface_numbers)
        then (do
          blob ← render g.blocks s
          some (unwarned g.interface_numbers (iter_descriptors blob 0)))
        else some []
    more ← iad_warnings s gs
    some (here ++ more)

  -- _check_composite_iads(): what it warns of, the first interface of a group and its number of them.
  unfoldable pub check_composite_iads : Build W → Option (List (ℕ × ℕ))
  unfolding iad_warnings
  check_composite_iads b =
      if not b.composite && ltb (length b.profile.groups) 2
      then some []
      else iad_warnings b.state b.profile.groups
