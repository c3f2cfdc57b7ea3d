-- ===== src/Tests/Function.antt =====
-- usbip/device.py and usbip/function.py: setting a device up.
use usbip_python.Base.{ℕ, ◌≡◌, ◌≢◌, ◌⊎◌, refl, true, false, List, [], ◌∷◌, Option, none, some, map}
use usbip_python.Core.{dir_in}
use usbip_python.Core.Walk.{iter_descriptors}
use usbip_python.Device.EpMap.{Key, lookup}
use usbip_python.Device.Routing.{moved}
use usbip_python.Device.State.{reply, stalls}
use usbip_python.Device.Vendor.{entry_for_group}
use usbip_python.Device.Conflicts.{fine, conflict, scan, check_endpoint_conflicts}
use usbip_python.Device.Conflicts.Laws.{claims, Consistent, IsIn, check_endpoint_conflicts_lem}
use usbip_python.Device.Build.{Build, enable_msos, winusb}
use usbip_python.Device.Build.Laws.{entry_for_group-enable_msos}
use usbip_python.Function.{Interface, Function, Added, attach}
use usbip_python.Core.MsOs.{codes}
use usbip_python.Dfu
use usbip_python.Dfu.{Target}
use usbip_python.Dfu.Added
use usbip_python.Tests.Endpoint.{bulk_in}
use usbip_python.Tests.Device.{profile, idle, blob, config_bytes_run}

blob-claims : claims none (iter_descriptors blob 9) ≡ some ((0x81, 0) ∷ [])
unfolding claims iter_descriptors usbip_python.Core.Walk.iter_from
blob-claims = refl

check_endpoint_conflicts_lem_example :
    ((check_endpoint_conflicts profile idle ≡ fine) × Consistent ((0x81, 0) ∷ []))
    ⊎ ((a : ℕ) × (first : ℕ) × (i : ℕ) × (check_endpoint_conflicts profile idle
          ≡ conflict a first i)
        × (first ≢ i)
        × IsIn (a, first) ((0x81, 0) ∷ [])
        × IsIn (a, i) ((0x81, 0) ∷ []))
check_endpoint_conflicts_lem_example =
    check_endpoint_conflicts_lem profile idle blob ((0x81, 0) ∷ []) config_bytes_run blob-claims

-- The same address under two alternate settings of interface 0, and then under interface 1.
two_owners :
    scan [] none (
      (9 ∷ 4 ∷ 0 ∷ [])
      ∷ (7 ∷ 5 ∷ 0x81 ∷ [])
      ∷ (9 ∷ 4 ∷ 0 ∷ [])
      ∷ (7 ∷ 5 ∷ 0x81 ∷ [])
      ∷ (9 ∷ 4 ∷ 1 ∷ [])
      ∷ (7 ∷ 5 ∷ 0x81 ∷ [])
      ∷ [])
    ≡ conflict 0x81 0 1
unfolding scan
two_owners = refl

abbrev build : Build ℕ
build = record { profile = profile; state = idle; composite = false; speed = 1; speed_hooks = [] }

entry_for_group-enable_msos_example :
    entry_for_group (enable_msos build winusb none (some 0)).profile.msos (some 0)
    ≡ some (record { group = some 0; compatible = winusb; guid = none })
entry_for_group-enable_msos_example =
    entry_for_group-enable_msos build winusb none (some 0) (some 0)

abbrev vendor : Interface ℕ
vendor = record {
  b_interface_class = 0xFF;
  b_interface_sub_class = 0;
  b_interface_protocol = 0;
  string_index = 0;
  endpoints = bulk_in ∷ [];
  extra_descriptors = λ s. some [];
  on_control = λ setup bs s. (stalls, s);
  set_alt = λ alt s. (reply [], s);
  adjust_for_speed = λ speed e. record e { mps = 64 };
  on_reset = λ s. s;
  on_out = λ k bs s. (reply [], s);
  on_iso_in = λ k sizes s. ([], s);
  on_iso_out = λ k packets s. s;
}

abbrev two_interfaces : Function ℕ
two_interfaces = record {
  interfaces = vendor ∷ vendor ∷ [];
  iad = false;
  iad_on_composite = true;
  iad_class = 0xFF;
  iad_subclass = 0;
  iad_protocol = 0;
  iad_function_str = 0;
  device_triple = none;
  on_added = λ b. b;
}

-- The numbers and the keys that attaching gives.
summary : Option (List (Added ℕ) × Build ℕ) → List (ℕ × List Key)
summary none = []
summary (some (added, b)) = map (λ a. (a.number, a.keys)) added

two_interfaces_attached :
    summary (attach two_interfaces build) ≡ (1, (2, dir_in) ∷ []) ∷ (2, (3, dir_in) ∷ []) ∷ []
unfolding summary attach usbip_python.Device.Routing.route_endpoint lookup
    usbip_python.Device.EpMap.insert
two_interfaces_attached = refl

abbrev value_of : Option (List (Added ℕ) × Build ℕ) → List (Added ℕ) × Build ℕ
value_of none = ([], build)
value_of (some x) = x

-- The two targets of a DFU interface take the next two strings.
names_of : List (Target ℕ) → List ℕ
names_of [] = []
names_of (t ∷ ts) = t.i_string ∷ names_of ts

abbrev unnamed : List (Target ℕ)
unnamed =
    record { name = codes "a"; i_string = 0; content = 0 }
    ∷ record { name = codes "b"; i_string = 0; content = 0 }
    ∷ []

targets_named :
    names_of (Added.on_added true 0 (Dfu.new unnamed 64 7 1000) build).0.targets ≡ 1 ∷ 2 ∷ []
unfolding names_of Added.on_added Dfu.new
targets_named = refl
