-- ===== src/Dfu/Added.antt =====
-- usbip/classes/device/dfu.py, `_on_added`: what adding the interface to a device does.
use usbip_python.Base.{ℕ, Bool, List, [], ◌∷◌, none, some, if◌then◌else◌}
use usbip_python.Device.Build.{Build, add_string, enable_winusb}
use usbip_python.Dfu.{Target, Dfu}

module _ {W T : Type 0} where
  -- Every target gets the index of its name.
  unfoldable pub name_targets : List (Target T) → Build W → List (Target T) × Build W
  unfolding add_string
  name_targets [] b = ([], b)
  name_targets (t ∷ ts) b =
      let (i, b1) = add_string b (some t.name) in
      let (named, b2) = name_targets ts b1 in (record t { i_string = i } ∷ named, b2)

  -- _on_added(), for an interface of group `g`.
  unfoldable pub on_added : Bool → ℕ → Dfu T → Build W → Dfu T × Build W
  unfolding name_targets enable_winusb
  on_added winusb g s b =
      let (named, b1) = name_targets s.targets b in
      (record s { targets = named }, if winusb then enable_winusb b1 none (some g) else b1)
