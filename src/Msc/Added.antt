-- ===== src/Msc/Added.antt =====
-- usbip/classes/device/msc.py: what adding the interface to a device does, and the link speed.
use usbip_python.Base.{ℕ, Bool, Option, if◌then◌else◌, leb}
use usbip_python.Core.Text.{Text}
use usbip_python.Endpoint.{Endpoint}
use usbip_python.Device.Build.{Build, add_string}

-- `ufi` declares the UFI command set instead of SCSI transparent.
abbrev pub sub_class : Bool → ℕ
sub_class ufi = if ufi then 0x04 else 0x06

-- adjust_for_speed(speed), for either endpoint: SPEED_HIGH is 2.
unfoldable pub adjust_for_speed : ℕ → Endpoint → Endpoint
adjust_for_speed speed e = record e { mps = if leb 2 speed then 512 else 64 }

-- _on_added(): the index of the name, and 0 without one.
unfoldable pub on_added : {W : Type 0} → Option Text → Build W → ℕ × Build W
unfolding add_string
on_added name b = add_string b name
