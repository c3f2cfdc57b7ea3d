-- ===== src/Device/Conflicts.antt =====
-- usbip/device.py, `USBDevice._check_endpoint_conflicts`: what plug() refuses.
pub mod Laws
use usbip_python.Base.{
  ℕ, Bool, true, false, List, [], ◌∷◌, Option, none, some, ◌==◌, if◌then◌else◌, get_elem?,
}
use usbip_python.Struct.{Bytes}
use usbip_python.Core.{dt_interface, dt_endpoint}
use usbip_python.Core.Walk.{iter_descriptors}
use usbip_python.Device.State.{State, Profile}
use usbip_python.Device.Config.{config_bytes}

-- The check passes, raises RuntimeError for an address of two interfaces, or another exception.
pub data Verdict : Type 0 where
  fine : Verdict
  conflict : ℕ → ℕ → ℕ → Verdict
  broken : Verdict

-- owner.get(addr)
unfoldable pub owner_of : ℕ → List (ℕ × ℕ) → Option ℕ
owner_of a [] = none
owner_of a ((b, i) ∷ owner) = if b == a then some i else owner_of a owner

-- `owner.setdefault(addr, ifnum)`, and the test of what it returns. `next` goes on with the dict.
abbrev pub claimed : List (ℕ × ℕ) → ℕ → ℕ → (List (ℕ × ℕ) → Verdict) → Option ℕ → Verdict
claimed owner a i next none = next ((a, i) ∷ owner)
claimed owner a i next (some first) = if first == i then next owner else conflict a first i

-- A descriptor with its byte 2, where the loop reads that.
pub data Kind : Type 0 where
  interface_desc endpoint_desc : Option ℕ → Kind
  other_desc : Kind

unfoldable pub kind_of : Bytes → Option Kind
kind_of (_ ∷ kind ∷ d) = some (
    if kind == dt_interface
    then interface_desc (get_elem? d 0)
    else if kind == dt_endpoint
    then endpoint_desc (get_elem? d 0)
    else other_desc)
kind_of _ = none

-- The loop's body; an index out of range raises.
abbrev pub visit :
    Option Kind → List (ℕ × ℕ) → Option ℕ → (List (ℕ × ℕ) → Option ℕ → Verdict) → Verdict
visit none owner ifnum next = broken
visit (some (interface_desc none)) owner ifnum next = broken
visit (some (interface_desc (some n))) owner ifnum next = next owner (some n)
visit (some (endpoint_desc o)) owner none next = next owner none
visit (some (endpoint_desc none)) owner (some i) next = broken
visit (some (endpoint_desc (some a))) owner (some i) next =
    claimed owner a i (λ owner'. next owner' (some i)) (owner_of a owner)
visit (some other_desc) owner ifnum next = next owner ifnum

unfoldable pub scan : List (ℕ × ℕ) → Option ℕ → List Bytes → Verdict
unfolding kind_of owner_of
scan owner ifnum [] = fine
scan owner ifnum (d ∷ ds) = visit (kind_of d) owner ifnum (λ owner' ifnum'. scan owner' ifnum' ds)

abbrev pub scan_blob : Option Bytes → Verdict
scan_blob none = broken
scan_blob (some blob) = scan [] none (iter_descriptors blob 9)

-- _check_endpoint_conflicts(): `none` of the configuration is an exception.
unfoldable pub check_endpoint_conflicts : {W : Type 0} → Profile W → State W → Verdict
unfolding scan
check_endpoint_conflicts p s = scan_blob (config_bytes p s)
