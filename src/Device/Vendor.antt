-- ===== src/Device/Vendor.antt =====
-- usbip/device.py: string, BOS, Microsoft OS and WebUSB descriptors of a device. `none` of an
-- `Option Bytes` is an exception of a packing function.
use Prim.Native.Nat.{bit_and}
use usbip_python.Base.{
  ℕ, ◌+◌, ◌/◌, ◌^◌, Bool, true, false, ◌&&◌, List, [], ◌∷◌, ◌++◌, map, Option, none, some, ◌>>=◌,
  length, get_elem?, ◌==◌, if◌then◌else◌,
}
use usbip_python.Struct.{Bytes}
use usbip_python.Core.Text.{Text, string_descriptor, langid_descriptor}
use usbip_python.Core.Setup.{Setup}
use usbip_python.Core.MsOs.{
  Entry, ms_os1_string, ms_os1_compatid, ms_os1_extprops, ms_os2_set, ms_os2_set_subsets,
}
use usbip_python.Core.Bos.{msos2_platform_cap, webusb_platform_cap, webusb_url, bos}
use usbip_python.Device.State.{
  Profile, DescriptorGroup, MsosEntry, WebUsb, Answer, reply, stalls, crash,
}

-- `x is y`, on the group that an entry names.
abbrev pub names_group : Option ℕ → Option ℕ → Bool
names_group none none = true
names_group (some i) (some j) = i == j
names_group _ _ = false

unfoldable pub find_group : Option ℕ → List MsosEntry → Option MsosEntry
find_group g [] = none
find_group g (e ∷ es) = if names_group e.group g then some e else find_group g es

abbrev pub or_else : Option MsosEntry → Option MsosEntry → Option MsosEntry
or_else (some e) o = some e
or_else none o = o

-- _msos_entry_for_group
unfoldable pub entry_for_group : List MsosEntry → Option ℕ → Option MsosEntry
unfolding find_group
entry_for_group es g = or_else (find_group g es) (find_group none es)

unfoldable pub elem : ℕ → List ℕ → Bool
elem n [] = false
elem n (m ∷ ms) = if m == n then true else elem n ms

abbrev pub first_number : List ℕ → ℕ
first_number [] = 0
first_number (n ∷ ns) = n

whole_device : Option MsosEntry → List (ℕ × MsosEntry)
whole_device none = []
whole_device (some e) = (0, e) ∷ []

module _ {W : Type 0} where
  -- The interfaces of the group of an entry.
  unfoldable pub covers : List (DescriptorGroup W) → ℕ → Option ℕ → Bool
  unfolding elem
  covers gs ifnum none = false
  covers gs ifnum (some i) = elim (get_elem? gs i) [
    | none ↦ false
    | some g ↦ elem ifnum g.interface_numbers
  ]

  find_interface : List (DescriptorGroup W) → ℕ → List MsosEntry → Option MsosEntry
  unfolding covers
  find_interface gs ifnum [] = none
  find_interface gs ifnum (e ∷ es) =
      if covers gs ifnum e.group then some e else find_interface gs ifnum es

  -- _msos_entry_for_interface
  unfoldable pub entry_for_interface : Profile W → ℕ → Option MsosEntry
  unfolding find_interface find_group
  entry_for_interface p ifnum =
      or_else (find_interface p.groups ifnum p.msos) (find_group none p.msos)

  sections_from : List MsosEntry → ℕ → List (DescriptorGroup W) → List (ℕ × MsosEntry)
  unfolding entry_for_group
  sections_from es i [] = []
  sections_from es i (g ∷ gs) =
      let rest = sections_from es (i + 1) gs in
      elim (entry_for_group es (some i)) as (λ _. List (ℕ × MsosEntry)) [
        | none ↦ rest
        | some e ↦ (first_number g.interface_numbers, e) ∷ rest
      ]

  -- _msos_sections
  unfoldable pub msos_sections : Profile W → List (ℕ × MsosEntry)
  unfolding sections_from whole_device entry_for_group
  msos_sections p = elim p.groups as (λ _. List (ℕ × MsosEntry)) [
    | [] ↦ whole_device (entry_for_group p.msos none)
    | g ∷ gs ↦ sections_from p.msos 0 (g ∷ gs)
  ]

abbrev subset_entry : ℕ × MsosEntry → Entry
subset_entry (first, e) = (first, e.compatible, e.guid)

abbrev compatid_entry : ℕ × MsosEntry → ℕ × Bytes
compatid_entry (first, e) = (first, e.compatible)

single_set : Option MsosEntry → List MsosEntry → Option Bytes
single_set (some e) es = ms_os2_set e.compatible e.guid
single_set none (e ∷ es) = ms_os2_set e.compatible e.guid
single_set none [] = none

webusb_caps : Option WebUsb → Option (List Bytes)
webusb_caps none = some []
webusb_caps (some w) = do c ← webusb_platform_cap w.vendor w.landing; some (c ∷ [])

-- What a packing function gave, as an answer.
abbrev pub packed : Option Bytes → Answer
packed none = crash
packed (some bs) = reply bs

-- An empty or missing string stalls.
abbrev string_at : Option (Option Text) → Answer
string_at (some (some (c ∷ cs))) = packed (string_descriptor (c ∷ cs))
string_at _ = stalls

abbrev guid_of : Option MsosEntry → Option Text
guid_of none = none
guid_of (some e) = e.guid

webusb_request : Option WebUsb → Setup → Option Answer
webusb_request none setup = none
webusb_request (some w) setup =
    if setup.b_request == w.vendor && setup.w_index == 0x02
    then some (packed (webusb_url w.url))
    else none

module _ {W : Type 0} where
  -- _msos2_bytes
  unfoldable pub msos2_bytes : Profile W → Option Bytes
  unfolding single_set msos_sections entry_for_group
  msos2_bytes p = elim p.groups as (λ _. Option Bytes) [
    | [] ↦ single_set none p.msos
    | g ∷ [] ↦ single_set (entry_for_group p.msos (some 0)) p.msos
    | g ∷ h ∷ gs ↦
        if (if length p.msos == 0 then false else true)
        then ms_os2_set_subsets (map subset_entry (msos_sections p))
        else single_set (entry_for_group p.msos (some 0)) p.msos
  ]

  abbrev pub has_msos : Profile W → Bool
  has_msos p = if length p.msos == 0 then false else true

  msos_caps : Profile W → Option (List Bytes)
  unfolding msos2_bytes
  msos_caps p =
      if has_msos p
      then (do set ← msos2_bytes p; c ← msos2_platform_cap p.msos_v2 (length set); some (c ∷ []))
      else some []

  -- bos_bytes
  unfoldable pub bos_bytes : Profile W → Option Bytes
  unfolding webusb_caps msos_caps
  bos_bytes p = do web ← webusb_caps p.webusb; ms ← msos_caps p; bos (web ++ ms)

  -- _string_bytes
  unfoldable pub string_bytes : Profile W → ℕ → Answer
  string_bytes p index =
      if index == 0
      then packed (langid_descriptor 0x0409)
      else if index == 0xEE && has_msos p
      then packed (ms_os1_string p.msos_v1)
      else string_at (get_elem? p.strings index)

  -- _winusb_vendor: `none` when the request is not one of ours.
  unfoldable pub winusb_vendor : Profile W → Setup → Option Answer
  unfolding msos_sections entry_for_interface msos2_bytes
  winusb_vendor p setup =
      if setup.b_request == p.msos_v1 && setup.w_index == 0x0004
      then some (packed (ms_os1_compatid (map compatid_entry (msos_sections p))))
      else if setup.b_request == p.msos_v1 && setup.w_index == 0x0005
      then some (
          packed (
            ms_os1_extprops
              (guid_of (entry_for_interface p (bit_and (setup.w_value / 2 ^ 8) 0xFF)))))
      else if setup.b_request == p.msos_v2 && setup.w_index == 0x0007
      then some (packed (msos2_bytes p))
      else none

  -- vendor_descriptor
  unfoldable pub vendor_descriptor : Profile W → Setup → Option Answer
  unfolding winusb_vendor webusb_request
  vendor_descriptor p setup =
      elim (if has_msos p then winusb_vendor p setup else none) as (λ _. Option Answer) [
        | some r ↦ some r
        | none ↦ webusb_request p.webusb setup
      ]
