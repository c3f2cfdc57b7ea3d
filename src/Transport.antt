-- ===== src/Transport.antt =====
-- usbip/transport.py, class _Listener: the devices that one listener exports.
-- A device is an object: `ident` tells objects apart, and registering writes to the object, so
-- every entry of the list that is the same object shows it. The lock makes each method one step.
pub mod Laws
use usbip_python.Base.{
  ℕ, zero, suc, ◌+◌, ◌/◌, ◌%◌, Bool, true, false, List, [], ◌∷◌, ◌++◌, map, Option, none, some,
  length, ltb, leb, ◌==◌, if◌then◌else◌,
}
use usbip_python.Core.Text.{Text}

pub record Plugged : Type 0 where
  pub ident : ℕ
  pub busid : Option Text
  pub busnum : ℕ
  pub devnum : ℕ

pub record Listener : Type 0 where
  pub devices : List Plugged
  pub next_devnum : ℕ

abbrev pub max_devices : ℕ
max_devices = 16

-- _Listener(key)
abbrev pub new : Listener
new = record { devices = []; next_devnum = 2 }

-- f"1-{n}" for n below 100.
abbrev pub numbered : ℕ → Text
numbered n =
    0x31 ∷ 0x2D ∷ (if ltb n 10 then (0x30 + n) ∷ [] else (0x30 + n / 10) ∷ (0x30 + n % 10) ∷ [])

-- The busid that is set and not empty, else the next one.
abbrev pub named : ℕ → Option Text → Option Text
named n (some (c ∷ cs)) = some (c ∷ cs)
named n _ = some (numbered n)

-- The object with the identity is now `d`.
unfoldable pub written : Plugged → List Plugged → List Plugged
written d [] = []
written d (e ∷ es) = (if e.ident == d.ident then d else e) ∷ written d es

-- register(dev): `none` is the ValueError; else whether it is the first, and the listener.
unfoldable pub register : Plugged → Listener → Option (Bool × Listener)
unfolding written
register d l =
    let d' = record d {
      busid = named (length l.devices + 1) d.busid;
      busnum = 1;
      devnum = l.next_devnum;
    } in
    let devices = written d' l.devices ++ (d' ∷ []) in
    if leb max_devices (length l.devices)
    then none
    else some (length devices == 1, record { devices = devices; next_devnum = l.next_devnum + 1 })

-- list.remove: the first entry that is the device.
unfoldable pub removed : ℕ → List Plugged → List Plugged
removed ident [] = []
removed ident (e ∷ es) = let rest = e ∷ removed ident es in if e.ident == ident then es else rest

-- unregister(dev): whether none is left, and the listener.
unfoldable pub unregister : ℕ → Listener → Bool × Listener
unfolding removed
unregister ident l =
    let devices = removed ident l.devices in (length devices == 0, record l { devices = devices })

-- What the program does with a listener.
pub data Op : Type 0 where
  plugs : Plugged → Op
  unplugs : ℕ → Op

abbrev pub or_same : Listener → Option (Bool × Listener) → Listener
or_same l none = l
or_same l (some (_, l')) = l'

unfoldable pub step : Listener → Op → Listener
unfolding register unregister
step l (plugs d) = or_same l (register d l)
step l (unplugs ident) = (unregister ident l).1

unfoldable pub run : Listener → List Op → Listener
unfolding step
run l [] = l
run l (o ∷ ops) = run (step l o) ops
