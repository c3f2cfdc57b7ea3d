-- ===== src/Device/Routing.antt =====
-- usbip/device.py, `USBDevice.route_endpoint`: an endpoint keeps its declared address if that is
-- free, and otherwise moves to the lowest free number of its direction.
pub mod Laws
use Prim.Native.Nat.{bit_or}
use usbip_python.Base.{
  ℕ, zero, suc, ◌+◌, Bool, true, false, Option, none, some, ◌==◌, if◌then◌else◌,
}
use usbip_python.Core.{dir_in}
use usbip_python.Endpoint.{Endpoint}
use usbip_python.Device.EpMap.{Key, EpMap, lookup, insert}

abbrev pub is_some : Option Endpoint → Bool
is_some none = false
is_some (some e) = true

-- `key in self._ep_map`
unfoldable pub taken : EpMap → ℕ → ℕ → Bool
taken m n d = is_some (lookup (n, d) m)

-- for number in range(n, n + rounds): the first number that is free.
unfoldable pub first_free : ℕ → ℕ → EpMap → ℕ → Option ℕ
unfolding taken
first_free zero n m d = none
first_free (suc rounds) n m d =
    let more = first_free rounds (n + 1) m d in if taken m n d then more else some n

-- ep.number and ep.addr, moved.
abbrev pub moved : Endpoint → ℕ → Endpoint
moved e n = record e { number = n; addr = bit_or n (if e.dir == dir_in then 0x80 else 0x00) }

-- Where the endpoint goes: `none` is the RuntimeError that no number is free.
unfoldable pub placed : EpMap → Endpoint → Option Endpoint
unfolding first_free
placed m e =
    if taken m e.number e.dir
    then elim (first_free 15 1 m e.dir) [ none ↦ none | some n ↦ some (moved e n) ]
    else some e

-- route_endpoint(ep): the routed endpoint and the dict.
unfoldable pub route_endpoint : EpMap → Endpoint → Option (Endpoint × EpMap)
unfolding placed
route_endpoint m e = elim (placed m e) [
  | none ↦ none
  | some r ↦ some (r, insert (r.number, r.dir) r m)
]
