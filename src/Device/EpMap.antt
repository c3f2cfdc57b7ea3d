-- ===== src/Device/EpMap.antt =====
-- usbip/device.py, `USBDevice._ep_map`: the dict from (number, direction) to the endpoint.
use usbip_python.Base.{
  ℕ, ◌≡◌, refl, arith, Bool, ◌&&◌, List, [], ◌∷◌, Option, none, some, ◌==◌, if◌then◌else◌,
}
use usbip_python.Endpoint.{Endpoint}

abbrev pub Key : Type 0
Key = ℕ × ℕ

abbrev pub same : Key → Key → Bool
same a b = a.0 == b.0 && a.1 == b.1

abbrev pub EpMap : Type 0
EpMap = List (Key × Endpoint)

-- d.get(k)
unfoldable pub lookup : Key → EpMap → Option Endpoint
lookup k [] = none
lookup k ((j, e) ∷ m) = if same j k then some e else lookup k m

-- d[k] = e: in place, or at the end.
unfoldable pub insert : Key → Endpoint → EpMap → EpMap
insert k e [] = (k, e) ∷ []
insert k e ((j, f) ∷ m) = if same j k then (j, e) ∷ m else (j, f) ∷ insert k e m

-- An update of every endpoint, in the order of the dict.
unfoldable pub each : (Endpoint → Endpoint) → EpMap → EpMap
each f [] = []
each f ((k, e) ∷ m) = (k, f e) ∷ each f m

pub lookup-insert :
    (k j : Key) (e : Endpoint) (m : EpMap)
    → lookup j (insert k e m) ≡ (if same k j then some e else lookup j m)
unfolding lookup insert
lookup-insert k j e [] = refl
lookup-insert k j e ((i, f) ∷ m) = ground (arith, lookup-insert k j e m)

abbrev map_some : (Endpoint → Endpoint) → Option Endpoint → Option Endpoint
map_some f none = none
map_some f (some e) = some (f e)

pub lookup-each :
    (f : Endpoint → Endpoint) (k : Key) (m : EpMap) → lookup k (each f m) ≡ map_some f (lookup k m)
unfolding lookup each
lookup-each f k [] = refl
lookup-each f k ((j, e) ∷ m) = ground (arith, lookup-each f k m)
