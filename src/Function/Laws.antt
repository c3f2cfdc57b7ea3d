-- ===== src/Function/Laws.antt =====
-- What an attached function has, and what it leaves of the functions before it.
use usbip_python.Base.{ℕ, zero, suc, ◌+◌, ◌≡◌, List, [], ◌∷◌, length, map, join, All}
use usbip_python.Endpoint.{Endpoint}
use usbip_python.Device.EpMap.{Key, EpMap}
use usbip_python.Device.State.{State}
use usbip_python.Device.Build.{Build}
use usbip_python.Function.Routes.{Routes, IsFree, Distinct}
use usbip_python.Function.{Interface, Function, Added}

-- n, n + 1, ... as many as are asked for.
abbrev pub count_from : ℕ → ℕ → List ℕ
count_from n zero = []
count_from n (suc k) = n ∷ count_from (n + 1) k

module _ {W : Type 0} where
  -- An endpoint is routed, and nothing else changes.
  abbrev Step : Build W → Endpoint × Build W → Type 0
  Step b (r, b1) =
      ((ks : List Key) (m : EpMap)
        → Routes b1.state.ep_map ks m
        → Routes b.state.ep_map ((r.number, r.dir) ∷ ks) m)
      × (b1.profile.num_interfaces ≡ b.profile.num_interfaces)

  -- What adding some endpoints comes to.
  abbrev Grown : Build W → List Key → Build W → Type 0
  Grown b ks b' =
      Routes b.state.ep_map ks b'.state.ep_map
      × (b'.profile.num_interfaces ≡ b.profile.num_interfaces)

  -- One interface: its number is the next one, and its keys were free.
  abbrev Placed : Build W → Added W × Build W → Type 0
  Placed b (a, b') =
      Routes b.state.ep_map a.keys b'.state.ep_map
      × (a.number ≡ b.profile.num_interfaces)
      × (b'.profile.num_interfaces ≡ b.profile.num_interfaces + 1)

  abbrev pub numbers : List (Added W) → List ℕ
  numbers added = map (λ a. a.number) added

  abbrev pub keys_of : List (Added W) → List Key
  keys_of added = join (map (λ a. a.keys) added)

  abbrev PlacedAll : List (Interface W) → Build W → List (Added W) × Build W → Type 0
  PlacedAll is b (added, b') =
      Routes b.state.ep_map (keys_of added) b'.state.ep_map
      × (numbers added ≡ count_from b.profile.num_interfaces (length is))
      × (b'.profile.num_interfaces ≡ b.profile.num_interfaces + length is)

  -- What `_attach` has made of the device, before the class's own `_on_added`.
  abbrev pub Attached : Function W → Build W → List (Added W) → Build W → Type 0
  Attached f b added b' =
      (numbers added ≡ count_from b.profile.num_interfaces (length f.interfaces))
      × (b'.profile.num_interfaces ≡ b.profile.num_interfaces + length f.interfaces)
      × Distinct (keys_of added)
      × All (IsFree b.state.ep_map) (keys_of added)
