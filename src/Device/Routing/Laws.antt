-- ===== src/Device/Routing/Laws.antt =====
-- Routing never gives one address to two endpoints.
use usbip_python.Base.{
  ℕ, zero, suc, ◌+◌, ◌≤◌, ◌<◌, ◌≡◌, ◌⊎◌, inl, inr, refl, ap, ◌∙◌, arith, true, false, Option, none,
  some, if◌then◌else◌, Bool-cases,
}
use usbip_python.Endpoint.{Endpoint}
use usbip_python.Device.EpMap.{Key, EpMap, same, lookup, insert, lookup-insert}
use usbip_python.Device.Routing.{taken, first_free, moved, placed, route_endpoint}

-- `first_free` finds the lowest free number of the range, or every number of it is taken.
abbrev Searched : ℕ → ℕ → EpMap → ℕ → Option ℕ → Type 0
Searched rounds n m d none = (k : ℕ) → n ≤ k → k < n + rounds → taken m k d ≡ true
Searched rounds n m d (some r) =
    (taken m r d ≡ false)
    × (n ≤ r)
    × (r < n + rounds)
    × ((k : ℕ) → n ≤ k → k < r → taken m k d ≡ true)

at_or_above : (n k : ℕ) → n ≤ k → (k ≡ n) ⊎ (n + 1 ≤ k)
at_or_above n k h = ground arith

search_on :
    (rounds n : ℕ) (m : EpMap) (d : ℕ) (o : Option ℕ)
    → taken m n d ≡ true
    → Searched rounds (n + 1) m d o
    → Searched (suc rounds) n m d o
search_on rounds n m d none t s =
    λ k lo hi. elim (at_or_above n k lo) [ inl e ↦ rw e t | inr up ↦ s k up (omega arith) ]
search_on rounds n m d (some r) t (free, lo, hi, below) = (
  free,
  omega arith,
  omega arith,
  λ k klo khi. elim (at_or_above n k klo) [ inl e ↦ rw e t | inr up ↦ below k up khi ],
)

first_free-Searched :
    (rounds n : ℕ) (m : EpMap) (d : ℕ) → Searched rounds n m d (first_free rounds n m d)
unfolding first_free
first_free-Searched zero n m d = λ k lo hi. absurd (omega arith)
first_free-Searched (suc rounds) n m d = elim (Bool-cases (taken m n d)) [
  | inl t ↦ rw t (
      search_on rounds n m d (first_free rounds (n + 1) m d) t
        (first_free-Searched rounds (n + 1) m d))
  | inr f ↦ rw f (f, omega arith, omega arith, λ k lo hi. absurd (omega arith))
]

-- What routing an endpoint comes to.
abbrev pub Routed : EpMap → Endpoint → Option (Endpoint × EpMap) → Type 0
Routed m e none =
    (taken m e.number e.dir ≡ true) × ((k : ℕ) → 1 ≤ k → k < 16 → taken m k e.dir ≡ true)
Routed m e (some (r, m')) =
    (taken m r.number e.dir ≡ false)
    × ((k : Key) → lookup k m' ≡ (if same (r.number, e.dir) k then some r else lookup k m))
    × (((taken m e.number e.dir ≡ false) × (r ≡ e))
        ⊎ ((taken m e.number e.dir ≡ true)
            × (r ≡ moved e r.number)
            × (1 ≤ r.number)
            × (r.number < 16)
            × ((k : ℕ) → 1 ≤ k → k < r.number → taken m k e.dir ≡ true)))

-- Where the endpoint goes.
abbrev Placed : EpMap → Endpoint → Option Endpoint → Type 0
Placed m e none =
    (taken m e.number e.dir ≡ true) × ((k : ℕ) → 1 ≤ k → k < 16 → taken m k e.dir ≡ true)
Placed m e (some r) =
    (taken m r.number e.dir ≡ false)
    × (r.dir ≡ e.dir)
    × (((taken m e.number e.dir ≡ false) × (r ≡ e))
        ⊎ ((taken m e.number e.dir ≡ true)
            × (r ≡ moved e r.number)
            × (1 ≤ r.number)
            × (r.number < 16)
            × ((k : ℕ) → 1 ≤ k → k < r.number → taken m k e.dir ≡ true)))

relocated :
    (m : EpMap) (e : Endpoint) (o : Option ℕ)
    → taken m e.number e.dir ≡ true
    → Searched 15 1 m e.dir o
    → Placed m e (elim o as (λ _. Option Endpoint) [ none ↦ none | some n ↦ some (moved e n) ])
relocated m e none t s = (t, λ k lo hi. s k lo (omega arith))
relocated m e (some n) t (free, lo, hi, below) = (free, refl, inr (t, refl, lo, omega arith, below))

placed-Placed : (m : EpMap) (e : Endpoint) → Placed m e (placed m e)
unfolding placed
placed-Placed m e = elim (Bool-cases (taken m e.number e.dir)) [
  | inl t ↦ rw t (relocated m e (first_free 15 1 m e.dir) t (first_free-Searched 15 1 m e.dir))
  | inr f ↦ rw f (f, refl, inl (f, refl))
]

entered :
    (m : EpMap) (e : Endpoint) (o : Option Endpoint)
    → Placed m e o
    → Routed m e (elim o as (λ _. Option (Endpoint × EpMap)) [
      | none ↦ none
      | some r ↦ some (r, insert (r.number, r.dir) r m)
    ])
entered m e none p = p
entered m e (some r) (free, dir, way) = (
  free,
  λ k.
      lookup-insert (r.number, r.dir) k r m
      ∙ ap (λ (d : ℕ). if same (r.number, d) k then some r else lookup k m) dir,
  way,
)

-- Routing fails exactly when the declared number and 1 to 15 are taken in the endpoint's direction.
-- Otherwise the endpoint gets a number that was free; it keeps its declared address if that was
-- free, and else moves to the lowest free number, with the address of that number and direction;
-- the dict has it there, and every other endpoint stays.
pub route_endpoint-Routed : (m : EpMap) (e : Endpoint) → Routed m e (route_endpoint m e)
unfolding route_endpoint
route_endpoint-Routed m e = entered m e (placed m e) (placed-Placed m e)
