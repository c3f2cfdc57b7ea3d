-- ===== src/Function/Routes.antt =====
-- The keys of endpoints that are routed one after another.
use mathlib.Core.Path.{subst}
use usbip_python.Base.{
  ℕ, ◌≡◌, ◌≢◌, inl, inr, refl, sym, ap, ◌∙◌, arith, Bool, true, false, List, [], ◌∷◌, ◌++◌, Option,
  none, some, if◌then◌else◌, All,
}
use usbip_python.Endpoint.{Endpoint}
use usbip_python.Device.EpMap.{Key, EpMap, same, lookup}
use usbip_python.Device.Routing.{taken, is_some}
use usbip_python.Device.Routing.Laws.{Routed}

-- The endpoints of a device stay.
abbrev pub Extends : EpMap → EpMap → Type 0
Extends m m' = (j : Key) (e : Endpoint) → lookup j m ≡ some e → lookup j m' ≡ some e

-- Keys that are free when their turn comes.
pub data Routes : EpMap → List Key → EpMap → Type 0 where
  nothing : (m : EpMap) → Routes m [] m
  next :
      (m m1 m2 : EpMap) (k : Key) (ks : List Key) (r : Endpoint)
      → lookup k m ≡ none
      → Extends m m1
      → lookup k m1 ≡ some r
      → Routes m1 ks m2
      → Routes m (k ∷ ks) m2

pub Routes-Extends : {m m' : EpMap} {ks : List Key} → Routes m ks m' → Extends m m'
Routes-Extends (nothing m) j e h = h
Routes-Extends (next m m1 m2 k ks r free x here rest) j e h = Routes-Extends rest j e (x j e h)

pub Routes-append :
    {m m1 m2 : EpMap} {ks js : List Key} → Routes m ks m1 → Routes m1 js m2 → Routes m (ks ++ js) m2
Routes-append (nothing m) q = q
Routes-append (next m m1 m2 k ks r free x here rest) q =
    next m m1 _ k _ r free x here (Routes-append rest q)

pub same_maps :
    {m m' n n' : EpMap} {ks : List Key} → m ≡ m' → n ≡ n' → Routes m ks n → Routes m' ks n'
same_maps {m} {m'} {n} {n'} {ks} p q r =
    subst (λ (x : EpMap). Routes m' ks x) q (subst (λ (x : EpMap). Routes x ks n) p r)

abbrev pub IsFree : EpMap → Key → Type 0
IsFree m k = lookup k m ≡ none

-- What is free later was free before.
IsFree-Extends :
    (m m' : EpMap) (ks : List Key) → Extends m m' → All (IsFree m') ks → All (IsFree m) ks
IsFree-Extends m m' [] x f = tt
IsFree-Extends m m' (k ∷ ks) x (f, fs) = (go (lookup k m) refl, IsFree-Extends m m' ks x fs)
  where
    go : (o : Option Endpoint) → lookup k m ≡ o → lookup k m ≡ none
    go none e = e
    go (some r) e = absurd (clash (x k r e))
      where
        clash : lookup k m' ≡ some r → ⊥
        clash h = cc

pub Routes-IsFree : {m m' : EpMap} {ks : List Key} → Routes m ks m' → All (IsFree m) ks
Routes-IsFree (nothing m) = tt
Routes-IsFree (next m m1 m2 k ks r free x here rest) =
    (free, IsFree-Extends m m1 ks x (Routes-IsFree rest))

abbrev pub Distinct : List Key → Type 0
Distinct [] = Unit {0}
Distinct (k ∷ ks) = All (λ j. k ≢ j) ks × Distinct ks

apart :
    (m : EpMap) (k : Key) (r : Endpoint) (ks : List Key)
    → lookup k m ≡ some r
    → All (IsFree m) ks
    → All (λ j. k ≢ j) ks
apart m k r [] h f = tt
apart m k r (j ∷ ks) h (f, fs) = (differ, apart m k r ks h fs)
  where
    differ : k ≢ j
    differ e = cc

pub Routes-Distinct : {m m' : EpMap} {ks : List Key} → Routes m ks m' → Distinct ks
Routes-Distinct (nothing m) = tt
Routes-Distinct (next m m1 m2 k ks r free x here rest) =
    (apart m1 k r ks here (Routes-IsFree rest), Routes-Distinct rest)

not_taken : (m : EpMap) (n d : ℕ) → taken m n d ≡ false → lookup (n, d) m ≡ none
unfolding taken
not_taken m n d h = go (lookup (n, d) m) h
  where
    go : (o : Option Endpoint) → is_some o ≡ false → o ≡ none
    go none h = refl
    go (some r) h = absurd (cc)

same_dir : (m : EpMap) (e r : Endpoint) (m1 : EpMap) → Routed m e (some (r, m1)) → e.dir ≡ r.dir
same_dir m e r m1 (free, all, inl (t, q)) = sym (ap (λ (x : Endpoint). x.dir) q)
same_dir m e r m1 (free, all, inr (t, q, lo, hi, below)) = sym (ap (λ (x : Endpoint). x.dir) q)

if-none :
    (c : Bool) (r e : Endpoint) (o o1 : Option Endpoint)
    → o1 ≡ (if c then some r else o)
    → (c ≡ true → o ≡ none)
    → o ≡ some e
    → o1 ≡ some e
if-none true r e o o1 h f g = absurd (clash (f refl))
  where
    clash : o ≡ none → ⊥
    clash q = cc
if-none false r e o o1 h f g = h ∙ g

same-eq : (k j : Key) (m : EpMap) → same k j ≡ true → lookup k m ≡ none → lookup j m ≡ none
same-eq k j m h f = ground arith

same_self : (k : Key) → same k k ≡ true
same_self k = ground arith

pub Routed-Routes :
    (m m1 m2 : EpMap) (e r : Endpoint) (ks : List Key)
    → Routed m e (some (r, m1))
    → Routes m1 ks m2
    → Routes m ((r.number, r.dir) ∷ ks) m2
Routed-Routes m m1 m2 e r ks (free, all, way) rest =
    let dir : e.dir ≡ r.dir = same_dir m e r m1 (free, all, way) in
    let unused : lookup (r.number, r.dir) m ≡ none =
      not_taken m r.number r.dir (ap (λ (d : ℕ). taken m r.number d) (sym dir) ∙ free) in
    let found : (k : Key)
        → lookup k m1 ≡ (if same (r.number, r.dir) k then some r else lookup k m) =
      λ k. all k ∙ ap (λ (d : ℕ). if same (r.number, d) k then some r else lookup k m) dir in
    next m m1 m2 (r.number, r.dir) ks r unused
      (λ j x h.
        if-none (same (r.number, r.dir) j) r x (lookup j m) (lookup j m1) (found j)
          (λ t. same-eq (r.number, r.dir) j m t unused) h)
      (found (r.number, r.dir)
        ∙ ap (λ (c : Bool). if c then some r else lookup (r.number, r.dir) m)
            (same_self (r.number, r.dir)))
      rest
