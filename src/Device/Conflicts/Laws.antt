-- ===== src/Device/Conflicts/Laws.antt =====
-- plug() refuses exactly the configurations in which an endpoint address stands under two interfaces.
use mathlib.Core.Option.{some-injective}
use usbip_python.Base.{
  ℕ, ◌≡◌, ◌≢◌, ◌⊎◌, inl, inr, refl, ap, sym, ◌∙◌, arith, false, List, [], ◌∷◌, Option, none, some,
  ◌==◌, if◌then◌else◌, All, Bool-cases, ==→eq,
}
use usbip_python.Struct.{Bytes}
use usbip_python.Core.Walk.{iter_descriptors}
use usbip_python.Device.State.{State, Profile}
use usbip_python.Device.Config.{config_bytes}
use usbip_python.Device.Conflicts.{
  Verdict, fine, conflict, owner_of, claimed, Kind, interface_desc, endpoint_desc, other_desc,
  kind_of, visit, scan, check_endpoint_conflicts,
}

-- The endpoint descriptors of a walk, each with its address and the interface that it stands under;
-- `none` for a descriptor that ends before what it says.
abbrev pub with_claim : ℕ × ℕ → Option (List (ℕ × ℕ)) → Option (List (ℕ × ℕ))
with_claim c none = none
with_claim c (some cs) = some (c ∷ cs)

abbrev pub claim_of :
    Option Kind → Option ℕ → (Option ℕ → Option (List (ℕ × ℕ))) → Option (List (ℕ × ℕ))
claim_of none ifnum next = none
claim_of (some (interface_desc none)) ifnum next = none
claim_of (some (interface_desc (some n))) ifnum next = next (some n)
claim_of (some (endpoint_desc o)) none next = next none
claim_of (some (endpoint_desc none)) (some i) next = none
claim_of (some (endpoint_desc (some a))) (some i) next = with_claim (a, i) (next (some i))
claim_of (some other_desc) ifnum next = next ifnum

unfoldable pub claims : Option ℕ → List Bytes → Option (List (ℕ × ℕ))
unfolding kind_of
claims ifnum [] = some []
claims ifnum (d ∷ ds) = claim_of (kind_of d) ifnum (λ ifnum'. claims ifnum' ds)

abbrev pub Agree : ℕ × ℕ → ℕ × ℕ → Type 0
Agree (a, i) (b, j) = (a ≢ b) ⊎ (i ≡ j)

-- Every two claims of one address are of one interface.
abbrev pub Consistent : List (ℕ × ℕ) → Type 0
Consistent [] = Unit {0}
Consistent (c ∷ cs) = All (Agree c) cs × Consistent cs

abbrev pub IsIn : ℕ × ℕ → List (ℕ × ℕ) → Type 0
IsIn c [] = ⊥
IsIn c (d ∷ cs) = (c ≡ d) ⊎ IsIn c cs

-- The loop over the claims alone.
run : List (ℕ × ℕ) → List (ℕ × ℕ) → Verdict
run owner [] = fine
run owner ((a, i) ∷ cs) = claimed owner a i (λ owner'. run owner' cs) (owner_of a owner)

-- What the dict says of a claim that passes.
abbrev Fits : List (ℕ × ℕ) → ℕ × ℕ → Type 0
Fits owner (a, i) = (owner_of a owner ≡ none) ⊎ (owner_of a owner ≡ some i)

-- How the loop ends.
abbrev Outcome : List (ℕ × ℕ) → List (ℕ × ℕ) → Verdict → Type 0
Outcome owner cs v =
    ((v ≡ fine) × All (Fits owner) cs × Consistent cs)
    ⊎ ((a : ℕ) × (first : ℕ) × (i : ℕ) × (v ≡ conflict a first i)
        × (first ≢ i)
        × IsIn (a, i) cs
        × (IsIn (a, first) cs ⊎ (owner_of a owner ≡ some first)))

Fits-Agree :
    (owner : List (ℕ × ℕ)) (a i b j : ℕ)
    → owner_of a owner ≡ none
    → Fits ((a, i) ∷ owner) (b, j)
    → Fits owner (b, j) × Agree (a, i) (b, j)
unfolding owner_of
Fits-Agree owner a i b j e f = ground arith

Outcome-cons :
    (owner : List (ℕ × ℕ)) (a i : ℕ) (cs : List (ℕ × ℕ))
    → owner_of a owner ≡ none
    → All (Fits ((a, i) ∷ owner)) cs
    → All (Fits owner) cs × All (Agree (a, i)) cs
Outcome-cons owner a i [] e f = (tt, tt)
Outcome-cons owner a i ((b, j) ∷ cs) e (f, fs) =
    let (g, h) = Fits-Agree owner a i b j e f in
    let (gs, hs) = Outcome-cons owner a i cs e fs in ((g, gs), (h, hs))

same_owner :
    (owner : List (ℕ × ℕ)) (a i : ℕ) (cs : List (ℕ × ℕ))
    → owner_of a owner ≡ some i
    → All (Fits owner) cs
    → All (Agree (a, i)) cs
same_owner owner a i [] e f = tt
same_owner owner a i ((b, j) ∷ cs) e (f, fs) = (agree f, same_owner owner a i cs e fs)
  where
    agree : Fits owner (b, j) → Agree (a, i) (b, j)
    agree f = ground arith

met : {a b i j : ℕ} → a ≡ b → i ≡ j → ◌≡◌ {A = ℕ × ℕ} (b, j) (a, i)
met p q = cc

fresh :
    (owner cs : List (ℕ × ℕ)) (a i : ℕ) (v : Verdict)
    → owner_of a owner ≡ none
    → Outcome ((a, i) ∷ owner) cs v
    → Outcome owner ((a, i) ∷ cs) v
unfolding owner_of
fresh owner cs a i v e (inl (r, f, c)) =
    let (g, h) = Outcome-cons owner a i cs e f in inl (r, (inl e, g), (h, c))
fresh owner cs a i v e (inr (b, first, j, r, ne, m, inl k)) =
    inr (b, first, j, r, ne, inr m, inl (inr k))
fresh owner cs a i v e (inr (b, first, j, r, ne, m, inr k)) = elim (Bool-cases (a == b)) [
  | inl t ↦
      inr
        (b, first, j, r, ne, inr m, inl (inl (met (==→eq a b t) (some-injective _ _ (rw t at k)))))
  | inr f ↦ inr (b, first, j, r, ne, inr m, inr (rw f at k))
]

again :
    (owner cs : List (ℕ × ℕ)) (a i : ℕ) (v : Verdict)
    → owner_of a owner ≡ some i
    → Outcome owner cs v
    → Outcome owner ((a, i) ∷ cs) v
again owner cs a i v e (inl (r, f, c)) = inl (r, (inr e, f), (same_owner owner a i cs e f, c))
again owner cs a i v e (inr (b, first, j, r, ne, m, inl k)) =
    inr (b, first, j, r, ne, inr m, inl (inr k))
again owner cs a i v e (inr (b, first, j, r, ne, m, inr k)) = inr (b, first, j, r, ne, inr m, inr k)

==-false : {a b : ℕ} → (a == b) ≡ false → a ≢ b
==-false f = ground arith

claimed-Outcome :
    (owner cs : List (ℕ × ℕ)) (a i : ℕ) (o : Option ℕ)
    → owner_of a owner ≡ o
    → ((owner' : List (ℕ × ℕ)) → Outcome owner' cs (run owner' cs))
    → Outcome owner ((a, i) ∷ cs) (claimed owner a i (λ owner'. run owner' cs) o)
claimed-Outcome owner cs a i none e h = fresh owner cs a i _ e (h ((a, i) ∷ owner))
claimed-Outcome owner cs a i (some first) e h = elim (Bool-cases (first == i)) [
  | inl t ↦ rw t (again owner cs a i _ (e ∙ ap some (==→eq first i t)) (h owner))
  | inr f ↦ rw f (inr (a, first, i, refl, ==-false f, inl refl, inr e))
]

run-Outcome : (owner cs : List (ℕ × ℕ)) → Outcome owner cs (run owner cs)
unfolding run
run-Outcome owner [] = inl (refl, tt, tt)
run-Outcome owner ((a, i) ∷ cs) =
    claimed-Outcome owner cs a i (owner_of a owner) refl (λ owner'. run-Outcome owner' cs)

with_claim-some :
    (c : ℕ × ℕ) (o : Option (List (ℕ × ℕ))) (cs : List (ℕ × ℕ))
    → with_claim c o ≡ some cs
    → (rest : List (ℕ × ℕ)) × (o ≡ some rest) × (cs ≡ c ∷ rest)
with_claim-some c none cs e = absurd (cc)
with_claim-some c (some rest) cs e = (rest, refl, sym (some-injective _ _ e))

claimed-same :
    (owner : List (ℕ × ℕ)) (a i : ℕ) (f g : List (ℕ × ℕ) → Verdict) (o : Option ℕ)
    → ((owner' : List (ℕ × ℕ)) → f owner' ≡ g owner')
    → claimed owner a i f o ≡ claimed owner a i g o
claimed-same owner a i f g none h = h ((a, i) ∷ owner)
claimed-same owner a i f g (some first) h =
    ap (λ (v : Verdict). if first == i then v else conflict a first i) (h owner)

-- The walk and its claims.
visit-run :
    (o : Option Kind) (owner : List (ℕ × ℕ)) (ifnum : Option ℕ) (ds : List Bytes)
    (cs : List (ℕ × ℕ))
    → ((owner' : List (ℕ × ℕ)) (ifnum' : Option ℕ) (cs' : List (ℕ × ℕ))
        → claims ifnum' ds ≡ some cs'
        → scan owner' ifnum' ds ≡ run owner' cs')
    → claim_of o ifnum (λ ifnum'. claims ifnum' ds) ≡ some cs
    → visit o owner ifnum (λ owner' ifnum'. scan owner' ifnum' ds) ≡ run owner cs
unfolding run
visit-run none owner ifnum ds cs h e = cc
visit-run (some (interface_desc none)) owner ifnum ds cs h e = cc
visit-run (some (interface_desc (some n))) owner ifnum ds cs h e = h owner (some n) cs e
visit-run (some (endpoint_desc o)) owner none ds cs h e = h owner none cs e
visit-run (some (endpoint_desc none)) owner (some i) ds cs h e = cc
visit-run (some (endpoint_desc (some a))) owner (some i) ds cs h e =
    let (rest, more, all) = with_claim-some (a, i) (claims (some i) ds) cs e in
    rw all (claimed-same owner a i _ _ (owner_of a owner) (λ owner'. h owner' (some i) rest more))
visit-run (some other_desc) owner ifnum ds cs h e = h owner ifnum cs e

scan-run :
    (owner : List (ℕ × ℕ)) (ifnum : Option ℕ) (ds : List Bytes) (cs : List (ℕ × ℕ))
    → claims ifnum ds ≡ some cs
    → scan owner ifnum ds ≡ run owner cs
unfolding claims scan run
scan-run owner ifnum [] cs e = rw (← some-injective _ _ e) refl
scan-run owner ifnum (d ∷ ds) cs e =
    visit-run (kind_of d) owner ifnum ds cs (λ owner' ifnum' cs'. scan-run owner' ifnum' ds cs') e

-- For a configuration whose interface and endpoint descriptors are long enough to have the claims
-- `cs`: the check passes and every two claims of one address are of one interface, or it reports
-- an address with two different interfaces that claim it.
pub check_endpoint_conflicts_lem :
    {W : Type 0} (p : Profile W) (s : State W) (blob : Bytes) (cs : List (ℕ × ℕ))
    → config_bytes p s ≡ some blob
    → claims none (iter_descriptors blob 9) ≡ some cs
    → ((check_endpoint_conflicts p s ≡ fine) × Consistent cs)
      ⊎ ((a : ℕ) × (first : ℕ) × (i : ℕ) × (check_endpoint_conflicts p s ≡ conflict a first i)
          × (first ≢ i)
          × IsIn (a, first) cs
          × IsIn (a, i) cs)
unfolding check_endpoint_conflicts
check_endpoint_conflicts_lem p s blob cs e c =
    rw (e, scan-run [] none (iter_descriptors blob 9) cs c) (ended (run-Outcome [] cs))
  where
    ended :
        Outcome [] cs (run [] cs)
        → ((run [] cs ≡ fine) × Consistent cs)
          ⊎ ((a : ℕ) × (first : ℕ) × (i : ℕ) × (run [] cs ≡ conflict a first i)
              × (first ≢ i)
              × IsIn (a, first) cs
              × IsIn (a, i) cs)
    ended (inl (r, f, k)) = inl (r, k)
    ended (inr (a, first, i, r, ne, m, inl k)) = inr (a, first, i, r, ne, k, m)
    ended (inr (a, first, i, r, ne, m, inr k)) = absurd (cc)
