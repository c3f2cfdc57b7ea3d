-- ===== src/Device/Build/Laws.antt =====
-- What the entries of Microsoft OS descriptors are after enable_msos, and the speed of a device.
use usbip_python.Base.{
  ℕ, ◌≡◌, refl, sym, ◌∙◌, arith, Bool, true, false, List, [], ◌∷◌, Option, none, some,
  if◌then◌else◌, Bool-cases, inl, inr,
}
use usbip_python.Struct.{Bytes}
use usbip_python.Core.Text.{Text}
use usbip_python.Device.State.{MsosEntry}
use usbip_python.Device.Vendor.{names_group, or_else, find_group, entry_for_group}
use usbip_python.Device.Build.{Build, put_entry, enable_msos}

same_group : (g : Option ℕ) → names_group g g ≡ true
same_group none = refl
same_group (some i) = ground arith

names_group_trans : (a b c : Option ℕ) → names_group a b ≡ true → names_group a c ≡ names_group b c
names_group_trans none none c h = refl
names_group_trans none (some j) c h = cc
names_group_trans (some i) none c h = cc
names_group_trans (some i) (some j) none h = refl
names_group_trans (some i) (some j) (some k) h = ground arith

names_group_sym : (a b : Option ℕ) → names_group a b ≡ names_group b a
names_group_sym none none = refl
names_group_sym none (some j) = refl
names_group_sym (some i) none = refl
names_group_sym (some i) (some j) = ground arith

if_twice :
    {A : Type 0} (b : Bool) (x y z : A)
    → (if b then x else z) ≡ (if b then x else if b then y else z)
if_twice true x y z = refl
if_twice false x y z = refl

if_swap :
    {A : Type 0} (p q : Bool) (x y z : A)
    → (p ≡ true → q ≡ false)
    → (if p then x else if q then y else z) ≡ (if q then y else if p then x else z)
if_swap true q x y z h = rw (h refl) refl
if_swap false q x y z h = refl

-- The entry that find_group has after put_entry.
find_group-put_entry :
    (g : Option ℕ) (new : MsosEntry) (es : List MsosEntry)
    → find_group g (put_entry new es)
      ≡ (if names_group new.group g then some new else find_group g es)
unfolding find_group put_entry
find_group-put_entry g new [] = refl
find_group-put_entry g new (e ∷ es) = elim (Bool-cases (names_group e.group new.group)) [
  | inl t ↦
      rw (t, names_group_trans e.group new.group g t)
        (if_twice (names_group new.group g) (some new) (some e) (find_group g es))
  | inr f ↦
      rw (f, find_group-put_entry g new es)
        (if_swap (names_group e.group g) (names_group new.group g) (some e) (some new)
          (find_group g es)
          (λ t. names_group_sym new.group g ∙ (sym (names_group_trans e.group g new.group t) ∙ f)))
]

or_else-if :
    (x : MsosEntry) (y o : Option MsosEntry) (c : Bool)
    → or_else (if c then some x else y) o ≡ (if c then some x else or_else y o)
or_else-if x y o true = refl
or_else-if x y o false = refl

-- After enable_msos for a scope (a group, or the whole device): the scope has the new entry; another
-- group has the entry of its own that it had, and else that of the whole device, which is the new
-- one if the scope is the whole device, and the old one if not.
pub entry_for_group-enable_msos :
    {W : Type 0} (b : Build W) (compatible : Bytes) (guid : Option Text) (scope g : Option ℕ)
    → entry_for_group (enable_msos b compatible guid scope).profile.msos g ≡ (
        if names_group scope g
        then some (record { group = scope; compatible = compatible; guid = guid })
        else or_else (find_group g b.profile.msos) (
            if names_group scope none
            then some (record { group = scope; compatible = compatible; guid = guid })
            else find_group none b.profile.msos))
unfolding entry_for_group enable_msos
entry_for_group-enable_msos b compatible guid scope g =
    let new : MsosEntry = record { group = scope; compatible = compatible; guid = guid } in
    rw (find_group-put_entry g new b.profile.msos, find_group-put_entry none new b.profile.msos)
      (or_else-if _ _ _ (names_group scope g))
