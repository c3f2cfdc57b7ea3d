-- ===== src/Mtp/Storage/Walk.antt =====
-- What a walk of the stores keeps of the handles, and what it says of the objects.
use mathlib.Core.Path.{subst}
use usbip_python.Base.{
  ℕ, zero, suc, ◌≤◌, ◌≡◌, ◌⊎◌, inl, inr, refl, sym, ap, ◌∙◌, arith, Bool, true, Bool-cases, List,
  [], ◌∷◌, ◌++◌, Option, none, some, OnReturn, bind-OnReturn, if-OnReturn, OnReturn-some, or_right,
  ◌==◌, ==→eq, All,
}
use usbip_python.Core.Text.{Text}
use usbip_python.Mtp.{Backend}
use usbip_python.Mtp.Storage.{
  Entry, Objects, Place, Handles, Scan, same_place, handle_at, is_among, put_object, new_handle,
  handle_for, entry_at, add_entry, enter, visit, walk, walk_all,
}
use usbip_python.Mtp.Names.{child_path, sorted_names}
use usbip_python.Mtp.Storage.Handles.{
  Numbered, Numbered-append, handle_at-append, handle_at-append_new, handle_at-append_cases,
  same_place_refl,
}

abbrev pub place_of : Entry → Place
place_of e = (e.si, e.path)

-- An object carries its handle, which is that of its place; the place is alive.
abbrev pub Placed : Handles → List Place → ℕ × Entry → Type 0
Placed m alive (h, e) =
    (e.handle ≡ h) × ((handle_at (place_of e) m ≡ some h) × (is_among (place_of e) alive ≡ true))

-- The handles of `m` are those of `m'`.
abbrev pub Older : Handles → Handles → Type 0
Older m m' = (k : Place) (g : ℕ) → handle_at k m ≡ some g → handle_at k m' ≡ some g

-- A handle of `m'` is one of `m`, or is not below `n`.
abbrev pub Newer : Handles → ℕ → Handles → Type 0
Newer m n m' = (k : Place) (g : ℕ) → handle_at k m' ≡ some g → (handle_at k m ≡ some g) ⊎ (n ≤ g)

abbrev pub Good : Handles → ℕ → Scan → Type 0
Good m n sc =
    Numbered sc.next sc.handle_of
    × (((n ≤ sc.next) × (Older m sc.handle_of × Newer m n sc.handle_of))
        × All (Placed sc.handle_of sc.alive) sc.objects)

Placed-append :
    (m : Handles) (alive : List Place) (k : Place) (n : ℕ) (os : Objects)
    → All (Placed m alive) os
    → All (Placed (m ++ ((k, n) ∷ [])) alive) os
Placed-append m alive k n [] a = tt
Placed-append m alive k n ((h, e) ∷ os) ((x, (y, z)), a) =
    ((x, (handle_at-append (place_of e) k n h m y, z)), Placed-append m alive k n os a)

Placed-alive :
    (m : Handles) (alive : List Place) (k : Place) (os : Objects)
    → All (Placed m alive) os
    → All (Placed m (k ∷ alive)) os
unfolding is_among
Placed-alive m alive k [] a = tt
Placed-alive m alive k ((h, e) ∷ os) ((x, (y, z)), a) =
    ((x, (y, or_right (same_place k (place_of e)) _ z)), Placed-alive m alive k os a)

put_object-Placed :
    (m : Handles) (alive : List Place) (h : ℕ) (e : Entry) (os : Objects)
    → Placed m alive (h, e)
    → All (Placed m alive) os
    → All (Placed m alive) (put_object h e os)
unfolding put_object
put_object-Placed m alive h e [] p a = (p, tt)
put_object-Placed m alive h e ((g, f) ∷ os) p (q, a) = elim (Bool-cases (g == h)) [
  | inl t ↦ rw t (subst (λ (y : ℕ). Placed m alive (y, e)) (sym (==→eq g h t)) p, a)
  | inr t ↦ rw t (q, put_object-Placed m alive h e os p a)
]

Newer-append :
    (m : Handles) (n : ℕ) (m' : Handles) (j : Place) (h : ℕ)
    → n ≤ h
    → Newer m n m'
    → Newer m n (m' ++ ((j, h) ∷ []))
Newer-append m n m' j h le new k g e = elim (handle_at-append_cases k j h g m' e) [
  | inl x ↦ new k g x
  | inr x ↦ inr (omega (arith, x, le))
]

new_handle-Good :
    (m : Handles) (n : ℕ) (k : Place) (sc : Scan) (found : Option ℕ)
    → handle_at k sc.handle_of ≡ found
    → Good m n sc
    → Good m n (new_handle k sc found).1
      × ((handle_at k (new_handle k sc found).1.handle_of ≡ some (new_handle k sc found).0)
          × ((new_handle k sc found).1.alive ≡ sc.alive))
unfolding new_handle
new_handle-Good m n k sc (some h) e g = (g, (e, refl))
new_handle-Good m n k sc none e (w, ((le, (old, new)), a)) = (
  (
    Numbered-append sc.next sc.handle_of k w,
    (
      (
        omega (arith, le),
        (
          λ j g x. handle_at-append j k sc.next g sc.handle_of (old j g x),
          Newer-append m n sc.handle_of k sc.next le new,
        ),
      ),
      Placed-append sc.handle_of sc.alive k sc.next sc.objects a,
    ),
  ),
  (handle_at-append_new k sc.next sc.handle_of e, refl),
)

is_among_first : (k : Place) (alive : List Place) → is_among k (k ∷ alive) ≡ true
unfolding is_among
is_among_first k alive = rw (same_place_refl k) refl

add_entry-Good :
    (m : Handles) (n : ℕ) (k : Place) (e : ℕ → Entry) (r : ℕ × Scan)
    → ((h : ℕ) → ((e h).handle ≡ h) × (place_of (e h) ≡ k))
    → Good m n r.1
    → (handle_at k r.1.handle_of ≡ some r.0) × (is_among k r.1.alive ≡ true)
    → Good m n (add_entry e r)
add_entry-Good m n k e (h, sc) shape (w, (names, a)) (at, alive) =
    let place = (shape h).1 in
    let p : Placed sc.handle_of sc.alive (h, e h) = (
      (shape h).0,
      (
        ap (λ (j : Place). handle_at j sc.handle_of) place ∙ at,
        ap (λ (j : Place). is_among j sc.alive) place ∙ alive,
      ),
    ) in
    (w, (names, put_object-Placed sc.handle_of sc.alive h (e h) sc.objects p a))

module _ {B : Type 0} (backend : Backend B) where
  enter-Good :
      (m : Handles) (n : ℕ) (sub : Text → ℕ → Scan → Option Scan)
      → ((full : Text) (h : ℕ) (sc : Scan) → Good m n sc → OnReturn (Good m n) (sub full h sc))
      → (si storage_id parent : ℕ) (full name : Text) (found : Option (Bool × ℕ × ℕ)) (sc : Scan)
      → Good m n sc
      → OnReturn (Good m n) (enter backend sub si storage_id parent full name found sc)
  unfolding enter handle_for
  enter-Good m n sub ih si storage_id parent full name none sc g = g
  enter-Good m n sub ih si storage_id parent full name (some (is_dir, size, mtime)) sc
        (w, (names, a)) =
      let k : Place = (si, full) in
      let sc0 = record sc { alive = k ∷ sc.alive } in
      let g0 : Good m n sc0 = (w, (names, Placed-alive sc.handle_of sc.alive k sc.objects a)) in
      let (g1, (at, same)) = new_handle-Good m n k sc0 (handle_at k sc.handle_of) refl g0 in
      let alive : is_among k (handle_for k sc0).1.alive ≡ true =
        ap (is_among k) same ∙ is_among_first k sc.alive in
      let g2 =
        add_entry-Good m n k (entry_at si storage_id parent full name is_dir size mtime)
          (handle_for k sc0) (λ h. (refl, refl)) g1 (at, alive) in
      if-OnReturn (Good m n) is_dir _ (some _) (ih full (handle_for k sc0).0 _ g2) g2

  visit-Good :
      (m : Handles) (n : ℕ) (sub : Text → ℕ → Scan → Option Scan)
      → ((full : Text) (h : ℕ) (sc : Scan) → Good m n sc → OnReturn (Good m n) (sub full h sc))
      → (store : B) (si storage_id : ℕ) (relpath : Text) (parent : ℕ) (names : List Text)
        (sc : Scan)
      → Good m n sc
      → OnReturn (Good m n) (visit backend sub store si storage_id relpath parent names sc)
  unfolding visit
  visit-Good m n sub ih store si storage_id relpath parent [] sc g = g
  visit-Good m n sub ih store si storage_id relpath parent (name ∷ names) sc g =
      let full = child_path relpath name in
      let found = backend.stat store full in
      let first = enter-Good m n sub ih si storage_id parent full name found sc g in
      bind-OnReturn (enter backend sub si storage_id parent full name found sc) _ (Good m n)
        (λ sc1 e.
          visit-Good m n sub ih store si storage_id relpath parent names sc1
            (OnReturn-some _ sc1 (Good m n) e first))

  walk-Good :
      (m : Handles) (n d : ℕ) (store : B) (si storage_id : ℕ) (relpath : Text) (parent : ℕ)
      (sc : Scan)
      → Good m n sc
      → OnReturn (Good m n) (walk backend d store si storage_id relpath parent sc)
  unfolding walk
  walk-Good m n zero store si storage_id relpath parent sc g = tt
  walk-Good m n (suc d) store si storage_id relpath parent sc g =
      bind-OnReturn (backend.listdir store relpath) _ (Good m n) (λ names e.
        visit-Good m n (walk backend d store si storage_id)
          (λ full h sc1 g1. walk-Good m n d store si storage_id full h sc1 g1) store si storage_id
          relpath parent (sorted_names names) sc g)

  pub walk_all-Good :
      (m : Handles) (n d si : ℕ) (stores : List B) (ids : List ℕ) (sc : Scan)
      → Good m n sc
      → OnReturn (Good m n) (walk_all backend d si stores ids sc)
  unfolding walk_all
  walk_all-Good m n d si [] ids sc g = g
  walk_all-Good m n d si (store ∷ stores) [] sc g = g
  walk_all-Good m n d si (store ∷ stores) (storage_id ∷ ids) sc g =
      bind-OnReturn (walk backend d store si storage_id [] 0 sc) _ (Good m n) (λ sc1 e.
        walk_all-Good m n d (suc si) stores ids sc1
          (OnReturn-some _ sc1 (Good m n) e (walk-Good m n d store si storage_id [] 0 sc g)))
