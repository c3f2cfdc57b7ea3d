-- ===== src/Mtp/Storage/Rescan.antt =====
-- What a rescan keeps of the handles, and what it says of the objects.
use usbip_python.Base.{
  ℕ, ◌≤◌, ◌≡◌, ◌⊎◌, inl, inr, sym, ap, ◌∙◌, arith, Option-cases, List, [], ◌∷◌, none, some,
  OnReturn, bind-OnReturn, OnReturn-some, All,
}
use usbip_python.Mtp.{Backend, Platform}
use usbip_python.Mtp.Storage.{
  Storage, Entry, Objects, Place, Handles, Scan, handle_at, still_alive, walk_all, rescan,
}
use usbip_python.Mtp.Storage.Handles.{
  Numbered, Numbered-still_alive, some_injective, handle_at-still_alive,
}
use usbip_python.Mtp.Storage.Walk.{place_of, Placed, Older, Newer, Good, walk_all-Good}

-- An object has the handle of its place: the one that the place had before, or one that nothing had.
abbrev pub Named : Handles → ℕ → Handles → ℕ × Entry → Type 0
Named m n m' (h, e) =
    (e.handle ≡ h)
    × ((handle_at (place_of e) m' ≡ some h)
        × ((handle_at (place_of e) m ≡ some h) ⊎ ((handle_at (place_of e) m ≡ none) × (n ≤ h))))

Older-Newer :
    (m : Handles) (n : ℕ) (m' : Handles) (k : Place) (h : ℕ)
    → Older m m'
    → Newer m n m'
    → handle_at k m' ≡ some h
    → (handle_at k m ≡ some h) ⊎ ((handle_at k m ≡ none) × (n ≤ h))
Older-Newer m n m' k h old new at = elim (new k h at) [
  | inl e ↦ inl e
  | inr le ↦ elim (Option-cases (handle_at k m)) [
    | inl e ↦ inr (e, le)
    | inr (g, e) ↦ inl (e ∙ ap some (some_injective (sym (old k g e) ∙ at)))
  ]
]

Placed-Named :
    (m : Handles) (n : ℕ) (m' : Handles) (alive : List Place) (os : Objects)
    → Older m m'
    → Newer m n m'
    → All (Placed m' alive) os
    → All (Named m n (still_alive alive m')) os
Placed-Named m n m' alive [] old new a = tt
Placed-Named m n m' alive ((h, e) ∷ os) old new ((x, (at, z)), a) = (
  (
    x,
    (
      handle_at-still_alive (place_of e) alive m' z ∙ at,
      Older-Newer m n m' (place_of e) h old new at,
    ),
  ),
  Placed-Named m n m' alive os old new a,
)

module _ {B : Type 0} where
  -- What a rescan leaves: handles that are told apart and below `next`, which does not fall, and objects
  -- that are named by the handles of their places.
  abbrev pub Rescanned : Storage B → Storage B → Type 0
  Rescanned s s' =
      Numbered s'.next s'.handle_of
      × ((s.next ≤ s'.next) × All (Named s.handle_of s.next s'.handle_of) s'.objects)

  -- The storage, with what a walk found.
  abbrev scanned : Storage B → Scan → Storage B
  scanned s sc = record s {
    handle_of = still_alive sc.alive sc.handle_of;
    next = sc.next;
    objects = sc.objects;
  }

  scanned-Rescanned :
      (s : Storage B) (sc : Scan) → Good s.handle_of s.next sc → Rescanned s (scanned s sc)
  scanned-Rescanned s sc (w, ((le, (old, new)), a)) = (
    Numbered-still_alive sc.next sc.alive sc.handle_of w,
    (le, Placed-Named s.handle_of s.next sc.handle_of sc.alive sc.objects old new a),
  )

module _ {B : Type 0} (backend : Backend B) (platform : Platform) where
  pub rescan-Rescanned :
      (s : Storage B)
      → Numbered s.next s.handle_of
      → OnReturn (Rescanned s) (rescan backend platform s)
  unfolding rescan
  rescan-Rescanned s w =
      let start : Scan = record {
        handle_of = s.handle_of;
        next = s.next;
        objects = [];
        alive = [];
      } in
      let g : Good s.handle_of s.next start =
        (w, ((omega arith, (λ k h e. e, λ k h e. inl e)), tt)) in
      bind-OnReturn (walk_all backend platform.depth 0 s.stores s.storage_ids start) _ (Rescanned s)
        (λ sc e. scanned-Rescanned s sc (
          OnReturn-some _ sc (Good s.handle_of s.next) e (
            walk_all-Good backend s.handle_of s.next platform.depth 0 s.stores s.storage_ids start
              g)))

  -- A rescan of a storage whose handles are told apart and below the next one, when it returns: the
  -- handles still are, the next one does not fall, and every object has the handle of its place, which
  -- is the one that the place had before, or, if it had none, one that is not below the next of before.
  pub rescan_keeps_handles :
      (s s' : Storage B)
      → Numbered s.next s.handle_of
      → rescan backend platform s ≡ some s'
      → Rescanned s s'
  rescan_keeps_handles s s' w e = OnReturn-some _ s' (Rescanned s) e (rescan-Rescanned s w)
