-- ===== src/Mtp/Storage/Numbering.antt =====
-- The operations of the storage keep its handles apart.
use usbip_python.Base.{
  ℕ, zero, suc, true, false, List, [], ◌∷◌, Option, none, some, ◌>>=◌, OnReturn, bind-OnReturn,
  if-OnReturn, OnReturn-some, ◌==◌, not, get_elem?, set_elem,
}
use usbip_python.Struct.{Bytes}
use usbip_python.Core.Text.{Text}
use usbip_python.Mtp.{Backend, Platform, Attempt, done, os_error}
use usbip_python.Mtp.Storage.{Storage, Entry, object_at, rescan, unscanned, new}
use usbip_python.Mtp.Names.{same_text, child_path}
use usbip_python.Mtp.Storage.Handles.{Numbered}
use usbip_python.Mtp.Storage.Rescan.{Rescanned, rescan-Rescanned}
use usbip_python.Mtp.Storage.Edit.{
  update, removed, delete_entry, entries_in, copy_all, copy_entry, renamed, move_across,
  rename_entry, edit_entry, after, remap, move_handles, make_file, make_dir, write_file, delete,
  copy_tree, copy, rename, pwrite, truncate,
}
use usbip_python.Mtp.Storage.Moves.{move_handles-Numbered}

module _ {B : Type 0} where
  -- The handles of a storage are below the next one, and no two places share one.
  abbrev pub Sound : Storage B → Type 0
  Sound s = Numbered s.next s.handle_of

  weaker : (s : Storage B) (r : Option (Storage B)) → OnReturn (Rescanned s) r → OnReturn Sound r
  weaker s none h = tt
  weaker s (some s') h = h.0

  abbrev pub SoundPair : {A : Type 0} → A × Storage B → Type 0
  SoundPair r = Sound r.1

  update-Sound :
      (si : ℕ) (f : B → Option B) (s : Storage B) → Sound s → OnReturn Sound (update si f s)
  unfolding update
  update-Sound si f s w =
      bind-OnReturn (get_elem? s.stores si) _ Sound
        (λ store e. bind-OnReturn (f store) _ Sound (λ store' e'. w))

  -- An operation on an object that may not be there.
  entry-Sound :
      {A : Type 0} (f : Option Entry → Option (A × Storage B)) (e : Option Entry)
      → OnReturn SoundPair (f none)
      → ((e : Entry) → OnReturn SoundPair (f (some e)))
      → OnReturn SoundPair (f e)
  entry-Sound f none x y = x
  entry-Sound f (some e) x y = y e

  copy_all-Sound :
      (sub : Entry → Storage B → Option (Storage B))
      → ((e : Entry) (s : Storage B) → Sound s → OnReturn Sound (sub e s))
      → (es : List Entry) (s : Storage B) → Sound s
      → OnReturn Sound (copy_all sub es s)
  unfolding copy_all
  copy_all-Sound sub ih [] s w = w
  copy_all-Sound sub ih (e ∷ es) s w =
      bind-OnReturn (sub e s) _ Sound
        (λ s1 eq. copy_all-Sound sub ih es s1 (OnReturn-some (sub e s) s1 Sound eq (ih e s w)))

module _ {B : Type 0} (backend : Backend B) (platform : Platform) where
  rescan-Sound : (s : Storage B) → Sound s → OnReturn Sound (rescan backend platform s)
  rescan-Sound s w = weaker s (rescan backend platform s) (rescan-Rescanned backend platform s w)

  -- A change of a store, and the rescan behind it.
  then_rescan-Sound :
      {A : Type 0} (r : Option (Storage B)) (f : Storage B → A)
      → OnReturn Sound r
      → OnReturn SoundPair (do s1 ← r; s2 ← rescan backend platform s1; some (f s2, s2))
  then_rescan-Sound r f w = bind-OnReturn r _ SoundPair (λ s1 e.
      bind-OnReturn (rescan backend platform s1) _ SoundPair
        (λ s2 e'. OnReturn-some _ s2 Sound e' (rescan-Sound s1 (OnReturn-some r s1 Sound e w))))

  pub make_file-Sound :
      (s : Storage B) (si : ℕ) (dir name : Text)
      → Sound s
      → OnReturn SoundPair (make_file backend platform s si dir name)
  unfolding make_file
  make_file-Sound s si dir name w = then_rescan-Sound _ _ (update-Sound si _ s w)

  pub make_dir-Sound :
      (s : Storage B) (si : ℕ) (dir name : Text)
      → Sound s
      → OnReturn SoundPair (make_dir backend platform s si dir name)
  unfolding make_dir
  make_dir-Sound s si dir name w = then_rescan-Sound _ _ (update-Sound si _ s w)

  pub write_file-Sound :
      (s : Storage B) (h : ℕ) (content : Bytes)
      → Sound s
      → OnReturn Sound (write_file backend platform s h content)
  unfolding write_file
  write_file-Sound s h content w = bind-OnReturn (object_at h s.objects) _ Sound (λ e eq.
      bind-OnReturn _ _ Sound
        (λ s1 eq1. rescan-Sound s1 (OnReturn-some _ s1 Sound eq1 (update-Sound e.si _ s w))))

  removed-Sound :
      (s : Storage B) (si : ℕ) (a : Attempt B)
      → Sound s
      → OnReturn SoundPair (removed backend platform s si a)
  unfolding removed
  removed-Sound s si (os_error store) w = w
  removed-Sound s si (done store) w =
      then_rescan-Sound (some (record s { stores = set_elem si store s.stores })) (λ _. true) w

  pub delete-Sound :
      (s : Storage B) (h : ℕ) → Sound s → OnReturn SoundPair (delete backend platform s h)
  unfolding delete delete_entry
  delete-Sound s h w = entry-Sound (delete_entry backend platform s) (object_at h s.objects) w (λ e.
      bind-OnReturn (get_elem? s.stores e.si) _ SoundPair
        (λ store eq. removed-Sound s e.si (backend.remove store e.path) w))

  copy_tree-Sound :
      (d dest_si : ℕ) (dir name : Text) (e : Entry) (s : Storage B)
      → Sound s
      → OnReturn Sound (copy_tree backend platform d dest_si dir name e s)
  unfolding copy_tree
  copy_tree-Sound zero dest_si dir name e s w = tt
  copy_tree-Sound (suc d) dest_si dir name e s w =
      if-OnReturn Sound e.is_dir _ _
        (bind-OnReturn _ _ Sound (λ s1 eq.
          copy_all-Sound (λ c. copy_tree backend platform d dest_si (child_path dir name) c.name c)
            (λ c s2 w2. copy_tree-Sound d dest_si (child_path dir name) c.name c s2 w2)
            (entries_in e.handle s.objects) s1
            (OnReturn-some _ s1 Sound eq (update-Sound dest_si _ s w))))
        (bind-OnReturn (get_elem? s.stores e.si) _ Sound (λ store eq.
          bind-OnReturn (backend.read store e.path 0 none) _ Sound
            (λ content eq1. update-Sound dest_si _ s w)))

  pub copy-Sound :
      (s : Storage B) (h dest_si : ℕ) (dir name : Text)
      → Sound s
      → OnReturn SoundPair (copy backend platform s h dest_si dir name)
  unfolding copy copy_entry
  copy-Sound s h dest_si dir name w =
      entry-Sound (copy_entry backend platform s dest_si dir name) (object_at h s.objects) w
        (λ e. then_rescan-Sound _ _ (copy_tree-Sound platform.depth dest_si dir name e s w))

  renamed-Sound :
      (s : Storage B) (si : ℕ) (old path : Text) (a : Attempt B)
      → Sound s
      → OnReturn SoundPair (renamed backend platform s si old path a)
  unfolding renamed
  renamed-Sound s si old path (os_error store) w = w
  renamed-Sound s si old path (done store) w =
      bind-OnReturn (move_handles (remap si old path s.handle_of) s.handle_of) _ SoundPair (λ m e.
        then_rescan-Sound (some (record s { stores = set_elem si store s.stores; handle_of = m }))
          (λ _. true)
          (OnReturn-some _ m (Numbered s.next) e (move_handles-Numbered s.next _ s.handle_of w)))

  move_across-Sound :
      (s : Storage B) (dest_si : ℕ) (dir name : Text) (e : Entry)
      → Sound s
      → OnReturn SoundPair (move_across backend platform s dest_si dir name e)
  unfolding move_across
  move_across-Sound s dest_si dir name e w =
      bind-OnReturn (copy_tree backend platform platform.depth dest_si dir name e s) _ SoundPair
        (λ s1 eq. bind-OnReturn (get_elem? s1.stores e.si) _ SoundPair (λ store eq1.
          then_rescan-Sound
            (some (record s1 {
              stores = set_elem e.si (after (backend.remove store e.path)) s1.stores;
            }))
            (λ _. true)
            (OnReturn-some _ s1 Sound eq (copy_tree-Sound platform.depth dest_si dir name e s w))))

  pub rename-Sound :
      (s : Storage B) (h dest_si : ℕ) (dir name : Text)
      → Sound s
      → OnReturn SoundPair (rename backend platform s h dest_si dir name)
  unfolding rename rename_entry
  rename-Sound s h dest_si dir name w =
      entry-Sound (rename_entry backend platform s dest_si dir name) (object_at h s.objects) w (λ e.
        if-OnReturn SoundPair (not (dest_si == e.si)) _ _ (move_across-Sound s dest_si dir name e w)
          (if-OnReturn SoundPair (same_text (child_path dir name) e.path) (some (true, s)) _ w (
            bind-OnReturn (get_elem? s.stores e.si) _ SoundPair (λ store eq.
              renamed-Sound s e.si e.path (child_path dir name)
                (backend.rename store e.path (child_path dir name)) w))))

  edit_entry-Sound :
      (s : Storage B) (f : B → Text → Option B) (e : Option Entry)
      → Sound s
      → OnReturn SoundPair (edit_entry backend platform s f e)
  unfolding edit_entry
  edit_entry-Sound s f none w = w
  edit_entry-Sound s f (some e) w =
      if-OnReturn SoundPair e.is_dir (some (false, s)) _ w
        (then_rescan-Sound _ (λ _. true) (update-Sound e.si _ s w))

  pub pwrite-Sound :
      (s : Storage B) (h offset : ℕ) (content : Bytes)
      → Sound s
      → OnReturn SoundPair (pwrite backend platform s h offset content)
  unfolding pwrite
  pwrite-Sound s h offset content w = edit_entry-Sound s _ (object_at h s.objects) w

  pub truncate-Sound :
      (s : Storage B) (h size : ℕ)
      → Sound s
      → OnReturn SoundPair (truncate backend platform s h size)
  unfolding truncate
  truncate-Sound s h size w = edit_entry-Sound s _ (object_at h s.objects) w

  pub new-Sound : (stores : List B) → OnReturn Sound (new backend platform stores)
  unfolding new unscanned
  new-Sound [] = tt
  new-Sound (store ∷ stores) =
      rescan-Sound (unscanned (store ∷ stores) (backend.is_read_only store)) tt
