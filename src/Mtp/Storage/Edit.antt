-- ===== src/Mtp/Storage/Edit.antt =====
-- usbip/classes/device/mtp.py, class MtpStorage: the operations that change a store.
use usbip_python.Base.{
  ℕ, zero, suc, Bool, true, false, ◌&&◌, ◌||◌, not, List, [], ◌∷◌, ◌++◌, Option, none, some, ◌>>=◌,
  ◌==◌, if◌then◌else◌, length, get_elem?, set_elem, drop,
}
use usbip_python.Struct.{Bytes}
use usbip_python.Core.Text.{Text}
use usbip_python.Mtp.{Backend, Platform, Attempt, done, os_error}
use usbip_python.Mtp.Storage.{
  Storage, Entry, Objects, Place, Handles, object_at, handle_at, same_place, rescan,
}
use usbip_python.Mtp.Names.{same_text, child_path}
use usbip_python.Mtp.Storage.Query.{or_zero}

-- text.startswith(prefix)
unfoldable pub starts_with : Text → Text → Bool
starts_with [] ts = true
starts_with (c ∷ cs) [] = false
starts_with (c ∷ cs) (d ∷ ds) = c == d && starts_with cs ds

-- _handle_of.pop(key): the handle, and the rest.
unfoldable pub pop : Place → Handles → Option (ℕ × Handles)
pop k [] = none
pop k ((j, h) ∷ m) =
    if same_place j k then some (h, m) else (do (g, rest) ← pop k m; some (g, (j, h) ∷ rest))

-- _handle_of[key] = handle
unfoldable pub put_handle : Place → ℕ → Handles → Handles
put_handle k h [] = (k, h) ∷ []
put_handle k h ((j, g) ∷ m) = if same_place j k then (j, h) ∷ m else (j, g) ∷ put_handle k h m

-- A place that a rename of `old` moves.
abbrev is_moved : ℕ → Text → Place → Bool
is_moved si old k = k.0 == si && (same_text k.1 old || starts_with (old ++ (0x2F ∷ [])) k.1)

abbrev moved_to : Text → Text → Text → Text
moved_to old new path = if same_text path old then new else new ++ drop (length old) path

-- remap: the places that move, and where to.
unfoldable pub remap : ℕ → Text → Text → Handles → List (Place × Place)
unfolding starts_with same_text
remap si old new [] = []
remap si old new ((k, h) ∷ m) =
    let rest = remap si old new m in
    if is_moved si old k then (k, (si, moved_to old new k.1)) ∷ rest else rest

unfoldable pub move_handles : List (Place × Place) → Handles → Option Handles
unfolding pop put_handle
move_handles [] m = some m
move_handles ((k, k') ∷ moves) m = do (h, rest) ← pop k m; move_handles moves (put_handle k' h rest)

-- The entries of a folder, as copy finds them.
unfoldable pub entries_in : ℕ → Objects → List Entry
entries_in h [] = []
entries_in h ((g, e) ∷ m) = let rest = entries_in h m in if e.parent == h then e ∷ rest else rest

module _ {B : Type 0} where
  -- What a backend's function does to the store at an index.
  unfoldable pub update : ℕ → (B → Option B) → Storage B → Option (Storage B)
  update si f s = do
    store ← get_elem? s.stores si
    store' ← f store
    some (record s { stores = set_elem si store' s.stores })

  unfoldable pub copy_all :
      (Entry → Storage B → Option (Storage B)) → List Entry → Storage B → Option (Storage B)
  copy_all sub [] s = some s
  copy_all sub (e ∷ es) s = do s1 ← sub e s; copy_all sub es s1

  -- The store that a removal leaves, whether it raised an OSError or not.
  unfoldable pub after : Attempt B → B
  after (done store) = store
  after (os_error store) = store

module _ {B : Type 0} (backend : Backend B) (platform : Platform) where
  -- make_file(si, parent_dir, name)
  unfoldable pub make_file : Storage B → ℕ → Text → Text → Option (Option ℕ × Storage B)
  unfolding update
  make_file s si dir name = do
    let path = child_path dir name
    s1 ← update si (λ store. backend.write store path []) s
    s2 ← rescan backend platform s1
    some (handle_at (si, path) s2.handle_of, s2)

  -- make_dir(si, parent_dir, name)
  unfoldable pub make_dir : Storage B → ℕ → Text → Text → Option (Option ℕ × Storage B)
  unfolding update
  make_dir s si dir name = do
    let path = child_path dir name
    s1 ← update si (λ store. backend.mkdir store path) s
    s2 ← rescan backend platform s1
    some (handle_at (si, path) s2.handle_of, s2)

  -- write_file(handle, data): a handle that is not there raises.
  unfoldable pub write_file : Storage B → ℕ → Bytes → Option (Storage B)
  unfolding update
  write_file s h content = do
    e ← object_at h s.objects
    s1 ← update e.si (λ store. backend.write store e.path content) s
    rescan backend platform s1

  unfoldable pub removed : Storage B → ℕ → Attempt B → Option (Bool × Storage B)
  removed s si (os_error store) = some (false, record s { stores = set_elem si store s.stores })
  removed s si (done store) = do
    s1 ← rescan backend platform (record s { stores = set_elem si store s.stores })
    some (true, s1)

  unfoldable pub delete_entry : Storage B → Option Entry → Option (Bool × Storage B)
  unfolding removed
  delete_entry s none = some (false, s)
  delete_entry s (some e) = do
    store ← get_elem? s.stores e.si
    removed s e.si (backend.remove store e.path)

  -- delete(handle)
  unfoldable pub delete : Storage B → ℕ → Option (Bool × Storage B)
  unfolding delete_entry
  delete s h = delete_entry s (object_at h s.objects)

  -- _copy_tree(handle, dest_si, dest_dir, name), of the entry of the handle.
  unfoldable pub copy_tree : ℕ → ℕ → Text → Text → Entry → Storage B → Option (Storage B)
  unfolding update copy_all
  copy_tree zero dest_si dir name e s = none
  copy_tree (suc d) dest_si dir name e s =
      if e.is_dir
      then (do
        s1 ← update dest_si (λ store. backend.mkdir store (child_path dir name)) s
        copy_all (λ c. copy_tree d dest_si (child_path dir name) c.name c)
            (entries_in e.handle s.objects) s1)
      else (do
        store ← get_elem? s.stores e.si
        content ← backend.read store e.path 0 none
        update dest_si (λ store'. backend.write store' (child_path dir name) content) s)

  unfoldable pub copy_entry : Storage B → ℕ → Text → Text → Option Entry → Option (ℕ × Storage B)
  unfolding copy_tree
  copy_entry s dest_si dir name none = some (0, s)
  copy_entry s dest_si dir name (some e) = do
    s1 ← copy_tree platform.depth dest_si dir name e s
    s2 ← rescan backend platform s1
    some (or_zero (handle_at (dest_si, child_path dir name) s2.handle_of), s2)

  -- copy(handle, dest_si, dest_dir, name)
  unfoldable pub copy : Storage B → ℕ → ℕ → Text → Text → Option (ℕ × Storage B)
  unfolding copy_entry
  copy s h dest_si dir name = copy_entry s dest_si dir name (object_at h s.objects)

  unfoldable pub renamed : Storage B → ℕ → Text → Text → Attempt B → Option (Bool × Storage B)
  renamed s si old new (os_error store) =
      some (false, record s { stores = set_elem si store s.stores })
  renamed s si old new (done store) = do
    handles ← move_handles (remap si old new s.handle_of) s.handle_of
    s1 ←
        rescan backend platform
          (record s { stores = set_elem si store s.stores; handle_of = handles })
    some (true, s1)

  -- Across stores: a copy, and the removal of what was copied.
  unfoldable pub move_across : Storage B → ℕ → Text → Text → Entry → Option (Bool × Storage B)
  unfolding after copy_tree
  move_across s dest_si dir name e = do
    s1 ← copy_tree platform.depth dest_si dir name e s
    store ← get_elem? s1.stores e.si
    s2 ←
        rescan backend platform
          (record s1 { stores = set_elem e.si (after (backend.remove store e.path)) s1.stores })
    some (true, s2)

  unfoldable pub rename_entry :
      Storage B → ℕ → Text → Text → Option Entry → Option (Bool × Storage B)
  unfolding move_across renamed remap move_handles
  rename_entry s dest_si dir name none = some (false, s)
  rename_entry s dest_si dir name (some e) =
      if not (dest_si == e.si)
      then move_across s dest_si dir name e
      else if same_text (child_path dir name) e.path
      then some (true, s)
      else (do
        store ← get_elem? s.stores e.si
        renamed s e.si e.path (child_path dir name)
            (backend.rename store e.path (child_path dir name)))

  -- rename(handle, dest_si, dest_dir, new_name)
  unfoldable pub rename : Storage B → ℕ → ℕ → Text → Text → Option (Bool × Storage B)
  unfolding rename_entry
  rename s h dest_si dir name = rename_entry s dest_si dir name (object_at h s.objects)

  unfoldable pub edit_entry :
      Storage B → (B → Text → Option B) → Option Entry → Option (Bool × Storage B)
  unfolding update
  edit_entry s f none = some (false, s)
  edit_entry s f (some e) = if e.is_dir then some (false, s) else (do
    s1 ← update e.si (λ store. f store e.path) s
    s2 ← rescan backend platform s1
    some (true, s2))

  -- pwrite(handle, offset, data)
  unfoldable pub pwrite : Storage B → ℕ → ℕ → Bytes → Option (Bool × Storage B)
  unfolding edit_entry
  pwrite s h offset content =
      edit_entry s (λ store path. backend.pwrite store path offset content) (object_at h s.objects)

  -- truncate(handle, size)
  unfoldable pub truncate : Storage B → ℕ → ℕ → Option (Bool × Storage B)
  unfolding edit_entry
  truncate s h size =
      edit_entry s (λ store path. backend.truncate store path size) (object_at h s.objects)
