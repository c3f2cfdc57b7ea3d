-- ===== src/Mtp/Storage.antt =====
-- usbip/classes/device/mtp.py, class MtpStorage: the object model over the backends, and its rescan.
-- `none` is an exception that nothing catches; what it leaves half done is not kept.
pub mod Query
pub mod Edit
pub mod Handles
pub mod Walk
pub mod Rescan
pub mod Moves
pub mod Numbering
use Prim.Native.Nat.{bit_or}
use usbip_python.Base.{
  ℕ, zero, suc, ◌+◌, ◌*◌, ◌^◌, Bool, true, false, ◌&&◌, ◌||◌, List, [], ◌∷◌, ◌++◌, Option, none,
  some, ◌>>=◌, ◌==◌, if◌then◌else◌, ltb, leb, length, get_elem?,
}
use usbip_python.Core.Text.{Text}
use usbip_python.Core.MsOs.{codes}
use usbip_python.Mtp.Names.{same_text, sorted_names, child_path, fmt_of}
use usbip_python.Mtp.{Backend, Platform, fmt_undefined, fmt_association}

-- (store_index, relpath)
abbrev pub Place : Type 0
Place = ℕ × Text

abbrev pub same_place : Place → Place → Bool
same_place a b = a.0 == b.0 && same_text a.1 b.1

abbrev pub Handles : Type 0
Handles = List (Place × ℕ)

-- _handle_of.get(key)
unfoldable pub handle_at : Place → Handles → Option ℕ
unfolding same_text
handle_at k [] = none
handle_at k ((j, h) ∷ m) = if same_place j k then some h else handle_at k m

unfoldable pub is_among : Place → List Place → Bool
unfolding same_text
is_among k [] = false
is_among k (j ∷ js) = same_place j k || is_among k js

-- An object: `si` is the index of its store.
pub record Entry : Type 0 where
  pub handle : ℕ
  pub parent : ℕ
  pub si : ℕ
  pub storage : ℕ
  pub path : Text
  pub name : Text
  pub is_dir : Bool
  pub fmt : ℕ
  pub size : ℕ
  pub mtime : ℕ

abbrev pub Objects : Type 0
Objects = List (ℕ × Entry)

-- objects.get(handle)
unfoldable pub object_at : ℕ → Objects → Option Entry
object_at h [] = none
object_at h ((g, e) ∷ m) = if g == h then some e else object_at h m

-- objects[handle] = e
unfoldable pub put_object : ℕ → Entry → Objects → Objects
put_object h e [] = (h, e) ∷ []
put_object h e ((g, f) ∷ m) = if g == h then (g, e) ∷ m else (g, f) ∷ put_object h e m

pub record Storage (B : Type 0) : Type 0 where
  pub stores : List B
  pub storage_ids : List ℕ
  pub read_only : Bool
  pub handle_of : Handles
  pub next : ℕ
  pub objects : Objects

-- What a walk changes.
pub record Scan : Type 0 where
  pub handle_of : Handles
  pub next : ℕ
  pub objects : Objects
  pub alive : List Place

-- _handle_for(key)
unfoldable pub new_handle : Place → Scan → Option ℕ → ℕ × Scan
new_handle k sc (some h) = (h, sc)
new_handle k sc none =
    (sc.next, record sc { handle_of = sc.handle_of ++ ((k, sc.next) ∷ []); next = sc.next + 1 })

unfoldable pub handle_for : Place → Scan → ℕ × Scan
unfolding new_handle
handle_for k sc = new_handle k sc (handle_at k sc.handle_of)

-- The object that is found at a path, under its handle.
abbrev pub entry_at : ℕ → ℕ → ℕ → Text → Text → Bool → ℕ → ℕ → ℕ → Entry
entry_at si storage_id parent full name is_dir size mtime h = record {
  handle = h;
  parent = parent;
  si = si;
  storage = storage_id;
  path = full;
  name = name;
  is_dir = is_dir;
  fmt = if is_dir then fmt_association else fmt_of name;
  size = size;
  mtime = mtime;
}

abbrev pub add_entry : (ℕ → Entry) → ℕ × Scan → Scan
add_entry e (h, sc) = record sc { objects = put_object h (e h) sc.objects }

module _ {B : Type 0} (backend : Backend B) where
  -- What stat finds at a path enters the objects, and a directory is walked.
  unfoldable pub enter :
      (Text → ℕ → Scan → Option Scan)
      → ℕ
      → ℕ
      → ℕ
      → Text
      → Text
      → Option (Bool × ℕ × ℕ)
      → Scan
      → Option Scan
  unfolding handle_for fmt_of put_object
  enter sub si storage_id parent full name none sc = some sc
  enter sub si storage_id parent full name (some (is_dir, size, mtime)) sc =
      let r = handle_for (si, full) (record sc { alive = (si, full) ∷ sc.alive }) in
      let sc1 = add_entry (entry_at si storage_id parent full name is_dir size mtime) r in
      if is_dir then sub full r.0 sc1 else some sc1

  unfoldable pub visit :
      (Text → ℕ → Scan → Option Scan) → B → ℕ → ℕ → Text → ℕ → List Text → Scan → Option Scan
  unfolding enter child_path
  visit sub store si storage_id relpath parent [] sc = some sc
  visit sub store si storage_id relpath parent (name ∷ names) sc = do
    let full = child_path relpath name
    sc1 ← enter sub si storage_id parent full name (backend.stat store full) sc
    visit sub store si storage_id relpath parent names sc1

  -- _walk(si, relpath, parent, objects, alive), as deep as calls may nest.
  unfoldable pub walk : ℕ → B → ℕ → ℕ → Text → ℕ → Scan → Option Scan
  unfolding visit sorted_names
  walk zero store si storage_id relpath parent sc = none
  walk (suc d) store si storage_id relpath parent sc = do
    names ← backend.listdir store relpath
    visit (walk d store si storage_id) store si storage_id relpath parent (sorted_names names) sc

  unfoldable pub walk_all : ℕ → ℕ → List B → List ℕ → Scan → Option Scan
  unfolding walk
  walk_all d si (store ∷ stores) (storage_id ∷ ids) sc = do
    sc1 ← walk d store si storage_id [] 0 sc
    walk_all d (suc si) stores ids sc1
  walk_all d si _ _ sc = some sc

-- { k: handle for k, handle in _handle_of.items() if k in alive }
unfoldable pub still_alive : List Place → Handles → Handles
unfolding is_among
still_alive alive [] = []
still_alive alive ((k, h) ∷ m) =
    if is_among k alive then (k, h) ∷ still_alive alive m else still_alive alive m

module _ {B : Type 0} where
  unfoldable pub ids_from : ℕ → List B → List ℕ
  ids_from i [] = []
  ids_from i (store ∷ stores) = bit_or ((i + 1) * 2 ^ 16) 1 ∷ ids_from (suc i) stores

  -- The storage before its first rescan.
  unfoldable pub unscanned : List B → Bool → Storage B
  unfolding ids_from
  unscanned stores read_only = record {
    stores = stores;
    storage_ids = ids_from 0 stores;
    read_only = read_only;
    handle_of = [];
    next = 1;
    objects = [];
  }

module _ {B : Type 0} (backend : Backend B) (platform : Platform) where
  -- rescan()
  unfoldable pub rescan : Storage B → Option (Storage B)
  unfolding walk_all still_alive
  rescan s = do
    sc ←
        walk_all backend platform.depth 0 s.stores s.storage_ids
          (record { handle_of = s.handle_of; next = s.next; objects = []; alive = [] })
    some (record s {
      handle_of = still_alive sc.alive sc.handle_of;
      next = sc.next;
      objects = sc.objects;
    })

  -- MtpStorage(stores)
  unfoldable pub new : List B → Option (Storage B)
  unfolding rescan unscanned
  new [] = none
  new (store ∷ stores) = rescan (unscanned (store ∷ stores) (backend.is_read_only store))
