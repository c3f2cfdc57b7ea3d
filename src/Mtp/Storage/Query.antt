-- ===== src/Mtp/Storage/Query.antt =====
-- usbip/classes/device/mtp.py, class MtpStorage: what is read of the object model.
use usbip_python.Base.{
  ℕ, zero, suc, Bool, true, false, ◌&&◌, ◌||◌, List, [], ◌∷◌, ◌++◌, Option, none, some, ◌>>=◌, ◌==◌,
  if◌then◌else◌, leb, length, get_elem?, reverse,
}
use usbip_python.Struct.{Bytes}
use usbip_python.Core.Text.{Text}
use usbip_python.Core.MsOs.{codes}
use usbip_python.Mtp.{Backend, all_ones}
use usbip_python.Mtp.Storage.{Storage, Entry, Objects, object_at}

-- storage_ids.index(storage_id), and none without it.
unfoldable pub index_among : ℕ → List ℕ → Option ℕ
index_among x [] = none
index_among x (y ∷ ys) =
    if y == x then some 0 else elim (index_among x ys) [ none ↦ none | some i ↦ some (suc i) ]

unfoldable pub insert_handle : ℕ → List ℕ → List ℕ
insert_handle h [] = h ∷ []
insert_handle h (g ∷ gs) = if leb h g then h ∷ g ∷ gs else g ∷ insert_handle h gs

-- sorted(handles)
unfoldable pub sorted_handles : List ℕ → List ℕ
unfolding insert_handle
sorted_handles [] = []
sorted_handles (h ∷ hs) = insert_handle h (sorted_handles hs)

-- The conditions of list_handles.
unfoldable pub is_listed : ℕ → ℕ → ℕ → Entry → Bool
is_listed storage_id fmt parent e =
    (storage_id == 0 || (storage_id == all_ones || e.storage == storage_id))
    && ((if parent == all_ones then e.parent == 0 else parent == 0 || e.parent == parent)
        && (fmt == 0 || e.fmt == fmt))

unfoldable pub select : ℕ → ℕ → ℕ → Objects → List ℕ
unfolding is_listed
select storage_id fmt parent [] = []
select storage_id fmt parent ((h, e) ∷ m) =
    let rest = select storage_id fmt parent m in
    if is_listed storage_id fmt parent e then h ∷ rest else rest

unfoldable pub children : ℕ → Objects → List ℕ
children h [] = []
children h ((g, e) ∷ m) = let rest = children h m in if e.parent == h then g ∷ rest else rest

-- The loop of descendants: the stack, its top first, and what is found. An object is pushed when its
-- parent is popped, so there are no more rounds than objects, and one.
unfoldable pub descend : ℕ → Objects → List ℕ → List ℕ
unfolding children
descend zero m stack = []
descend (suc n) m [] = []
descend (suc n) m (cur ∷ stack) =
    let found = children cur m in found ++ descend n m (reverse found ++ stack)

-- What of a text is a truth value.
abbrev pub is_some {ℓ} : {A : Type ℓ} → Option A → Bool
is_some none = false
is_some (some a) = true

abbrev pub or_zero : Option ℕ → ℕ
or_zero none = 0
or_zero (some i) = i

abbrev directory : Option Entry → Option (ℕ × Text)
directory none = none
directory (some e) = if e.is_dir then some (e.si, e.path) else none

module _ {B : Type 0} where
  unfoldable pub list_handles : Storage B → ℕ → ℕ → ℕ → List ℕ
  unfolding sorted_handles select
  list_handles s storage_id fmt parent = sorted_handles (select storage_id fmt parent s.objects)

  unfoldable pub descendants : Storage B → ℕ → List ℕ
  unfolding descend
  descendants s h = descend (suc (length s.objects)) s.objects (h ∷ [])

  -- target(storage_id, parent)
  unfoldable pub target : Storage B → ℕ → ℕ → Option (ℕ × Text)
  unfolding index_among
  target s storage_id parent =
      if parent == 0 || parent == all_ones
      then some (or_zero (index_among storage_id s.storage_ids), [])
      else directory (object_at parent s.objects)

  -- parent_dir(handle): a handle that is not there raises.
  unfoldable pub parent_dir : Storage B → ℕ → Option (ℕ × Text)
  parent_dir s h = do
    e ← object_at h s.objects
    if e.parent == 0
        then some (e.si, [])
        else (do up ← object_at e.parent s.objects; some (e.si, up.path))

module _ {B : Type 0} (backend : Backend B) where
  usage_of : Option B → Option (ℕ × ℕ)
  usage_of none = some (0, 0)
  usage_of (some store) = backend.disk_usage store

  store_of : Storage B → ℕ → Option B
  store_of s storage_id = do i ← index_among storage_id s.storage_ids; get_elem? s.stores i

  -- disk_usage(storage_id): `none` is an OSError.
  unfoldable pub disk_usage : Storage B → ℕ → Option (ℕ × ℕ)
  unfolding usage_of store_of index_among
  disk_usage s storage_id = usage_of (store_of s storage_id)

  description_of : Option Text → Text
  description_of none = codes "USB over IP"
  description_of (some t) = t

  -- store_description(storage_id)
  unfoldable pub store_description : Storage B → ℕ → Text
  unfolding description_of store_of index_among
  store_description s storage_id =
      description_of (do store ← store_of s storage_id; backend.description store)

  read_entry : Storage B → ℕ → Option ℕ → Option Entry → Option Bytes
  read_entry s off size none = some []
  read_entry s off size (some e) =
      if e.is_dir
      then some []
      else (do store ← get_elem? s.stores e.si; backend.read store e.path off size)

  -- read(handle, off, size)
  unfoldable pub read : Storage B → ℕ → ℕ → Option ℕ → Option Bytes
  unfolding read_entry object_at
  read s h off size = read_entry s off size (object_at h s.objects)
