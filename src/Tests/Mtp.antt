-- ===== src/Tests/Mtp.antt =====
-- usbip/classes/device/mtp.py: runs of the class over a store in memory, and concrete inputs of the theorems.
use usbip_python.Base.{
  ℕ, ◌+◌, ◌*◌, ◌≡◌, refl, arith, Bool, true, false, not, List, [], ◌∷◌, ◌++◌, Option, none, some,
  ◌>>=◌, length, take, drop, replicate, if◌then◌else◌, ◌&&◌, ◌==◌, map, inl, join,
}
use usbip_python.Struct.{Bytes, to_le}
use usbip_python.Core.Text.{Text}
use usbip_python.Core.MsOs.{codes}
use usbip_python.Mtp.{Backend, Platform, Attempt, done, os_error}
use usbip_python.Mtp.Encode.{ptp_str, ptp_str_parse, parse_object_info, build_object_info}
use usbip_python.Mtp.Encode.Laws.{info, parse_object_info-build_object_info}
use usbip_python.Mtp.Storage.{Storage}
use usbip_python.Mtp.Names.{same_text}
use usbip_python.Mtp.Storage
use usbip_python.Mtp.Storage.Edit.{starts_with}
use usbip_python.Mtp.Storage.Handles.{Numbered}
use usbip_python.Mtp.Storage.Rescan.{Rescanned, rescan_keeps_handles}
use usbip_python.Mtp.Machine.{Mtp, Call, in_write, intr_write}
use usbip_python.Mtp.Machine
use usbip_python.Mtp.Machine.Bulk.{on_out, run, complete_rx}
use usbip_python.Mtp.Machine.ReadOnly.{run_read_only}
use usbip_python.Mtp.Machine.Answers.{
  OneResponse, code_of, txid_of, Served, Gated, begun, command_is_answered,
}
use usbip_python.Mtp.Machine.Runs.{handles_stay_apart}
use usbip_python.Mtp.Machine.Phases.{data_phase_is_answered}
use usbip_python.Mtp.Machine.DataPhase.{run-data_phase}

-- Paths, and the content of files: none is a directory.
abbrev pub Disk : Type 0
Disk = List (Text × Option Bytes)

abbrev find : Text → Disk → Option (Option Bytes)
find t [] = none
find t ((u, x) ∷ d) = if same_text u t then some x else find t d

-- What follows the first slash.
abbrev has_slash : Text → Bool
has_slash [] = false
has_slash (c ∷ cs) = if c == 0x2F then true else has_slash cs

abbrev child_of : Text → Text → Option Text
child_of [] path = if has_slash path then none else some path
child_of (c ∷ cs) path =
    let rest = drop (length (c ∷ cs) + 1) path in
    if starts_with ((c ∷ cs) ++ (0x2F ∷ [])) path && not (has_slash rest) then some rest else none

abbrev add_some : Option Text → List Text → List Text
add_some none ts = ts
add_some (some t) ts = t ∷ ts

abbrev names_in : Text → Disk → List Text
names_in dir [] = []
names_in dir ((path, x) ∷ d) = add_some (child_of dir path) (names_in dir d)

abbrev stat_of : Option (Option Bytes) → Option (Bool × ℕ × ℕ)
stat_of none = none
stat_of (some none) = some (true, 0, 0)
stat_of (some (some bs)) = some (false, length bs, 5)

abbrev put_at : Text → Option Bytes → Disk → Disk
put_at t x [] = (t, x) ∷ []
put_at t x ((u, y) ∷ d) = if same_text u t then (u, x) ∷ d else (u, y) ∷ put_at t x d

abbrev cut : Text → Disk → Disk
cut t [] = []
cut t ((u, y) ∷ d) = if same_text u t then cut t d else (u, y) ∷ cut t d

abbrev renamed : Text → Text → Disk → Disk
renamed t v [] = []
renamed t v ((u, y) ∷ d) = (if same_text u t then v else u, y) ∷ renamed t v d

abbrev content : Option (Option Bytes) → ℕ → Option ℕ → Option Bytes
content (some (some bs)) off none = some (drop off bs)
content (some (some bs)) off (some n) = some (take n (drop off bs))
content _ off n = none

abbrev pub memory : Bool → Backend Disk
memory protected = record {
  listdir = λ d t. some (names_in t d);
  stat = λ d t. stat_of (find t d);
  read = λ d t off n. content (find t d) off n;
  write = λ d t bs. some (put_at t (some bs) d);
  mkdir = λ d t. some (put_at t none d);
  remove = λ d t. done (cut t d);
  rename = λ d t u. done (renamed t u d);
  pwrite = λ d t off bs. some (put_at t (some bs) d);
  truncate = λ d t n. some d;
  disk_usage = λ d. some (1000, 10);
  description = λ d. none;
  is_read_only = λ d. protected;
}

abbrev pub machine : Platform
machine = record {
  local_time = λ t. codes "20260604T000000";
  md5 = λ bs. replicate 16 0;
  depth = 9;
}

-- A folder with a file in it, and a file beside it.
abbrev disk : Disk
disk =
    (codes "docs", none)
    ∷ (codes "docs/a.txt", some (1 ∷ 2 ∷ 3 ∷ []))
    ∷ (codes "b.mp3", some (9 ∷ []))
    ∷ []

-- A command container.
abbrev asking : ℕ → ℕ → List ℕ → Bytes
asking code txid ps =
    to_le 4 (12 + 4 * length ps)
    ++ (to_le 2 1 ++ (to_le 2 code ++ (to_le 4 txid ++ join (map (to_le 4) ps))))

-- A data container.
abbrev data_of : ℕ → ℕ → Bytes → Bytes
data_of code txid payload =
    to_le 4 (12 + length payload) ++ (to_le 2 2 ++ (to_le 2 code ++ (to_le 4 txid ++ payload)))

-- The result of a call, or what stands for it.
abbrev get : {A : Type 0} → A → Option A → A
get d none = d
get d (some a) = a

abbrev bare : Bool → Storage Disk
bare protected = record {
  stores = disk ∷ [];
  storage_ids = 0x10001 ∷ [];
  read_only = protected;
  handle_of = [];
  next = 1;
  objects = [];
}

abbrev scanned : Bool → Storage Disk
scanned protected = get (bare protected) (Storage.new (memory protected) machine (disk ∷ []))

abbrev pub begin : Bool → Mtp Disk
begin protected = Machine.new (scanned protected) (codes "MTP") (codes "ACME") none

abbrev play : Bool → List Bytes → Mtp Disk × List Call
play protected chunks =
    get (begin protected, []) (run (memory protected) machine (begin protected) chunks)

abbrev payload : Call → Bytes
payload (in_write c) = c.payload
payload (intr_write c) = c.payload

-- The session, and then.
abbrev in_session : List Bytes → List Bytes
in_session chunks = asking 0x1002 1 (7 ∷ []) ∷ chunks

abbrev raises : Option (Mtp Disk × List Call) → Bool
raises none = true
raises (some r) = false

abbrev session_raises : List Bytes → Bool
session_raises chunks = raises (run (memory false) machine (begin false) (in_session chunks))

-- A file is renamed, and keeps its handle.
renaming : List Bytes
renaming =
    asking 0x9804 2 (1 ∷ 0xDC07 ∷ [])
    ∷ data_of 0x9804 2 (2 ∷ 65 ∷ 0 ∷ 0 ∷ 0 ∷ [])
    ∷ asking 0x1007 3 (0xFFFFFFFF ∷ 0 ∷ 0 ∷ [])
    ∷ []

renaming_lem :
    map payload (play false (in_session renaming)).1
    ≡ ([] ∷ [] ∷ (3 ∷ 0 ∷ 0 ∷ 0 ∷ 1 ∷ 0 ∷ 0 ∷ 0 ∷ 2 ∷ 0 ∷ 0 ∷ 0 ∷ 3 ∷ 0 ∷ 0 ∷ 0 ∷ []) ∷ [] ∷ [])
unfolding renaming run Machine.new to_le usbip_python.Mtp.Machine.Execute.perform Machine.op_of
    usbip_python.Struct.from_le Storage.new starts_with
    usbip_python.Mtp.Machine.Receive.recv_set_object_prop Storage.object_at Storage.handle_at
    ptp_str_parse usbip_python.Mtp.Storage.Query.parent_dir usbip_python.Mtp.Storage.Edit.rename
    usbip_python.Mtp.Encode.u32_array usbip_python.Mtp.Storage.Query.list_handles
renaming_lem = refl

-- An ObjectInfo dataset of 52 bytes raises; one of 51 is refused.
short_info : List (List Bytes)
short_info =
    map (λ n. asking 0x100C 2 [] ∷ data_of 0x100C 2 (replicate n 0) ∷ []) (51 ∷ 52 ∷ 53 ∷ [])

short_info_lem : map session_raises short_info ≡ (false ∷ true ∷ false ∷ [])
unfolding short_info run Machine.new to_le usbip_python.Mtp.Machine.Execute.perform Machine.op_of
    usbip_python.Struct.from_le Storage.new starts_with
    usbip_python.Mtp.Machine.Receive.recv_object_info parse_object_info ptp_str_parse
short_info_lem = refl

-- The name of an object is set by an empty payload.
empty_name_lem :
    session_raises (asking 0x9804 2 (1 ∷ 0xDC07 ∷ []) ∷ data_of 0x9804 2 [] ∷ []) ≡ true
unfolding run Machine.new to_le usbip_python.Mtp.Machine.Execute.perform Machine.op_of
    usbip_python.Struct.from_le Storage.new starts_with
    usbip_python.Mtp.Machine.Receive.recv_set_object_prop Storage.object_at Storage.handle_at
    ptp_str_parse
empty_name_lem = refl

-- The properties of an object that is not there, without a format and with one.
unknown_object_lem :
    map session_raises
      ((asking 0x9805 2 (99 ∷ 0 ∷ []) ∷ []) ∷ (asking 0x9805 2 (99 ∷ 0x3000 ∷ []) ∷ []) ∷ [])
    ≡ (false ∷ true ∷ [])
unfolding run Machine.new to_le usbip_python.Mtp.Machine.Execute.perform Machine.op_of
    usbip_python.Struct.from_le usbip_python.Mtp.Machine.ObjectProps.object_prop_list Storage.new
    starts_with Storage.handle_at
unknown_object_lem = refl

-- A character that takes two units of UTF-16: seven bytes are written, and five are read.
two_units_lem : (ptp_str (0x1F600 ∷ []) >>= λ bs. ptp_str_parse bs 0) ≡ some (0x1F600 ∷ [], 5)
unfolding ptp_str usbip_python.Core.Text.utf16 ptp_str_parse to_le
two_units_lem = refl

two_units_length : (ptp_str (0x1F600 ∷ []) >>= λ bs. some (length bs)) ≡ some 7
unfolding ptp_str usbip_python.Core.Text.utf16 to_le
two_units_length = refl

-- Of two stores the second is read-only, and is written.
abbrev half : Backend Disk
half = record (memory false) { is_read_only = λ d. length d == 0 }

abbrev pair : Mtp Disk
pair =
    Machine.new (get (bare false) (Storage.new half machine (disk ∷ [] ∷ []))) (codes "MTP")
      (codes "ACME") none

abbrev folder : Bytes
folder = get [] (build_object_info 0 0x3001 0 0 (codes "x") true [])

second_store_lem :
    map
      (λ d. length d)
      (get
        (pair, [])
        (run half machine pair (
          in_session
            (asking 0x100C 2 (0x20001 ∷ []) ∷ data_of 0x100C 2 folder ∷ [])))).0.storage.stores
    ≡ (3 ∷ 1 ∷ [])
unfolding run Machine.new to_le usbip_python.Mtp.Machine.Execute.perform Machine.op_of
    usbip_python.Struct.from_le Storage.new starts_with
    usbip_python.Mtp.Machine.Receive.recv_object_info parse_object_info ptp_str_parse
    build_object_info ptp_str usbip_python.Core.Text.utf16 usbip_python.Mtp.Storage.Query.target
    usbip_python.Mtp.Storage.Edit.make_dir Storage.handle_at
second_store_lem = refl

-- A host that tries to delete, to write and to set the name of the device.
attempts : List Bytes
attempts = in_session (
    asking 0x100B 2 (1 ∷ [])
    ∷ asking 0x100C 3 []
    ∷ asking 0x1016 4 (0xD402 ∷ [])
    ∷ data_of 0x1016 4 (2 ∷ 65 ∷ 0 ∷ 0 ∷ 0 ∷ [])
    ∷ [])

run_read_only_example : (play true attempts).0.storage ≡ (begin true).storage
unfolding attempts Machine.new Storage.new starts_with run to_le
    usbip_python.Mtp.Machine.Execute.perform Machine.op_of usbip_python.Struct.from_le
    usbip_python.Mtp.Machine.Receive.recv_device_prop
run_read_only_example =
    run_read_only (memory true) machine (begin true) attempts (play true attempts).0
      (play true attempts).1 refl tt refl

abbrev open_command : Bytes
open_command = asking 0x1002 5 (7 ∷ [])

command_is_answered_example :
    Served
      (Machine.op_of (code_of open_command))
      open_command
      (play false (open_command ∷ [])).0.rx
      (get (begin false, []) (on_out (memory false) machine (begin false) open_command)).1
    × Gated
        (begin false)
        open_command
        (get (begin false, []) (on_out (memory false) machine (begin false) open_command)).1
unfolding Machine.new to_le on_out usbip_python.Mtp.Machine.Execute.perform Machine.op_of
    usbip_python.Struct.from_le run
command_is_answered_example =
    command_is_answered (memory false) machine (begin false) open_command
      (get (begin false, []) (on_out (memory false) machine (begin false) open_command)).0
      (get (begin false, []) (on_out (memory false) machine (begin false) open_command)).1 refl
      (omega arith) refl

handles_stay_apart_example :
    Numbered
      (play false (in_session renaming)).0.storage.next
      (play false (in_session renaming)).0.storage.handle_of
unfolding renaming Storage.new starts_with run Machine.new to_le
    usbip_python.Mtp.Machine.Execute.perform Machine.op_of usbip_python.Struct.from_le
    usbip_python.Mtp.Machine.Receive.recv_set_object_prop Storage.object_at Storage.handle_at
    ptp_str_parse usbip_python.Mtp.Storage.Query.parent_dir usbip_python.Mtp.Storage.Edit.rename
    usbip_python.Mtp.Encode.u32_array usbip_python.Mtp.Storage.Query.list_handles
handles_stay_apart_example =
    handles_stay_apart (memory false) machine (disk ∷ []) (scanned false) (codes "MTP")
      (codes "ACME") none (in_session renaming) (play false (in_session renaming)).0
      (play false (in_session renaming)).1 refl refl

-- The data of a new name of the device, in three transfers.
abbrev name_head : Bytes
name_head = take 12 (data_of 0x1016 4 (2 ∷ 65 ∷ 0 ∷ 0 ∷ 0 ∷ []))

abbrev set_name : Bytes
set_name = asking 0x1016 4 (0xD402 ∷ [])

run-data_phase_example :
    run
      (memory false)
      machine
      (record (begin false) { rx = some (begun set_name) })
      (take 3 name_head ∷ (drop 3 name_head ++ (2 ∷ [])) ∷ (65 ∷ 0 ∷ 0 ∷ 0 ∷ []) ∷ [])
    ≡ complete_rx
        (memory false)
        machine
        (record (begin false) { rx = none })
        (begun set_name)
        (2 ∷ 65 ∷ 0 ∷ 0 ∷ 0 ∷ [])
unfolding to_le usbip_python.Struct.from_le
run-data_phase_example =
    run-data_phase (memory false) machine (begin false) set_name name_head (2 ∷ 65 ∷ 0 ∷ 0 ∷ 0 ∷ [])
      (take 3 name_head) ((drop 3 name_head ++ (2 ∷ [])) ∷ (65 ∷ 0 ∷ 0 ∷ 0 ∷ []) ∷ []) refl refl
      refl (omega arith, (omega arith, tt))

-- A storage that has given handle 7 to a file.
abbrev known : Storage Disk
known = record (bare false) { handle_of = ((0, codes "b.mp3"), 7) ∷ []; next = 9 }

abbrev known_again : Storage Disk
known_again = get known (Storage.rescan (memory false) machine known)

rescan_keeps_handles_example : Rescanned known known_again
unfolding Storage.rescan starts_with
rescan_keeps_handles_example =
    rescan_keeps_handles (memory false) machine known known_again (omega arith, (tt, tt)) refl

parse_object_info-build_object_info_example :
    (build_object_info 0x10001 0x3004 7 2 (65 ∷ 0x3042 ∷ []) false [] >>= parse_object_info)
    ≡ some (info 0x3004 7 2 (65 ∷ 0x3042 ∷ []) false)
parse_object_info-build_object_info_example =
    parse_object_info-build_object_info 0x10001 0x3004 7 2 (65 ∷ 0x3042 ∷ []) false [] (omega arith)
      (omega arith) (omega arith)
      ((inl (omega arith, omega arith), (inl (omega arith, omega arith), tt)), omega arith)
      (tt, omega arith)

-- The same data, to its answer.
abbrev name_set : Mtp Disk × List Call
name_set =
    get (begin false, [])
      (run (memory false) machine (record (begin false) { rx = some (begun set_name) })
        (take 3 name_head ∷ (drop 3 name_head ++ (2 ∷ [])) ∷ (65 ∷ 0 ∷ 0 ∷ 0 ∷ []) ∷ []))

data_phase_is_answered_example : OneResponse (txid_of set_name) name_set.1 × (name_set.0.rx ≡ none)
unfolding Machine.op_of usbip_python.Struct.from_le to_le run
    usbip_python.Mtp.Machine.Receive.recv_device_prop
data_phase_is_answered_example =
    data_phase_is_answered (memory false) machine (begin false) set_name name_head
      (2 ∷ 65 ∷ 0 ∷ 0 ∷ 0 ∷ []) (take 3 name_head)
      ((drop 3 name_head ++ (2 ∷ [])) ∷ (65 ∷ 0 ∷ 0 ∷ 0 ∷ []) ∷ []) name_set.0 name_set.1 tt refl
      refl refl (omega arith, (omega arith, tt)) refl
