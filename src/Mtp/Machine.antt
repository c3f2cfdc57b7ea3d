-- ===== src/Mtp/Machine.antt =====
-- usbip/classes/device/mtp.py: the operations, the state of the interface and what it sends.
pub mod ObjectProps
pub mod Datasets
pub mod Execute
pub mod Receive
pub mod Bulk
pub mod Frame
pub mod Pending
pub mod Kinds
pub mod ReadOnly
pub mod Answers
pub mod DataPhase
pub mod Numbering
pub mod Received
pub mod Phases
pub mod Runs
use usbip_python.Base.{
  ℕ, ◌+◌, ◌*◌, ◌^◌, Bool, List, [], ◌∷◌, ◌++◌, Option, none, some, ◌>>=◌, ◌==◌, if◌then◌else◌, ltb,
  leb, length, take, drop, map, join, ljust,
}
use usbip_python.Struct.{Bytes, from_le, little, pack}
use usbip_python.Core.Text.{Text}
use usbip_python.Core.MsOs.{codes}
use usbip_python.Endpoint.{Endpoint}
use usbip_python.Device.Build.{Build, enable_msos}
use usbip_python.Mtp.{rc_ok, ct_data, ct_response, ct_event, all_ones}
use usbip_python.Mtp.Encode.{u32}
use usbip_python.Mtp.Storage.{Storage}

pub data Op : Type 0 where
  get_device_info open_session close_session get_storage_ids get_storage_info get_num_objects
        get_object_handles get_object_info get_object delete_object send_object_info send_object
        get_partial_object get_device_prop_desc get_device_prop_value set_device_prop_value
        get_object_props_supported get_object_prop_desc get_object_prop_value get_object_prop_list
        get_object_references move_object copy_object set_object_prop_value get_partial_object_64
        send_partial_object truncate_object begin_edit_object end_edit_object unsupported :
      Op

-- _OP_NAMES: what it has names for, in the order of their definitions.
abbrev pub operations : List (ℕ × Op)
operations =
    (0x1001, get_device_info)
    ∷ (0x1002, open_session)
    ∷ (0x1003, close_session)
    ∷ (0x1004, get_storage_ids)
    ∷ (0x1005, get_storage_info)
    ∷ (0x1006, get_num_objects)
    ∷ (0x1007, get_object_handles)
    ∷ (0x1008, get_object_info)
    ∷ (0x1009, get_object)
    ∷ (0x100B, delete_object)
    ∷ (0x100C, send_object_info)
    ∷ (0x100D, send_object)
    ∷ (0x101B, get_partial_object)
    ∷ (0x1014, get_device_prop_desc)
    ∷ (0x1015, get_device_prop_value)
    ∷ (0x1016, set_device_prop_value)
    ∷ (0x9801, get_object_props_supported)
    ∷ (0x9802, get_object_prop_desc)
    ∷ (0x9803, get_object_prop_value)
    ∷ (0x9805, get_object_prop_list)
    ∷ (0x9810, get_object_references)
    ∷ (0x1019, move_object)
    ∷ (0x101A, copy_object)
    ∷ (0x9804, set_object_prop_value)
    ∷ (0x95C1, get_partial_object_64)
    ∷ (0x95C2, send_partial_object)
    ∷ (0x95C3, truncate_object)
    ∷ (0x95C4, begin_edit_object)
    ∷ (0x95C5, end_edit_object)
    ∷ []

abbrev pub op_among : ℕ → List (ℕ × Op) → Op
op_among code [] = unsupported
op_among code ((c, op) ∷ rest) = if c == code then op else op_among code rest

-- The operation of a code.
unfoldable pub op_of : ℕ → Op
op_of code = op_among code operations

-- The five parameters of a command, 0 where it has less.
pub record Params : Type 0 where
  pub p0 : ℕ
  pub p1 : ℕ
  pub p2 : ℕ
  pub p3 : ℕ
  pub p4 : ℕ

-- A pending data-out phase.
pub record Rx : Type 0 where
  pub code : ℕ
  pub txid : ℕ
  pub params : Params
  pub buf : Bytes
  pub need : Option ℕ

pub record Mtp (B : Type 0) : Type 0 where
  pub storage : Storage B
  pub model : Text
  pub manufacturer : Text
  pub serial : Text
  pub friendly_name : Text
  pub sync_partner : Text
  pub session : ℕ
  pub rx : Option Rx
  pub send_target : Option ℕ

abbrev pub or_default : Option Text → Text → Text
or_default (some (c ∷ cs)) t = c ∷ cs
or_default _ t = t

-- MTP(storage, name, manufacturer, serial)
unfoldable pub new : {B : Type 0} → Storage B → Text → Text → Option Text → Mtp B
new storage name manufacturer serial = record {
  storage = storage;
  model = name;
  manufacturer = manufacturer;
  serial = ljust 32 0x30 (take 32 (or_default serial (codes "0123456789ABCDEF0123456789ABCDEF")));
  friendly_name = name;
  sync_partner = [];
  session = 0;
  rx = none;
  send_target = none;
}

-- _on_added(): the Compatible ID b"MTP", for the function's own group.
unfoldable pub on_added : {W : Type 0} → Bool → ℕ → Build W → Build W
unfolding enable_msos
on_added winusb group b = if winusb then enable_msos b (codes "MTP") none (some group) else b

-- adjust_for_speed(speed), for the two bulk endpoints: SPEED_HIGH is 2.
unfoldable pub adjust_for_speed : ℕ → Endpoint → Endpoint
adjust_for_speed speed e = record e { mps = if leb 2 speed then 512 else 64 }

pub record Container : Type 0 where
  pub ctype : ℕ
  pub code : ℕ
  pub txid : ℕ
  pub payload : Bytes

-- struct.pack("<IHHI", 12 + len(payload), ctype, code, txid) + payload
unfoldable pub wire : Container → Option Bytes
wire c = do
  head ← pack little ((4, 12 + length c.payload) ∷ (2, c.ctype) ∷ (2, c.code) ∷ (4, c.txid) ∷ [])
  some (head ++ c.payload)

-- What the class writes to its two IN endpoints.
pub data Call : Type 0 where
  in_write intr_write : Container → Call

-- The parameters of a response or an event.
abbrev pub words : List ℕ → Bytes
words ps = join (map u32 ps)

-- _resp(rc, txid, params)
abbrev pub response : ℕ → ℕ → List ℕ → Container
response rc txid params = record {
  ctype = ct_response;
  code = rc;
  txid = txid;
  payload = words params;
}

-- _data(code, txid, payload)
abbrev pub data_container : ℕ → ℕ → Bytes → Container
data_container code txid payload = record {
  ctype = ct_data;
  code = code;
  txid = txid;
  payload = payload;
}

-- _event(code, params)
abbrev pub event : ℕ → List ℕ → Container
event code params = record {
  ctype = ct_event;
  code = code;
  txid = all_ones;
  payload = words params;
}

-- What a handler calls: _resp(rc, txid, params), _data(code, txid, payload), _event(code, params), or
-- _begin_rx(code, txid, params).
pub data Act : Type 0 where
  resp : ℕ → List ℕ → Act
  give_data : Bytes → Act
  send_event : ℕ → List ℕ → Act
  begin_rx : Act

-- The calls of a handler, in their order.
abbrev pub Outcome : Type 0
Outcome = List Act

-- Only _resp.
abbrev pub responds : ℕ → List ℕ → Outcome
responds rc ps = resp rc ps ∷ []

-- _data, and the response RC_OK: _data_ok, where the response has no parameters.
abbrev pub sends : Bytes → List ℕ → Outcome
sends payload ps = give_data payload ∷ resp rc_ok ps ∷ []

-- The response RC_OK, and an event.
abbrev pub notifies : List ℕ → ℕ → List ℕ → Outcome
notifies ps ev es = resp rc_ok ps ∷ send_event ev es ∷ []

-- Only _begin_rx.
abbrev pub receives : Outcome
receives = begin_rx ∷ []

-- `none` is an exception, which ends the connection; what it leaves half done is not kept.
abbrev pub Effect : Type 0 → Type 0
Effect B = Option (Mtp B × Outcome)

module _ {B : Type 0} where
  abbrev pub with_storage : Mtp B → Storage B → Mtp B
  with_storage s storage = record s { storage = storage }
