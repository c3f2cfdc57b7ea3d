-- ===== src/Mtp.antt =====
-- usbip/classes/device/mtp.py: the Media Transfer Protocol, its codes and what it needs of others.
-- A backend is what the application supplies: B is the state of one.
pub mod Encode
pub mod Names
pub mod Storage
pub mod Machine
use usbip_python.Base.{ℕ, Bool, Option, List}
use usbip_python.Struct.{Bytes}
use usbip_python.Core.Text.{Text}

-- Container types.
abbrev pub ct_data : ℕ
ct_data = 2

abbrev pub ct_response : ℕ
ct_response = 3

abbrev pub ct_event : ℕ
ct_event = 4

-- Response codes.
abbrev pub rc_ok : ℕ
rc_ok = 0x2001

abbrev pub rc_general_error : ℕ
rc_general_error = 0x2002

abbrev pub rc_session_not_open : ℕ
rc_session_not_open = 0x2003

abbrev pub rc_operation_not_supported : ℕ
rc_operation_not_supported = 0x2005

abbrev pub rc_invalid_storage_id : ℕ
rc_invalid_storage_id = 0x2008

abbrev pub rc_invalid_object_handle : ℕ
rc_invalid_object_handle = 0x2009

abbrev pub rc_deviceprop_not_supported : ℕ
rc_deviceprop_not_supported = 0x200A

abbrev pub rc_store_read_only : ℕ
rc_store_read_only = 0x200E

abbrev pub rc_no_valid_object_info : ℕ
rc_no_valid_object_info = 0x2015

abbrev pub rc_invalid_parent : ℕ
rc_invalid_parent = 0x201A

abbrev pub rc_invalid_parameter : ℕ
rc_invalid_parameter = 0x201D

abbrev pub rc_session_already_open : ℕ
rc_session_already_open = 0x201E

abbrev pub rc_invalid_object_prop_code : ℕ
rc_invalid_object_prop_code = 0xA801

abbrev pub rc_object_prop_not_supported : ℕ
rc_object_prop_not_supported = 0xA80A

abbrev pub ev_object_added : ℕ
ev_object_added = 0x4002

abbrev pub ev_object_removed : ℕ
ev_object_removed = 0x4003

abbrev pub fmt_undefined : ℕ
fmt_undefined = 0x3000

-- A folder.
abbrev pub fmt_association : ℕ
fmt_association = 0x3001

-- "Objects in the root", "all storages" and "all objects".
abbrev pub all_ones : ℕ
all_ones = 0xFFFFFFFF

-- What `remove` and `rename` do: they return, or raise an OSError, which the class catches.
pub data Attempt (B : Type 0) : Type 0 where
  done os_error : B → Attempt B

-- The functions that the class calls. `none` is an OSError of stat and disk_usage, and an exception that
-- nothing catches of the others.
pub record Backend (B : Type 0) : Type 0 where
  pub listdir : B → Text → Option (List Text)
  -- Whether it is a directory, the size and the time of modification in seconds.
  pub stat : B → Text → Option (Bool × ℕ × ℕ)
  -- The offset, and the size or all that follows.
  pub read : B → Text → ℕ → Option ℕ → Option Bytes
  pub write : B → Text → Bytes → Option B
  pub mkdir : B → Text → Option B
  pub remove : B → Text → Attempt B
  pub rename : B → Text → Text → Attempt B
  pub pwrite : B → Text → ℕ → Bytes → Option B
  pub truncate : B → Text → ℕ → Option B
  pub disk_usage : B → Option (ℕ × ℕ)
  pub description : B → Option Text
  pub is_read_only : B → Bool

-- Of the machine: how a time that is not 0 is written, the digest MD5, and how deep calls may nest.
pub record Platform : Type 0 where
  pub local_time : ℕ → Text
  pub md5 : Bytes → Bytes
  pub depth : ℕ
