-- ===== src/Msc.antt =====
-- usbip/classes/device/msc.py: mass storage, its units and the state of the interface.
-- A store is what the application supplies: M is its state, and its functions do not raise.
-- The log lines that `on_command` gets are left out.
pub mod Pages
pub mod Scsi
pub mod Bot
pub mod Added
use usbip_python.Base.{
  ℕ, zero, suc, ◌+◌, ◌*◌, ◌≤◌, Bool, true, false, ◌||◌, List, [], ◌∷◌, Option, none, some, ◌==◌,
  if◌then◌else◌, leb, length, ◌&&◌, ◌≡◌,
}
use usbip_python.Struct.{Bytes}
use usbip_python.Core.Text.{Text}
use usbip_python.Core.MsOs.{codes}

-- The four functions that the class calls.
pub record Store (M : Type 0) : Type 0 where
  pub num_blocks : M → ℕ
  pub block_size : M → ℕ
  pub read : M → ℕ → ℕ → Bytes
  pub write : M → ℕ → ℕ → Bytes → M

pub data Medium : Type 0 where
  disk cdrom floppy : Medium

abbrev pub is_cdrom : Medium → Bool
is_cdrom cdrom = true
is_cdrom _ = false

abbrev pub is_floppy : Medium → Bool
is_floppy floppy = true
is_floppy _ = false

-- A row of FLOPPY_FORMATS.
pub record FloppyFormat : Type 0 where
  pub code : ℕ
  pub blocks : ℕ
  pub medium_type : ℕ
  pub cylinders : ℕ
  pub heads : ℕ
  pub sectors : ℕ
  pub rate : ℕ

abbrev pub floppy_block_size : ℕ
floppy_block_size = 512

abbrev row : ℕ → ℕ → ℕ → ℕ → ℕ → ℕ → ℕ → FloppyFormat
row code blocks kind cylinders heads sectors rate = record {
  code = code;
  blocks = blocks;
  medium_type = kind;
  cylinders = cylinders;
  heads = heads;
  sectors = sectors;
  rate = rate;
}

abbrev pub floppy_formats : List FloppyFormat
floppy_formats =
    row 0 5760 0x00 80 2 36 1000
    ∷ row 1 2880 0x94 80 2 18 500
    ∷ row 2 2400 0x93 80 2 15 500
    ∷ row 3 1440 0x1E 80 2 9 250
    ∷ row 4 720 0x00 40 2 9 250
    ∷ []

size_among : ℕ → List FloppyFormat → ℕ
size_among code [] = 0
size_among code (f ∷ fs) =
    if f.code == code then f.blocks * floppy_block_size else size_among code fs

-- floppy_format_size(fmt)
unfoldable pub floppy_format_size : ℕ → ℕ
unfolding size_among
floppy_format_size code = size_among code floppy_formats

unfoldable pub format_among : ℕ → List FloppyFormat → Option FloppyFormat
format_among blocks [] = none
format_among blocks (f ∷ fs) = if f.blocks == blocks then some f else format_among blocks fs

-- _floppy_format(blocks, block_size)
unfoldable pub floppy_format : ℕ → ℕ → Option FloppyFormat
unfolding format_among
floppy_format blocks block_size =
    if block_size == floppy_block_size then format_among blocks floppy_formats else none

-- (key, asc, ascq)
abbrev pub Sense : Type 0
Sense = ℕ × ℕ × ℕ

abbrev pub sense_ok : Sense
sense_ok = (0, 0, 0)

abbrev pub sense_invalid_command : Sense
sense_invalid_command = (0x05, 0x20, 0x00)

abbrev pub sense_invalid_field : Sense
sense_invalid_field = (0x05, 0x24, 0x00)

abbrev pub sense_lba_range : Sense
sense_lba_range = (0x05, 0x21, 0x00)

abbrev pub sense_lun_not_supported : Sense
sense_lun_not_supported = (0x05, 0x25, 0x00)

abbrev pub sense_write_protect : Sense
sense_write_protect = (0x07, 0x27, 0x00)

abbrev pub max_luns : ℕ
max_luns = 16

-- One logical unit.
pub record Lun (M : Type 0) : Type 0 where
  pub medium_state : M
  pub medium : Medium
  pub read_only : Bool
  pub product : Text
  pub serial : Text
  pub sense : Sense

-- The attributes that a store may carry.
pub record Options : Type 0 where
  pub medium : Option Medium
  pub read_only : Bool
  pub product : Option Text
  pub serial : Option Text

-- What the interface was built with.
pub record Settings : Type 0 where
  pub medium : Medium
  pub read_only : Bool
  pub vendor : Text
  pub product : Option Text
  pub revision : Text
  pub serial : Text

abbrev pub default_product : Medium → Text
default_product disk = codes "DISK"
default_product cdrom = codes "CD-ROM"
default_product floppy = codes "FLOPPY"

-- `x or y`, for texts and for media.
abbrev pub or_text : Option Text → Text → Text
or_text (some (c ∷ cs)) t = c ∷ cs
or_text _ t = t

abbrev pub or_medium : Option Medium → Medium → Medium
or_medium (some m) d = m
or_medium none d = d

-- Lun(store, iface)
unfoldable pub new_lun : {M : Type 0} → M → Options → Settings → Lun M
new_lun m o s =
    let kind = or_medium o.medium s.medium in
    record {
      medium_state = m;
      medium = kind;
      read_only = o.read_only || (s.read_only || is_cdrom kind);
      product = or_text o.product (or_text s.product (default_product kind));
      serial = or_text o.serial s.serial;
      sense = sense_ok;
    }

-- The WRITE whose data is being received.
pub record Pending : Type 0 where
  pub lun : ℕ
  pub tag : Bytes
  pub lba : ℕ
  pub count : ℕ
  pub need : ℕ
  pub buf : Bytes

-- The interface's state; its two endpoints are driven by the actions of `Bot`.
pub record Msc (M : Type 0) : Type 0 where
  pub luns : List (Lun M)
  pub vendor : Text
  pub revision : Text
  pub cbw_in : Bool
  pub pending : Option Pending

unfoldable pub new_luns : {M : Type 0} → Settings → List (M × Options) → List (Lun M)
unfolding new_lun
new_luns s [] = []
new_luns s ((m, o) ∷ rest) = new_lun m o s ∷ new_luns s rest

-- MSC(stores, ...): `none` is the ValueError for a number of stores out of 1 to 16.
unfoldable pub new : {M : Type 0} → Settings → List (M × Options) → Option (Msc M)
unfolding new_luns
new s stores =
    if leb 1 (length stores) && leb (length stores) max_luns
    then some (record {
      luns = new_luns s stores;
      vendor = s.vendor;
      revision = s.revision;
      cbw_in = false;
      pending = none;
    })
    else none
