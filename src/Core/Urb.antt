-- ===== src/Core/Urb.antt =====
-- usbip/core.py, class Urb: the request that the transport carries.
-- The signed fields of the wire header are integers; the others are unsigned words.
use Prim.Native.Nat.{bit_or}
use usbip_python.Base.{ℕ, ℤ, Option, List, ◌==◌, if◌then◌else◌}
use usbip_python.Struct.{Bytes}
use usbip_python.Core.{dir_in}

-- [offset, length, actual_length, status]
pub record IsoPacket : Type 0 where
  pub offset : ℕ
  pub length : ℕ
  pub actual_length : ℕ
  pub status : ℕ

pub record Urb : Type 0 where
  pub command : ℕ
  pub seqnum : ℕ
  pub devid : ℕ
  pub direction : ℕ
  pub ep : ℕ
  pub flags : ℕ
  pub length : ℤ
  pub interval : ℤ
  pub setup : Bytes
  pub buffer : Bytes
  pub status : ℤ
  pub actual : ℤ
  pub number_of_packets : ℤ
  pub iso_packets : Option (List IsoPacket)

-- The endpoint number plus the IN direction bit.
unfoldable pub ep_addr : Urb → ℕ
ep_addr u = bit_or u.ep (if u.direction == dir_in then 0x80 else 0)
