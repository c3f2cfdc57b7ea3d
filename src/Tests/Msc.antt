-- ===== src/Tests/Msc.antt =====
-- usbip/classes/device/msc.py: runs of the class over a store of two-byte blocks.
use Prim.Native.Nat.{bit_and}
use usbip_python.Base.{
  get_or, get_elem?, ℕ, ◌+◌, ◌*◌, ◌/◌, ◌≡◌, refl, arith, Bool, true, false, List, [], ◌∷◌, ◌++◌,
  none, some, length, take, drop, replicate, All, ltb, ltb→lt, ◌&&◌, inl, inr, Bool-cases,
}
use usbip_python.Struct.{Bytes, IsByte, from_le}
use usbip_python.Core.MsOs.{codes}
use usbip_python.Msc.{
  Store, Medium, disk, cdrom, Options, Settings, Lun, Msc, Pending, new_lun, sense_ok, new,
}
use usbip_python.Msc.Bot.{Call, in_write, out_stall, Effect, handle_cbw, on_out, on_control}
use usbip_python.Msc.Scsi.Returns.{IsOrdinary}
use usbip_python.Msc.Bot.Answers.{Answered, wanted, block, announces_in, handle_cbw_lem}
use usbip_python.Msc.Scsi.{Reply}
use usbip_python.Msc.Scsi.Kinds.{Accords}
use usbip_python.Msc.Bot.Safety.{out, host_run, Protected, WriteFits, host_run-Protected}

abbrev pub pairs : Store Bytes
pairs = record {
  num_blocks = λ m. length m / 2;
  block_size = λ _. 2;
  read = λ m lba count. take (2 * count) (drop (2 * lba) m);
  write = λ m lba count bs. take (2 * lba) m ++ (bs ++ drop (2 * (lba + count)) m);
}

abbrev plain : Options
plain = record { medium = none; read_only = false; product = none; serial = none }

abbrev settings : Settings
settings = record {
  medium = disk;
  read_only = false;
  vendor = codes "ACME";
  product = none;
  revision = codes "0001";
  serial = codes "42";
}

abbrev lun : ℕ → Medium → Bool → Lun Bytes
lun b kind protected = record {
  medium_state = replicate 8 b;
  medium = kind;
  read_only = protected;
  product = codes "DISK";
  serial = codes "42";
  sense = sense_ok;
}

-- A disk beside a CD-ROM.
abbrev pub two_units : Msc Bytes
two_units = record {
  luns = lun 1 disk false ∷ lun 9 cdrom true ∷ [];
  vendor = codes "ACME";
  revision = codes "0001";
  cbw_in = false;
  pending = none;
}

-- Tag 1 2 3 4, a length, flags, a unit and a ten-byte command block.
abbrev cbw : ℕ → ℕ → ℕ → Bytes → Bytes
cbw dlen flags lun cdb =
    0x55
    ∷ 0x53
    ∷ 0x42
    ∷ 0x43
    ∷ 1
    ∷ 2
    ∷ 3
    ∷ 4
    ∷ dlen
    ∷ 0
    ∷ 0
    ∷ 0
    ∷ flags
    ∷ lun
    ∷ 10
    ∷ (cdb ++ replicate 6 0)

-- WRITE(10) of `count` blocks from block 1.
abbrev write_cbw : ℕ → ℕ → Bytes
write_cbw lun count = cbw (2 * count) 0 lun (0x2A ∷ 0 ∷ 0 ∷ 0 ∷ 0 ∷ 1 ∷ 0 ∷ 0 ∷ count ∷ 0 ∷ [])

abbrev read_cbw : Bytes
read_cbw = cbw 4 0x80 0 (0x28 ∷ 0 ∷ 0 ∷ 0 ∷ 0 ∷ 1 ∷ 0 ∷ 0 ∷ 2 ∷ 0 ∷ [])

abbrev calls_of : {M : Type 0} → Effect M → List Call
calls_of none = []
calls_of (some (s, calls)) = calls

-- A READ of two blocks after a WRITE of one.
read_back :
    calls_of (
      on_out pairs
        (host_run pairs two_units (out (write_cbw 0 1) ∷ out (7 ∷ 8 ∷ []) ∷ []))
        read_cbw)
    ≡ in_write (7 ∷ 8 ∷ 1 ∷ 1 ∷ [])
      ∷ in_write (0x55 ∷ 0x53 ∷ 0x42 ∷ 0x53 ∷ 1 ∷ 2 ∷ 3 ∷ 4 ∷ 0 ∷ 0 ∷ 0 ∷ 0 ∷ 0 ∷ [])
      ∷ []
unfolding on_out host_run usbip_python.Msc.Scsi.dispatch usbip_python.Msc.Scsi.lba_count from_le
    usbip_python.Msc.Bot.csw usbip_python.Struct.pack_field usbip_python.Struct.to_le
read_back = refl

-- A WRITE to the CD-ROM is refused, and its data phase halted.
refused :
    calls_of (on_out pairs two_units (write_cbw 1 1))
    ≡ out_stall ∷ in_write (0x55 ∷ 0x53 ∷ 0x42 ∷ 0x53 ∷ 1 ∷ 2 ∷ 3 ∷ 4 ∷ 2 ∷ 0 ∷ 0 ∷ 0 ∷ 1 ∷ []) ∷ []
unfolding on_out usbip_python.Msc.Scsi.dispatch usbip_python.Msc.Bot.csw
    usbip_python.Struct.pack_field from_le usbip_python.Struct.to_le
refused = refl

-- A WRITE of no blocks has no data phase, and is not answered; the next command is taken for its data.
no_blocks_no_answer : calls_of (on_out pairs two_units (write_cbw 0 0)) ≡ []
unfolding on_out usbip_python.Msc.Scsi.dispatch usbip_python.Msc.Scsi.lba_count from_le
no_blocks_no_answer = refl

next_command_is_lost :
    calls_of (on_out pairs (host_run pairs two_units (out (write_cbw 0 0) ∷ [])) read_cbw)
    ≡ in_write (0x55 ∷ 0x53 ∷ 0x42 ∷ 0x53 ∷ 1 ∷ 2 ∷ 3 ∷ 4 ∷ 0 ∷ 0 ∷ 0 ∷ 0 ∷ 0 ∷ []) ∷ []
unfolding on_out host_run usbip_python.Msc.Scsi.dispatch usbip_python.Msc.Scsi.lba_count from_le
    usbip_python.Msc.Bot.csw usbip_python.Struct.pack_field usbip_python.Struct.to_le
next_command_is_lost = refl

abbrev inquiry_cbw : Bytes
inquiry_cbw = cbw 36 0x80 1 (0x12 ∷ 0 ∷ 0 ∷ 0 ∷ 36 ∷ 0 ∷ 0 ∷ 0 ∷ 0 ∷ 0 ∷ [])

abbrev tag_bytes : Bytes
tag_bytes = 1 ∷ 2 ∷ 3 ∷ 4 ∷ []

abbrev are_bytes : Bytes → Bool
are_bytes [] = true
are_bytes (b ∷ bs) = ltb b 256 && are_bytes bs

checked : (bs : Bytes) → are_bytes bs ≡ true → All IsByte bs
checked [] h = tt
checked (b ∷ bs) h = elim (Bool-cases (ltb b 256)) [
  | inl t ↦ (ltb→lt b 256 t, checked bs (rw t at h))
  | inr f ↦ absurd (cc)
]

inquiry-IsByte : All IsByte inquiry_cbw
inquiry-IsByte = checked inquiry_cbw refl

two_units-IsOrdinary : All (IsOrdinary pairs) two_units.luns
two_units-IsOrdinary = (small, (small, tt))
  where
    small : {b : ℕ} {k : Medium} {p : Bool} → IsOrdinary pairs (lun b k p)
    small = record {
      some_blocks = omega arith;
      few_blocks = omega arith;
      small_blocks = omega arith;
    }

handle_cbw_lem_example :
    (r : Reply) × (s : Msc Bytes) × (calls : List Call) × (handle_cbw pairs two_units inquiry_cbw
      ≡ some (s, calls))
    × (wanted pairs
          (record two_units { cbw_in = announces_in inquiry_cbw })
          (from_le (take 4 (drop 8 inquiry_cbw)))
          (block inquiry_cbw)
          (get_elem? two_units.luns (bit_and (get_or inquiry_cbw 13 0) 0x0F))
        ≡ some r)
    × Accords (get_or (block inquiry_cbw) 0 0) r
    × Answered true tag_bytes 36 r calls s.pending
unfolding usbip_python.Msc.Bot.same_bytes from_le
handle_cbw_lem_example =
    handle_cbw_lem pairs two_units inquiry_cbw refl (omega arith) two_units-IsOrdinary refl refl
      inquiry-IsByte (omega arith)

host_run-Protected_example :
    Protected pairs two_units.luns
      (host_run pairs two_units
        (out (write_cbw 0 1) ∷ out (7 ∷ 8 ∷ []) ∷ out (write_cbw 1 1) ∷ [])).luns
    × WriteFits pairs
        (host_run pairs two_units
          (out (write_cbw 0 1) ∷ out (7 ∷ 8 ∷ []) ∷ out (write_cbw 1 1) ∷ [])).luns
        (host_run pairs two_units
          (out (write_cbw 0 1) ∷ out (7 ∷ 8 ∷ []) ∷ out (write_cbw 1 1) ∷ [])).pending
host_run-Protected_example =
    host_run-Protected pairs two_units
      (out (write_cbw 0 1) ∷ out (7 ∷ 8 ∷ []) ∷ out (write_cbw 1 1) ∷ []) refl
