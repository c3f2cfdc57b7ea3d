-- ===== src/Tests/HostMsc.antt =====
-- usbip/classes/host/msc.py: the driver with the device class.
use usbip_python.Base.{◌≡◌, refl, false, [], ◌∷◌, none}
use usbip_python.Struct.{Bytes}
use usbip_python.HostMsc.{
  got, failed, Drive, MscDriver, ◌>>=◌, new_driver, max_lun, read_blocks, write_blocks,
  read_capacity,
}
use usbip_python.HostMsc.Loop.{Link, loop}
use usbip_python.Tests.Msc.{pairs, two_units}

abbrev start : MscDriver × Link Bytes
start = (
  new_driver none,
  record { device = two_units; queue = []; in_halted = false; out_halted = false },
)

-- Two blocks are written to the disk and read again.
abbrev session : Drive (Link Bytes) Bytes
session = do
  count ← write_blocks (loop pairs) 1 (5 ∷ 6 ∷ 7 ∷ 8 ∷ []) 2 0
  read_blocks (loop pairs) 1 count 2 0

session_reads : (session start).0 ≡ got (5 ∷ 6 ∷ 7 ∷ 8 ∷ [])
unfolding write_blocks usbip_python.Struct.pack new_driver usbip_python.Struct.to_le loop
    usbip_python.Msc.Bot.on_out usbip_python.Msc.Scsi.dispatch usbip_python.Msc.Scsi.lba_count
    usbip_python.Struct.from_le usbip_python.Msc.Bot.csw read_blocks
session_reads = refl

-- A WRITE to the CD-ROM fails, and the halt of its data phase is cleared.
refused_write : (write_blocks (loop pairs) 1 (5 ∷ 6 ∷ []) 2 1 start).0 ≡ failed
unfolding write_blocks usbip_python.Struct.pack new_driver usbip_python.Struct.to_le loop
    usbip_python.Msc.Bot.on_out usbip_python.Msc.Scsi.dispatch usbip_python.Msc.Bot.csw
    usbip_python.Struct.from_le
refused_write = refl

halt_cleared : (write_blocks (loop pairs) 1 (5 ∷ 6 ∷ []) 2 1 start).1.1.out_halted ≡ false
unfolding write_blocks usbip_python.Struct.pack new_driver usbip_python.Struct.to_le loop
    usbip_python.Msc.Bot.on_out usbip_python.Msc.Scsi.dispatch usbip_python.Msc.Bot.csw
    usbip_python.Struct.from_le
halt_cleared = refl

capacity_read : (read_capacity (loop pairs) 1 start).0 ≡ got (4, 2)
unfolding read_capacity usbip_python.Struct.pack new_driver loop usbip_python.Msc.Bot.on_out
    usbip_python.Struct.to_le usbip_python.Msc.Scsi.dispatch usbip_python.Msc.Pages.capacity
    usbip_python.Msc.Bot.csw usbip_python.Struct.from_le
capacity_read = refl

last_unit : (max_lun (loop pairs) start).0 ≡ got 1
unfolding max_lun loop usbip_python.Msc.Bot.on_control
last_unit = refl
