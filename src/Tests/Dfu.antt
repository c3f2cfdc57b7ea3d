-- ===== src/Tests/Dfu.antt =====
-- usbip/classes/device/dfu.py: runs of the class over targets of eight bytes.
use usbip_python.Base.{
  ℕ, ◌+◌, ◌≡◌, inl, inr, refl, ap, arith, List, [], ◌∷◌, ◌++◌, some, length, take, drop,
  if◌then◌else◌, leb, le→leb, take-all,
}
use usbip_python.Struct.{Bytes}
use usbip_python.Core.Setup.{Setup}
use usbip_python.Core.MsOs.{codes}
use usbip_python.Device.State.{reply}
use usbip_python.Dfu.{
  dfu_idle, stored, refused, full, Backend, Target, Dfu, attr_default, new, on_control,
  descriptor_block,
}
use usbip_python.Dfu.Machine.{
  DfuOp, control, select, dfu_run, IsValid, idle, ReportsErrors, dfu_run-IsValid,
}
use usbip_python.Dfu.Errors.{Idles, refused_block_lem}
use usbip_python.Dfu.Transfer.{request, send_image, fetch_image}
use usbip_python.Dfu.Download.{IsByteStore}
use usbip_python.Dfu.RoundTrip.{fetch-send_image}

abbrev eight_bytes : Backend Bytes
eight_bytes = record {
  write =
      λ c offset bs. if leb (offset + length bs) 8 then stored (take offset c ++ bs) else full c;
  read = λ c offset size. some (take size (drop offset c));
  begin_download = λ c. [];
  finish_download = λ c. c;
}

abbrev eight_bytes_store : IsByteStore eight_bytes
eight_bytes_store = record {
  contents = λ c. c;
  capacity = λ c. 8;
  begin_empties = λ c. refl;
  begin_capacity = λ c. refl;
  write_appends = λ c offset bs at_end fits. (
    take offset c ++ bs,
    rw (le→leb (offset + length bs) 8 fits) refl,
    ap (λ (i : Bytes). i ++ bs) (take-all offset c (omega arith)),
    refl,
  );
  read_slice = λ c offset size. refl;
  finish_contents = λ c. refl;
  finish_capacity = λ c. refl;
}

abbrev target : Target Bytes
target = record { name = codes "flash"; i_string = 4; content = 9 ∷ 9 ∷ [] }

-- Blocks of two bytes.
abbrev interface : Dfu Bytes
interface = new (target ∷ []) 2 attr_default 1000

alternates :
    descriptor_block 1 interface
    ≡ some (9 ∷ 4 ∷ 1 ∷ 0 ∷ 0 ∷ 0xFE ∷ 1 ∷ 2 ∷ 4 ∷ 9 ∷ 0x21 ∷ 7 ∷ 0xE8 ∷ 3 ∷ 2 ∷ 0 ∷ 0x10 ∷ 1 ∷ [])
unfolding descriptor_block new usbip_python.Core.InterfaceDescriptor.pack usbip_python.Struct.pack
    usbip_python.Struct.to_le
alternates = refl

-- A block beyond the capacity: IndexError is errADDRESS.
beyond_the_end :
    (on_control eight_bytes
      (on_control eight_bytes interface (request 0x21 1 4 1) (1 ∷ [])).1
      (request 0xA1 3 0 6)
      []).0
    ≡ reply (8 ∷ 0 ∷ 0 ∷ 0 ∷ 10 ∷ 0 ∷ [])
unfolding on_control new
beyond_the_end = refl

abbrev image : Bytes
image = 1 ∷ 2 ∷ 3 ∷ 4 ∷ 5 ∷ []

fetch-send_image_example :
    (s s' : Dfu Bytes) × (send_image eight_bytes 4 interface 0 image ≡ some s)
    × (s.state ≡ dfu_idle)
    × (s.status ≡ 0)
    × (fetch_image eight_bytes 4 s 0 ≡ some (image, s'))
unfolding new
fetch-send_image_example =
    fetch-send_image eight_bytes eight_bytes_store 3 interface target image refl (omega arith)
      (omega arith) (omega arith) (omega arith) (omega arith) (omega arith)

-- Every block is refused with errWRITE.
abbrev worn_out : Backend Bytes
worn_out = record eight_bytes { write = λ c offset bs. refused 3 c }

abbrev session : List DfuOp
session =
    control (request 0x21 1 0 1) (7 ∷ [])
    ∷ control (request 0xA1 3 0 6) []
    ∷ select 0
    ∷ control (request 0xA1 2 0 2) []
    ∷ []

worn_out_errors : (c : Bytes) (offset : ℕ) (bs : Bytes) → ReportsErrors (worn_out.write c offset bs)
worn_out_errors c offset bs = (omega arith, omega arith)

interface-IsValid : IsValid interface
unfolding new
interface-IsValid = record { in_phase = idle; selected = omega arith }

dfu_run-IsValid_example : IsValid (dfu_run worn_out interface session)
dfu_run-IsValid_example =
    dfu_run-IsValid worn_out worn_out_errors interface session interface-IsValid

abbrev block : Setup
block = request 0x21 1 0 1

abbrev polls : List DfuOp
polls = control (request 0xA1 5 0 1) [] ∷ []

refused_block_lem_example :
    ((on_control worn_out interface block (7 ∷ [])).0 ≡ reply [])
    × ((on_control worn_out
          (dfu_run worn_out (on_control worn_out interface block (7 ∷ [])).1 polls)
          (request 0xA1 3 0 6)
          []).0
        ≡ reply (3 ∷ 0 ∷ 0 ∷ 0 ∷ 10 ∷ 0 ∷ []))
    × Idles
        (on_control worn_out
          (dfu_run worn_out (on_control worn_out interface block (7 ∷ [])).1 polls)
          (request 0x21 4 0 0)
          []).1
unfolding new
refused_block_lem_example =
    refused_block_lem worn_out interface target block (request 0xA1 3 0 6) (request 0x21 4 0 0) 7 []
      3 [] polls refl (refl, refl) refl (omega arith) (inr (inr (refl, refl)), tt) (refl, refl)
      (inl (refl, refl))
