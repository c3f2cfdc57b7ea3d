-- ===== src/Msc/Pages.antt =====
-- usbip/classes/device/msc.py: the data that SCSI commands return. `none` is an exception of a
-- conversion to bytes.
use usbip_python.Base.{
  ℕ, ◌+◌, ◌-◌, ◌*◌, ◌/◌, min, Bool, true, false, ◌||◌, List, [], ◌∷◌, ◌++◌, map, Option, none, some,
  ◌>>=◌, ◌==◌, if◌then◌else◌, ltb, length, take, ljust, replicate,
}
use usbip_python.Struct.{Bytes, big, pack, encode}
use usbip_python.Core.Text.{Text}
use usbip_python.Msc.{
  Store, is_cdrom, is_floppy, FloppyFormat, floppy_block_size, floppy_formats, floppy_format, Lun,
  Msc, sense_ok,
}

-- text.encode("ascii", "replace")
abbrev pub ascii : Text → Bytes
ascii t = map (λ c. if ltb c 128 then c else 63) t

abbrev pub pdt : {M : Type 0} → Lun M → ℕ
pdt u = if is_cdrom u.medium then 0x05 else 0x00

vpd_page : ℕ → ℕ → Bytes → Bytes
vpd_page kind page body = kind ∷ page ∷ 0x00 ∷ length body ∷ body

-- _vpd(unit, page)
unfoldable pub vpd : {M : Type 0} → Lun M → ℕ → Option Bytes
unfolding vpd_page
vpd u page =
    if page == 0x00
    then some (vpd_page (pdt u) page (0x00 ∷ 0x80 ∷ []))
    else if page == 0x80
    then some (vpd_page (pdt u) page (take 20 (ascii u.serial)))
    else none

-- Block count, type, 3-byte block size.
unfoldable pub capacity_desc : ℕ → ℕ → ℕ → Option Bytes
capacity_desc blocks bs kind = pack big ((4, blocks) ∷ (1, kind) ∷ (3, bs) ∷ [])

unfoldable pub formattable : List FloppyFormat → Option Bytes
unfolding capacity_desc
formattable [] = some []
formattable (f ∷ fs) = do
  d ← capacity_desc f.blocks floppy_block_size 0x00
  ds ← formattable fs
  some (d ++ ds)

-- buf[i : i + n] of a text field: `text.ljust(n)[:n]`.
abbrev pub text_field : ℕ → Text → Bytes
text_field n t = ascii (take n (ljust n 0x20 t))

-- _inquiry(unit)
unfoldable pub inquiry : {M : Type 0} → Msc M → Lun M → Bytes
inquiry s u =
    pdt u
    ∷ 0x80
    ∷ 0x04
    ∷ 0x02
    ∷ 31
    ∷ 0
    ∷ 0
    ∷ 0
    ∷ (text_field 8 s.vendor ++ (text_field 16 u.product ++ text_field 4 s.revision))

-- _request_sense(unit): the data, and the unit with its sense cleared.
unfoldable pub request_sense : {M : Type 0} → Lun M → Bytes × Lun M
request_sense u = (
  0x70 ∷ 0 ∷ u.sense.0 ∷ 0 ∷ 0 ∷ 0 ∷ 0 ∷ 10 ∷ 0 ∷ 0 ∷ 0 ∷ 0 ∷ u.sense.1 ∷ u.sense.2 ∷ 0 ∷ 0 ∷ 0 ∷ 0
      ∷ [],
  record u { sense = sense_ok },
)

-- Cylinders, heads, sectors, rate: of the standard format, or 1.44M's for an odd image.
abbrev pub geometry : ℕ → Option FloppyFormat → ℕ × ℕ × ℕ × ℕ
geometry blocks (some f) = (f.cylinders, f.heads, f.sectors, f.rate)
geometry blocks none = (min (blocks / (2 * 18)) 0xFFFF, 2, 18, 500)

unfoldable pub geometry_page : ℕ → ℕ × ℕ × ℕ × ℕ → Option Bytes
geometry_page bs (cylinders, heads, sectors, rate) = do
  fields ← pack big ((2, rate) ∷ (1, heads) ∷ (1, sectors) ∷ (2, bs) ∷ (2, cylinders) ∷ [])
  some (0x05 ∷ 0x1E ∷ (fields ++ (replicate 18 0 ++ (encode big 2 300 ++ (0 ∷ 0 ∷ [])))))

-- _flex_disk_page(unit)
unfoldable pub flex_disk_page : ℕ → ℕ → Option Bytes
unfolding geometry_page floppy_format
flex_disk_page blocks bs = geometry_page bs (geometry blocks (floppy_format blocks bs))

abbrev type_of : Option FloppyFormat → ℕ
type_of none = 0x00
type_of (some f) = f.medium_type

-- The header of MODE SENSE(10) or (6), whose first field counts all that follows it.
abbrev pub mode_header : Bool → ℕ → ℕ → ℕ → Bytes
mode_header true kind wp n = encode big 2 (8 + n - 2) ++ (kind ∷ wp ∷ 0 ∷ 0 ∷ 0 ∷ 0 ∷ [])
mode_header false kind wp n = (4 + n - 1) ∷ kind ∷ wp ∷ 0 ∷ []

module _ {M : Type 0} (store : Store M) where
  -- _format_capacities(unit)
  unfoldable pub format_capacities : Lun M → Option Bytes
  unfolding capacity_desc formattable
  format_capacities u = do
    current ← capacity_desc (store.num_blocks u.medium_state) (store.block_size u.medium_state) 0x02
    others ← if is_floppy u.medium then formattable floppy_formats else some []
    some (0 ∷ 0 ∷ 0 ∷ length (current ++ others) ∷ (current ++ others))

  unfoldable pub mode_pages : Lun M → ℕ → Option Bytes
  unfolding flex_disk_page
  mode_pages u page =
      if page == 0x05 || page == 0x3F
      then flex_disk_page (store.num_blocks u.medium_state) (store.block_size u.medium_state)
      else some []

  -- _mode_sense(unit, long_header, page)
  unfoldable pub mode_sense : Lun M → Bool → ℕ → Option Bytes
  unfolding mode_pages floppy_format
  mode_sense u long_header page = do
    pages ← if is_floppy u.medium then mode_pages u page else some []
    let kind =
        if is_floppy u.medium
        then type_of
            (floppy_format (store.num_blocks u.medium_state) (store.block_size u.medium_state))
        else 0x00
    some (mode_header long_header kind (if u.read_only then 0x80 else 0x00) (length pages) ++ pages)

  -- READ CAPACITY(10) and (16): the last block and the block size.
  unfoldable pub capacity : ℕ → Lun M → Option Bytes
  capacity width u =
      if store.num_blocks u.medium_state == 0
      then none
      else pack big
          ((width, store.num_blocks u.medium_state - 1) ∷ (4, store.block_size u.medium_state) ∷ [])

-- _read_toc()
abbrev pub read_toc : Bytes
read_toc =
    0x00 ∷ 0x12 ∷ 0x01 ∷ 0x01 ∷ 0x00 ∷ 0x14 ∷ 0x01 ∷ 0x00 ∷ 0x00 ∷ 0x00 ∷ 0x00 ∷ 0x00 ∷ 0x00 ∷ 0x14
    ∷ 0xAA ∷ 0x00 ∷ 0x00 ∷ 0x00 ∷ 0x00 ∷ 0x00 ∷ []

-- _get_configuration()
abbrev pub configuration : Bytes
configuration = 0x00 ∷ 0x00 ∷ 0x00 ∷ 0x00 ∷ 0x00 ∷ 0x00 ∷ 0x00 ∷ 0x08 ∷ []
