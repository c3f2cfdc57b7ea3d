-- ===== src/Msc/Scsi/Returns.antt =====
-- Every command returns, for a block of three bytes at least and a medium of ordinary size.
use Prim.Native.Nat.{bit_and}
use usbip_python.Base.{
  ℕ, ◌^◌, ◌≤◌, ◌<◌, ◌≡◌, ◌⊎◌, arith, Bool, true, false, ◌&&◌, ◌||◌, List, [], ◌∷◌, Option, some,
  ◌>>=◌, ◌==◌, if◌then◌else◌, Bool-cases, inl, inr,
}
use usbip_python.Struct.{Bytes, big, pack, Field, Fits}
use usbip_python.Struct.Laws.{pack-Fits_lem}
use usbip_python.Msc.{
  Store, Medium, disk, cdrom, floppy, Lun, Msc, is_cdrom, is_floppy, floppy_formats, floppy_format,
}
use usbip_python.Msc.Pages.{
  capacity, capacity_desc, formattable, format_capacities, flex_disk_page, mode_pages, mode_sense,
  geometry, geometry_page,
}
use usbip_python.Msc.Scsi.{
  with_unit, inquire, mode_command, service_action, rare_command, command, dispatch, is_no_op,
  op_test_unit_ready, op_inquiry, op_read_capacity_10, op_read_10, op_read_12, op_write_10,
  op_write_12, op_request_sense,
}

-- From 1 to 2^32 blocks of less than 64 KiB.
pub record IsOrdinary {M : Type 0} (store : Store M) (u : Lun M) : Type 0 where
  pub some_blocks : 1 ≤ store.num_blocks u.medium_state
  pub few_blocks : store.num_blocks u.medium_state < 2 ^ 32
  pub small_blocks : store.block_size u.medium_state < 2 ^ 16

-- The call returns.
pub data Returned {A : Type 0} : Option A → Type 0 where
  returned : (a : A) → Returned (some a)

pack-Returned : (fs : List Field) → Fits fs → Returned (pack big fs)
pack-Returned fs f = rw (pack-Fits_lem big fs f) (returned _)

bind-Returned :
    {A B : Type 0} (o : Option A) (f : A → Option B)
    → Returned o
    → ((a : A) → Returned (f a))
    → Returned (o >>= f)
bind-Returned o f (returned a) g = g a

if-Returned :
    {A : Type 0} (b : Bool) (x y : Option A)
    → Returned x
    → Returned y
    → Returned (if b then x else y)
if-Returned true x y r t = r
if-Returned false x y r t = t

formattable-Returned : Returned (formattable floppy_formats)
unfolding formattable capacity_desc pack
formattable-Returned = returned _

abbrev Small : ℕ × ℕ × ℕ × ℕ → Type 0
Small (cylinders, heads, sectors, rate) =
    (cylinders < 2 ^ 16) × (heads < 256) × (sectors < 256) × (rate < 2 ^ 16)

geometry-Small : (blocks bs : ℕ) → Small (geometry blocks (floppy_format blocks bs))
unfolding floppy_format
geometry-Small blocks bs = ground arith

geometry_page-Returned :
    (bs : ℕ) (g : ℕ × ℕ × ℕ × ℕ) → bs < 2 ^ 16 → Small g → Returned (geometry_page bs g)
unfolding geometry_page
geometry_page-Returned bs (cylinders, heads, sectors, rate) h small =
    bind-Returned (pack big _) _ (pack-Returned _ (omega arith)) (λ fields. (returned _))

flex_disk_page-Returned : (blocks bs : ℕ) → bs < 2 ^ 16 → Returned (flex_disk_page blocks bs)
unfolding flex_disk_page
flex_disk_page-Returned blocks bs h =
    geometry_page-Returned bs (geometry blocks (floppy_format blocks bs)) h
      (geometry-Small blocks bs)

module _ {M : Type 0} (store : Store M) (u : Lun M) (o : IsOrdinary store u) where
  capacity-Returned : (k : ℕ) → 2 ^ 32 ≤ 256 ^ k → Returned (capacity store k u)
  unfolding capacity
  capacity-Returned k h = elim (Bool-cases (store.num_blocks u.medium_state == 0)) [
    | inl t ↦ absurd (ground (arith, o.some_blocks))
    | inr f ↦ rw f (pack-Returned _ (omega (arith, o.few_blocks, o.small_blocks)))
  ]

  format_capacities-Returned : Returned (format_capacities store u)
  unfolding format_capacities capacity_desc
  format_capacities-Returned =
      bind-Returned (pack big _) _ (pack-Returned _ (omega (arith, o.few_blocks, o.small_blocks)))
        (λ current.
          bind-Returned (if is_floppy u.medium then formattable floppy_formats else some []) _
            (others u.medium) (λ rest. (returned _)))
    where
      others : (m : Medium) → Returned (if is_floppy m then formattable floppy_formats else some [])
      others disk = returned _
      others cdrom = returned _
      others floppy = formattable-Returned

  mode_pages-Returned :
      (page : ℕ) → Returned (if is_floppy u.medium then mode_pages store u page else some [])
  unfolding mode_pages
  mode_pages-Returned page = asked u.medium (Bool-cases (page == 0x05 || page == 0x3F))
    where
      asked :
          (m : Medium)
          → ((page == 0x05 || page == 0x3F) ≡ true) ⊎ ((page == 0x05 || page == 0x3F) ≡ false)
          → Returned (if is_floppy m then mode_pages store u page else some [])
      asked disk c = returned _
      asked cdrom c = returned _
      asked floppy (inl t) = rw t (
          flex_disk_page-Returned (store.num_blocks u.medium_state)
            (store.block_size u.medium_state) o.small_blocks)
      asked floppy (inr f) = rw f (returned _)

  mode_sense-Returned : (long : Bool) (page : ℕ) → Returned (mode_sense store u long page)
  unfolding mode_sense
  mode_sense-Returned long page =
      bind-Returned _ _ (mode_pages-Returned page) (λ pages. (returned _))

  with_unit-Returned : (bs : Option Bytes) → Returned bs → Returned (with_unit u bs)
  with_unit-Returned bs (returned b) = returned _

  inquire-Returned :
      (s : Msc M) (op flags page : ℕ) (rest : Bytes)
      → Returned (inquire store s u (op ∷ flags ∷ page ∷ rest))
  unfolding inquire
  inquire-Returned s op flags page rest =
      if-Returned (bit_and flags 0x01 == 0) _ _ (returned _) (returned _)

  service_action-Returned :
      (op flags : ℕ) (rest : Bytes) → Returned (service_action store u (op ∷ flags ∷ rest))
  unfolding service_action
  service_action-Returned op flags rest =
      if-Returned (bit_and flags 0x1F == 0x10) _ _
        (bind-Returned (capacity store 8 u) _ (capacity-Returned 8 (omega arith))
          (λ c. (returned _)))
        (returned _)

  rare :
      (s : Msc M) (dlen op flags page : ℕ) (rest : Bytes)
      → Returned (rare_command store u dlen op (op ∷ flags ∷ page ∷ rest))
  unfolding rare_command mode_command
  rare s dlen op flags page rest =
      if-Returned (op == 0x1A || op == 0x5A) _ _
        (with_unit-Returned _ (mode_sense-Returned (op == 0x5A) (bit_and page 0x3F)))
        (if-Returned (op == 0x04) _ _ (returned _) (
          if-Returned (is_no_op op) _ _ (returned _) (
            if-Returned (op == 0x43 && is_cdrom u.medium) _ _ (returned _) (
              if-Returned (op == 0x46 && is_cdrom u.medium) _ _ (returned _)
                (if-Returned (op == 0x4A) _ _ (returned _) (returned _))))))

  -- A block of three bytes at least returns, whatever it asks for.
  pub dispatch-Returned :
      (s : Msc M) (dlen op flags page : ℕ) (rest : Bytes)
      → Returned (dispatch store s u dlen (op ∷ flags ∷ page ∷ rest))
  unfolding dispatch command
  dispatch-Returned s dlen op flags page rest =
      if-Returned (op == op_test_unit_ready) _ _ (returned _) (
        if-Returned (op == op_inquiry) _ _ (inquire-Returned s op flags page rest) (
          if-Returned (op == 0x23) _ _ (with_unit-Returned _ format_capacities-Returned) (
            if-Returned (op == op_read_capacity_10) _ _
              (with_unit-Returned _ (capacity-Returned 4 (omega arith)))
              (if-Returned (op == 0x9E) _ _ (service_action-Returned op flags (page ∷ rest)) (
                if-Returned (op == op_read_10 || op == op_read_12) _ _ (returned _) (
                  if-Returned (op == op_write_10 || op == op_write_12) _ _ (returned _) (
                    if-Returned (op == op_request_sense) _ _ (returned _)
                      (rare s dlen op flags page rest))))))))
