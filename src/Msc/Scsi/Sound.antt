-- ===== src/Msc/Scsi/Sound.antt =====
-- A command leaves the medium and the protection of its unit alone, and starts a WRITE only in range
-- and on a unit that can be written.
use Prim.Native.Nat.{bit_and}
use usbip_python.Base.{
  ℕ, ◌+◌, ◌≤◌, ◌≡◌, refl, arith, Bool, true, false, ◌&&◌, ◌||◌, [], ◌∷◌, ◌++◌, Option, none, some,
  ◌>>=◌, ◌==◌, if◌then◌else◌, ltb, Bool-cases, inl, inr, replicate,
}
use usbip_python.Struct.{Bytes}
use usbip_python.Msc.{Store, Lun, Msc, is_cdrom, sense_write_protect}
use usbip_python.Msc.Pages.{vpd, capacity, format_capacities, mode_sense, request_sense}
use usbip_python.Msc.Scsi.{
  Reply, passes, gives, fails, receives, lba_count, with_unit, inquire, page_or_fail, read_command,
  write_command, mode_command, service_action, rare_command, command, dispatch, is_no_op,
  op_test_unit_ready, op_inquiry, op_read_capacity_10, op_read_10, op_read_12, op_write_10,
  op_write_12, op_request_sense,
}

abbrev pub Fits : {M : Type 0} → Store M → Lun M → Reply → Type 0
Fits store u (receives lba count) =
    (u.read_only ≡ false) × (lba + count ≤ store.num_blocks u.medium_state)
Fits store u r = Unit {0}

pub data Sound {M : Type 0} (store : Store M) (u : Lun M) : Option (Lun M × Reply) → Type 0 where
  raises : Sound store u none
  keeps :
      (v : Lun M) (r : Reply)
      → v.medium_state ≡ u.medium_state
      → v.read_only ≡ u.read_only
      → Fits store u r
      → Sound store u (some (v, r))

module _ {M : Type 0} (store : Store M) (u : Lun M) where
  if-Sound :
      (b : Bool) (x y : Option (Lun M × Reply))
      → Sound store u x
      → Sound store u y
      → Sound store u (if b then x else y)
  if-Sound true x y r t = r
  if-Sound false x y r t = t

  same : (r : Reply) → Fits store u r → Sound store u (some (u, r))
  same r f = keeps u r refl refl f

  with_unit-Sound : (o : Option Bytes) → Sound store u (with_unit u o)
  with_unit-Sound none = raises
  with_unit-Sound (some bs) = same (gives bs) tt

  page-Fits : (o : Option Bytes) → Fits store u (page_or_fail o)
  page-Fits none = tt
  page-Fits (some bs) = tt

  inquire-Sound : (s : Msc M) (cdb : Bytes) → Sound store u (inquire store s u cdb)
  unfolding inquire
  inquire-Sound s [] = raises
  inquire-Sound s (_ ∷ []) = raises
  inquire-Sound s (_ ∷ flags ∷ []) = if-Sound (bit_and flags 0x01 == 0) _ _ (same _ tt) raises
  inquire-Sound s (_ ∷ flags ∷ page ∷ rest) =
      if-Sound (bit_and flags 0x01 == 0) _ _ (same _ tt) (same _ (page-Fits (vpd u page)))

  read_command-Fits : (cdb : Bytes) → Fits store u (read_command store u cdb)
  unfolding read_command
  read_command-Fits cdb =
      elim (Bool-cases
        (ltb (store.num_blocks u.medium_state) ((lba_count cdb).0 + (lba_count cdb).1))) [
          | inl t ↦ rw t tt
          | inr f ↦ rw f tt
        ]

  write_command-Fits : (cdb : Bytes) → Fits store u (write_command store u cdb)
  unfolding write_command
  write_command-Fits cdb = elim (Bool-cases u.read_only) [
    | inl p ↦ simp p tt
    | inr p ↦
        elim (Bool-cases
          (ltb (store.num_blocks u.medium_state) ((lba_count cdb).0 + (lba_count cdb).1))) [
            | inl t ↦ simp (p, t) tt
            | inr f ↦ simp (p, f) (refl, ground arith)
          ]
  ]

  service_action-Sound : (cdb : Bytes) → Sound store u (service_action store u cdb)
  unfolding service_action
  service_action-Sound [] = raises
  service_action-Sound (_ ∷ []) = raises
  service_action-Sound (_ ∷ action ∷ rest) =
      if-Sound (bit_and action 0x1F == 0x10) _ _ (long (capacity store 8 u)) (same _ tt)
    where
      long : (o : Option Bytes) → Sound store u (o >>= λ c. some (u, gives (c ++ replicate 20 0)))
      long none = raises
      long (some c) = same _ tt

  mode_command-Sound : (cdb : Bytes) (long : Bool) → Sound store u (mode_command store u cdb long)
  unfolding mode_command
  mode_command-Sound [] long = raises
  mode_command-Sound (_ ∷ []) long = raises
  mode_command-Sound (_ ∷ _ ∷ []) long = raises
  mode_command-Sound (_ ∷ _ ∷ page ∷ rest) long =
      with_unit-Sound (mode_sense store u long (bit_and page 0x3F))

  protected-Fits : Fits store u (if u.read_only then fails sense_write_protect else passes)
  protected-Fits = elim (Bool-cases u.read_only) [ inl p ↦ simp p tt | inr p ↦ simp p tt ]

  rare-Sound : (dlen op : ℕ) (cdb : Bytes) → Sound store u (rare_command store u dlen op cdb)
  unfolding rare_command
  rare-Sound dlen op cdb =
      if-Sound (op == 0x1A || op == 0x5A) _ _ (mode_command-Sound cdb (op == 0x5A)) (
        if-Sound (op == 0x04) _ _ (same _ protected-Fits) (
          if-Sound (is_no_op op) _ _ (same _ tt) (
            if-Sound (op == 0x43 && is_cdrom u.medium) _ _ (same _ tt) (
              if-Sound (op == 0x46 && is_cdrom u.medium) _ _ (same _ tt)
                (if-Sound (op == 0x4A) _ _ (same _ tt) (same _ tt))))))

  command-Sound :
      (s : Msc M) (dlen op : ℕ) (cdb : Bytes) → Sound store u (command store s u dlen op cdb)
  unfolding command request_sense
  command-Sound s dlen op cdb = if-Sound (op == op_test_unit_ready) _ _ (same _ tt) (
      if-Sound (op == op_inquiry) _ _ (inquire-Sound s cdb) (
        if-Sound (op == 0x23) _ _ (with_unit-Sound (format_capacities store u)) (
          if-Sound (op == op_read_capacity_10) _ _ (with_unit-Sound (capacity store 4 u)) (
            if-Sound (op == 0x9E) _ _ (service_action-Sound cdb) (
              if-Sound (op == op_read_10 || op == op_read_12) _ _ (same _ (read_command-Fits cdb)) (
                if-Sound (op == op_write_10 || op == op_write_12) _ _
                  (same _ (write_command-Fits cdb))
                  (if-Sound (op == op_request_sense) _ _ (keeps _ _ refl refl tt)
                    (rare-Sound dlen op cdb))))))))

  pub dispatch-Sound :
      (s : Msc M) (dlen : ℕ) (cdb : Bytes) → Sound store u (dispatch store s u dlen cdb)
  unfolding dispatch
  dispatch-Sound s dlen [] = raises
  dispatch-Sound s dlen (op ∷ cdb) = command-Sound s dlen op (op ∷ cdb)
