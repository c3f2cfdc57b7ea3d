-- ===== src/Msc/Scsi/Kinds.antt =====
-- usbip/classes/device/msc.py, `_dispatch`: which commands have data, and in which direction.
use Prim.Native.Nat.{bit_and}
use usbip_python.Base.{
  ℕ, ◌≡◌, refl, arith, Bool, true, false, ◌&&◌, ◌||◌, ◌∷◌, Option, none, some, ◌>>=◌, ◌==◌,
  if◌then◌else◌, get_elem?,
}
use usbip_python.Struct.{Bytes}
use usbip_python.Msc.{Store, is_cdrom, Lun, Msc}
use usbip_python.Msc.Pages.{vpd, capacity}
use usbip_python.Msc.Scsi.{
  Reply, passes, gives, fails, receives, is_no_op, page_or_fail, with_unit, inquire, out_of_range,
  lba_count, read_command, write_command, mode_command, service_action, rare_command, command,
  dispatch, op_test_unit_ready, op_inquiry, op_read_capacity_10, op_read_10, op_read_12,
  op_write_10, op_write_12, op_request_sense,
}

-- TEST UNIT READY, FORMAT UNIT and the commands that have nothing to do.
abbrev pub has_no_data : ℕ → Bool
has_no_data op = op == 0x00 || (op == 0x04 || is_no_op op)

-- WRITE(10) and WRITE(12).
abbrev pub takes_data : ℕ → Bool
takes_data op = op == 0x2A || op == 0xAA

-- The way a command goes on that succeeds is that of its operation code.
abbrev pub Accords : ℕ → Reply → Type 0
Accords op passes = has_no_data op ≡ true
Accords op (gives bs) = (has_no_data op ≡ false) × (takes_data op ≡ false)
Accords op (fails sense) = Unit
Accords op (receives lba count) = takes_data op ≡ true

abbrev pub Suits : {M : Type 0} → ℕ → Option (Lun M × Reply) → Type 0
Suits op none = Unit
Suits op (some (u, r)) = Accords op r

abbrev Gives : ℕ → Type 0
Gives op = (has_no_data op ≡ false) × (takes_data op ≡ false)

if-Suits :
    {M : Type 0} (op : ℕ) (b : Bool) (x y : Option (Lun M × Reply))
    → (b ≡ true → Suits op x)
    → (b ≡ false → Suits op y)
    → Suits op (if b then x else y)
if-Suits op true x y f g = f refl
if-Suits op false x y f g = g refl

bind-Suits :
    {A M : Type 0} (op : ℕ) (o : Option A) (f : A → Option (Lun M × Reply))
    → ((a : A) → Suits op (f a))
    → Suits op (o >>= f)
bind-Suits op none f h = tt
bind-Suits op (some a) f h = h a

with_unit-Suits :
    {M : Type 0} (op : ℕ) (u : Lun M) (o : Option Bytes) → Gives op → Suits op (with_unit u o)
with_unit-Suits op u none g = tt
with_unit-Suits op u (some bs) g = g

page-Accords : (op : ℕ) (o : Option Bytes) → Gives op → Accords op (page_or_fail o)
page-Accords op none g = tt
page-Accords op (some bs) g = g

if-Accords :
    (op : ℕ) (b : Bool) (x y : Reply)
    → Accords op x
    → Accords op y
    → Accords op (if b then x else y)
if-Accords op true x y f g = f
if-Accords op false x y f g = g

module _ {M : Type 0} (store : Store M) (s : Msc M) (u : Lun M) where
  inquire-Suits : (op : ℕ) (cdb : Bytes) → Gives op → Suits op (inquire store s u cdb)
  unfolding inquire
  inquire-Suits op cdb g = bind-Suits op (get_elem? cdb 1) _ (λ flags.
      if-Suits op (bit_and flags 0x01 == 0) _ _ (λ _. g)
        (λ _. bind-Suits op (get_elem? cdb 2) _ (λ page. page-Accords op (vpd u page) g)))

  service_action-Suits : (op : ℕ) (cdb : Bytes) → Gives op → Suits op (service_action store u cdb)
  unfolding service_action
  service_action-Suits op cdb g = bind-Suits op (get_elem? cdb 1) _ (λ action.
      if-Suits op (bit_and action 0x1F == 0x10) _ _
        (λ _. bind-Suits op (capacity store 8 u) _ (λ _. g)) (λ _. tt))

  read-Accords : (op : ℕ) (cdb : Bytes) → Gives op → Accords op (read_command store u cdb)
  unfolding read_command
  read-Accords op cdb g = if-Accords op (out_of_range store u (lba_count cdb)) _ _ tt g

  write-Accords :
      (op : ℕ) (cdb : Bytes) → takes_data op ≡ true → Accords op (write_command store u cdb)
  unfolding write_command
  write-Accords op cdb w =
      if-Accords op u.read_only _ _ tt
        (if-Accords op (out_of_range store u (lba_count cdb)) _ _ tt w)

  rare-Suits : (dlen op : ℕ) (cdb : Bytes) → Suits op (rare_command store u dlen op cdb)
  unfolding rare_command mode_command
  rare-Suits dlen op cdb =
      if-Suits op (op == 0x1A || op == 0x5A) _ _
        (λ t. bind-Suits op (get_elem? cdb 2) _ (λ page. with_unit-Suits op u _ (ground arith)))
        (λ _.
          if-Suits op (op == 0x04) _ _ (λ t. if-Accords op u.read_only _ _ tt (ground arith))
            (λ _.
              if-Suits op (is_no_op op) _ _ (λ t. ground arith)
                (λ _.
                  if-Suits op (op == 0x43 && is_cdrom u.medium) _ _ (λ t. ground arith)
                    (λ _.
                      if-Suits op (op == 0x46 && is_cdrom u.medium) _ _ (λ t. ground arith)
                        (λ _. if-Suits op (op == 0x4A) _ _ (λ t. ground arith) (λ _. tt))))))

  pub command-Suits : (dlen op : ℕ) (cdb : Bytes) → Suits op (command store s u dlen op cdb)
  unfolding command
  command-Suits dlen op cdb =
      if-Suits op (op == op_test_unit_ready) _ _ (λ t. ground arith)
        (λ _.
          if-Suits op (op == op_inquiry) _ _ (λ t. inquire-Suits op cdb (ground arith))
            (λ _.
              if-Suits op (op == 0x23) _ _ (λ t. with_unit-Suits op u _ (ground arith))
                (λ _.
                  if-Suits op (op == op_read_capacity_10) _ _
                    (λ t. with_unit-Suits op u _ (ground arith))
                    (λ _.
                      if-Suits op (op == 0x9E) _ _ (λ t. service_action-Suits op cdb (ground arith))
                        (λ _.
                          if-Suits op (op == op_read_10 || op == op_read_12) _ _
                            (λ t. read-Accords op cdb (ground arith))
                            (λ _.
                              if-Suits op (op == op_write_10 || op == op_write_12) _ _
                                (λ t. write-Accords op cdb (ground arith))
                                (λ _.
                                  if-Suits op (op == op_request_sense) _ _ (λ t. ground arith)
                                    (λ _. rare-Suits dlen op cdb))))))))

  pub dispatch-Suits : (dlen op : ℕ) (rest : Bytes) → Suits op (dispatch store s u dlen (op ∷ rest))
  unfolding dispatch
  dispatch-Suits dlen op rest = command-Suits dlen op (op ∷ rest)
