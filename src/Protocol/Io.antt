-- ===== src/Protocol/Io.antt =====
-- Actions on a socket that may raise. What was sent or read before a raise stays so.
use usbip_python.Base.{ℕ, Option, none, some}
use usbip_python.Struct.{Bytes}
use usbip_python.Protocol.Socket.{Socket, recvall, sendall}

-- struct.error and ValueError; core.NotFound; core.USBError; what a class above raises.
pub data Error : Type 0 where
  struct_error not_found usb_error class_error : Error

pub data Outcome {ℓ} (A : Type ℓ) : Type ℓ where
  ok : A → Outcome A
  raised : Error → Outcome A

abbrev pub Io : Type 0 → Type 0
Io A = Socket → Outcome A × Socket

abbrev pub continue : {A B : Type 0} → Outcome A → (A → Io B) → Io B
continue (ok a) f s = f a s
continue (raised e) f s = (raised e, s)

infixl 5 ◌>>=◌ ◌>>◌
abbrev pub ◌>>=◌ : {A B : Type 0} → Io A → (A → Io B) → Io B
◌>>=◌ m f s = let (r, s') = m s in continue r f s'

abbrev pub ◌>>◌ : {B : Type 0} → Io (Unit {0}) → Io B → Io B
m >> k = m >>= λ _. k

abbrev pub pure : {A : Type 0} → A → Io A
pure a s = (ok a, s)

abbrev pub raise : {A : Type 0} → Error → Io A
raise e s = (raised e, s)

-- A call of `struct` that may raise.
abbrev pub or_raise : {A : Type 0} → Error → Option A → Io A
or_raise e none = raise e
or_raise e (some a) = pure a

abbrev pub recv : ℕ → Io (Option Bytes)
recv want s = let (got, s') = recvall want s in (ok got, s')

abbrev pub send : Bytes → Io (Unit {0})
send bs s = (ok tt, sendall bs s)
