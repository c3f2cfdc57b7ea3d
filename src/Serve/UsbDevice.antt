-- ===== src/Serve/UsbDevice.antt =====
-- usbip/protocol.py: pack_usb_device and parse_usb_device, the 312 bytes that describe a device in
-- the IMPORT and DEVLIST replies.
use mathlib.Core.Option.{some-injective}
use usbip_python.Base.{
  length-replicate, ℕ, zero, suc, ◌-◌, ◌≤◌, ◌≡◌, refl, sym, ap, ◌∙◌, arith, List, [], ◌∷◌, ◌++◌,
  Option, none, some, ◌>>=◌, ◌==◌, if◌then◌else◌, length, take, drop, ljust, replicate, max,
  length-append, length-take, length-ljust, take-all, take-append_eq, drop-append_eq, >>=-some,
  >>=-some_last, append_assoc,
}
use usbip_python.Struct.{Bytes, Field, big, pack, unpack}
use usbip_python.Struct.Laws.{unpack-pack, length-pack}
use usbip_python.Core.Text.{Text, utf8}
use usbip_python.Core.Decode.{decode_text, IsAscii, decode-ascii, utf8-ascii}
use usbip_python.Core.MsOs.{codes}
use usbip_python.Device.State.{State, Profile}

-- A device that a listener exports, with its identity on the bus. `num_interfaces` of the profile is
-- the device's property of that name.
pub record Exported (W : Type 0) : Type 0 where
  pub busid : Option Text
  pub busnum : ℕ
  pub devnum : ℕ
  pub speed : ℕ
  pub profile : Profile W
  pub state : State W

-- `x or d`
abbrev pub or_default : ℕ → ℕ → ℕ
or_default d n = if n == 0 then d else n

abbrev pub or_lone : Option Text → Text
or_lone (some (c ∷ cs)) = c ∷ cs
or_lone _ = codes "1-1"

abbrev pub busid_of : {W : Type 0} → Exported W → Text
busid_of d = or_lone d.busid

-- WIRE_SPEED.get(speed, 2)
unfoldable pub wire_speed : ℕ → ℕ
wire_speed n =
    if n == 0 then 1 else if n == 1 then 2 else if n == 2 then 3 else if n == 3 then 5 else 2

-- The format `ns`: cut or filled up with zero bytes.
unfoldable pub fixed : ℕ → Bytes → Bytes
fixed n bs = take n (ljust n 0 bs)

abbrev pub sys_path : Bytes
sys_path = codes "/sys/devices/platform/vhci_hcd.0/usb1/"

abbrev pub usb_device_fields : {W : Type 0} → Exported W → List Field
usb_device_fields d =
    (4, or_default 1 d.busnum)
    ∷ (4, or_default 2 d.devnum)
    ∷ (4, wire_speed d.speed)
    ∷ (2, d.profile.vid)
    ∷ (2, d.profile.pid)
    ∷ (2, d.profile.bcd_device)
    ∷ (1, d.profile.device_class)
    ∷ (1, d.profile.device_subclass)
    ∷ (1, d.profile.device_protocol)
    ∷ (1, 1)
    ∷ (1, 1)
    ∷ (1, max 1 d.profile.num_interfaces)
    ∷ []

unfoldable pub pack_usb_device : {W : Type 0} → Exported W → Option Bytes
pack_usb_device d = do
  name ← utf8 (busid_of d)
  rest ← pack big (usb_device_fields d)
  some (fixed 256 (sys_path ++ name) ++ (fixed 32 name ++ rest))

-- The dict that parse_usb_device returns.
pub record UsbInfo : Type 0 where
  pub busid : Text
  pub busnum : ℕ
  pub devnum : ℕ
  pub speed : ℕ
  pub id_vendor : ℕ
  pub id_product : ℕ
  pub bcd_device : ℕ
  pub b_num_configurations : ℕ
  pub b_num_interfaces : ℕ

-- raw.split(b"\0")[0]
unfoldable pub until_nul : Bytes → Bytes
until_nul [] = []
until_nul (b ∷ bs) = let rest = b ∷ until_nul bs in if b == 0 then [] else rest

abbrev info_of : Bytes → List ℕ → Option UsbInfo
info_of name (bus ∷ dev ∷ speed ∷ vid ∷ pid ∷ bcd ∷ _ ∷ _ ∷ _ ∷ _ ∷ ncfg ∷ nif ∷ []) =
    some (record {
      busid = decode_text (until_nul name);
      busnum = bus;
      devnum = dev;
      speed = speed;
      id_vendor = vid;
      id_product = pid;
      bcd_device = bcd;
      b_num_configurations = ncfg;
      b_num_interfaces = nif;
    })
info_of name _ = none

abbrev number_sizes : List ℕ
number_sizes = 4 ∷ 4 ∷ 4 ∷ 2 ∷ 2 ∷ 2 ∷ 1 ∷ 1 ∷ 1 ∷ 1 ∷ 1 ∷ 1 ∷ []

-- The buffer must have exactly 312 bytes.
unfoldable pub parse_usb_device : Bytes → Option UsbInfo
parse_usb_device raw =
    if length raw == 312
    then (do ws ← unpack big number_sizes (drop 288 raw); info_of (take 32 (drop 256 raw)) ws)
    else none

pub length-fixed : (n : ℕ) (bs : Bytes) → length (fixed n bs) ≡ n
unfolding fixed
length-fixed n bs = omega (
  arith,
  length-take n (ljust n 0 bs),
  length-append bs (replicate (n - length bs) 0),
  length-replicate {A = ℕ} (n - length bs) 0,
)

until_nul-zeros : (n : ℕ) → until_nul (replicate n 0) ≡ []
unfolding until_nul
until_nul-zeros zero = refl
until_nul-zeros (suc n) = refl

until_nul-append : (bs zs : Bytes) → IsAscii bs → until_nul zs ≡ [] → until_nul (bs ++ zs) ≡ bs
unfolding until_nul
until_nul-append [] zs a z = z
until_nul-append (b ∷ bs) zs ((lo, hi), a) z = ground (arith, until_nul-append bs zs a z)

-- A name is what stands before the first NUL, if it is filled up with zero bytes, and if it fits.
pub until_nul-ljust : (n : ℕ) (bs : Bytes) → IsAscii bs → until_nul (ljust n 0 bs) ≡ bs
until_nul-ljust n bs a =
    until_nul-append bs (replicate (n - length bs) 0) a (until_nul-zeros (n - length bs))

pub until_nul-fixed :
    (n : ℕ) (bs : Bytes) → IsAscii bs → length bs ≤ n → until_nul (fixed n bs) ≡ bs
unfolding fixed
until_nul-fixed n bs a h =
    ap until_nul (take-all n (ljust n 0 bs) (omega (arith, length-ljust n 0 bs h)))
    ∙ until_nul-ljust n bs a

-- What the host side learns of an exported device.
abbrev pub described : {W : Type 0} → Exported W → UsbInfo
described d = record {
  busid = busid_of d;
  busnum = or_default 1 d.busnum;
  devnum = or_default 2 d.devnum;
  speed = wire_speed d.speed;
  id_vendor = d.profile.vid;
  id_product = d.profile.pid;
  bcd_device = d.profile.bcd_device;
  b_num_configurations = 1;
  b_num_interfaces = max 1 d.profile.num_interfaces;
}

-- A busid that the wire can carry: ASCII without NUL, 32 characters at most.
pub record IsBusid (t : Text) : Type 0 where
  pub ascii : IsAscii t
  pub short : length t ≤ 32

-- For a busid that the wire can carry: a packed device takes 312 bytes, and is parsed back as what
-- it is, with 1 and 2 for a bus and device number that are 0, and one interface at least.
pub parse-pack_usb_device :
    {W : Type 0} (d : Exported W) (raw : Bytes)
    → IsBusid (busid_of d)
    → pack_usb_device d ≡ some raw
    → (length raw ≡ 312) × (parse_usb_device raw ≡ some (described d))
unfolding pack_usb_device parse_usb_device
parse-pack_usb_device d raw id h =
    let name = busid_of d in
    let (got, hn, h1) = >>=-some (utf8 name) _ h in
    let (rest, hr, h2) =
      >>=-some_last (pack big (usb_device_fields d))
        (λ (rest : Bytes). fixed 256 (sys_path ++ got) ++ (fixed 32 got ++ rest)) h1 in
    let same : got ≡ name = some-injective _ _ (sym hn ∙ utf8-ascii name id.ascii) in
    let path = fixed 256 (sys_path ++ name) in
    let size : length rest ≡ 24 = length-pack big (usb_device_fields d) hr in
    let front : length (path ++ fixed 32 name) ≡ 288 = omega (
      arith,
      length-append path (fixed 32 name),
      length-fixed 256 (sys_path ++ name),
      length-fixed 32 name,
    ) in
    let whole : length (path ++ (fixed 32 name ++ rest)) ≡ 312 = omega (
      arith,
      length-append path (fixed 32 name ++ rest),
      length-append (fixed 32 name) rest,
      length-fixed 256 (sys_path ++ name),
      length-fixed 32 name,
    ) in
    let numbers : drop 288 (path ++ (fixed 32 name ++ rest)) ≡ rest =
      ap (drop 288) (sym (append_assoc path (fixed 32 name) rest))
      ∙ drop-append_eq 288 (path ++ fixed 32 name) rest front in
    let field : take 32 (drop 256 (path ++ (fixed 32 name ++ rest))) ≡ fixed 32 name =
      ap (take 32)
        (drop-append_eq 256 path (fixed 32 name ++ rest) (length-fixed 256 (sys_path ++ name)))
      ∙ take-append_eq 32 (fixed 32 name) rest (length-fixed 32 name) in
    let words = unpack-pack big (usb_device_fields d) rest hr in
    let text : decode_text (until_nul (fixed 32 name)) ≡ name =
      ap decode_text (until_nul-fixed 32 name id.ascii id.short) ∙ decode-ascii name id.ascii in
    rw (h2, same) (whole, rw (whole, numbers, field, words, text) refl)
