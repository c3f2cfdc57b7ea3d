-- ===== src/Serve/Handshake.antt =====
-- usbip/protocol.py: serve_handshake, client_import and client_devlist.
pub mod Import
use usbip_python.Base.{
  ℕ, zero, suc, ◌+◌, ◌*◌, Bool, true, false, ◌&&◌, List, [], ◌∷◌, ◌++◌, Option, none, some, ◌==◌,
  if◌then◌else◌, length, ljust,
}
use usbip_python.Base
use usbip_python.Struct.{Bytes, big, pack, unpack}
use usbip_python.Core.Text.{Text}
use usbip_python.Core.Decode.{decode_text}
use usbip_python.Device.Config.{Triple, interface_triples}
use usbip_python.Protocol.{version, op_req_devlist, op_rep_devlist, op_req_import, op_rep_import}
use usbip_python.Protocol.Io.{
  Io, Outcome, ◌>>=◌, ◌>>◌, pure, raise, or_raise, recv, send, struct_error, not_found,
}
use usbip_python.Serve.UsbDevice.{
  Exported, busid_of, pack_usb_device, until_nul, UsbInfo, parse_usb_device,
}

-- struct.pack(">HHI", VERSION, code, status), and its fields.
unfoldable pub op_header : ℕ → ℕ → Option Bytes
op_header code status = pack big ((2, version) ∷ (2, code) ∷ (4, status) ∷ [])

abbrev pub op_sizes : List ℕ
op_sizes = 2 ∷ 2 ∷ 4 ∷ []

abbrev code_and_status : List ℕ → Option (ℕ × ℕ)
code_and_status (_ ∷ code ∷ status ∷ []) = some (code, status)
code_and_status _ = none

unfoldable pub parse_op : Bytes → Option (ℕ × ℕ)
parse_op hdr = Base.◌>>=◌ (unpack big op_sizes hdr) code_and_status

unfoldable pub pack_triples : List Triple → Option Bytes
pack_triples [] = some []
pack_triples ((c, s, p) ∷ ts) =
    Base.◌>>=◌ (pack big ((1, c) ∷ (1, s) ∷ (1, p) ∷ (1, 0) ∷ []))
      (λ b. Base.◌>>=◌ (pack_triples ts) (λ bs. some (b ++ bs)))

unfoldable pub same_text : Text → Text → Bool
same_text [] [] = true
same_text (a ∷ t) (b ∷ u) = (a == b) && same_text t u
same_text _ _ = false

module _ {W : Type 0} where
  unfoldable pub pack_devices : List (Exported W) → Option Bytes
  unfolding pack_triples
  pack_devices [] = some []
  pack_devices (d ∷ ds) = Base.◌>>=◌ (pack_usb_device d) (λ b.
      Base.◌>>=◌ (interface_triples d.profile d.state) (λ ts.
        Base.◌>>=◌ (pack_triples ts)
          (λ more. Base.◌>>=◌ (pack_devices ds) (λ rest. some (b ++ (more ++ rest))))))

  -- _send_devlist
  unfoldable pub send_devlist : List (Exported W) → Io (Unit {0})
  unfolding op_header pack_devices
  send_devlist ds = do
    hdr ← or_raise struct_error (op_header op_rep_devlist 0)
    count ← or_raise struct_error (pack big ((4, length ds) ∷ []))
    body ← or_raise struct_error (pack_devices ds)
    send (hdr ++ (count ++ body))

  -- The first device with the busid.
  unfoldable pub find_device : Text → List (Exported W) → Option (Exported W)
  unfolding same_text
  find_device name [] = none
  find_device name (d ∷ ds) = if same_text (busid_of d) name then some d else find_device name ds

  import_reply : Option (Exported W) → Io (Option (Exported W))
  unfolding op_header
  import_reply none = do
    hdr ← or_raise struct_error (op_header op_rep_import 1)
    send hdr
    pure none
  import_reply (some d) = do
    hdr ← or_raise struct_error (op_header op_rep_import 0)
    raw ← or_raise struct_error (pack_usb_device d)
    send (hdr ++ raw)
    pure (some d)

  import_request : List (Exported W) → Option Bytes → Io (Option (Exported W))
  unfolding find_device import_reply
  import_request ds none = pure none
  import_request ds (some raw) = import_reply (find_device (decode_text (until_nul raw)) ds)

  op_request : List (Exported W) → ℕ → Io (Option (Exported W))
  unfolding send_devlist import_request
  op_request ds code =
      if code == op_req_devlist
      then (do send_devlist ds; pure none)
      else if code == op_req_import
      then (do raw ← recv 32; import_request ds raw)
      else pure none

  handshake_after : List (Exported W) → Option Bytes → Io (Option (Exported W))
  unfolding parse_op op_request
  handshake_after ds none = pure none
  handshake_after ds (some hdr) = do op ← or_raise struct_error (parse_op hdr); op_request ds op.0

  -- serve_handshake(sock, devs)
  unfoldable pub serve_handshake : List (Exported W) → Io (Option (Exported W))
  unfolding handshake_after
  serve_handshake ds = do hdr ← recv 8; handshake_after ds hdr

-- _need
unfoldable pub need : ℕ → Io Bytes
need want = do got ← recv want; elim got [ none ↦ raise not_found | some body ↦ pure body ]

-- _op_request
unfoldable pub client_request : ℕ → Bytes → Io (Unit {0})
unfolding op_header need parse_op
client_request code payload = do
  hdr ← or_raise struct_error (op_header code 0)
  send (hdr ++ payload)
  got ← need 8
  op ← or_raise struct_error (parse_op got)
  if op.1 == 0 then pure tt else raise not_found

-- client_import(sock, busid)
unfoldable pub client_import : Bytes → Io UsbInfo
unfolding client_request need
client_import busid = do
  client_request op_req_import (ljust 32 0 busid)
  raw ← need 312
  or_raise struct_error (parse_usb_device raw)

abbrev triple_of : List ℕ → Option Triple
triple_of (c ∷ s ∷ p ∷ _ ∷ []) = some (c, s, p)
triple_of _ = none

-- One 4-byte tuple for each interface.
unfoldable pub read_triples : ℕ → Io (List Triple)
unfolding need
read_triples zero = pure []
read_triples (suc n) = do
  raw ← need 4
  t ← or_raise struct_error (Base.◌>>=◌ (unpack big (1 ∷ 1 ∷ 1 ∷ 1 ∷ []) raw) triple_of)
  ts ← read_triples n
  pure (t ∷ ts)

unfoldable pub read_devices : ℕ → Io (List (UsbInfo × List Triple))
unfolding need read_triples
read_devices zero = pure []
read_devices (suc n) = do
  raw ← need 312
  info ← or_raise struct_error (parse_usb_device raw)
  ts ← read_triples info.b_num_interfaces
  rest ← read_devices n
  pure ((info, ts) ∷ rest)

abbrev count_of : List ℕ → Option ℕ
count_of (n ∷ []) = some n
count_of _ = none

-- client_devlist(sock)
unfoldable pub client_devlist : Io (List (UsbInfo × List Triple))
unfolding client_request need read_devices
client_devlist = do
  client_request op_req_devlist []
  raw ← need 4
  n ← or_raise struct_error (Base.◌>>=◌ (unpack big (4 ∷ []) raw) count_of)
  read_devices n
