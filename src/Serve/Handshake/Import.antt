-- ===== src/Serve/Handshake/Import.antt =====
-- Importing a device over the wire.
use mathlib.Core.Option.{some-injective}
use usbip_python.Base.{
  ℕ, ◌≡◌, refl, ap, ◌∙◌, arith, true, List, [], ◌∷◌, ◌++◌, Option, none, some, ◌==◌, length, ljust,
  length-ljust, append_assoc, Bool-cases, inl, inr, ==→eq,
}
use usbip_python.Struct.{Bytes, pack, unpack, to_le, from_le}
use usbip_python.Core.Text.{Text}
use usbip_python.Core.Decode.{decode_text, decode-ascii}
use usbip_python.Protocol.{op_req_import}
use usbip_python.Protocol.Socket.{Socket, IsOpen, stream}
use usbip_python.Protocol.Socket.Segments.{recvall-some}
use usbip_python.Protocol.Io.{ok, raised, not_found}
use usbip_python.Serve.UsbDevice.{
  Exported, busid_of, pack_usb_device, parse_usb_device, until_nul, until_nul-ljust, UsbInfo,
  described, IsBusid, parse-pack_usb_device,
}
use usbip_python.Serve.Handshake.{
  op_header, parse_op, same_text, find_device, import_reply, import_request, op_request,
  serve_handshake, need, client_request, client_import,
}

abbrev import_header : Bytes
import_header = 0x01 ∷ 0x11 ∷ 0x80 ∷ 0x03 ∷ 0 ∷ 0 ∷ 0 ∷ 0 ∷ []

abbrev pub reply_header : ℕ → Bytes
reply_header status = 0x01 ∷ 0x11 ∷ 0x00 ∷ 0x03 ∷ 0 ∷ 0 ∷ 0 ∷ status ∷ []

-- An OP_REQ_IMPORT: the header, and the busid in 32 bytes.
abbrev pub import_wire : Text → Bytes
import_wire name = import_header ++ ljust 32 0 name

same_text→eq : (t u : Text) → same_text t u ≡ true → t ≡ u
unfolding same_text
same_text→eq [] [] h = refl
same_text→eq [] (b ∷ u) h = cc
same_text→eq (a ∷ t) [] h = cc
same_text→eq (a ∷ t) (b ∷ u) h = elim (Bool-cases (a == b)) [
  | inl e ↦ rw (==→eq a b e, same_text→eq t u (rw e at h)) refl
  | inr f ↦ absurd (ground (arith, f, h))
]

module _ {W : Type 0} where
  -- The device that is found has the busid.
  busid_of-find :
      (name : Text) (ds : List (Exported W)) (d : Exported W)
      → find_device name ds ≡ some d
      → busid_of d ≡ name
  unfolding find_device
  busid_of-find name [] d h = cc
  busid_of-find name (e ∷ ds) d h = elim (Bool-cases (same_text (busid_of e) name)) [
    | inl t ↦ rw (← some-injective _ _ (rw t at h)) (same_text→eq (busid_of e) name t)
    | inr f ↦ busid_of-find name ds d (rw f at h)
  ]

  -- The request is read, and what is left is the reply to the device that is looked for.
  served :
      (ds : List (Exported W)) (name : Text) (b : Socket) (rest : Bytes)
      → IsBusid name
      → IsOpen b
      → stream b ≡ import_wire name ++ rest
      → (b' : Socket) × (serve_handshake ds b ≡ import_reply (find_device name ds) b')
        × (stream b' ≡ rest)
        × IsOpen b'
        × (b'.sent ≡ b.sent)
  unfolding serve_handshake parse_op op_request import_request unpack from_le
  served ds name b rest id o e =
      let (b1, got1, left1, o1, sent1) =
        recvall-some import_header (ljust 32 0 name ++ rest) b o e in
      let (b2, got2, left2, o2, sent2) = recvall-some (ljust 32 0 name) rest b1 o1 left1 in
      let size : length (ljust 32 0 name) ≡ 32 = length-ljust 32 0 name id.short in
      let text : decode_text (until_nul (ljust 32 0 name)) ≡ name =
        ap decode_text (until_nul-ljust 32 name id.ascii) ∙ decode-ascii name id.ascii in
      (b2, rw (got1, rw size at got2, text) refl, left2, o2, sent2 ∙ sent1)

-- A reply header with the status 0 or 1 answers the request that was sent.
client_answered :
    (name : Text) (h : Socket) (body : Bytes)
    → IsBusid name
    → IsOpen h
    → stream h ≡ reply_header 0 ++ body
    → (h' : Socket) × (client_request op_req_import (ljust 32 0 name) h ≡ (ok tt, h'))
      × (stream h' ≡ body)
      × IsOpen h'
      × (h'.sent ≡ h.sent ++ import_wire name)
unfolding client_request op_header need parse_op pack unpack to_le from_le
client_answered name h body id o e =
    let (h1, got, left, o1, sent) =
      recvall-some (reply_header 0) body (record h { sent = h.sent ++ import_wire name }) o e in
    (h1, rw got refl, left, o1, sent)

client_refused :
    (name : Text) (h : Socket) (body : Bytes)
    → IsBusid name
    → IsOpen h
    → stream h ≡ reply_header 1 ++ body
    → (client_import name h).0 ≡ raised not_found
unfolding client_import client_request op_header need parse_op pack unpack to_le from_le
client_refused name h body id o e =
    let (h1, got, left, o1, sent) =
      recvall-some (reply_header 1) body (record h { sent = h.sent ++ import_wire name }) o e in
    rw got refl

client_got :
    (name : Text) (h : Socket) (raw more : Bytes) (info : UsbInfo)
    → IsBusid name
    → IsOpen h
    → stream h ≡ reply_header 0 ++ (raw ++ more)
    → length raw ≡ 312
    → parse_usb_device raw ≡ some info
    → (h' : Socket) × (client_import name h ≡ (ok info, h'))
      × (stream h' ≡ more)
      × (h'.sent ≡ h.sent ++ import_wire name)
unfolding client_import need
client_got name h raw more info id o e size parsed =
    let (h1, asked, left1, o1, sent1) = client_answered name h (raw ++ more) id o e in
    let (h2, got, left2, o2, sent2) = recvall-some raw more h1 o1 left1 in
    (h2, rw (asked, rw size at got, parsed) refl, left2, sent2 ∙ sent1)

module _ {W : Type 0} where
  -- The host side imports, by a busid that the wire can carry, from a server that exports `ds`. If
  -- the first device with that busid is `d`, and it can be packed, then the handshake ends with `d`
  -- and takes from the server's stream what the host side has sent and no more; and the host side,
  -- when what the server has sent arrives, gets what `d` is. Both hold however the streams are cut.
  pub serve_handshake-client_import :
      (ds : List (Exported W)) (name : Text) (d : Exported W) (raw : Bytes) (b h : Socket)
      (rest more : Bytes)
      → IsBusid name
      → find_device name ds ≡ some d
      → pack_usb_device d ≡ some raw
      → IsOpen b
      → b.sent ≡ []
      → stream b ≡ (client_import name h).1.sent ++ rest
      → IsOpen h
      → h.sent ≡ []
      → stream h ≡ (reply_header 0 ++ raw) ++ more
      → ((serve_handshake ds b).0 ≡ ok (some d))
        × (stream (serve_handshake ds b).1 ≡ rest)
        × ((serve_handshake ds b).1.sent ≡ reply_header 0 ++ raw)
        × ((client_import name h).0 ≡ ok (described d))
        × (stream (client_import name h).1 ≡ more)
  unfolding import_reply op_header pack to_le
  serve_handshake-client_import ds name d raw b h rest more id found packed ob zb eb oh zh eh =
      let same = busid_of-find name ds d found in
      let (size, parsed) = parse-pack_usb_device d raw (rw same id) packed in
      let (h1, imported, left, sent) =
        client_got name h raw more (described d) id oh (eh ∙ append_assoc (reply_header 0) raw more)
          size parsed in
      let wire : (client_import name h).1.sent ≡ import_wire name =
        rw imported (sent ∙ ap (λ (t : Bytes). t ++ import_wire name) zh) in
      let (b1, begun, left1, o1, sent1) =
        served ds name b rest id ob (eb ∙ ap (λ (t : Bytes). t ++ rest) wire) in
      rw (begun, found, packed, imported)
        (refl, left1, ap (λ (t : Bytes). t ++ (reply_header 0 ++ raw)) (sent1 ∙ zb), refl, left)

  -- If no device has the busid, the server ends the connection without a device, and the host side,
  -- when what the server has sent arrives, raises NotFound.
  pub serve_handshake-client_import-none :
      (ds : List (Exported W)) (name : Text) (b h : Socket) (rest more : Bytes)
      → IsBusid name
      → find_device name ds ≡ none
      → IsOpen b
      → b.sent ≡ []
      → stream b ≡ import_wire name ++ rest
      → IsOpen h
      → stream h ≡ (serve_handshake ds b).1.sent ++ more
      → ((serve_handshake ds b).0 ≡ ok none) × ((client_import name h).0 ≡ raised not_found)
  unfolding import_reply op_header pack to_le
  serve_handshake-client_import-none ds name b h rest more id missing ob zb eb oh eh =
      let (b1, begun, left1, o1, sent1) = served ds name b rest id ob eb in
      let refused = begun ∙ ap (λ (o : Option (Exported W)). import_reply o b1) missing in
      let reply : (serve_handshake ds b).1.sent ≡ reply_header 1 =
        rw refused (ap (λ (t : Bytes). t ++ reply_header 1) (sent1 ∙ zb)) in
      (rw refused refl, client_refused name h more id oh (rw reply at eh))
