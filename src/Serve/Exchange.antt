-- ===== src/Serve/Exchange.antt =====
-- A URB that the host side submits gets the result that the device has for it.
use usbip_python.Base.{
  ℕ, ◌≡◌, refl, sym, ap, ◌∙◌, arith, Bool, [], ◌++◌, Option, none, some, length,
}
use usbip_python.Struct.{Bytes}
use usbip_python.Core.Urb.{Urb}
use usbip_python.Device.State.{State, Profile}
use usbip_python.Device.Transfer.{Handled, answered, handle_urb}
use usbip_python.Device.Transfer.Laws.{handle_urb-SameRequest}
use usbip_python.Protocol.Socket.{Socket, IsOpen, stream, recvall}
use usbip_python.Protocol.Io.{
  Io, Outcome, ok, raised, Error, struct_error, continue, ◌>>=◌, or_raise, recv,
}
use usbip_python.Protocol.Header.{Header, parse_header}
use usbip_python.Protocol.Command.{
  urb_of, read_payload, read_iso, read_body, read_after, read_cmd, send_submit,
}
use usbip_python.Protocol.Command.RoundTrip.{Returns, HasPayload, received, read_cmd-send_submit}
use usbip_python.Protocol.Reply.{write_ret, read_reply}
use usbip_python.Protocol.Reply.RoundTrip.{HasData, finished, read_reply-write_ret}
use usbip_python.Serve.{is_iso, respond_to, flush, answer, serve_command, serve_read, serve_round}

-- The action sends nothing.
abbrev Quiet : {A : Type 0} → Io A → Type 0
Quiet m = (s : Socket) → (m s).1.sent ≡ s.sent

Quiet-continue :
    {A B : Type 0} (o : Outcome A) (f : A → Io B) (s : Socket)
    → ((a : A) → Quiet (f a))
    → (continue o f s).1.sent ≡ s.sent
Quiet-continue (ok a) f s q = q a s
Quiet-continue (raised e) f s q = refl

Quiet-bind :
    {A B : Type 0} (m : Io A) (f : A → Io B) → Quiet m → ((a : A) → Quiet (f a)) → Quiet (m >>= f)
Quiet-bind m f q r s = Quiet-continue (m s).0 f (m s).1 r ∙ q s

Quiet-or_raise : {A : Type 0} (e : Error) (o : Option A) → Quiet (or_raise e o)
Quiet-or_raise e none s = refl
Quiet-or_raise e (some a) s = refl

read_payload-Quiet : (h : Header) → Quiet (read_payload h)
unfolding read_payload recvall
read_payload-Quiet h s = ground arith

read_iso-Quiet : (f : ℕ → ℕ → Bool) (h : Header) (u : Urb) → Quiet (read_iso f h u)
unfolding read_iso recvall
read_iso-Quiet f h u s = ground arith

read_body-Quiet : (f : ℕ → ℕ → Bool) (hdr : Bytes) → Quiet (read_body f hdr)
unfolding read_body
read_body-Quiet f hdr =
    Quiet-bind (or_raise struct_error (parse_header hdr)) _
      (Quiet-or_raise struct_error (parse_header hdr))
      (λ h. Quiet-bind (read_payload h) _ (read_payload-Quiet h) (λ payload.
        Quiet-bind (read_iso f h (urb_of h payload)) _ (read_iso-Quiet f h (urb_of h payload))
          (λ u s. refl)))

read_after-Quiet : (f : ℕ → ℕ → Bool) (got : Option Bytes) → Quiet (read_after f got)
unfolding read_after
read_after-Quiet f none s = refl
read_after-Quiet f (some hdr) s = read_body-Quiet f hdr s

read_cmd-Quiet : (f : ℕ → ℕ → Bool) → Quiet (read_cmd f)
unfolding read_cmd recvall
read_cmd-Quiet f = Quiet-bind (recv 48) (read_after f) (λ s. refl) (read_after-Quiet f)

module _ {W : Type 0} where
  -- The round, once the command is read and answered.
  round_parts :
      (p : Profile W) (now : ℕ) (u r : Urb) (s s' : State W) (b b1 b2 : Socket)
      → read_cmd (is_iso s.ep_map) b ≡ (ok (some (received u)), b1)
      → handle_urb p now (received u) s ≡ (answered r, s')
      → s'.responded ≡ []
      → write_ret r b1 ≡ (ok tt, b2)
      → serve_round p now s b ≡ (ok (some (record s' { responded = [] })), b2)
  unfolding is_iso serve_round serve_read serve_command answer flush respond_to
  round_parts p now u r s s' b b1 b2 got handled none_done wrote =
      rw (got, handled, none_done, wrote) refl

  -- A URB goes over the wire and back. The host side has sent it with `client_submit`: its SETUP
  -- field has 8 bytes, and its buffer holds the OUT data that it announces. The device side gets
  -- that stream, in whatever segments, and has nothing else to send. If `handle_urb` answers the
  -- URB with `r`, without isochronous packets and with a buffer that holds the IN data `r` announces,
  -- with no callback in between, and if the reply can be packed, then one pass of the server's loop
  -- returns and leaves the device as `handle_urb` left it, and the host side, when what was sent
  -- arrives in whatever segments, reads the status, actual length and data of `r` into its URB.
  pub serve_round-client_submit :
      (p : Profile W) (now : ℕ) (u r : Urb) (s s' : State W) (c c' b w' h : Socket)
      (rest more : Bytes)
      → length u.setup ≡ 8
      → HasPayload u
      → c.sent ≡ []
      → send_submit u c ≡ (ok tt, c')
      → IsOpen b
      → b.sent ≡ []
      → stream b ≡ c'.sent ++ rest
      → handle_urb p now (received u) s ≡ (answered r, s')
      → s'.responded ≡ []
      → r.iso_packets ≡ none
      → HasData r
      → write_ret r (read_cmd (is_iso s.ep_map) b).1 ≡ (ok tt, w')
      → IsOpen h
      → stream h ≡ w'.sent ++ more
      → (serve_round p now s b ≡ (ok (some (record s' { responded = [] })), w'))
        × Returns (read_reply u) (finished u r) h more
  serve_round-client_submit p now u r s s' c c' b w' h rest more setup has z sent ob zb e handled
        idle plain holds wrote oh eh =
      let (b1, got, left, o1) =
        read_cmd-send_submit (is_iso s.ep_map) u c c' b rest setup has z sent ob e in
      let after : (read_cmd (is_iso s.ep_map) b).1 ≡ b1 =
        ap (λ (t : Outcome (Option Urb) × Socket). t.1) got in
      let nothing : b1.sent ≡ [] =
        ap (λ (t : Socket). t.sent) (sym after) ∙ read_cmd-Quiet (is_iso s.ep_map) b ∙ zb in
      let written : write_ret r b1 ≡ (ok tt, w') = ap (write_ret r) (sym after) ∙ wrote in
      let same =
        handle_urb-SameRequest p now (received u) r s
          (ap (λ (t : Handled × State W). t.0) handled) in
      (
        round_parts p now u r s s' b b1 w' got handled idle written,
        read_reply-write_ret u r b1 w' h more (sym same.direction) plain holds nothing written oh
            eh,
      )
