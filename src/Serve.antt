-- ===== src/Serve.antt =====
-- usbip/protocol.py, `serve_connection`: the loop that serves one imported device.
-- Between two commands the program may act on the device (a Round has its action), which may
-- complete parked URBs; the lock makes each such step atomic. Writes to the socket never fail here.
pub mod Exchange
pub mod UsbDevice
pub mod Handshake
use usbip_python.Base.{ℕ, Bool, true, false, List, [], ◌∷◌, Option, none, some, ◌==◌, if◌then◌else◌}
use usbip_python.Core.Urb.{Urb}
use usbip_python.Endpoint.{Endpoint}
use usbip_python.Device.EpMap.{EpMap, lookup}
use usbip_python.Device.State.{State, Profile, reset_io}
use usbip_python.Device.Transfer.{
  Handled, answered, parks, crashes, is_iso_type, handle_urb, cancel_urb,
}
use usbip_python.Protocol.{cmd_unlink}
use usbip_python.Protocol.Io.{Io, ◌>>=◌, ◌>>◌, pure, raise, class_error}
use usbip_python.Protocol.Command.{read_cmd}
use usbip_python.Protocol.Reply.{write_ret, write_ret_unlink}

abbrev iso_entry : Option Endpoint → Bool
iso_entry none = false
iso_entry (some e) = is_iso_type e.type

-- USBDevice.is_iso
unfoldable pub is_iso : EpMap → ℕ → ℕ → Bool
is_iso m number direction = iso_entry (lookup (number, direction) m)

-- respond(urb), for each URB in turn.
unfoldable pub respond_to : List Urb → Io (Unit {0})
respond_to [] = pure tt
respond_to (u ∷ us) = write_ret u >> respond_to us

-- What the program does before the next command, and the reading of the clock at the command.
pub record Round (W : Type 0) : Type 0 where
  pub act : State W → State W
  pub now : ℕ

module _ {W : Type 0} where
  -- The callbacks' replies go out.
  unfoldable pub flush : State W → Io (State W)
  unfolding respond_to
  flush s = do respond_to s.responded; pure (record s { responded = [] })

  unfoldable pub answer : Handled × State W → Io (State W)
  unfolding flush
  answer (answered u, s) = do s' ← flush s; write_ret u; pure s'
  answer (parks, s) = flush s
  answer (crashes, s) = do _ ← flush s; raise class_error

  -- One command: an unlink, or a URB for the device.
  unfoldable pub serve_command : Profile W → ℕ → State W → Urb → Io (State W)
  unfolding answer
  serve_command p now s u =
      if u.command == cmd_unlink
      then (write_ret_unlink u >> pure (cancel_urb u.flags s))
      else answer (handle_urb p now u s)

  serve_read : Profile W → ℕ → State W → Option Urb → Io (Option (State W))
  unfolding serve_command
  serve_read p now s none = pure none
  serve_read p now s (some u) = do s' ← serve_command p now s u; pure (some s')

  -- One pass of the loop: `none` when the peer has closed.
  unfoldable pub serve_round : Profile W → ℕ → State W → Io (Option (State W))
  unfolding serve_read is_iso
  serve_round p now s = do got ← read_cmd (is_iso s.ep_map); serve_read p now s got

  unfoldable pub serve_loop : Profile W → List (Round W) → State W → Io (State W)
  unfolding serve_round flush
  serve_loop p [] s = pure s
  serve_loop p (r ∷ rs) s = do
    s1 ← flush (r.act s)
    next ← serve_round p r.now s1
    elim next [ none ↦ pure s1 | some s2 ↦ serve_loop p rs s2 ]

  -- serve_connection(sock, devs), from the handshake on.
  unfoldable pub serve_imported : Profile W → List (Round W) → State W → Io (State W)
  unfolding serve_loop
  serve_imported p rounds s = serve_loop p rounds (reset_io p s)
