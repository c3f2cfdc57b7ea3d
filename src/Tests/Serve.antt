-- ===== src/Tests/Serve.antt =====
-- usbip/protocol.py, `serve_connection`: runs at the device of the device's tests.
use usbip_python.Base.{◌≡◌, refl, arith, [], ◌∷◌, some, take, drop}
use usbip_python.Struct.{Bytes}
use usbip_python.Protocol.Socket.{Socket}
use usbip_python.Protocol.Io.{ok}
use usbip_python.Protocol.Command.{send_submit, read_cmd}
use usbip_python.Protocol.Command.RoundTrip.{Returns}
use usbip_python.Protocol.Reply.{write_ret, read_reply}
use usbip_python.Protocol.Reply.RoundTrip.{finished}
use usbip_python.Serve.{is_iso, serve_round}
use usbip_python.Serve.Exchange.{serve_round-client_submit}
use usbip_python.Tests.Device.{
  profile, idle, control_urb, control_reply, get_device, control_urb_answered,
}

abbrev fresh : Socket
fresh = record { incoming = []; sent = [] }

-- GET_DESCRIPTOR(device) on the wire.
abbrev request_wire : Bytes
request_wire =
    0 ∷ 0 ∷ 0 ∷ 1 ∷ 0 ∷ 0 ∷ 0 ∷ 5 ∷ 0 ∷ 1 ∷ 0 ∷ 2 ∷ 0 ∷ 0 ∷ 0 ∷ 1 ∷ 0 ∷ 0 ∷ 0 ∷ 0 ∷ 0 ∷ 0 ∷ 0 ∷ 0
    ∷ 0 ∷ 0 ∷ 0 ∷ 2 ∷ 0 ∷ 0 ∷ 0 ∷ 0 ∷ 0 ∷ 0 ∷ 0 ∷ 0 ∷ 0 ∷ 0 ∷ 0 ∷ 0 ∷ get_device

abbrev answer_wire : Bytes
answer_wire =
    0 ∷ 0 ∷ 0 ∷ 3 ∷ 0 ∷ 0 ∷ 0 ∷ 5 ∷ 0 ∷ 1 ∷ 0 ∷ 2 ∷ 0 ∷ 0 ∷ 0 ∷ 1 ∷ 0 ∷ 0 ∷ 0 ∷ 0 ∷ 0 ∷ 0 ∷ 0 ∷ 0
    ∷ 0 ∷ 0 ∷ 0 ∷ 8 ∷ 0 ∷ 0 ∷ 0 ∷ 0 ∷ 0 ∷ 0 ∷ 0 ∷ 0 ∷ 0 ∷ 0 ∷ 0 ∷ 0 ∷ 0 ∷ 0 ∷ 0 ∷ 0 ∷ 0 ∷ 0 ∷ 0 ∷ 0
    ∷ control_reply.buffer

abbrev request_arrives : Socket
request_arrives = record { incoming = take 20 request_wire ∷ drop 20 request_wire ∷ []; sent = [] }

abbrev answer_arrives : Socket
answer_arrives = record { incoming = take 50 answer_wire ∷ drop 50 answer_wire ∷ []; sent = [] }

request_sent :
    send_submit control_urb fresh ≡ (ok tt, record { incoming = []; sent = request_wire })
unfolding send_submit usbip_python.Protocol.Header.pack_header usbip_python.Struct.pack
    usbip_python.Struct.to_word usbip_python.Struct.to_le
request_sent = refl

answer_sent :
    write_ret control_reply (read_cmd (is_iso idle.ep_map) request_arrives).1
    ≡ (ok tt, record { incoming = []; sent = answer_wire })
unfolding write_ret usbip_python.Protocol.RetHeader.pack_ret usbip_python.Struct.pack
    usbip_python.Struct.to_word read_cmd usbip_python.Protocol.Socket.recvall
    usbip_python.Protocol.Header.parse_header usbip_python.Struct.unpack usbip_python.Struct.from_le
    usbip_python.Struct.of_word usbip_python.Struct.to_le
answer_sent = refl

serve_round-client_submit_example :
    (serve_round profile 0 idle request_arrives
      ≡ (ok (some idle), record { incoming = []; sent = answer_wire }))
    × Returns (read_reply control_urb) (finished control_urb control_reply) answer_arrives []
serve_round-client_submit_example =
    serve_round-client_submit profile 0 control_urb control_reply idle idle fresh
      (record { incoming = []; sent = request_wire }) request_arrives
      (record { incoming = []; sent = answer_wire }) answer_arrives [] [] refl
      (λ n d l. ground arith) refl request_sent (omega arith) refl refl control_urb_answered refl
      refl (λ n d l. ground arith) answer_sent (omega arith) refl
