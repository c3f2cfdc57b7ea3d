-- ===== src/Tests/Protocol.antt =====
-- usbip/protocol.py: runs over a socket, and the theorems at concrete streams.
use usbip_python.Base.{
  ℕ, ◌≡◌, refl, arith, false, [], ◌∷◌, ◌++◌, none, some, pos, ◌==◌, replicate, take, drop,
}
use usbip_python.Struct.{Bytes, to_le, to_word, pack}
use usbip_python.Core.{dir_in, dir_out}
use usbip_python.Core.Urb.{Urb, IsoPacket}
use usbip_python.Protocol.Socket.{Socket, IsOpen, stream, recvall}
use usbip_python.Protocol.Socket.Segments.{recvall_lem}
use usbip_python.Protocol.Header.{pack_header}
use usbip_python.Protocol.RetHeader.{pack_ret}
use usbip_python.Protocol.IsoPackets.{pack_packets, slots, total_length, total_actual}
use usbip_python.Protocol.Command.{read_cmd, send_submit, send_submit_iso}
use usbip_python.Protocol.Command.RoundTrip.{
  Returns, received, received_iso, read_cmd-send_submit, read_cmd-send_submit_iso,
}
use usbip_python.Protocol.Reply.{write_ret, await_reply}
use usbip_python.Protocol.Reply.IsoRoundTrip.{Finished, await_reply-write_ret}

abbrev out_urb : Urb
out_urb = record {
  command = 0;
  seqnum = 5;
  devid = 0x10002;
  direction = dir_out;
  ep = 1;
  flags = 0;
  length = pos 2;
  interval = pos 0;
  setup = replicate 8 0;
  buffer = 0xAA ∷ 0xBB ∷ [];
  status = pos 0;
  actual = pos 0;
  number_of_packets = pos 0;
  iso_packets = none;
}

abbrev idle : Socket
idle = record { incoming = []; sent = [] }

abbrev out_wire : Bytes
out_wire =
    0 ∷ 0 ∷ 0 ∷ 1 ∷ 0 ∷ 0 ∷ 0 ∷ 5 ∷ 0 ∷ 1 ∷ 0 ∷ 2 ∷ 0 ∷ 0 ∷ 0 ∷ 0 ∷ 0 ∷ 0 ∷ 0 ∷ 1 ∷ 0 ∷ 0 ∷ 0 ∷ 0
    ∷ 0 ∷ 0 ∷ 0 ∷ 2 ∷ 0 ∷ 0 ∷ 0 ∷ 0 ∷ 0 ∷ 0 ∷ 0 ∷ 0 ∷ 0 ∷ 0 ∷ 0 ∷ 0 ∷ 0 ∷ 0 ∷ 0 ∷ 0 ∷ 0 ∷ 0 ∷ 0 ∷ 0
    ∷ 0xAA ∷ 0xBB ∷ []

-- The request arrives in three segments, with the next request's first byte behind it.
abbrev out_arrives : Socket
out_arrives = record {
  incoming = take 7 out_wire ∷ take 42 (drop 7 out_wire) ∷ (0xBB ∷ 0 ∷ []) ∷ [];
  sent = [];
}

read_cmd-send_submit_example :
    Returns (read_cmd (λ _ _. false)) (some (received out_urb)) out_arrives (0 ∷ [])
unfolding send_submit pack_header pack to_le to_word
read_cmd-send_submit_example =
    read_cmd-send_submit (λ _ _. false) out_urb idle (record { incoming = []; sent = out_wire })
      out_arrives (0 ∷ []) refl (λ n d l. ground arith) refl refl (omega arith) refl

abbrev slot : ℕ → ℕ → IsoPacket
slot off len = record { offset = off; length = len; actual_length = 0; status = 0 }

abbrev iso_urb : Urb
iso_urb = record out_urb { buffer = 1 ∷ 2 ∷ 3 ∷ []; ep = 2 }

iso_sent : Bytes
unfolding send_submit_iso pack_header pack_packets pack to_le to_word slots total_length
iso_sent = (send_submit_iso iso_urb (slot 0 2 ∷ slot 2 1 ∷ []) idle).1.sent

read_cmd-send_submit_iso_example :
    Returns
      (read_cmd (λ ep dir. ep == 2))
      (some (received_iso iso_urb (slot 0 2 ∷ slot 2 1 ∷ [])))
      (record { incoming = iso_sent ∷ []; sent = [] })
      []
unfolding iso_sent
read_cmd-send_submit_iso_example =
    read_cmd-send_submit_iso (λ ep dir. ep == 2) iso_urb (slot 0 2) (slot 2 1 ∷ []) idle
      (record { incoming = []; sent = iso_sent }) (record { incoming = iso_sent ∷ []; sent = [] })
      [] refl refl (λ _. refl) refl refl (omega arith) refl

-- Four bytes in two packets are asked for, and the second packet comes short.
abbrev iso_in : Urb
iso_in = record out_urb {
  direction = dir_in;
  ep = 2;
  length = pos 0;
  buffer = [];
  iso_packets = some (slot 0 2 ∷ slot 2 2 ∷ []);
}

abbrev filled_slot : ℕ → ℕ → ℕ → IsoPacket
filled_slot off len al = record { offset = off; length = len; actual_length = al; status = 0 }

abbrev iso_reply : Urb
iso_reply = record iso_in {
  buffer = 7 ∷ 8 ∷ 9 ∷ [];
  iso_packets = some (filled_slot 0 2 2 ∷ filled_slot 2 2 1 ∷ []);
}

abbrev iso_reply_sent : Bytes
unfolding write_ret pack_ret pack_packets pack to_le to_word total_actual
iso_reply_sent = (write_ret iso_reply idle).1.sent

-- The reply arrives in two segments, with a byte behind it.
abbrev iso_reply_arrives : Socket
iso_reply_arrives = record {
  incoming = take 50 iso_reply_sent ∷ (drop 50 iso_reply_sent ++ (1 ∷ [])) ∷ [];
  sent = [];
}

await_reply-write_ret_example :
    (v : Urb) × Returns (await_reply iso_in iso_in.iso_packets) v iso_reply_arrives (1 ∷ [])
    × Finished iso_in iso_reply iso_in.iso_packets iso_reply.iso_packets v
unfolding iso_reply_sent total_length
await_reply-write_ret_example =
    await_reply-write_ret iso_in iso_reply idle (record { incoming = []; sent = iso_reply_sent })
      iso_reply_arrives (1 ∷ []) refl
      (refl, (λ d. omega arith), (λ d. (omega arith, omega arith, (omega arith, omega arith, tt))))
      refl refl (omega arith) refl

recvall_lem_example :
    ((recvall 3 out_arrives).0 ≡ some (0 ∷ 0 ∷ 0 ∷ []))
    × (stream (recvall 3 out_arrives).1 ≡ drop 3 (stream out_arrives))
    × IsOpen (recvall 3 out_arrives).1
    × ((recvall 3 out_arrives).1.sent ≡ [])
recvall_lem_example = recvall_lem 3 out_arrives (omega arith)

-- A peer that closes in the middle of a header gives None.
recvall_closed :
    (recvall 9 (record { incoming = (1 ∷ 2 ∷ []) ∷ (3 ∷ []) ∷ []; sent = [] })).0 ≡ none
unfolding recvall
recvall_closed = refl
