-- ===== src/Protocol/Socket.antt =====
-- A stream socket as a peer's data reaches it, and usbip/protocol.py, `_recvall`.
-- The socket is what will still arrive, in segments, and what was sent. `recv` returns part of
-- the next segment, and the empty bytes when the peer has closed.
pub mod Segments
use usbip_python.Base.{
  ℕ, zero, suc, ◌+◌, ◌-◌, ◌≤◌, ◌<◌, ◌≡◌, refl, sym, ap, ◌∙◌, ◌⊎◌, inl, inr, arith, List, [], ◌∷◌,
  ◌++◌, Option, none, some, Bool, ltb, leb, ◌==◌, if◌then◌else◌, length, take, drop, join, All,
  length-append, append_assoc, append-nil, take-all, drop-all, length-take, length-drop,
  take-append-drop, min,
}
use usbip_python.Struct.{Bytes}

pub record Socket : Type 0 where
  pub incoming : List Bytes
  pub sent : Bytes

-- Every segment has a byte at least.
abbrev pub IsOpen : Socket → Type 0
IsOpen s = All (λ c. 1 ≤ length c) s.incoming

-- All that will arrive, with the boundaries of the segments forgotten.
abbrev pub stream : Socket → Bytes
stream s = join s.incoming

abbrev pub sendall : Bytes → Socket → Socket
sendall bs s = record s { sent = s.sent ++ bs }

-- sock.recv(n)
recv_from : ℕ → List Bytes → Bytes × List Bytes
recv_from n [] = ([], [])
recv_from n (c ∷ cs) = if leb (length c) n then (c, cs) else (take n c, drop n c ∷ cs)

-- while len(buf) < want. Each round that goes on adds a byte at least, so `want` rounds and one
-- are enough.
recv_loop : ℕ → ℕ → Bytes → List Bytes → Option Bytes × List Bytes
unfolding recv_from
recv_loop zero want buf cs = (none, cs)
recv_loop (suc fuel) want buf cs =
    let (chunk, cs') = recv_from (want - length buf) cs in
    let rest = recv_loop fuel want (buf ++ chunk) cs' in
    let more = if length chunk == 0 then (none, cs') else rest in
    if ltb (length buf) want then more else (some buf, cs)

unfoldable pub recvall : ℕ → Socket → Option Bytes × Socket
unfolding recv_loop
recvall want s =
    let (got, cs) = recv_loop (suc want) want [] s.incoming in (got, record s { incoming = cs })
