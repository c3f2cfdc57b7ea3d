-- ===== src/Protocol/Socket/Segments.antt =====
-- `_recvall` does not depend on how the peer's data is cut into segments.
use usbip_python.Base.{
  ℕ, zero, suc, ◌+◌, ◌-◌, ◌≤◌, ◌<◌, ◌≡◌, refl, sym, ap, ◌∙◌, inl, inr, arith, List, [], ◌∷◌, ◌++◌,
  Option, none, some, true, Bool-cases, ltb, leb, ◌==◌, if◌then◌else◌, length, take, drop, join,
  All, length-append, append_assoc, append-nil, length-take, take-append-drop, take-append_ge,
  drop-append_ge, length-drop, take-append_length, drop-append_length, ==→eq,
}
use usbip_python.Struct.{Bytes}
use usbip_python.Protocol.Socket.{Socket, IsOpen, stream, recv_from, recv_loop, recvall}

abbrev AllOpen : List Bytes → Type 0
AllOpen cs = All (λ (c : Bytes). 1 ≤ length c) cs

-- One `recv`: part of what is to come, and nothing only at the end.
recv_from_lem :
    (n : ℕ) (cs : List Bytes)
    → 1 ≤ n
    → AllOpen cs
    → ((recv_from n cs).0 ++ join (recv_from n cs).1 ≡ join cs)
      × (length (recv_from n cs).0 ≤ n)
      × AllOpen (recv_from n cs).1
      × (length (recv_from n cs).0 ≡ 0 → (join cs ≡ []) × (join (recv_from n cs).1 ≡ []))
unfolding recv_from
recv_from_lem n [] h o = (refl, omega arith, tt, λ _. (refl, refl))
recv_from_lem n (c ∷ cs) h (oc, o) = elim (Bool-cases (leb (length c) n)) [
  | inl e ↦ rw e (refl, ground arith, o, λ z. absurd (omega arith))
  | inr e ↦ rw e (
    sym (append_assoc (take n c) (drop n c) (join cs))
        ∙ ap (λ (t : Bytes). t ++ join cs) (take-append-drop n c),
    omega (arith, length-take n c),
    (ground (arith, length-drop n c), o),
    λ z. absurd (ground (arith, length-take n c)),
  )
]

-- What the loop answers when it still wants n bytes, and `rest` is to come.
abbrev Got : ℕ → Bytes → Bytes → Option Bytes × List Bytes → Type 0
Got n buf rest r =
    (r.0 ≡ (if leb n (length rest) then some (buf ++ take n rest) else none))
    × (join r.1 ≡ drop n rest)
    × AllOpen r.1

Got-chunk :
    (n : ℕ) (buf chunk rest : Bytes) (r : Option Bytes × List Bytes)
    → length chunk ≤ n
    → Got (n - length chunk) (buf ++ chunk) rest r
    → Got n buf (chunk ++ rest) r
Got-chunk n buf chunk rest r h (got, left, o) =
    let same : leb n (length (chunk ++ rest)) ≡ leb (n - length chunk) (length rest) =
      ground (arith, length-append chunk rest) in
    (
      rw
          (
            same,
            take-append_ge n chunk rest h,
            sym (append_assoc buf chunk (take (n - length chunk) rest)),
          )
          got,
      rw (drop-append_ge n chunk rest h) left,
      o,
    )

Got-none :
    (n : ℕ) (buf : Bytes) (cs : List Bytes)
    → 1 ≤ n
    → AllOpen cs
    → join cs ≡ []
    → Got n buf [] (none, cs)
Got-none zero buf cs h o e = elim h [ ]
Got-none (suc n) buf cs h o e = (ground arith, e, o)

Got-done :
    (n : ℕ) (buf : Bytes) (cs : List Bytes)
    → n ≡ 0
    → AllOpen cs
    → Got n buf (join cs) (some buf, cs)
Got-done zero buf cs e o = (ground (arith, append-nil buf), refl, o)
Got-done (suc n) buf cs e o = absurd (omega arith)

recv_loop_lem :
    (fuel want : ℕ) (buf : Bytes) (cs : List Bytes)
    → length buf ≤ want
    → want < fuel + length buf
    → AllOpen cs
    → Got (want - length buf) buf (join cs) (recv_loop fuel want buf cs)
unfolding recv_loop
recv_loop_lem zero want buf cs h f o = absurd (omega arith)
recv_loop_lem (suc fuel) want buf cs h f o =
    let n = want - length buf in
    let chunk = (recv_from n cs).0 in
    let cs' = (recv_from n cs).1 in
    elim (Bool-cases (ltb (length buf) want)) [
      | inr e ↦ rw e (Got-done n buf cs (ground arith) o)
      | inl e ↦
          let (all, fits, o', end) = recv_from_lem n cs (ground arith) o in
          elim (Bool-cases (length chunk == 0)) [
            | inl z ↦
                let (none_left, none_after) = end (==→eq (length chunk) 0 z) in
                rw (e, z, none_left) (Got-none n buf cs' (ground arith) o' none_after)
            | inr z ↦
                let shorter : want - length (buf ++ chunk) ≡ n - length chunk =
                  omega (arith, length-append buf chunk) in
                rw (e, z, ← all)
                  (Got-chunk n buf chunk (join cs') _ fits (
                    rw shorter at (
                      recv_loop_lem fuel want (buf ++ chunk) cs'
                        (omega (arith, length-append buf chunk))
                        (ground (arith, length-append buf chunk)) o')))
          ]
    ]

recv_loop_start :
    (want : ℕ) (cs : List Bytes)
    → AllOpen cs
    → Got want [] (join cs) (recv_loop (suc want) want [] cs)
recv_loop_start want cs o =
    let whole : want - 0 ≡ want = omega arith in
    rw whole at (recv_loop_lem (suc want) want [] cs (omega arith) (omega arith) o)

-- However the peer's data is cut into segments, `_recvall` returns the next `want` bytes of it and
-- leaves the rest, or answers None when fewer are to come; it sends nothing.
pub recvall_lem :
    (want : ℕ) (s : Socket)
    → IsOpen s
    → ((recvall want s).0
        ≡ (if leb want (length (stream s)) then some (take want (stream s)) else none))
      × (stream (recvall want s).1 ≡ drop want (stream s))
      × IsOpen (recvall want s).1
      × ((recvall want s).1.sent ≡ s.sent)
unfolding recvall
recvall_lem want s o =
    let (got, left, o') = recv_loop_start want s.incoming o in (got, left, o', refl)

-- The peer's next bytes are read whole.
pub recvall-some :
    (xs rest : Bytes) (s : Socket)
    → IsOpen s
    → stream s ≡ xs ++ rest
    → (s' : Socket) × (recvall (length xs) s ≡ (some xs, s'))
      × (stream s' ≡ rest)
      × IsOpen s'
      × (s'.sent ≡ s.sent)
recvall-some xs rest s o e =
    let (got, left, o', sent) = recvall_lem (length xs) s o in
    let enough : leb (length xs) (length (xs ++ rest)) ≡ true =
      ground (arith, length-append xs rest) in
    (
      (recvall (length xs) s).1,
      ap (λ (r : Option Bytes). (r, (recvall (length xs) s).1))
          (got ∙ rw (e, enough, take-append_length xs rest) refl),
      left ∙ rw e (drop-append_length xs rest),
      o',
      sent,
    )
