-- ===== src/HostMtp/Containers.antt =====
-- The host reads the containers that the device class writes.

use usbip_python.Base.{
  ℕ, zero, suc, ◌+◌, ◌-◌, ◌^◌, ◌≤◌, ◌<◌, ◌≡◌, inl, inr, refl, sym, ap, ◌∙◌, arith, true, false,
  Bool-cases, List, [], ◌∷◌, ◌++◌, Option, none, some, >>=-some_last, if◌then◌else◌, ltb, ltb→lt,
  lt→ltb, ltb→ge, length, length-take, length-drop, take, drop, take-all, take-append-drop, All,
}
use usbip_python.Struct.{Bytes, to_le, from_le, little, pack}
use usbip_python.Struct.Laws.{pack-Fits, pack-encode_all, encode_all}
use usbip_python.Struct.Int.{decode-encode}
use usbip_python.Mtp.Machine.{Container, wire, response, data_container, words}
use usbip_python.HostMtp.{
  got, Handle, MtpHost, Received, received, nonempty, read_part, read_head, read_body,
  recv_container, response_words, await_response,
}

-- A pipe of transfers: a read takes what it asks for of the first one, and what it leaves waits.
unfoldable pub pipe_in : ℕ → List Bytes → Option (Bytes × List Bytes)
pipe_in n [] = none
pipe_in n (c ∷ cs) = if ltb n (length c) then some (take n c, drop n c ∷ cs) else some (c, cs)

-- What is written to the device is left aside.
abbrev pub pipe : Handle (List Bytes)
pipe = record { bulk_in = λ ep n s. pipe_in n s; bulk_out = λ ep bs s. some s }

abbrev pub fields : Container → Received
fields c = record { ctype = c.ctype; code = c.code; txid = c.txid; payload = c.payload }

-- The bytes of a container.
abbrev frame : Container → Bytes
frame c =
    to_le 4 (12 + length c.payload)
    ++ (to_le 2 c.ctype ++ (to_le 2 c.code ++ (to_le 4 c.txid ++ c.payload)))

take-take : (bs : Bytes) → from_le (take 4 (take 512 bs)) ≡ from_le (take 4 bs)
take-take [] = refl
take-take (a ∷ []) = refl
take-take (a ∷ b ∷ []) = refl
take-take (a ∷ b ∷ c ∷ []) = refl
take-take (a ∷ b ∷ c ∷ d ∷ bs) = refl

length-frame : (c : Container) → length (frame c) ≡ 12 + length c.payload
unfolding to_le
length-frame c = omega arith

frame_long : (c : Container) → 12 ≤ length (frame c)
frame_long c = omega (arith, length-frame c)

nonempty-got :
    (d : MtpHost) (c : Bytes) (s s0 : List Bytes)
    → 1 ≤ length c
    → nonempty pipe d (some (c, s)) s0 ≡ (got c, (d, s))
unfolding nonempty
nonempty-got d [] s s0 h = absurd (omega arith)
nonempty-got d (b ∷ bs) s s0 h = refl

read_part-whole :
    (m : ℕ) (d : MtpHost) (c : Bytes) (cs : List Bytes)
    → 1 ≤ length c
    → length c ≤ m
    → read_part pipe m (d, c ∷ cs) ≡ (got c, (d, cs))
unfolding read_part pipe_in
read_part-whole m d c cs h le =
    let whole : ltb m (length c) ≡ false = ground arith in rw whole (nonempty-got d c cs (c ∷ cs) h)

read_part-cut :
    (m : ℕ) (d : MtpHost) (c : Bytes) (cs : List Bytes)
    → 1 ≤ m
    → m < length c
    → read_part pipe m (d, c ∷ cs) ≡ (got (take m c), (d, drop m c ∷ cs))
unfolding read_part pipe_in
read_part-cut m d c cs h lt =
    rw (lt→ltb m (length c) lt)
      (nonempty-got d (take m c) (drop m c ∷ cs) (c ∷ cs) (omega (arith, length-take m c)))

read_head-done :
    (k : ℕ) (buf : Bytes) (s : MtpHost × List Bytes)
    → 12 ≤ length buf
    → read_head pipe k buf s ≡ (got buf, s)
unfolding read_head
read_head-done zero buf s h = refl
read_head-done (suc k) buf s h =
    let over : ltb (length buf) 12 ≡ false = ground arith in rw over refl

read_body-done :
    (k n : ℕ) (buf : Bytes) (s : MtpHost × List Bytes)
    → n ≤ length buf
    → read_body pipe k n buf s ≡ (got buf, s)
unfolding read_body
read_body-done zero n buf s h = refl
read_body-done (suc k) n buf s h =
    let over : ltb (length buf) n ≡ false = ground arith in rw over refl

-- The rest of a transfer of n bytes.
read_body-rest :
    (k n : ℕ) (d : MtpHost) (bs : Bytes) (m : ℕ) (cs : List Bytes)
    → 1 ≤ k
    → length bs ≡ n
    → m < n
    → read_body pipe k n (take m bs) (d, drop m bs ∷ cs) ≡ (got bs, (d, cs))
unfolding read_body
read_body-rest zero n d bs m cs h size lt = absurd (omega arith)
read_body-rest (suc k) n d bs m cs h size lt =
    let more : ltb (length (take m bs)) n ≡ true = lt→ltb _ _ (omega (arith, length-take m bs)) in
    let part =
      read_part-whole (n - length (take m bs)) d (drop m bs) cs (omega (arith, length-drop m bs))
        (omega (arith, length-drop m bs, length-take m bs)) in
    rw (more, part, take-append-drop m bs) (read_body-done k n bs (d, cs) (omega arith))

-- A transfer of 12 bytes at least, whose first four say its length, is read as it is.
read_frame :
    (d : MtpHost) (bs : Bytes) (cs : List Bytes)
    → 12 ≤ length bs
    → from_le (take 4 bs) ≡ length bs
    → recv_container pipe (d, bs ∷ cs) ≡ (got (received bs (length bs)), (d, cs))
unfolding recv_container read_head
read_frame d bs cs h field = elim (Bool-cases (ltb 512 (length bs))) [
  | inl t ↦
      (let part = read_part-cut 512 d bs cs (omega arith) (ltb→lt _ _ t) in
        let head : from_le (take 4 (take 512 bs)) ≡ length bs = take-take bs ∙ field in
        rw
          (
            part,
            read_head-done 11 (take 512 bs) (d, drop 512 bs ∷ cs)
                (omega (arith, length-take 512 bs, ltb→lt _ _ t)),
            head,
            read_body-rest (length bs) (length bs) d bs 512 cs (omega arith) refl (ltb→lt _ _ t),
          )
          refl)
  | inr f ↦
      (let part = read_part-whole 512 d bs cs (omega arith) (ltb→ge _ _ f) in
        rw
          (
            part,
            read_head-done 11 bs (d, cs) h,
            field,
            read_body-done (length bs) (length bs) bs (d, cs) (omega arith),
          )
          refl)
]

received-frame :
    (c : Container)
    → 12 + length c.payload < 256 ^ 4
    → c.ctype < 256 ^ 2
    → c.code < 256 ^ 2
    → c.txid < 256 ^ 4
    → received (frame c) (length (frame c)) ≡ fields c
unfolding received to_le
received-frame c hn ht hc hx =
    let t = decode-encode little 2 c.ctype ht in
    let k = decode-encode little 2 c.code hc in
    let x = decode-encode little 4 c.txid hx in
    let p : drop 12 (take (length (frame c)) (frame c)) ≡ c.payload =
      ap (drop 12) (take-all (length (frame c)) (frame c) (omega arith)) in
    λ i. record { ctype = t i; code = k i; txid = x i; payload = p i }

-- A container that the device class writes in one transfer is read by the host with its type, its code,
-- its transaction and its payload, and nothing of what follows it is taken.
pub recv_container-wire :
    (d : MtpHost) (c : Container) (bs : Bytes) (rest : List Bytes)
    → wire c ≡ some bs
    → recv_container pipe (d, bs ∷ rest) ≡ (got (fields c), (d, rest))
unfolding wire encode_all to_le
recv_container-wire d c bs rest e =
    let fs = (4, 12 + length c.payload) ∷ (2, c.ctype) ∷ (2, c.code) ∷ (4, c.txid) ∷ [] in
    let (head, packed, whole) = >>=-some_last (pack little fs) (λ h. h ++ c.payload) e in
    let (hn, (ht, (hc, (hx, _)))) = pack-Fits little fs packed in
    let same : bs ≡ frame c =
      whole ∙ ap (λ (h : Bytes). h ++ c.payload) (pack-encode_all little fs packed) in
    let field : from_le (take 4 (frame c)) ≡ length (frame c) =
      decode-encode little 4 (12 + length c.payload) hn ∙ sym (length-frame c) in
    rw same (
      read_frame d (frame c) rest (frame_long c) field
      ∙ ap (λ (r : Received). (got r, (d, rest))) (received-frame c hn ht hc hx))

abbrev pub IsWord : ℕ → Type 0
IsWord p = p < 256 ^ 4

-- The parameters of a response are read back.
response_words-words :
    (k : ℕ) (ps : List ℕ) → All IsWord ps → length ps ≤ k → response_words k (words ps) ≡ ps
unfolding response_words to_le
response_words-words zero [] h le = refl
response_words-words (suc k) [] h le = refl
response_words-words zero (p ∷ ps) h le = absurd (omega arith)
response_words-words (suc k) (p ∷ ps) (hp, h) le =
    let x = decode-encode little 4 p hp in
    let xs = response_words-words k ps h (omega arith) in λ i. x i ∷ xs i

length-words : (ps : List ℕ) → length ps ≤ length (words ps)
unfolding to_le
length-words [] = omega arith
length-words (p ∷ ps) = omega (arith, length-words ps)

-- The response ends the wait.
await-response :
    (k : ℕ) (d : MtpHost) (rc txid : ℕ) (ps : List ℕ) (rs : Bytes) (rest : List Bytes)
    (found : Option Bytes)
    → wire (response rc txid ps) ≡ some rs
    → All IsWord ps
    → await_response pipe (suc k) found (d, rs ∷ rest) ≡ (got (rc, ps, found), (d, rest))
unfolding await_response
await-response k d rc txid ps rs rest found e h =
    rw (recv_container-wire d (response rc txid ps) rs rest e) (
      ap (λ (qs : List ℕ). (got (rc, qs, found), (d, rest)))
        (response_words-words (length (words ps)) ps h (length-words ps)))

-- What the device class answers with data and a response, one transfer each, is what the transaction of the
-- host returns: the code and the parameters of the response and the data, and what follows stays; when
-- the host waits for two containers at least and the parameters have 32 bits.
pub await_response-wire :
    (k : ℕ) (d : MtpHost) (code rc txid : ℕ) (payload : Bytes) (ps : List ℕ) (bs rs : Bytes)
    (rest : List Bytes)
    → wire (data_container code txid payload) ≡ some bs
    → wire (response rc txid ps) ≡ some rs
    → All IsWord ps
    → await_response pipe (suc (suc k)) none (d, bs ∷ rs ∷ rest)
      ≡ (got (rc, ps, some payload), (d, rest))
unfolding await_response
await_response-wire k d code rc txid payload ps bs rs rest eb er h =
    rw (recv_container-wire d (data_container code txid payload) bs (rs ∷ rest) eb)
      (await-response k d rc txid ps rs rest (some payload) er h)
