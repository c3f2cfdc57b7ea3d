-- ===== src/Protocol/RetHeader.antt =====
-- usbip/protocol.py: the 48-byte header of a reply, as `write_ret` packs it and `client_submit`
-- unpacks it.
use usbip_python.Base.{
  ℕ, List, [], ◌∷◌, ◌++◌, Option, none, some, ℤ, ◌>>=◌, take, drop, length, ◌≡◌, refl, arith,
  length-append, >>=-some, >>=-some_last, drop-append_eq, append_assoc, replicate,
}
use usbip_python.Struct.{Bytes, Field, big, pack, unpack, to_word, of_word}
use usbip_python.Struct.Laws.{unpack-pack_prefix, length-pack}
use usbip_python.Struct.Int.{of_word-to_word}
use usbip_python.Protocol.Header.{words}

pub record RetHeader : Type 0 where
  pub command : ℕ
  pub seqnum : ℕ
  pub devid : ℕ
  pub direction : ℕ
  pub ep : ℕ
  pub status : ℤ
  pub actual : ℤ
  pub npkts : ℤ

abbrev ret_of : List ℕ → List ℕ → Option RetHeader
ret_of (c ∷ s ∷ d ∷ dir ∷ ep ∷ []) (st ∷ ac ∷ _ ∷ n ∷ _ ∷ []) = some (record {
  command = c;
  seqnum = s;
  devid = d;
  direction = dir;
  ep = ep;
  status = of_word st;
  actual = of_word ac;
  npkts = of_word n;
})
ret_of _ _ = none

unfoldable pub parse_ret : Bytes → Option RetHeader
parse_ret hdr = do
  basic ← unpack big words (take 20 hdr)
  rest ← unpack big words (take 20 (drop 20 hdr))
  ret_of basic rest

abbrev pub ret_basic : RetHeader → List Field
ret_basic h = (4, h.command) ∷ (4, h.seqnum) ∷ (4, h.devid) ∷ (4, h.direction) ∷ (4, h.ep) ∷ []

abbrev pub ret_rest : ℕ → ℕ → ℕ → List Field
ret_rest status actual npkts = (4, status) ∷ (4, actual) ∷ (4, 0) ∷ (4, npkts) ∷ (4, 0) ∷ []

-- The two `struct.pack` calls, and 8 zero bytes.
unfoldable pub pack_ret : RetHeader → Option Bytes
pack_ret h = do
  basic ← pack big (ret_basic h)
  st ← to_word h.status
  ac ← to_word h.actual
  n ← to_word h.npkts
  rest ← pack big (ret_rest st ac n)
  some ((basic ++ rest) ++ replicate 8 0)

parse_parts :
    (h : RetHeader) (st ac n : ℕ) (basic rest : Bytes)
    → pack big (ret_basic h) ≡ some basic
    → pack big (ret_rest st ac n) ≡ some rest
    → of_word st ≡ h.status
    → of_word ac ≡ h.actual
    → of_word n ≡ h.npkts
    → parse_ret ((basic ++ rest) ++ replicate 8 0) ≡ some h
unfolding parse_ret
parse_parts h st ac n basic rest hb hr es ea en =
    let pad : Bytes = replicate 8 0 in
    let size : length basic ≡ 20 = length-pack big (ret_basic h) hb in
    let behind : drop 20 ((basic ++ rest) ++ pad) ≡ rest ++ pad =
      rw (append_assoc basic rest pad) (drop-append_eq 20 basic (rest ++ pad) size) in
    rw
      (
        behind,
        append_assoc basic rest pad,
        unpack-pack_prefix big (ret_basic h) basic (rest ++ pad) hb,
        unpack-pack_prefix big (ret_rest st ac n) rest pad hr,
        es,
        ea,
        en,
      )
      refl

-- A packed reply header has 48 bytes, and the host side reads the same fields from it.
pub parse_ret-pack_ret :
    (h : RetHeader) (bs : Bytes) → pack_ret h ≡ some bs → (length bs ≡ 48) × (parse_ret bs ≡ some h)
unfolding pack_ret
parse_ret-pack_ret h bs e =
    let (basic, hb, e1) = >>=-some (pack big (ret_basic h)) _ e in
    let (st, hs, e2) = >>=-some (to_word h.status) _ e1 in
    let (ac, ha, e3) = >>=-some (to_word h.actual) _ e2 in
    let (n, hn, e4) = >>=-some (to_word h.npkts) _ e3 in
    let (rest, hr, e5) =
      >>=-some_last (pack big (ret_rest st ac n))
        (λ (rest : Bytes). (basic ++ rest) ++ replicate 8 0) e4 in
    rw e5 (
      omega (
        arith,
        length-append (basic ++ rest) (replicate 8 0),
        length-append basic rest,
        length-pack big (ret_basic h) hb,
        length-pack big (ret_rest st ac n) hr,
      ),
      parse_parts h st ac n basic rest hb hr (of_word-to_word h.status st hs).0
          (of_word-to_word h.actual ac ha).0 (of_word-to_word h.npkts n hn).0,
    )
