-- ===== src/Protocol/Header.antt =====
-- usbip/protocol.py: the 48-byte header of a URB command, as `client_submit` packs it and
-- `read_cmd` unpacks it.
use usbip_python.Base.{
  ℕ, List, [], ◌∷◌, ◌++◌, Option, none, some, ℤ, ◌>>=◌, take, drop, length, ◌≡◌, refl, arith,
  length-append, >>=-some, >>=-some_last, drop-append_eq, append_assoc, take-all,
}
use usbip_python.Struct.{Bytes, Field, big, pack, unpack, to_word, of_word}
use usbip_python.Struct.Laws.{unpack-pack_prefix, length-pack}
use usbip_python.Struct.Int.{of_word-to_word}

-- The fields of the 48-byte header of a command.
pub record Header : Type 0 where
  pub command : ℕ
  pub seqnum : ℕ
  pub devid : ℕ
  pub direction : ℕ
  pub ep : ℕ
  pub flags : ℕ
  pub length : ℤ
  pub npkts : ℤ
  pub interval : ℤ
  pub setup : Bytes

abbrev pub words : List ℕ
words = 4 ∷ 4 ∷ 4 ∷ 4 ∷ 4 ∷ []

abbrev header_of : List ℕ → List ℕ → Bytes → Option Header
header_of (c ∷ s ∷ d ∷ dir ∷ ep ∷ []) (fl ∷ len ∷ _ ∷ n ∷ iv ∷ []) setup = some (record {
  command = c;
  seqnum = s;
  devid = d;
  direction = dir;
  ep = ep;
  flags = fl;
  length = of_word len;
  npkts = of_word n;
  interval = of_word iv;
  setup = setup;
})
header_of _ _ setup = none

unfoldable pub parse_header : Bytes → Option Header
parse_header hdr = do
  basic ← unpack big words (take 20 hdr)
  rest ← unpack big words (take 20 (drop 20 hdr))
  header_of basic rest (take 8 (drop 40 hdr))

abbrev pub basic_fields : Header → List Field
basic_fields h = (4, h.command) ∷ (4, h.seqnum) ∷ (4, h.devid) ∷ (4, h.direction) ∷ (4, h.ep) ∷ []

abbrev pub rest_fields : ℕ → ℕ → ℕ → ℕ → List Field
rest_fields flags length npkts interval =
    (4, flags) ∷ (4, length) ∷ (4, 0) ∷ (4, npkts) ∷ (4, interval) ∷ []

-- The two `struct.pack` calls and the SETUP bytes: start_frame is 0.
unfoldable pub pack_header : Header → Option Bytes
pack_header h = do
  basic ← pack big (basic_fields h)
  len ← to_word h.length
  n ← to_word h.npkts
  iv ← to_word h.interval
  rest ← pack big (rest_fields h.flags len n iv)
  some ((basic ++ rest) ++ h.setup)

parse_parts :
    (h : Header) (len n iv : ℕ) (basic rest : Bytes)
    → length h.setup ≡ 8
    → pack big (basic_fields h) ≡ some basic
    → pack big (rest_fields h.flags len n iv) ≡ some rest
    → of_word len ≡ h.length
    → of_word n ≡ h.npkts
    → of_word iv ≡ h.interval
    → parse_header ((basic ++ rest) ++ h.setup) ≡ some h
unfolding parse_header
parse_parts h len n iv basic rest hs hb hr el en ei =
    let setup = h.setup in
    let size : length basic ≡ 20 = length-pack big (basic_fields h) hb in
    let more : length rest ≡ 20 = length-pack big (rest_fields h.flags len n iv) hr in
    let behind : drop 20 ((basic ++ rest) ++ setup) ≡ rest ++ setup =
      rw (append_assoc basic rest setup) (drop-append_eq 20 basic (rest ++ setup) size) in
    let tail : take 8 (drop 40 ((basic ++ rest) ++ setup)) ≡ setup =
      rw (drop-append_eq 40 (basic ++ rest) setup (omega (arith, length-append basic rest)))
        (take-all 8 setup (omega arith)) in
    rw
      (
        tail,
        behind,
        append_assoc basic rest setup,
        unpack-pack_prefix big (basic_fields h) basic (rest ++ setup) hb,
        unpack-pack_prefix big (rest_fields h.flags len n iv) rest setup hr,
        el,
        en,
        ei,
      )
      refl

-- A packed header has 48 bytes, and `read_cmd` reads the same fields from it.
pub parse_header-pack_header :
    (h : Header) (bs : Bytes)
    → length h.setup ≡ 8
    → pack_header h ≡ some bs
    → (length bs ≡ 48) × (parse_header bs ≡ some h)
unfolding pack_header
parse_header-pack_header h bs hs e =
    let (basic, hb, e1) = >>=-some (pack big (basic_fields h)) _ e in
    let (len, hl, e2) = >>=-some (to_word h.length) _ e1 in
    let (n, hn, e3) = >>=-some (to_word h.npkts) _ e2 in
    let (iv, hi, e4) = >>=-some (to_word h.interval) _ e3 in
    let (rest, hr, e5) =
      >>=-some_last (pack big (rest_fields h.flags len n iv))
        (λ (rest : Bytes). (basic ++ rest) ++ h.setup) e4 in
    rw e5 (
      omega (
        arith,
        length-append (basic ++ rest) h.setup,
        length-append basic rest,
        hs,
        length-pack big (basic_fields h) hb,
        length-pack big (rest_fields h.flags len n iv) hr,
      ),
      parse_parts h len n iv basic rest hs hb hr (of_word-to_word h.length len hl).0
          (of_word-to_word h.npkts n hn).0 (of_word-to_word h.interval iv hi).0,
    )
