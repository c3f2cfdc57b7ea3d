-- ===== src/Protocol/Reply/Slots.antt =====
-- usbip/protocol.py, `_client_submit_iso`: where the data of a reply's packets goes.
use mathlib.Core.Path.{subst}
use usbip_python.Base.{
  ℕ, zero, suc, ◌+◌, ◌≤◌, ◌≡◌, refl, sym, ap, ◌∙◌, arith, true, List, [], ◌∷◌, ◌++◌, some, ◌==◌,
  length, take, drop, append_assoc, length-take, take-all, length-drop, length-append,
  take-append_eq, drop-append_eq, Bool-cases, inl, inr,
}
use usbip_python.Struct.{Bytes}
use usbip_python.Core.Urb.{IsoPacket}
use usbip_python.Protocol.IsoPackets.{total_actual}
use usbip_python.Protocol.Reply.{splice, scatter}

-- The packets' slots follow each other, from one position on, within a buffer of the size.
abbrev pub Ordered : ℕ → ℕ → List IsoPacket → Type 0
Ordered from size [] = Unit {0}
Ordered from size (p ∷ ps) =
    (from ≤ p.offset)
    × (p.offset + p.actual_length ≤ size)
    × Ordered (p.offset + p.actual_length) size ps

-- Every packet's part of the data, which follow each other from one position on, is in its slot.
abbrev pub Placed : Bytes → ℕ → List IsoPacket → Bytes → Type 0
Placed bs cum [] buf = Unit {0}
Placed bs cum (p ∷ ps) buf =
    (take p.actual_length (drop p.offset buf) ≡ take p.actual_length (drop cum bs))
    × Placed bs (cum + p.actual_length) ps buf

take-take {ℓ} : {A : Type ℓ} (m n : ℕ) (xs : List A) → m ≤ n → take m (take n xs) ≡ take m xs
take-take zero n xs h = refl
take-take (suc m) zero xs h = absurd (omega arith)
take-take (suc m) (suc n) [] h = refl
take-take (suc m) (suc n) (x ∷ xs) h = ap (◌∷◌ x) (take-take m n xs (omega arith))

take-drop {ℓ} : {A : Type ℓ} (m n : ℕ) (xs : List A) → take n (drop m xs) ≡ drop m (take (m + n) xs)
take-drop zero n xs = ap (λ (k : ℕ). take k xs) (omega arith)
take-drop (suc m) n [] =
    take-all n [] (omega arith) ∙ sym (ap (drop (suc m)) (take-all (suc m + n) [] (omega arith)))
take-drop (suc m) n (x ∷ xs) =
    take-drop m n xs
    ∙ ap (λ (k : ℕ). drop (suc m) (take k (x ∷ xs))) {x = suc (m + n)} (omega arith)

take-splice :
    (off al : ℕ) (chunk buf : Bytes)
    → off ≤ length buf
    → length chunk ≡ al
    → take (off + al) (splice off al chunk buf) ≡ take off buf ++ chunk
take-splice off al chunk buf h size =
    ap (take (off + al)) (sym (append_assoc (take off buf) chunk (drop (off + al) buf)))
    ∙ take-append_eq (off + al) (take off buf ++ chunk) _
        (omega (arith, length-append (take off buf) chunk, length-take off buf))

length-splice :
    (off al : ℕ) (chunk buf : Bytes)
    → off + al ≤ length buf
    → length chunk ≡ al
    → length (splice off al chunk buf) ≡ length buf
length-splice off al chunk buf h size = omega (
  arith,
  length-append (take off buf) (chunk ++ drop (off + al) buf),
  length-append chunk (drop (off + al) buf),
  length-take off buf,
  length-drop (off + al) buf,
)

-- What the loop leaves, when the slots from one position on are still to be filled.
abbrev Scattered : Bytes → ℕ → List IsoPacket → ℕ → Bytes → Bytes → Type 0
Scattered bs cum ps from buf out =
    (length out ≡ length buf) × (take from out ≡ take from buf) × Placed bs cum ps out

prefix :
    (from to : ℕ) (out buf : Bytes)
    → from ≤ to
    → take to out ≡ take to buf
    → take from out ≡ take from buf
prefix from to out buf h e =
    sym (take-take from to out h) ∙ ap (take from) e ∙ take-take from to buf h

-- The slot that has been filled is the end of what stays.
slot_lem :
    (off al : ℕ) (chunk buf out : Bytes)
    → off ≤ length buf
    → length chunk ≡ al
    → take (off + al) out ≡ take (off + al) (splice off al chunk buf)
    → (take off out ≡ take off buf) × (take al (drop off out) ≡ chunk)
slot_lem off al chunk buf out h size e =
    let off_long : length (take off buf) ≡ off = omega (arith, length-take off buf) in
    let both : take (off + al) out ≡ take off buf ++ chunk =
      e ∙ take-splice off al chunk buf h size in
    (
      sym (take-take off (off + al) out (omega arith))
          ∙ ap (take off) both
          ∙ take-append_eq off (take off buf) chunk off_long,
      take-drop off al out ∙ ap (drop off) both ∙ drop-append_eq off (take off buf) chunk off_long,
    )

pub scatter_lem :
    (bs : Bytes) (cum from : ℕ) (ps : List IsoPacket) (buf : Bytes)
    → Ordered from (length buf) ps
    → cum + total_actual ps ≤ length bs
    → (out : Bytes) × (scatter true (some bs) cum ps buf ≡ some out)
      × Scattered bs cum ps from buf out
unfolding scatter total_actual
scatter_lem bs cum from [] buf o h = (buf, refl, (refl, refl, tt))
scatter_lem bs cum from (p ∷ ps) buf (low, high, o) h =
    let al = p.actual_length in
    let off = p.offset in
    let chunk = take al (drop cum bs) in
    let long : length chunk ≡ al =
      omega (arith, length-take al (drop cum bs), length-drop cum bs) in
    let buf1 = splice off al chunk buf in
    let size : length buf1 ≡ length buf =
      length-splice off al chunk buf (omega arith) (omega arith) in
    elim (Bool-cases (al == 0)) [
      | inl t ↦
          let z : al ≡ 0 = ground arith in
          let (out, e, (same, kept, placed)) =
            scatter_lem bs cum (off + al) ps buf o (omega arith) in
          (
            out,
            rw t e,
            (
              same,
              prefix from (off + al) out buf (omega arith) kept,
              (
                rw z refl,
                subst (λ (c : ℕ). Placed bs c ps out) {x = cum} {y = cum + al} (omega arith) placed,
              ),
            ),
          )
      | inr f ↦
          let (out, e, (same, kept, placed)) =
            scatter_lem bs (cum + al) (off + al) ps buf1 (rw size o) (omega arith) in
          let (before, here) = slot_lem off al chunk buf out (omega arith) long kept in
          (out, rw f e, (same ∙ size, prefix from off out buf low before, (here, placed)))
    ]
