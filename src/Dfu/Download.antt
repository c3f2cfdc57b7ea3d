-- ===== src/Dfu/Download.antt =====
-- What a target holds when a host has downloaded an image.
use mathlib.Core.Path.{subst}
use usbip_python.Base.{
  ℕ, zero, suc, ◌+◌, ◌*◌, ◌%◌, ◌≤◌, ◌<◌, ◌≡◌, ◌⊎◌, inl, inr, arith, refl, ap, ◌∙◌, sym, [], ◌∷◌,
  ◌++◌, append_assoc, append-nil, Option, some, ◌>>=◌, length, take, drop, get_elem?,
  get_elem?-set_elem, length-append, length-take, length-drop, drop-all, take-append-drop,
  Bool-cases, leb, leb→le, leb→gt, suc_mul,
}
use usbip_python.Struct.{Bytes}
use usbip_python.Dfu.{
  dfu_idle, dnload_idle, stored, Backend, Target, Dfu, put, after_write, dnload, begun, get_status,
  on_control,
}
use usbip_python.Dfu.Transfer.{ask, send_block, send_image}

-- What the class asks of a target: a byte store that a download fills from its beginning.
pub record IsByteStore {T : Type 0} (backend : Backend T) : Type 0 where
  pub contents : T → Bytes
  pub capacity : T → ℕ
  pub begin_empties : (c : T) → contents (backend.begin_download c) ≡ []
  pub begin_capacity : (c : T) → capacity (backend.begin_download c) ≡ capacity c
  pub write_appends :
      (c : T) (offset : ℕ) (bs : Bytes)
      → offset ≡ length (contents c)
      → offset + length bs ≤ capacity c
      → (c' : T) × (backend.write c offset bs ≡ stored c')
        × (contents c' ≡ contents c ++ bs)
        × (capacity c' ≡ capacity c)
  pub read_slice :
      (c : T) (offset size : ℕ)
      → backend.read c offset size ≡ some (take size (drop offset (contents c)))
  pub finish_contents : (c : T) → contents (backend.finish_download c) ≡ contents c
  pub finish_capacity : (c : T) → capacity (backend.finish_download c) ≡ capacity c

module _ {T : Type 0} (backend : Backend T) (store : IsByteStore backend) where
  -- The selected target holds an image.
  pub record Holds (size room : ℕ) (image : Bytes) (s : Dfu T) : Type 0 where
    pub target : Target T
    pub found : get_elem? s.targets s.cur ≡ some target
    pub transfer : s.transfer_size ≡ size
    pub image_held : store.contents target.content ≡ image
    pub room_left : store.capacity target.content ≡ room

  begun_capacity : (number : ℕ) (c : T) → store.capacity (begun backend number c) ≡ store.capacity c
  begun_capacity zero c = store.begin_capacity c
  begun_capacity (suc number) c = refl

  sent_block :
      (s : Dfu T) (t : Target T) (number b : ℕ) (bs : Bytes) (c : T)
      → get_elem? s.targets s.cur ≡ some t
      → number < 65536
      → backend.write (begun backend number t.content) (number * s.transfer_size) (b ∷ bs)
        ≡ stored c
      → send_block backend s number (b ∷ bs)
        ≡ some (record (put s t c) { state = dnload_idle; status = 0 })
  unfolding send_block ask on_control dnload after_write get_status
  sent_block s t number b bs c found small w =
      let value : number % 65536 ≡ number = omega arith in rw (value, found, w) refl

  sent_end :
      (s : Dfu T) (t : Target T) (number : ℕ)
      → get_elem? s.targets s.cur ≡ some t
      → send_block backend s number []
        ≡ some
            (record (put s t (backend.finish_download t.content)) { state = dfu_idle; status = 0 })
  unfolding send_block ask on_control dnload get_status
  sent_end s t number found = rw found refl

  -- A block behind what is held, from the beginning if it is the first.
  block_lem :
      (size room : ℕ) (s : Dfu T) (t : Target T) (number : ℕ) (image block : Bytes)
      → get_elem? s.targets s.cur ≡ some t
      → s.transfer_size ≡ size
      → store.capacity t.content ≡ room
      → number < 65536
      → store.contents (begun backend number t.content) ≡ image
      → length image ≡ number * size
      → 1 ≤ length block
      → length image + length block ≤ room
      → (s' : Dfu T) × (send_block backend s number block ≡ some s')
        × Holds size room (image ++ block) s'
  block_lem size room s t number image [] found transfer left small held aligned some_bytes fits =
      absurd (omega arith)
  block_lem size room s t number image (b ∷ bs) found transfer left small held aligned some_bytes
        fits =
      let (c, w, h, r) =
        store.write_appends (begun backend number t.content) (number * s.transfer_size) (b ∷ bs)
          (ap (λ (k : ℕ). number * k) transfer ∙ (sym aligned ∙ ap length (sym held)))
          (rw (transfer, begun_capacity number t.content, left, ← aligned) fits) in
      (
        record (put s t c) { state = dnload_idle; status = 0 },
        sent_block s t number b bs c found small w,
        record {
          target = record t { content = c };
          found = get_elem?-set_elem s.cur t (record t { content = c }) s.targets found;
          transfer = transfer;
          image_held = h ∙ ap (λ (i : Bytes). i ++ (b ∷ bs)) held;
          room_left = r ∙ begun_capacity number t.content ∙ left;
        },
      )

  last_or_full :
      (size number : ℕ) (image rest : Bytes)
      → length image ≡ number * size
      → (drop size rest ≡ []) ⊎ (length (image ++ take size rest) ≡ suc number * size)
  last_or_full size number image rest aligned = elim (Bool-cases (leb (length rest) size)) [
    | inl t ↦ inl (drop-all size rest (leb→le _ _ t))
    | inr f ↦ inr (
        omega (
          arith,
          length-append image (take size rest),
          length-take size rest,
          suc_mul number size,
          leb→gt (length rest) size f,
        ))
  ]

  send_more :
      (fuel number size b : ℕ) (bs : Bytes) (s s1 s2 : Dfu T)
      → s.transfer_size ≡ size
      → send_block backend s number (take size (b ∷ bs)) ≡ some s1
      → send_image backend fuel s1 (suc number) (drop size (b ∷ bs)) ≡ some s2
      → send_image backend (suc fuel) s number (b ∷ bs) ≡ some s2
  unfolding send_image
  send_more fuel number size b bs s s1 s2 transfer sent rest =
      ap
        (λ (k : ℕ). send_block backend s number (take k (b ∷ bs)) >>= λ s'.
          send_image backend fuel s' (suc number) (drop k (b ∷ bs)))
        transfer
      ∙ (ap
            (λ (o : Option (Dfu T)).
              o >>= λ s'. send_image backend fuel s' (suc number) (drop size (b ∷ bs)))
            sent
          ∙ rest)

  rejoin :
      (size room : ℕ) (image xs : Bytes) (s : Dfu T)
      → Holds size room ((image ++ take size xs) ++ drop size xs) s
      → Holds size room (image ++ xs) s
  rejoin size room image xs s h =
      subst (λ (i : Bytes). Holds size room i s)
        (append_assoc image (take size xs) (drop size xs)
          ∙ ap (λ (i : Bytes). image ++ i) (take-append-drop size xs))
        h

  -- The blocks behind the first one, and the end.
  rest_lem :
      (size room : ℕ) (fuel number : ℕ) (image rest : Bytes) (s : Dfu T)
      → Holds size room image s
      → 1 ≤ size
      → suc number + fuel ≤ 65536
      → length rest ≤ fuel * size
      → (rest ≡ []) ⊎ (length image ≡ suc number * size)
      → length image + length rest ≤ room
      → (s' : Dfu T) × (send_image backend (suc fuel) s (suc number) rest ≡ some s')
        × Holds size room (image ++ rest) s'
        × (s'.state ≡ dfu_idle)
        × (s'.status ≡ 0)
  unfolding send_image
  rest_lem size room fuel number image [] s h one small few last fits = (
    record (put s h.target (backend.finish_download h.target.content)) {
      state = dfu_idle;
      status = 0;
    },
    sent_end s h.target (suc number) h.found,
    record {
      target = record h.target { content = backend.finish_download h.target.content };
      found = get_elem?-set_elem s.cur h.target _ s.targets h.found;
      transfer = h.transfer;
      image_held = store.finish_contents h.target.content ∙ (h.image_held ∙ sym (append-nil image));
      room_left = store.finish_capacity h.target.content ∙ h.room_left;
    },
    refl,
    refl,
  )
  rest_lem size room zero number image (b ∷ bs) s h one small few last fits = absurd (omega arith)
  rest_lem size room (suc fuel) number image (b ∷ bs) s h one small few (inl e) fits = absurd (cc)
  rest_lem size room (suc fuel) number image (b ∷ bs) s h one small few (inr aligned) fits =
      let next : Bytes = take size (b ∷ bs) in
      let more : Bytes = drop size (b ∷ bs) in
      let (s1, sent, h1) =
        block_lem size room s h.target (suc number) image next h.found h.transfer h.room_left
          (omega arith) h.image_held aligned (omega (arith, length-take size (b ∷ bs)))
          (omega (arith, length-take size (b ∷ bs))) in
      let (s2, rest, h2, idle, ok) =
        rest_lem size room fuel (suc number) (image ++ next) more s1 h1 one (omega arith)
          (omega (arith, length-drop size (b ∷ bs), suc_mul fuel size))
          (last_or_full size (suc number) image (b ∷ bs) aligned)
          (omega (
            arith,
            length-append image next,
            length-take size (b ∷ bs),
            length-drop size (b ∷ bs),
          )) in
      (
        s2,
        send_more (suc fuel) (suc number) size b bs s s1 s2 h.transfer sent rest,
        rejoin size room image (b ∷ bs) s2 h2,
        idle,
        ok,
      )

  pub download_lem :
      (fuel : ℕ) (s : Dfu T) (t : Target T) (image : Bytes)
      → get_elem? s.targets s.cur ≡ some t
      → 1 ≤ s.transfer_size
      → suc fuel ≤ 65536
      → 1 ≤ length image
      → length image ≤ fuel * s.transfer_size
      → length image ≤ store.capacity t.content
      → (s' : Dfu T) × (send_image backend (suc fuel) s 0 image ≡ some s')
        × Holds s.transfer_size (store.capacity t.content) image s'
        × (s'.state ≡ dfu_idle)
        × (s'.status ≡ 0)
  download_lem fuel s t [] found one small some_bytes few fits = absurd (omega arith)
  download_lem zero s t (b ∷ bs) found one small some_bytes few fits = absurd (omega arith)
  download_lem (suc fuel) s t (b ∷ bs) found one small some_bytes few fits =
      let size : ℕ = s.transfer_size in
      let next : Bytes = take size (b ∷ bs) in
      let more : Bytes = drop size (b ∷ bs) in
      let (s1, sent, h1) =
        block_lem size (store.capacity t.content) s t 0 [] next found refl refl (omega arith)
          (store.begin_empties t.content) (omega arith) (omega (arith, length-take size (b ∷ bs)))
          (omega (arith, length-take size (b ∷ bs))) in
      let (s2, rest, h2, idle, ok) =
        rest_lem size (store.capacity t.content) fuel 0 next more s1 h1 one (omega arith)
          (omega (arith, length-drop size (b ∷ bs), suc_mul fuel size))
          (last_or_full size 0 [] (b ∷ bs) (omega arith))
          (omega (arith, length-take size (b ∷ bs), length-drop size (b ∷ bs))) in
      (
        s2,
        send_more (suc fuel) 0 size b bs s s1 s2 refl sent rest,
        rejoin size (store.capacity t.content) [] (b ∷ bs) s2 h2,
        idle,
        ok,
      )
