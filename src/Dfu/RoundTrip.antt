-- ===== src/Dfu/RoundTrip.antt =====
-- An image that a host has downloaded is the image that it uploads.
use usbip_python.Base.{
  ℕ, zero, suc, ◌+◌, ◌-◌, ◌*◌, ◌%◌, ◌≤◌, ◌<◌, ◌≡◌, inl, inr, arith, refl, ap, ◌∙◌, sym, min, true,
  false, [], ◌++◌, some, ltb, length, take, drop, get_elem?, length-take, length-drop, take-all,
  drop-drop, take-append-drop, Bool-cases, ltb→lt, ltb→ge, suc_mul,
}
use usbip_python.Struct.{Bytes}
use usbip_python.Dfu.{dfu_idle, Backend, Target, Dfu, upload, after_read, upload_state, on_control}
use usbip_python.Dfu.Download.{IsByteStore, Holds, download_lem}
use usbip_python.Dfu.Transfer.{request, ask, send_image, fetch_image}

module _ {T : Type 0} (backend : Backend T) (store : IsByteStore backend) where
  fetched_block :
      (size room number : ℕ) (image : Bytes) (s : Dfu T)
      → Holds backend store size room image s
      → size < 65536
      → number < 65536
      → (s' : Dfu T) × (ask backend s (request 0xA1 2 number s.transfer_size) []
          ≡ some (take size (drop (number * size) image), s'))
        × Holds backend store size room image s'
  unfolding ask on_control upload after_read
  fetched_block size room number image s h short small =
      let value : number % 65536 ≡ number = omega arith in
      let width : size % 65536 ≡ size = omega arith in
      let same : min size size ≡ size = omega arith in
      (
        record s { state = upload_state (take size (drop (number * size) image)); status = 0 },
        rw
            (
              h.found,
              h.transfer,
              value,
              width,
              same,
              store.read_slice h.target.content (number * size) size,
              h.image_held,
            )
            refl,
        record {
          target = h.target;
          found = h.found;
          transfer = h.transfer;
          image_held = h.image_held;
          room_left = h.room_left;
        },
      )

  split_rest :
      (size number : ℕ) (image : Bytes)
      → take size (drop (number * size) image) ++ drop (suc number * size) image
        ≡ drop (number * size) image
  split_rest size number image =
      ap (λ (bs : Bytes). take size (drop (number * size) image) ++ bs)
        (ap (λ (k : ℕ). drop k image) (suc_mul number size ∙ omega arith)
          ∙ sym (drop-drop (number * size) size image))
      ∙ take-append-drop size (drop (number * size) image)

  fetch_lem :
      (size room : ℕ) (fuel number : ℕ) (image : Bytes) (s : Dfu T)
      → Holds backend store size room image s
      → size < 65536
      → number + fuel ≤ 65536
      → number * size ≤ length image
      → length image < (number + fuel) * size
      → (s' : Dfu T) × (fetch_image backend fuel s number ≡ some (drop (number * size) image, s'))
  unfolding fetch_image
  fetch_lem size room zero number image s h short small begun_at enough =
      absurd (omega (arith, ap (λ (k : ℕ). k * size) {x = number + 0} {y = number} (omega arith)))
  fetch_lem size room (suc fuel) number image s h short small begun_at enough =
      let (s1, got, h1) = fetched_block size room number image s h short (omega arith) in
      elim (Bool-cases (ltb (length (take size (drop (number * size) image))) size)) [
        | inl t ↦ (
          s1,
          rw (got, h.transfer, t)
              (ap (λ (bs : Bytes). some (bs, s1))
                (take-all size (drop (number * size) image) (short_block t))),
        )
        | inr f ↦
            let (s2, rest) =
              fetch_lem size room fuel (suc number) image s1 h1 short (omega arith)
                (omega (arith, suc_mul number size, full_block f))
                (rw (shift number fuel) enough) in
            (
              s2,
              rw (got, h.transfer, f, rest)
                  (ap (λ (bs : Bytes). some (bs, s2)) (split_rest size number image)),
            )
      ]
    where
      left : Bytes
      left = drop (number * size) image

      short_block : ltb (length (take size left)) size ≡ true → length left ≤ size
      short_block t = omega (arith, ltb→lt (length (take size left)) size t, length-take size left)

      full_block : ltb (length (take size left)) size ≡ false → size ≤ length image - number * size
      full_block f = omega (
        arith,
        ltb→ge (length (take size left)) size f,
        length-take size left,
        length-drop (number * size) image,
      )

      shift : (n k : ℕ) → suc n + k ≡ n + suc k
      shift n k = omega arith

  -- A target that is a byte store; an image of at least one byte that fits it and takes at most
  -- `fuel` blocks, and `fuel` at most 65535: the host's download of the image ends without an error,
  -- in dfuIDLE with status OK, and an upload from there yields the image.
  pub fetch-send_image :
      (fuel : ℕ) (s : Dfu T) (t : Target T) (image : Bytes)
      → get_elem? s.targets s.cur ≡ some t
      → 1 ≤ s.transfer_size
      → s.transfer_size < 65536
      → fuel < 65536
      → 1 ≤ length image
      → length image ≤ fuel * s.transfer_size
      → length image ≤ store.capacity t.content
      → (s' s'' : Dfu T) × (send_image backend (suc fuel) s 0 image ≡ some s')
        × (s'.state ≡ dfu_idle)
        × (s'.status ≡ 0)
        × (fetch_image backend (suc fuel) s' 0 ≡ some (image, s''))
  fetch-send_image fuel s t image found one short small some_bytes few fits =
      let (s1, sent, h, idle, ok) =
        download_lem backend store fuel s t image found one small some_bytes few fits in
      let (s2, got) =
        fetch_lem s.transfer_size (store.capacity t.content) (suc fuel) 0 image s1 h short
          (omega arith) (omega arith)
          (omega (
            arith,
            suc_mul fuel s.transfer_size,
            ap (λ (k : ℕ). k * s.transfer_size) {x = 0 + suc fuel} {y = suc fuel} (omega arith),
          )) in
      (
        s1,
        s2,
        sent,
        idle,
        ok,
        got
            ∙ ap (λ (k : ℕ). some (drop k image, s2)) {x = 0 * s.transfer_size} {y = 0}
                (omega arith),
      )
