-- ===== src/Core/Lengths.antt =====
-- The length fields of the Microsoft OS and BOS descriptors count what is there.
use usbip_python.Base.{
  ℕ, ◌+◌, ◌*◌, ◌≡◌, sym, ap, ◌∙◌, arith, some, List, [], ◌∷◌, ◌++◌, length, length-append, take,
  drop, join, All, >>=-some, >>=-some_last, ◌>>=◌, append_assoc, length-ljust, length-take,
  replicate, drop-append_eq,
}
use usbip_python.Struct.{Bytes, little, pack, unpack}
use usbip_python.Struct.Laws.{unpack-pack_prefix, length-pack}
use usbip_python.Core.{dt_bos}
use usbip_python.Core.MsOs.{
  padded_id, compatid_section, compatid_body, ms_os1_compatid, set_header, Entry,
  ms_os2_set_subsets, function_subsets, to_byte,
}
use usbip_python.Core.Bos.{bos}
use usbip_python.Core.Walk.{iter_descriptors}
use usbip_python.Core.Walk.Laws.{IsDescriptor, iter_descriptors-join}

abbrev bos_header : List Bytes → List (ℕ × ℕ)
bos_header caps = (1, 5) ∷ (1, dt_bos) ∷ (2, 5 + length (join caps)) ∷ (1, length caps) ∷ []

bos_parts :
    (caps : List Bytes) (header : Bytes)
    → All IsDescriptor caps
    → pack little (bos_header caps) ≡ some header
    → (unpack little (1 ∷ 1 ∷ 2 ∷ 1 ∷ []) (take 5 (header ++ join caps))
        ≡ some (5 ∷ dt_bos ∷ length (header ++ join caps) ∷ length caps ∷ []))
      × (iter_descriptors (header ++ join caps) 5 ≡ caps)
bos_parts caps header h e =
    let size : length header ≡ 5 = length-pack little (bos_header caps) e in
    let whole : length (header ++ join caps) ≡ 5 + length (join caps) =
      omega (arith, length-append header (join caps)) in
    (
      rw whole (unpack-pack_prefix little (bos_header caps) header (join caps) e),
      sym (ap (iter_descriptors (header ++ join caps)) size) ∙ iter_descriptors-join header caps h,
    )

-- A host that walks the BOS behind its header meets the capabilities in order, and the header's
-- wTotalLength and bNumDeviceCaps count the bytes and the capabilities.
pub bos_lem :
    (caps : List Bytes) (d : Bytes)
    → All IsDescriptor caps
    → bos caps ≡ some d
    → (unpack little (1 ∷ 1 ∷ 2 ∷ 1 ∷ []) (take 5 d)
        ≡ some (5 ∷ dt_bos ∷ length d ∷ length caps ∷ []))
      × (iter_descriptors d 5 ≡ caps)
unfolding bos
bos_lem caps d h e =
    let (header, p, q) = >>=-some_last _ (λ hd. hd ++ join caps) e in
    rw (q) (bos_parts caps header h p)

length-padded_id : (compat : Bytes) → length (padded_id compat) ≡ 8
length-padded_id compat = length-ljust 8 0 (take 8 compat) (omega (arith, length-take 8 compat))

section_length :
    (first : ℕ) (compat s : Bytes) → compatid_section first compat ≡ some s → length s ≡ 24
unfolding compatid_section
section_length first compat s e =
    let (b, p, q) =
      >>=-some_last (to_byte first)
        (λ (b : ℕ). (b ∷ 0x01 ∷ []) ++ (padded_id compat ++ (replicate 8 0 ++ replicate 6 0))) e in
    rw (q) (
      omega (
        arith,
        length-append (padded_id compat) (replicate 8 0 ++ replicate 6 0),
        length-padded_id compat,
      ))

body_length :
    (sections : List (ℕ × Bytes)) (b : Bytes)
    → compatid_body sections ≡ some b
    → length b ≡ 24 * length sections
unfolding compatid_body
body_length [] b e = ground arith
body_length ((first, compat) ∷ rest) b e =
    let (s, p, q) =
      >>=-some (compatid_section first compat)
        (λ (s : Bytes). compatid_body rest >>= λ more. some (s ++ more)) e in
    let (more, r, t) = >>=-some_last (compatid_body rest) (λ (more : Bytes). s ++ more) q in
    rw (t) (
      omega (arith, length-append s more, section_length first compat s p, body_length rest more r))

abbrev compatid_header : Bytes → ℕ → List (ℕ × ℕ)
compatid_header body n = (4, 16 + length body) ∷ (2, 0x0100) ∷ (2, 0x0004) ∷ (1, n) ∷ []

compatid_parts :
    (n : ℕ) (body header : Bytes)
    → pack little (compatid_header body n) ≡ some header
    → unpack little (4 ∷ 2 ∷ 2 ∷ 1 ∷ []) (take 9 ((header ++ replicate 7 0) ++ body))
      ≡ some (length ((header ++ replicate 7 0) ++ body) ∷ 0x0100 ∷ 0x0004 ∷ n ∷ [])
compatid_parts n body header e =
    let whole : length ((header ++ replicate 7 0) ++ body) ≡ 16 + length body = omega (
      arith,
      length-append (header ++ replicate 7 0) body,
      length-append header (replicate 7 0),
      length-pack little (compatid_header body n) e,
    ) in
    rw (whole, append_assoc header (replicate 7 0) body)
      (unpack-pack_prefix little (compatid_header body n) header (replicate 7 0 ++ body) e)

-- The Compatible-ID descriptor: dwLength is its length, 16 bytes and 24 for each section, and
-- bCount is the number of sections.
pub ms_os1_compatid_lem :
    (sections : List (ℕ × Bytes)) (d : Bytes)
    → ms_os1_compatid sections ≡ some d
    → (unpack little (4 ∷ 2 ∷ 2 ∷ 1 ∷ []) (take 9 d)
        ≡ some (length d ∷ 0x0100 ∷ 0x0004 ∷ length sections ∷ []))
      × (length d ≡ 16 + 24 * length sections)
unfolding ms_os1_compatid
ms_os1_compatid_lem sections d e =
    let (body, p, q) =
      >>=-some (compatid_body sections)
        (λ (body : Bytes). pack little (compatid_header body (length sections)) >>= λ header.
          some ((header ++ replicate 7 0) ++ body))
        e in
    let (header, r, t) =
      >>=-some_last (pack little (compatid_header body (length sections)))
        (λ (header : Bytes). (header ++ replicate 7 0) ++ body) q in
    rw (t) (
      compatid_parts (length sections) body header r,
      omega (
        arith,
        length-append (header ++ replicate 7 0) body,
        length-append header (replicate 7 0),
        length-pack little (compatid_header body (length sections)) r,
        body_length sections body p,
      ),
    )

set_fields : Bytes → List (ℕ × ℕ)
set_fields body = (2, 10) ∷ (2, 0x00) ∷ (4, 0x06030000) ∷ (2, 10 + length body) ∷ []

-- What `set_header` wraps says its whole length.
pub set_header_lem :
    (body d : Bytes)
    → set_header body ≡ some d
    → (unpack little (2 ∷ 2 ∷ 4 ∷ 2 ∷ []) (take 10 d) ≡ some (10 ∷ 0 ∷ 0x06030000 ∷ length d ∷ []))
      × (drop 10 d ≡ body)
unfolding set_header set_fields
set_header_lem body d e =
    let (header, p, q) =
      >>=-some_last (pack little (set_fields body)) (λ (hd : Bytes). hd ++ body) e in
    let size : length header ≡ 10 = length-pack little (set_fields body) p in
    rw (q, length-append header body, size)
      (
        unpack-pack_prefix little (set_fields body) header body p,
        drop-append_eq 10 header body size,
      )

abbrev subset_fields : Bytes → List (ℕ × ℕ)
subset_fields subsets = (2, 8) ∷ (2, 0x0001) ∷ (1, 0) ∷ (1, 0) ∷ (2, 8 + length subsets) ∷ []

-- The descriptor set of a composite device: wTotalLength of the set header is the length of the
-- set, and wTotalLength of the configuration subset in it is the length of the rest.
pub ms_os2_set_subsets_lem :
    (entries : List Entry) (d : Bytes)
    → ms_os2_set_subsets entries ≡ some d
    → (unpack little (2 ∷ 2 ∷ 4 ∷ 2 ∷ []) (take 10 d) ≡ some (10 ∷ 0 ∷ 0x06030000 ∷ length d ∷ []))
      × (unpack little (2 ∷ 2 ∷ 1 ∷ 1 ∷ 2 ∷ []) (take 8 (drop 10 d))
          ≡ some (8 ∷ 1 ∷ 0 ∷ 0 ∷ length (drop 10 d) ∷ []))
unfolding ms_os2_set_subsets
ms_os2_set_subsets_lem entries d e =
    let (subsets, p, q) =
      >>=-some (function_subsets entries)
        (λ (subsets : Bytes).
          pack little (subset_fields subsets) >>= λ header. set_header (header ++ subsets))
        e in
    let (header, r, t) =
      >>=-some (pack little (subset_fields subsets))
        (λ (header : Bytes). set_header (header ++ subsets)) q in
    let (outer, inner) = set_header_lem (header ++ subsets) d t in
    (
      outer,
      rw (inner, length-append header subsets, length-pack little (subset_fields subsets) r)
          (unpack-pack_prefix little (subset_fields subsets) header subsets r),
    )
