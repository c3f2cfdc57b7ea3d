-- ===== src/Core/EndpointDescriptor.antt =====
-- usbip/core.py, class EndpointDescriptor: the 7-byte endpoint descriptor.
use usbip_python.Base.{
  ℕ, ◌≡◌, arith, refl, Option, none, some, List, [], ◌∷◌, ◌++◌, take, ◌>>=◌, length, sym, ◌∙◌,
}
use usbip_python.Struct.{Bytes, IsByte, Field, Fits, little}
use usbip_python.Struct
use usbip_python.Struct.Laws.{unpack-pack_prefix, length-pack, pack_first}
use usbip_python.Core.Walk.Laws.{IsDescriptor}
use usbip_python.Core.{dt_endpoint}

pub record EndpointDescriptor : Type 0 where
  pub b_endpoint_address : ℕ
  pub bm_attributes : ℕ
  pub w_max_packet_size : ℕ
  pub b_interval : ℕ

-- What `pack` hands to `struct.pack`, bLength and bDescriptorType first.
abbrev pub endpoint_fields : EndpointDescriptor → List Field
endpoint_fields d =
    (1, 7)
    ∷ (1, dt_endpoint)
    ∷ (1, d.b_endpoint_address)
    ∷ (1, d.bm_attributes)
    ∷ (2, d.w_max_packet_size)
    ∷ (1, d.b_interval)
    ∷ []

unfoldable pub pack : EndpointDescriptor → Option Bytes
pack d = Struct.pack little (endpoint_fields d)

abbrev of_values : List ℕ → Option EndpointDescriptor
of_values (_ ∷ _ ∷ v0 ∷ v1 ∷ v2 ∷ v3 ∷ []) = some (record {
  b_endpoint_address = v0;
  bm_attributes = v1;
  w_max_packet_size = v2;
  b_interval = v3;
})
of_values _ = none

unfoldable pub parse : Bytes → Option EndpointDescriptor
parse raw = Struct.unpack little (1 ∷ 1 ∷ 1 ∷ 1 ∷ 2 ∷ 1 ∷ []) (take 7 raw) >>= of_values

pub length-pack_endpoint :
    (d : EndpointDescriptor) {raw : Bytes} → pack d ≡ some raw → length raw ≡ 7
unfolding pack
length-pack_endpoint d h = length-pack little (endpoint_fields d) h

-- A packed descriptor is parsed back, whatever follows it in the buffer, and says its own length.
pub parse-pack_endpoint :
    (d : EndpointDescriptor) (raw rest : Bytes)
    → pack d ≡ some raw
    → (parse (raw ++ rest) ≡ some d) × IsDescriptor raw
unfolding pack parse
parse-pack_endpoint d raw rest h =
    let size : length raw ≡ 7 = length-pack little (endpoint_fields d) h in
    (
      rw (unpack-pack_prefix little (endpoint_fields d) raw rest h) refl,
      record { long = omega arith; counted = pack_first 7 _ h ∙ sym size },
    )
