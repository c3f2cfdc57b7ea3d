-- ===== src/Device/Control/Halt.antt =====
-- usbip/device.py, `_standard`: SET_FEATURE(ENDPOINT_HALT) and CLEAR_FEATURE(ENDPOINT_HALT).
use Prim.Native.Nat.{bit_and}
use usbip_python.Base.{
  ℕ, ◌≡◌, refl, sym, ap, ◌∙◌, arith, Bool, true, false, [], ◌++◌, map, Option, some, if◌then◌else◌,
}
use usbip_python.Struct.{Bytes}
use usbip_python.Core.Setup
use usbip_python.Core.Setup.{Setup}
use usbip_python.Endpoint.{Endpoint, stall, clear_halt}
use usbip_python.Device.EpMap.{Key, same, lookup, lookup-insert}
use usbip_python.Device.State.{State, Profile, Answer, complete, reply}
use usbip_python.Device.Control.{
  standard_type, to_endpoint, feature_endpoint_halt, addr_key, ep_by_addr, set_halt, put_endpoint,
  feature, standard, control_request,
}

pub same_refl : (k : Key) → same k k ≡ true
same_refl k = ground arith

pub same-eq : {j k : Key} → j ≡ k → same j k ≡ true
same-eq {j} {k} e = rw e (same_refl k)

pub if-true : {b : Bool} (x y : Option Endpoint) → b ≡ true → (if b then x else y) ≡ x
if-true x y e = rw e refl

if-if :
    (b : Bool) (x y z : Option Endpoint)
    → (if b then x else (if b then y else z)) ≡ (if b then x else z)
if-if true x y z = refl
if-if false x y z = refl

-- A SETUP packet for the halt feature of the endpoint with the address in wIndex.
pub record IsHaltFeature (request : ℕ) (setup : Setup) : Type 0 where
  pub type : Setup.type setup ≡ standard_type
  pub recipient : Setup.recipient setup ≡ to_endpoint
  pub b_request : setup.b_request ≡ request
  pub w_value : setup.w_value ≡ feature_endpoint_halt

abbrev pub setup_key : Setup → Key
setup_key setup = addr_key (bit_and setup.w_index 0xFF)

module _ {W : Type 0} where
  feature-halt :
      (halt : Bool) (request : ℕ) (setup : Setup) (s : State W) (e : Endpoint)
      → IsHaltFeature request setup
      → lookup (setup_key setup) s.ep_map ≡ some e
      → feature halt setup s ≡ set_halt halt s (bit_and setup.w_index 0xFF) (some e)
  unfolding feature ep_by_addr
  feature-halt halt request setup s e h found =
      simp (h.recipient, h.w_value) (ap (set_halt halt s (bit_and setup.w_index 0xFF)) found)

  set_feature :
      (p : Profile W) (setup : Setup) (payload : Bytes) (s : State W) (e : Endpoint)
      → IsHaltFeature 3 setup
      → lookup (setup_key setup) s.ep_map ≡ some e
      → control_request p setup payload s
        ≡ (reply [], set_halt true s (bit_and setup.w_index 0xFF) (some e))
  unfolding control_request standard
  set_feature p setup payload s e h found =
      simp (h.type, h.b_request, feature-halt true 3 setup s e h found) refl

  clear_feature :
      (p : Profile W) (setup : Setup) (payload : Bytes) (s : State W) (e : Endpoint)
      → IsHaltFeature 1 setup
      → lookup (setup_key setup) s.ep_map ≡ some e
      → control_request p setup payload s
        ≡ (reply [], set_halt false s (bit_and setup.w_index 0xFF) (some e))
  unfolding control_request standard
  clear_feature p setup payload s e h found =
      simp (h.type, h.b_request, feature-halt false 1 setup s e h found) refl

  -- SET_FEATURE(ENDPOINT_HALT) on an endpoint of the device succeeds without data; every URB that
  -- was parked on it is responded to with a stall, in order; and the dict has the halted endpoint
  -- there, and every other endpoint as it was.
  pub set_halt_lem :
      (p : Profile W) (setup : Setup) (payload : Bytes) (s : State W) (e : Endpoint)
      → IsHaltFeature 3 setup
      → lookup (setup_key setup) s.ep_map ≡ some e
      → ((control_request p setup payload s).0 ≡ reply [])
        × ((control_request p setup payload s).1.responded
            ≡ s.responded ++ map complete (stall e).1)
        × ((k : Key)
            → lookup k (control_request p setup payload s).1.ep_map
              ≡ (if same (setup_key setup) k then some (stall e).0 else lookup k s.ep_map))
  unfolding set_halt put_endpoint
  set_halt_lem p setup payload s e h found =
      rw (set_feature p setup payload s e h found)
        (refl, refl, λ k. lookup-insert (setup_key setup) k (stall e).0 s.ep_map)

  -- CLEAR_FEATURE(ENDPOINT_HALT) after SET_FEATURE(ENDPOINT_HALT) on the same endpoint leaves it as
  -- it was before but for its parked URBs, which are gone, and not halted: the queued data is kept.
  -- Every other endpoint stays as it was.
  pub clear-set_halt_lem :
      (p : Profile W) (setup clear : Setup) (payload : Bytes) (s : State W) (e : Endpoint)
      → IsHaltFeature 3 setup
      → IsHaltFeature 1 clear
      → clear.w_index ≡ setup.w_index
      → lookup (setup_key setup) s.ep_map ≡ some e
      → (k : Key)
      → lookup k (control_request p clear payload (control_request p setup payload s).1).1.ep_map
        ≡ (if same (setup_key setup) k
            then some (record e { halted = false; pending = [] })
            else lookup k s.ep_map)
  unfolding set_halt put_endpoint stall clear_halt
  clear-set_halt_lem p setup clear payload s e h c where_to found k =
      let s1 = (control_request p setup payload s).1 in
      let looked = (set_halt_lem p setup payload s e h found).2 in
      let there : lookup (setup_key clear) s1.ep_map ≡ some (stall e).0 =
        looked (setup_key clear)
        ∙ if-true (some (stall e).0) (lookup (setup_key clear) s.ep_map)
            (same-eq (ap addr_key (ap (λ (i : ℕ). bit_and i 0xFF) (sym where_to)))) in
      ap (λ (t : Answer × State W). lookup k t.1.ep_map)
        (clear_feature p clear payload s1 (stall e).0 c there)
      ∙ lookup-insert (setup_key clear) k (clear_halt (stall e).0) s1.ep_map
      ∙ ap
          (λ (i : ℕ).
            if same (addr_key (bit_and i 0xFF)) k
            then some (clear_halt (stall e).0)
            else lookup k s1.ep_map)
          where_to
      ∙ ap
          (λ (o : Option Endpoint).
            if same (setup_key setup) k then some (clear_halt (stall e).0) else o)
          (looked k)
      ∙ if-if (same (setup_key setup) k) _ _ _
