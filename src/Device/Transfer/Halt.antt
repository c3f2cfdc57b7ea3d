-- ===== src/Device/Transfer/Halt.antt =====
-- usbip/device.py, `handle_urb`: URBs for a halted endpoint.
use usbip_python.Base.{
  ℕ, ◌≡◌, ◌≢◌, refl, sym, ◌∙◌, arith, [], some, pos, Bool-cases, inl, inr, ◌==◌,
}
use usbip_python.Struct.{Bytes}
use usbip_python.Core.Setup.{Setup}
use usbip_python.Core.Urb.{Urb}
use usbip_python.Endpoint.{Endpoint, stall, stall_status}
use usbip_python.Device.EpMap.{lookup}
use usbip_python.Device.State.{State, Profile}
use usbip_python.Device.Control.{control_request}
use usbip_python.Device.Control.Halt.{IsHaltFeature, same-eq, if-true, setup_key, set_halt_lem}
use usbip_python.Device.Transfer.{answered, data_urb, handle_urb}

module _ {W : Type 0} where
  -- After SET_FEATURE(ENDPOINT_HALT) on an endpoint, every URB for that endpoint is answered at once
  -- with a stall and no data, and the device is left as it is.
  pub handle_urb-set_halt :
      (p : Profile W) (setup : Setup) (payload : Bytes) (s : State W) (e : Endpoint) (now : ℕ)
      (u : Urb)
      → IsHaltFeature 3 setup
      → lookup (setup_key setup) s.ep_map ≡ some e
      → u.ep ≢ 0
      → (u.ep, u.direction) ≡ setup_key setup
      → handle_urb p now u (control_request p setup payload s).1 ≡ (
        answered (record u { buffer = []; actual = pos 0; status = stall_status }),
        (control_request p setup payload s).1,
      )
  unfolding handle_urb data_urb stall
  handle_urb-set_halt p setup payload s e now u h found nonzero key =
      let s1 = (control_request p setup payload s).1 in
      let at_key : lookup (u.ep, u.direction) s1.ep_map ≡ some (stall e).0 =
        (set_halt_lem p setup payload s e h found).2 (u.ep, u.direction)
        ∙ if-true (some (stall e).0) (lookup (u.ep, u.direction) s.ep_map) (same-eq (sym key)) in
      elim (Bool-cases (u.ep == 0)) [
        | inl t ↦ absurd (nonzero (ground arith))
        | inr f ↦ rw (f, at_key) refl
      ]
