-- ===== src/Device/Control/Laws.antt =====
-- What a control request comes to.
use usbip_python.Base.{
  ◌≤◌, ◌≡◌, ◌≢◌, ◌⊎◌, inl, inr, arith, none, some, length, length-take, pos, Bool-cases, ◌==◌,
  Option-cases,
}
use usbip_python.Core.{dir_in}
use usbip_python.Core.Setup
use usbip_python.Core.Setup.{Setup}
use usbip_python.Core.Urb.{Urb}
use usbip_python.Endpoint.{stall_status}
use usbip_python.Device.State.{State, Profile, Answer, reply, stalls, crash}
use usbip_python.Device.Control.{control_request, control_result, handle_setup, handle_control}

-- The fields by which the host tells to which request a reply belongs.
pub record SameRequest (u r : Urb) : Type 0 where
  pub seqnum : r.seqnum ≡ u.seqnum
  pub devid : r.devid ≡ u.devid
  pub direction : r.direction ≡ u.direction
  pub ep : r.ep ≡ u.ep

-- A control URB that is answered: the same request; a stall, or success; and on success with IN
-- data no more bytes than wLength asks for, and as many as it announces.
pub record Controlled (setup : Setup) (u r : Urb) : Type 0 where
  pub same : SameRequest u r
  pub outcome :
      (r.status ≡ stall_status)
      ⊎ ((r.status ≡ pos 0)
          × ((Setup.direction setup ≢ dir_in)
              ⊎ ((length r.buffer ≤ setup.w_length) × (r.actual ≡ pos (length r.buffer)))))

result_Controlled :
    (setup : Setup) (a : Answer) (u r : Urb)
    → control_result setup a u ≡ some r
    → Controlled setup u r
unfolding control_result
result_Controlled setup (reply bs) u r h = elim (Bool-cases (Setup.direction setup == dir_in)) [
  | inl t ↦ record {
    same = ground arith;
    outcome = inr (ground arith, inr (ground (arith, length-take setup.w_length bs)));
  }
  | inr f ↦ record { same = ground arith; outcome = inr (ground arith, inl (ground arith)) }
]
result_Controlled setup stalls u r h = record { same = ground arith; outcome = inl (ground arith) }
result_Controlled setup crash u r h = cc

module _ {W : Type 0} where
  -- Every control URB that is answered keeps its identity, succeeds or stalls, and returns at most
  -- wLength bytes of IN data, whatever the handlers of the classes answer.
  pub handle_control-Controlled :
      (p : Profile W) (u r : Urb) (setup : Setup) (s : State W)
      → Setup.parse u.setup ≡ some setup
      → (handle_control p u s).0 ≡ some r
      → Controlled setup u r
  unfolding handle_control handle_setup
  handle_control-Controlled p u r setup s parsed h =
      result_Controlled setup (control_request p setup u.buffer s).0 u r (rw parsed at h)

  pub handle_control-SameRequest :
      (p : Profile W) (u r : Urb) (s : State W)
      → (handle_control p u s).0 ≡ some r
      → SameRequest u r
  unfolding handle_control handle_setup
  handle_control-SameRequest p u r s h = elim (Option-cases (Setup.parse u.setup)) [
    | inl e ↦ absurd (none_some (rw e at h))
    | inr (setup, e) ↦
        (result_Controlled setup (control_request p setup u.buffer s).0 u r (rw e at h)).same
  ]
    where
      none_some : none ≡ some r → ⊥
      none_some q = cc
