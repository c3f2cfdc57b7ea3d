-- ===== src/Device/Transfer/Cancel.antt =====
-- usbip/device.py, `cancel_urb`: what an unlinked sequence number leaves.
use usbip_python.Base.{
  ℕ, ◌+◌, ◌-◌, ◌≤◌, ◌≡◌, refl, arith, true, false, List, [], ◌∷◌, Bool-cases, inl, inr, ◌==◌,
  if◌then◌else◌, ==→eq,
}
use usbip_python.Struct.{Bytes}
use usbip_python.Core.Urb.{Urb}
use usbip_python.Endpoint.{Endpoint, cancel}
use usbip_python.Endpoint.Cancel.{count, seqs, cancel_lem}
use usbip_python.Device.EpMap.{Key, EpMap}
use usbip_python.Device.State.{State}
use usbip_python.Device.Transfer.{without_seqnum, cancel_first, cancel_urb}

-- How many URBs with the number are parked on the device's endpoints.
unfoldable pub parked_count : ℕ → EpMap → ℕ
parked_count j [] = 0
parked_count j ((k, e) ∷ m) = count j (seqs e.pending) + parked_count j m

-- How many URBs with the number wait for the pacer.
unfoldable pub paced_count : ℕ → List (ℕ × Urb) → ℕ
paced_count j [] = 0
paced_count j ((d, u) ∷ q) = (if u.seqnum == j then 1 else 0) + paced_count j q

-- The data that is queued on the endpoints.
unfoldable pub queued : EpMap → List (Key × List Bytes)
queued [] = []
queued ((k, e) ∷ m) = (k, e.q) ∷ queued m

without_seqnum_lem :
    (n j : ℕ) (q : List (ℕ × Urb))
    → paced_count j (without_seqnum n q) ≡ (if n == j then 0 else paced_count j q)
unfolding paced_count without_seqnum
without_seqnum_lem n j [] = ground arith
without_seqnum_lem n j ((d, u) ∷ q) = ground (arith, without_seqnum_lem n j q)

-- A number that was found was parked there.
found_there :
    (e : Endpoint) (n j : ℕ)
    → (cancel e n).1 ≡ true
    → (if n == j then 1 else 0) ≤ count j (seqs e.pending)
found_there e n j t = elim (Bool-cases (n == j)) [
  | inl z ↦ rw (z, ← ==→eq n j z) (ground (arith, (cancel_lem e n).0))
  | inr z ↦ rw z (omega arith)
]

not_there :
    (e : Endpoint) (n j : ℕ)
    → (cancel e n).1 ≡ false
    → (if n == j then count j (seqs e.pending) else 0) ≡ 0
not_there e n j f = elim (Bool-cases (n == j)) [
  | inl z ↦ rw (z, ← ==→eq n j z) (ground (arith, (cancel_lem e n).0))
  | inr z ↦ rw z refl
]

cancel_first_lem :
    (n j : ℕ) (m : EpMap)
    → parked_count j (cancel_first n m) ≡ parked_count j m - (if n == j then 1 else 0)
unfolding parked_count cancel_first
cancel_first_lem n j [] = ground arith
cancel_first_lem n j ((k, e) ∷ m) = elim (Bool-cases (cancel e n).1) [
  | inl t ↦ rw t (omega (arith, (cancel_lem e n).1 j, found_there e n j t))
  | inr f ↦ rw f (ground (arith, cancel_first_lem n j m, not_there e n j f))
]

cancel_first-queued : (n : ℕ) (m : EpMap) → queued (cancel_first n m) ≡ queued m
unfolding queued cancel_first
cancel_first-queued n [] = refl
cancel_first-queued n ((k, e) ∷ m) = elim (Bool-cases (cancel e n).1) [
  | inl t ↦ rw (t, (cancel_lem e n).2) refl
  | inr f ↦ rw (f, cancel_first-queued n m) refl
]

module _ {W : Type 0} where
  -- Unlinking a number takes one URB with it from those that are parked, if there is one, and every
  -- URB with it from those that wait for the pacer. The URBs with any other number, and the data
  -- queued on the endpoints, are as they were.
  pub cancel_urb_lem :
      (n j : ℕ) (s : State W)
      → (parked_count j (cancel_urb n s).ep_map
          ≡ parked_count j s.ep_map - (if n == j then 1 else 0))
        × (paced_count j (cancel_urb n s).pace_q ≡ (if n == j then 0 else paced_count j s.pace_q))
        × (queued (cancel_urb n s).ep_map ≡ queued s.ep_map)
  unfolding cancel_urb
  cancel_urb_lem n j s = (
    cancel_first_lem n j s.ep_map,
    without_seqnum_lem n j s.pace_q,
    cancel_first-queued n s.ep_map,
  )
