-- ===== src/Transport/Laws.antt =====
-- The device numbers that a listener gives out.
use usbip_python.Base.{
  ℕ, ◌+◌, ◌≤◌, ◌≡◌, refl, arith, false, List, [], ◌∷◌, ◌++◌, length, length-append, leb, ◌==◌,
  Bool-cases, inl, inr,
}
use usbip_python.Transport.{
  Plugged, Listener, max_devices, new, named, written, register, removed, unregister, Op, plugs,
  unplugs, step, run,
}

-- No entry is the device.
abbrev pub Absent : ℕ → List Plugged → Type 0
Absent ident [] = Unit {0}
Absent ident (e ∷ es) = ((e.ident == ident) ≡ false) × Absent ident es

-- The device numbers go up from `lo`, and stay below `hi`.
abbrev pub Ascending : ℕ → ℕ → List Plugged → Type 0
Ascending lo hi [] = lo ≤ hi
Ascending lo hi (e ∷ es) = (lo ≤ e.devnum) × Ascending (e.devnum + 1) hi es

-- 16 devices at most, with numbers from 2 on that are all different and below the next one.
pub record IsValid (l : Listener) : Type 0 where
  pub few : length l.devices ≤ max_devices
  pub numbers : Ascending 2 l.next_devnum l.devices

-- Each device is plugged only when it is not plugged.
abbrev pub Fresh : Listener → List Op → Type 0
Fresh l [] = Unit {0}
Fresh l (plugs d ∷ ops) = Absent d.ident l.devices × Fresh (step l (plugs d)) ops
Fresh l (unplugs ident ∷ ops) = Fresh (step l (unplugs ident)) ops

written-Absent : (d : Plugged) (es : List Plugged) → Absent d.ident es → written d es ≡ es
unfolding written
written-Absent d [] a = refl
written-Absent d (e ∷ es) (f, a) = rw (f, written-Absent d es a) refl

Ascending-append :
    (lo hi : ℕ) (es : List Plugged) (d : Plugged)
    → d.devnum ≡ hi
    → Ascending lo hi es
    → Ascending lo (hi + 1) (es ++ (d ∷ []))
Ascending-append lo hi [] d e h = (omega arith, omega arith)
Ascending-append lo hi (x ∷ xs) d e (le, h) = (le, Ascending-append (x.devnum + 1) hi xs d e h)

Ascending-lower :
    (lo lo' hi : ℕ) (es : List Plugged) → lo ≤ lo' → Ascending lo' hi es → Ascending lo hi es
Ascending-lower lo lo' hi [] h a = omega arith
Ascending-lower lo lo' hi (e ∷ es) h (le, a) = (omega arith, a)

removed-Ascending :
    (ident lo hi : ℕ) (es : List Plugged) → Ascending lo hi es → Ascending lo hi (removed ident es)
unfolding removed
removed-Ascending ident lo hi [] a = a
removed-Ascending ident lo hi (e ∷ es) (le, a) = elim (Bool-cases (e.ident == ident)) [
  | inl t ↦ rw t (Ascending-lower lo (e.devnum + 1) hi es (omega arith) a)
  | inr f ↦ rw f (le, removed-Ascending ident (e.devnum + 1) hi es a)
]

length-removed : (ident : ℕ) (es : List Plugged) → length (removed ident es) ≤ length es
unfolding removed
length-removed ident [] = omega arith
length-removed ident (e ∷ es) = ground (arith, length-removed ident es)

step-plugs_IsValid :
    (d : Plugged) (l : Listener) → Absent d.ident l.devices → IsValid l → IsValid (step l (plugs d))
unfolding step register
step-plugs_IsValid d l a v = elim (Bool-cases (leb max_devices (length l.devices))) [
  | inl t ↦ rw t v
  | inr f ↦
      let d' : Plugged = record d {
        busid = named (length l.devices + 1) d.busid;
        busnum = 1;
        devnum = l.next_devnum;
      } in
      rw (f, written-Absent d' l.devices a)
        (record {
          few = ground (arith, length-append l.devices (d' ∷ []));
          numbers = Ascending-append 2 l.next_devnum l.devices d' refl v.numbers;
        })
]

step-unplugs_IsValid : (ident : ℕ) (l : Listener) → IsValid l → IsValid (step l (unplugs ident))
unfolding step unregister
step-unplugs_IsValid ident l v = record {
  few = omega (arith, length-removed ident l.devices, v.few);
  numbers = removed-Ascending ident 2 l.next_devnum l.devices v.numbers;
}

IsValid-run : (ops : List Op) (l : Listener) → Fresh l ops → IsValid l → IsValid (run l ops)
unfolding run
IsValid-run [] l f v = v
IsValid-run (plugs d ∷ ops) l (a, f) v =
    IsValid-run ops (step l (plugs d)) f (step-plugs_IsValid d l a v)
IsValid-run (unplugs ident ∷ ops) l f v =
    IsValid-run ops (step l (unplugs ident)) f (step-unplugs_IsValid ident l v)

-- However devices are plugged and unplugged on a new listener, each only when it is not plugged, no
-- more than 16 are exported, and their device numbers are all different.
pub run-IsValid : (ops : List Op) → Fresh new ops → IsValid (run new ops)
run-IsValid ops f = IsValid-run ops new f (record { few = omega arith; numbers = omega arith })
