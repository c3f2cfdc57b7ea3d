-- ===== src/Mtp/Storage/Moves.antt =====
-- The handles that a rename moves stay apart.
use usbip_python.Base.{
  ℕ, ◌<◌, ◌≢◌, inl, inr, sym, Bool-cases, List, [], ◌∷◌, some, OnReturn, bind-OnReturn, if-OnReturn,
  OnReturn-some,
}
use usbip_python.Mtp.Storage.{Place, Handles, same_place}
use usbip_python.Mtp.Storage.Handles.{Absent, Numbered}
use usbip_python.Mtp.Storage.Edit.{pop, put_handle, move_handles}

pop-Absent :
    (g : ℕ) (k : Place) (m : Handles)
    → Absent g m
    → OnReturn (λ r. (r.0 ≢ g) × Absent g r.1) (pop k m)
unfolding pop
pop-Absent g k [] a = tt
pop-Absent g k ((j, h) ∷ m) (ne, a) =
    if-OnReturn (λ r. (r.0 ≢ g) × Absent g r.1) (same_place j k) (some (h, m)) _ (ne, a)
      (bind-OnReturn (pop k m) _ (λ r. (r.0 ≢ g) × Absent g r.1)
        (λ r e.
          let (x, b) =
            OnReturn-some (pop k m) r (λ r. (r.0 ≢ g) × Absent g r.1) e (pop-Absent g k m a) in
          (x, (ne, b))))

abbrev Popped : ℕ → ℕ × Handles → Type 0
Popped n (h, m) = (h < n) × (Absent h m × Numbered n m)

pop-Numbered : (n : ℕ) (k : Place) (m : Handles) → Numbered n m → OnReturn (Popped n) (pop k m)
unfolding pop
pop-Numbered n k [] w = tt
pop-Numbered n k ((j, h) ∷ m) (lt, (a, w)) =
    if-OnReturn (Popped n) (same_place j k) (some (h, m)) _ (lt, (a, w))
      (bind-OnReturn (pop k m) _ (Popped n) (λ r e.
        let (lt', (b, w')) = OnReturn-some (pop k m) r (Popped n) e (pop-Numbered n k m w) in
        let (ne, a') =
          OnReturn-some (pop k m) r (λ r. (r.0 ≢ h) × Absent h r.1) e (pop-Absent h k m a) in
        (lt', ((λ x. ne (sym x), b), (lt, (a', w'))))))

put_handle-Absent :
    (k : Place) (h g : ℕ) (m : Handles) → Absent g m → h ≢ g → Absent g (put_handle k h m)
unfolding put_handle
put_handle-Absent k h g [] a ne = (ne, tt)
put_handle-Absent k h g ((j, f) ∷ m) (x, a) ne = elim (Bool-cases (same_place j k)) [
  | inl t ↦ rw t (ne, a)
  | inr t ↦ rw t (x, put_handle-Absent k h g m a ne)
]

put_handle-Numbered :
    (n : ℕ) (k : Place) (h : ℕ) (m : Handles)
    → h < n
    → Absent h m
    → Numbered n m
    → Numbered n (put_handle k h m)
unfolding put_handle
put_handle-Numbered n k h [] lt a w = (lt, (tt, tt))
put_handle-Numbered n k h ((j, f) ∷ m) lt (ne, a) (x, (b, w)) = elim (Bool-cases (same_place j k)) [
  | inl t ↦ rw t (lt, (a, w))
  | inr t ↦
      rw t (x, (put_handle-Absent k h f m b (λ e. ne (sym e)), put_handle-Numbered n k h m lt a w))
]

pub move_handles-Numbered :
    (n : ℕ) (moves : List (Place × Place)) (m : Handles)
    → Numbered n m
    → OnReturn (Numbered n) (move_handles moves m)
unfolding move_handles
move_handles-Numbered n [] m w = w
move_handles-Numbered n ((k, k') ∷ moves) m w = bind-OnReturn (pop k m) _ (Numbered n) (λ r e.
    let (lt, (a, w')) = OnReturn-some (pop k m) r (Popped n) e (pop-Numbered n k m w) in
    move_handles-Numbered n moves (put_handle k' r.0 r.1)
      (put_handle-Numbered n k' r.0 r.1 lt a w'))
