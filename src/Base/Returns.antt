-- ===== src/Base/Returns.antt =====
-- What holds of the result of a chain of calls that may raise, if it returns.
use mathlib.Core.Path.{◌≡◌, refl, subst}
use mathlib.Core.Bool.{Bool, true, false}
use mathlib.Core.Option.{Option, none, some}
use usbip_python.Base.Tests.{◌>>=◌, if◌then◌else◌}

abbrev pub OnReturn {ℓ} : {A : Type ℓ} → (A → Type 0) → Option A → Type 0
OnReturn P none = Unit {0}
OnReturn P (some a) = P a

pub bind-OnReturn {ℓ κ} :
    {A : Type ℓ} {B : Type κ} (o : Option A) (f : A → Option B) (P : B → Type 0)
    → ((a : A) → o ≡ some a → OnReturn P (f a))
    → OnReturn P (o >>= f)
bind-OnReturn none f P h = tt
bind-OnReturn (some a) f P h = h a refl

pub if-OnReturn {ℓ} :
    {A : Type ℓ} (P : A → Type 0) (b : Bool) (x y : Option A)
    → OnReturn P x
    → OnReturn P y
    → OnReturn P (if b then x else y)
if-OnReturn P true x y px py = px
if-OnReturn P false x y px py = py

pub OnReturn-some {ℓ} :
    {A : Type ℓ} (o : Option A) (a : A) (P : A → Type 0) → o ≡ some a → OnReturn P o → P a
OnReturn-some o a P e h = subst (λ (x : Option _). OnReturn P x) e h
