-- ===== src/Common/Results.antt =====
-- Results with an error, and the chains of fallible steps over them and over `Option`.
use mathlib.Core.Path.{◌≡◌, refl}
use mathlib.Core.Option.{Option, none, some}
use mathlib.Core.Logic.{◌⊎◌, inl, inr}

pub data Result (E A : Type 0) : Type 0 where
  ok : A → Result E A
  err : E → Result E A

abbrev pub bind_result : {E A B : Type 0} → Result E A → (A → Result E B) → Result E B
bind_result (ok a) f = f a
bind_result (err e) f = err e

abbrev pub bind_option {ℓ κ} : {A : Type ℓ} {B : Type κ} → Option A → (A → Option B) → Option B
bind_option none f = none
bind_option (some a) f = f a

pub bind_result_assoc :
    {E A B C : Type 0} (r : Result E A) (f : A → Result E B) (g : B → Result E C)
    → bind_result (bind_result r f) g ≡ bind_result r (λ a. bind_result (f a) g)
bind_result_assoc (ok a) f g = refl
bind_result_assoc (err e) f g = refl

pub bind_result-ok : {E A : Type 0} (r : Result E A) → bind_result r ok ≡ r
bind_result-ok (ok a) = refl
bind_result-ok (err e) = refl

pub Result-cases :
    {E A : Type 0} (r : Result E A) → ((e : E) × (r ≡ err e)) ⊎ ((a : A) × (r ≡ ok a))
Result-cases (err e) = inl (e, refl)
Result-cases (ok a) = inr (a, refl)
