-- ===== src/Common/Maps.antt =====
-- Go's maps as association lists over a type with a decidable equality, read by `find`.
use mathlib.Core.Path.{◌≡◌, refl}
use mathlib.Core.Logic.{◌≢◌, inl, inr}
use mathlib.Core.Bool.{Bool, true, false}
use mathlib.Core.List.{List, [], ◌∷◌}
use mathlib.Core.Option.{Option, none, some}
use native.Mathlib.Omega.{arith}
use nestory.Common.Tests.{if◌then◌else◌, Bool-cases}
use nestory.Common.Preds.{In}

pub record Equality (K : Type 0) : Type 0 where
  pub same : K → K → Bool
  pub same-eq : (a b : K) → same a b ≡ true → a ≡ b
  pub same_refl : (a : K) → same a a ≡ true

module _ {K : Type 0} ⦃e : Equality K⦄ where
  pub same_ne : (a b : K) → e.same a b ≡ false → a ≢ b
  same_ne a b h eq = let t = rw (eq, e.same_refl b) at h in ground arith

  pub ne-same : (a b : K) → a ≢ b → e.same a b ≡ false
  ne-same a b h = elim (Bool-cases (e.same a b)) [
    | inl t ↦ absurd (h (e.same-eq a b t))
    | inr t ↦ t
  ]

module _ {K V : Type 0} ⦃e : Equality K⦄ where
  unfoldable pub find : K → List (K × V) → Option V
  find k [] = none
  find k ((j, v) ∷ m) = let rest = find k m in if e.same k j then some v else rest

  unfoldable pub put : K → V → List (K × V) → List (K × V)
  put k v [] = (k, v) ∷ []
  put k v ((j, w) ∷ m) = let rest = put k v m in if e.same k j then (k, v) ∷ m else (j, w) ∷ rest

  unfoldable pub delete : K → List (K × V) → List (K × V)
  delete k [] = []
  delete k ((j, w) ∷ m) = let rest = delete k m in if e.same k j then rest else (j, w) ∷ rest

  pub find-put_self : (k : K) (v : V) (m : List (K × V)) → find k (put k v m) ≡ some v
  unfolding find put
  find-put_self k v [] = rw (e.same_refl k) refl
  find-put_self k v ((j, w) ∷ m) = elim (Bool-cases (e.same k j)) [
    | inl t ↦ rw (t, e.same_refl k) refl
    | inr t ↦ rw (t, t) (find-put_self k v m)
  ]

  pub find-put_ne : (k j : K) (v : V) (m : List (K × V)) → k ≢ j → find k (put j v m) ≡ find k m
  unfolding find put
  find-put_ne k j v [] h = rw (ne-same k j h) refl
  find-put_ne k j v ((i, w) ∷ m) h = elim (Bool-cases (e.same j i)) [
    | inl t ↦ rw (t, ne-same k j h, ← e.same-eq j i t, ne-same k j h) refl
    | inr t ↦ rw (t, find-put_ne k j v m h) refl
  ]

  pub find-delete_self : (k : K) (m : List (K × V)) → find k (delete k m) ≡ none
  unfolding find delete
  find-delete_self k [] = refl
  find-delete_self k ((j, w) ∷ m) = elim (Bool-cases (e.same k j)) [
    | inl t ↦ rw t (find-delete_self k m)
    | inr t ↦ rw (t, t) (find-delete_self k m)
  ]

  pub find-delete_ne : (k j : K) (m : List (K × V)) → k ≢ j → find k (delete j m) ≡ find k m
  unfolding find delete
  find-delete_ne k j [] h = refl
  find-delete_ne k j ((i, w) ∷ m) h = elim (Bool-cases (e.same j i)) [
    | inl t ↦ rw (t, ← e.same-eq j i t, ne-same k j h) (find-delete_ne k j m h)
    | inr t ↦ rw (t, find-delete_ne k j m h) refl
  ]

  pub find-In : (k : K) (v : V) (m : List (K × V)) → find k m ≡ some v → In (k, v) m
  unfolding find
  find-In k v [] h = ground arith
  find-In k v ((j, w) ∷ m) h = elim (Bool-cases (e.same k j)) [
    | inl t ↦ inl (let s = rw t at h in let q = e.same-eq k j t in cc)
    | inr t ↦ inr (find-In k v m (rw t at h))
  ]
