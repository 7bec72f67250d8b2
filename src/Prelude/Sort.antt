-- ===== src/Prelude/Sort.antt =====
-- `Array.sort` by a number, as insertion: elements keep what is tested of them.
use Prim.Native.Nat.{ℕ}
use mathlib.Core.Path.{◌≡◌, refl, ap, ◌∙◌}
use mathlib.Core.Bool.{Bool, ◌||◌}
use mathlib.Core.List.{List, [], ◌∷◌}
use mathlib.Core.Logic.{inl, inr}
use native.Mathlib.Omega.{arith}
use channex_pms.Prelude.Tests.{leb, if◌then◌else◌, Bool-cases}
use channex_pms.Prelude.Lists.{All, any}

module _ {A : Type 0} (rank : A → ℕ) where
  unfoldable pub place : A → List A → List A
  place x [] = x ∷ []
  place x (y ∷ ys) = if leb (rank x) (rank y) then x ∷ y ∷ ys else y ∷ place x ys

  unfoldable pub sort_by : List A → List A
  unfolding place
  sort_by [] = []
  sort_by (x ∷ xs) = place x (sort_by xs)

  any-place : (p : A → Bool) (x : A) (ys : List A) → any p (place x ys) ≡ (p x || any p ys)
  unfolding place
  any-place p x [] = refl
  any-place p x (y ∷ ys) = ground (arith, any-place p x ys)

  pub any-sort_by : (p : A → Bool) (xs : List A) → any p (sort_by xs) ≡ any p xs
  unfolding sort_by
  any-sort_by p [] = refl
  any-sort_by p (x ∷ xs) = any-place p x (sort_by xs) ∙ ap (λ b. p x || b) (any-sort_by p xs)

  All-place : (P : A → Type 0) (x : A) (ys : List A) → P x → All P ys → All P (place x ys)
  unfolding place
  All-place P x [] p h = (p, tt)
  All-place P x (y ∷ ys) p (q, h) = elim (Bool-cases (leb (rank x) (rank y))) [
    | inl s ↦ rw s (p, (q, h))
    | inr t ↦ rw t (q, All-place P x ys p h)
  ]

  pub All-sort_by : (P : A → Type 0) (xs : List A) → All P xs → All P (sort_by xs)
  unfolding sort_by
  All-sort_by P [] h = tt
  All-sort_by P (x ∷ xs) (p, h) = All-place P x (sort_by xs) p (All-sort_by P xs h)
