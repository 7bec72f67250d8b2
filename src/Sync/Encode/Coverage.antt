-- ===== src/Sync/Encode/Coverage.antt =====
-- What a list of entries means when they are applied in order: the value that is written last.
use channex_pms.Prelude.{
  ◌≡◌, refl, Bool, true, false, ◌&&◌, Option, none, some, List, [], ◌∷◌, ◌++◌, arith, leb,
  if◌then◌else◌, any, All, Bool-cases, inl, inr, Option-cases, ap, ◌∙◌,
}
use channex_pms.Shared.Date.{LocalDate}
use channex_pms.Inventory.{Weekday}
use channex_pms.Sync.Dates.{admits}
use channex_pms.Sync.Encode.{FieldEntry}

abbrev pub or_else {ℓ} : {A : Type ℓ} → Option A → Option A → Option A
or_else (some a) o = some a
or_else none o = o

pub or_else_assoc {ℓ} :
    {A : Type ℓ} (a b c : Option A) → or_else (or_else a b) c ≡ or_else a (or_else b c)
or_else_assoc none b c = refl
or_else_assoc (some a) b c = refl

module _ {V : Type 0} (weekday_of : LocalDate → Weekday) where
  abbrev pub covers : FieldEntry V → LocalDate → Bool
  covers x d = (leb x.date_from d && leb d x.date_to) && admits x.days (weekday_of d)

  abbrev pub written : FieldEntry V → LocalDate → Option V
  written x d = if covers x d then some x.value else none

  unfoldable pub last_write : List (FieldEntry V) → LocalDate → Option V
  last_write [] d = none
  last_write (x ∷ xs) d = or_else (last_write xs d) (written x d)

  pub last_write-append :
      (xs ys : List (FieldEntry V)) (d : LocalDate)
      → last_write (xs ++ ys) d ≡ or_else (last_write ys d) (last_write xs d)
  unfolding last_write
  last_write-append [] ys d = ground (arith, Option-cases (last_write ys d))
  last_write-append (x ∷ xs) ys d =
      ap (λ o. or_else o (written x d)) (last_write-append xs ys d)
      ∙ or_else_assoc (last_write ys d) (last_write xs d) (written x d)

  -- An uncovered date is not written.
  pub last_write-none :
      (xs : List (FieldEntry V)) (d : LocalDate)
      → any (λ x. covers x d) xs ≡ false
      → last_write xs d ≡ none
  unfolding last_write
  last_write-none [] d h = refl
  last_write-none (x ∷ xs) d h = ground (arith, last_write-none xs d)

  -- Where every entry that covers a date holds the value `v`, a covered date gets it.
  pub last_write-some :
      (xs : List (FieldEntry V)) (d : LocalDate) (v : V)
      → All (λ x. covers x d ≡ true → x.value ≡ v) xs
      → any (λ x. covers x d) xs ≡ true
      → last_write xs d ≡ some v
  unfolding last_write
  last_write-some [] d v h c = cc
  last_write-some (x ∷ xs) d v (p, h) c = elim (Bool-cases (any (λ x. covers x d) xs)) [
    | inl e ↦ rw (last_write-some xs d v h e)
    | inr e ↦ rw (last_write-none xs d e) (ground arith)
  ]
