-- ===== src/Sync/Build/Slots.antt =====
-- The entries of the merged list at their indices, before and after a push or a write.
use channex_pms.Prelude.{
  ℕ, zero, suc, ◌<◌, ◌≡◌, ◌⊎◌, refl, ap, ◌∙◌, ◌&&◌, Option, some, List, [], ◌∷◌, ◌++◌, arith, ◌==◌,
  if◌then◌else◌, length, get_elem?, All, nat_eq, pair_eq, list_eq, inl, inr,
}
use channex_pms.Inventory.{
  weekday_has_eq, RestrictionField, field_has_eq, FieldValue, with_field, RestrictionEntry,
}
use channex_pms.Sync.Build.{set_at}

pub get_elem?-snoc :
    (xs : List RestrictionEntry) (y z : RestrictionEntry) (i : ℕ)
    → get_elem? (xs ++ y ∷ []) i ≡ some z
    → (get_elem? xs i ≡ some z) ⊎ ((i ≡ length xs) × (y ≡ z))
get_elem?-snoc [] y z zero h = inr (refl, cc)
get_elem?-snoc [] y z (suc i) h = cc
get_elem?-snoc (x ∷ xs) y z zero h = inl h
get_elem?-snoc (x ∷ xs) y z (suc i) h = elim (get_elem?-snoc xs y z i h) [
  | inl old ↦ inl old
  | inr (e, s) ↦ inr (ap suc e, s)
]

pub get_elem?-append_left :
    (xs ys : List RestrictionEntry) (i : ℕ) (x : RestrictionEntry)
    → get_elem? xs i ≡ some x
    → get_elem? (xs ++ ys) i ≡ some x
get_elem?-append_left [] ys i x h = cc
get_elem?-append_left (y ∷ xs) ys zero x h = h
get_elem?-append_left (y ∷ xs) ys (suc i) x h = get_elem?-append_left xs ys i x h

pub get_elem?-last :
    (xs : List RestrictionEntry) (y : RestrictionEntry)
    → get_elem? (xs ++ y ∷ []) (length xs) ≡ some y
get_elem?-last [] y = refl
get_elem?-last (x ∷ xs) y = get_elem?-last xs y

-- Two entries with one range and one set of weekdays.
pub record SameRange (x y : RestrictionEntry) : Type 0 where
  pub from : x.date_from ≡ y.date_from
  pub to : x.date_to ≡ y.date_to
  pub on : x.days ≡ y.days
  pub plan : x.rate_plan_id ≡ y.rate_plan_id

pub SameRange-refl : (x : RestrictionEntry) → SameRange x x
SameRange-refl x = record { from = refl; to = refl; on = refl; plan = refl }

-- What stands at an index after a write.
pub get_elem?-set_at :
    (i : ℕ) (f : RestrictionField) (v : Option FieldValue) (xs : List RestrictionEntry) (j : ℕ)
    (z : RestrictionEntry)
    → get_elem? (set_at i f v xs) j ≡ some z
    → (x : RestrictionEntry) × (get_elem? xs j ≡ some x)
      × SameRange x z
      × ((g : RestrictionField)
          → z.values g ≡ (if i == j && field_has_eq.beq f g then v else x.values g))
unfolding set_at
get_elem?-set_at i f v [] j z h = cc
get_elem?-set_at zero f v (x ∷ xs) zero z h =
    let same : record x { values = with_field f v x.values } ≡ z = cc in
    (
      x,
      refl,
      rw (← same) (record { from = refl; to = refl; on = refl; plan = refl }),
      λ g. rw (← same) refl,
    )
get_elem?-set_at zero f v (x ∷ xs) (suc j) z h = (z, h, SameRange-refl z, λ g. ground arith)
get_elem?-set_at (suc i) f v (x ∷ xs) zero z h =
    let same : x ≡ z = cc in (z, ap some same, SameRange-refl z, λ g. ground arith)
get_elem?-set_at (suc i) f v (x ∷ xs) (suc j) z h =
    let (y, found, range, values) = get_elem?-set_at i f v xs j z h in
    (y, found, range, λ g. values g ∙ ground arith)

pub set_at-kept :
    (i : ℕ) (f : RestrictionField) (v : Option FieldValue) (xs : List RestrictionEntry) (j : ℕ)
    (x : RestrictionEntry)
    → get_elem? xs j ≡ some x
    → (z : RestrictionEntry) × (get_elem? (set_at i f v xs) j ≡ some z) × SameRange x z
unfolding set_at
set_at-kept i f v [] j x h = cc
set_at-kept zero f v (y ∷ xs) zero x h =
    let same : y ≡ x = cc in
    (
      record y { values = with_field f v y.values },
      refl,
      rw (← same) (record { from = refl; to = refl; on = refl; plan = refl }),
    )
set_at-kept zero f v (y ∷ xs) (suc j) x h = (x, h, SameRange-refl x)
set_at-kept (suc i) f v (y ∷ xs) zero x h = (x, h, SameRange-refl x)
set_at-kept (suc i) f v (y ∷ xs) (suc j) x h = set_at-kept i f v xs j x h

pub get_elem?-lt :
    (xs : List RestrictionEntry) (i : ℕ) (x : RestrictionEntry)
    → get_elem? xs i ≡ some x
    → i < length xs
get_elem?-lt [] i x h = cc
get_elem?-lt (y ∷ xs) zero x h = omega arith
get_elem?-lt (y ∷ xs) (suc i) x h = omega (arith, get_elem?-lt xs i x h)

-- What holds of entries whatever their values holds after a write.
pub All-set_at :
    (P : RestrictionEntry → Type 0) (i : ℕ) (f : RestrictionField) (v : Option FieldValue)
    (xs : List RestrictionEntry)
    → ((x : RestrictionEntry) → P x → P (record x { values = with_field f v x.values }))
    → All P xs
    → All P (set_at i f v xs)
unfolding set_at
All-set_at P i f v [] k h = tt
All-set_at P zero f v (x ∷ xs) k (p, h) = (k x p, h)
All-set_at P (suc i) f v (x ∷ xs) k (p, h) = (p, All-set_at P i f v xs k h)

pub All-get_elem? :
    (P : RestrictionEntry → Type 0) (xs : List RestrictionEntry) (i : ℕ) (x : RestrictionEntry)
    → All P xs
    → get_elem? xs i ≡ some x
    → P x
All-get_elem? P [] i x h g = cc
All-get_elem? P (y ∷ xs) zero x (p, h) g = let same : y ≡ x = cc in rw (← same) p
All-get_elem? P (y ∷ xs) (suc i) x (p, h) g = All-get_elem? P xs i x h g
