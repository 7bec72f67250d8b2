-- ===== src/Sync/Diff.antt =====
-- `diffAri` of packages/sync/src/batch/apply.ts: the cells whose desired values differ from the
-- mirror's. `canon` is the canonical JSON text of a field's value.
use channex_pms.Prelude.{
  ℕ, Bool, true, not, Option, none, some, List, [], ◌∷◌, ◌++◌, ◌==◌, Eq, nat_eq, pair_eq, map,
  filter, any, all,
}
use channex_pms.Prelude.Maps.{lookup}
use channex_pms.Prelude.Sort.{sort_by}
use channex_pms.Inventory.{restriction_fields, FieldValue, RestrictionValues}
use channex_pms.Sync.Apply.{CellKey, AriState, values_at}

pub record AriDiff : Type 0 where
  pub restriction_keys : List CellKey
  pub availability_keys : List CellKey

-- `map.has(k)`.
abbrev pub has_key : {V : Type 0} → CellKey → List (CellKey × V) → Bool
has_key k m = any (λ p. pair_eq.beq p.0 k) m

-- `mirror.get(k) !== v`.
abbrev pub count_differs : List (CellKey × ℕ) → CellKey × ℕ → Bool
count_differs mirror (k, n) = elim (lookup k mirror) [ none ↦ true | some j ↦ not (j == n) ]

-- The keys of the first list that pass the test, then those of the second that the first lacks.
abbrev pub differing :
    {V : Type 0} → (CellKey × V → Bool) → List (CellKey × V) → List (CellKey × V) → List CellKey
differing differs desired mirror =
    map (λ p. p.0) (filter differs desired)
    ++ map (λ p. p.0) (filter (λ p. not (has_key p.0 desired)) mirror)

-- `[...new Set(keys)]`.
unique : List CellKey → List CellKey
unique [] = []
unique (k ∷ ks) = k ∷ filter (λ j. not (pair_eq.beq j k)) (unique ks)

-- `.sort()` of the texts `id|date`, from the last part to the first, each sort stable.
abbrev in_key_order : List CellKey → List CellKey
in_key_order ks = sort_by (λ k. k.0) (sort_by (λ k. k.1) ks)

module _ {K : Type 0} ⦃e : Eq K⦄ (canon : Option FieldValue → K) where
  -- The texts of the defined fields, sorted by their names, are equal.
  abbrev pub same_values : RestrictionValues → RestrictionValues → Bool
  same_values v w = all (λ f. e.beq (canon (v f)) (canon (w f))) restriction_fields

  abbrev pub values_differ : List (CellKey × RestrictionValues) → CellKey × RestrictionValues → Bool
  values_differ mirror (k, v) = not (same_values v (values_at k mirror))

  unfoldable pub diff_ari : AriState → AriState → AriDiff
  unfolding unique
  diff_ari desired mirror = record {
    restriction_keys = in_key_order (
        unique
          (differing (values_differ mirror.restrictions) desired.restrictions mirror.restrictions));
    availability_keys = in_key_order (
        unique
          (differing (count_differs mirror.availability) desired.availability mirror.availability));
  }
