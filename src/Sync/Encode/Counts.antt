-- ===== src/Sync/Encode/Counts.antt =====
-- The counting of the values in `baseAndOverride` (encode.ts): what is counted under a key has it.
use channex_pms.Prelude.{
  ℕ, ◌+◌, ◌≡◌, Bool, true, false, List, [], ◌∷◌, ltb, All, Eq, Option-cases, inl, inr,
  if◌then◌else◌,
}
use channex_pms.Prelude.Maps.{lookup, insert, All-lookup, All-insert}
use channex_pms.Shared.Date.{LocalDate}
use channex_pms.Inventory.{Weekday}
use channex_pms.Sync.Encode.{get_count, count_values, dominant_from}

module _ {V K : Type 0} ⦃e : Eq K⦄ (weekday_of : LocalDate → Weekday) (value_at : LocalDate → V)
    (key : V → K) where
  abbrev pub IsCount : K × (V × ℕ) → Type 0
  IsCount (k, (v, n)) = key v ≡ k

  get_count-IsCount :
      (d : LocalDate) (counts : List (K × (V × ℕ)))
      → All IsCount counts
      → key (get_count weekday_of value_at key (key (value_at d)) (value_at d) counts).0
        ≡ key (value_at d)
  unfolding get_count
  get_count-IsCount d counts h = elim (Option-cases (lookup (key (value_at d)) counts)) [
    | inl new ↦ rw (new, get_count)
    | inr (c, old) ↦ rw (old, get_count) (All-lookup IsCount counts _ c h old)
  ]

  pub count_values-IsCount :
      (ds : List LocalDate) (counts : List (K × (V × ℕ)))
      → All IsCount counts
      → All IsCount (count_values weekday_of value_at key counts ds)
  unfolding count_values
  count_values-IsCount [] counts h = h
  count_values-IsCount (d ∷ ds) counts h =
      let c = get_count weekday_of value_at key (key (value_at d)) (value_at d) counts in
      count_values-IsCount ds (insert (key (value_at d)) (c.0, c.1 + 1) counts) (
        All-insert IsCount (key (value_at d)) (c.0, c.1 + 1) counts h
          (get_count-IsCount d counts h))

  if-IsCount : (b : Bool) (x y : K × (V × ℕ)) → IsCount x → IsCount y → IsCount (if b then x else y)
  if-IsCount true x y p q = p
  if-IsCount false x y p q = q

  pub dominant_from-IsCount :
      (counts : List (K × (V × ℕ))) (best : K × (V × ℕ))
      → IsCount best
      → All IsCount counts
      → IsCount (dominant_from weekday_of value_at key best counts)
  unfolding dominant_from
  dominant_from-IsCount [] best p h = p
  dominant_from-IsCount (c ∷ counts) best p (q, h) =
      dominant_from-IsCount counts (if ltb best.1.1 c.1.1 then c else best)
        (if-IsCount (ltb best.1.1 c.1.1) c best q p) h
