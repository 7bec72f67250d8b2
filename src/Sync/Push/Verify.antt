-- ===== src/Sync/Push/Verify.antt =====
-- `verify` of push/pipeline.ts: reading back and comparing.
use channex_pms.Prelude.{
  ℕ, Option, none, some, List, [], ◌∷◌, ◌++◌, Eq, nat_eq, pair_eq, map, filter, length,
}
use channex_pms.Prelude.Maps.{adjust}
use channex_pms.Shared.Date.{LocalDate}
use channex_pms.Shared.Result.{Result, ok, err}
use channex_pms.Inventory.{
  rate, rates, field_has_eq, FieldValue, RestrictionValues, with_field, RateCell, AvailabilityCell,
  rate_cell, availability_cell, CellRef,
}
use channex_pms.Sync.Apply.{CellKey, state_from_cells}
use channex_pms.Sync.Diff.{has_key, AriDiff, diff_ari}
use channex_pms.Sync.Push.Store.{load_desired, mark_conflicted}
use channex_pms.Sync.Push.Pipeline.{
  World, PushContext, PushState, Snapshot, Thrown, provider_failed, acquire, limit_key, log_call,
}

-- `verifiable`, and the fields that are copied of a read-back cell: all but the rates by occupancy.
abbrev pub verifiable : RestrictionValues → RestrictionValues
verifiable v = with_field rates none v

abbrev pub verifiable_cell : RateCell → RateCell
verifiable_cell c = record c { values = verifiable c.values }

abbrev pub desired_cell : CellKey × RestrictionValues → RateCell
desired_cell (k, v) = record { rate_plan_id = k.0; date = k.1; values = v }

abbrev pub desired_count : CellKey × ℕ → AvailabilityCell
desired_count (k, n) = record { room_type_id = k.0; date = k.1; availability = n }

-- A cell without a rate of its own is compared without the mirror's.
without_rate :
    List (CellKey × RestrictionValues)
    → List (CellKey × RestrictionValues)
    → List (CellKey × RestrictionValues)
without_rate [] mirror = mirror
without_rate ((k, v) ∷ desired) mirror =
    without_rate desired
      (elim (v rate) [ none ↦ adjust k (with_field rate none) mirror | some r ↦ mirror ])

-- Only the cells that are desired.
abbrev owned : {V : Type 0} → List (CellKey × V) → List (CellKey × V) → List (CellKey × V)
owned desired mirror = filter (λ p. has_key p.0 desired) mirror

abbrev pub drift_refs : AriDiff → List CellRef
drift_refs d =
    map (λ k. record { kind = rate_cell; id = k.0; date = k.1 }) d.restriction_keys
    ++ map (λ k. record { kind = availability_cell; id = k.0; date = k.1 }) d.availability_keys

module _ {K : Type 0} ⦃e : Eq K⦄ (canon : Option FieldValue → K) where
  -- The cells that differ between what the store desires and what was read back.
  unfoldable pub drift :
      Snapshot → List (CellKey × RestrictionValues) × List (CellKey × ℕ) → List CellRef
  unfolding without_rate
  drift snapshot (rate_values, counts) =
      let mirror =
        state_from_cells (map verifiable_cell snapshot.restrictions) snapshot.availability in
      let desired =
        state_from_cells (map (λ p. verifiable_cell (desired_cell p)) rate_values)
          (map desired_count counts) in
      drift_refs (
        diff_ari canon desired (record {
          restrictions =
              owned desired.restrictions (without_rate desired.restrictions mirror.restrictions);
          availability = owned desired.availability mirror.availability;
        }))

  unfoldable pub verify :
      World → PushContext → LocalDate → LocalDate → PushState → PushState × Result ℕ Thrown
  verify world ctx date_from date_to st =
      let acquired = log_call (acquire (limit_key ctx availability_cell)) st in
      elim (world.read_reply date_from date_to) [
        | err x ↦ (acquired, err (provider_failed x))
        | ok snapshot ↦
            let conflicted = drift snapshot (load_desired date_from date_to acquired.store) in
            (
              record acquired { store = mark_conflicted conflicted acquired.store },
              ok (length conflicted),
            )
      ]
