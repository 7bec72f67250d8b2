-- ===== src/Inventory/Tests.antt =====
-- The availability theorem at an overbooked room type, and those on derived plans.
use channex_pms.Prelude.{◌+◌, ◌-◌, ◌≡◌, some, none, [], ◌∷◌}
use channex_pms.Inventory.Derive.{
  RatePlans, parent_of, derivation_chain, percent, increase, decrease, apply_derived_option,
}
use channex_pms.Inventory.Derive.Chains.{
  IsChain, derivation_chain-IsChain, apply_derived_option-bounds,
}
use channex_pms.Prelude.Int.{pos, ◌≤ℤ◌, pos_part, neg_part}
use channex_pms.Inventory.Availability.{
  RoomCounts, compute_available, claimed, compute_available_balance,
}

abbrev overbooked : RoomCounts
overbooked = record { count_of_rooms = 5; booked = 4; out_of_order = 2; blocks = 1; keep_back = 0 }

compute_available_balance_example :
    let a = compute_available overbooked in
    (claimed overbooked + pos_part a.available
      ≡ overbooked.count_of_rooms + pos_part a.overbooked_by)
    × (neg_part a.available ≡ 0)
    × (neg_part a.overbooked_by ≡ 0)
    × (pos_part a.available ≡ overbooked.count_of_rooms - claimed overbooked)
compute_available_balance_example = compute_available_balance overbooked

abbrev plans : RatePlans
plans = (1, none) ∷ (2, some 1) ∷ (3, some 2) ∷ []

derivation_chain-IsChain_example : IsChain plans 3 (parent_of plans 3) (derivation_chain 3 plans)
derivation_chain-IsChain_example = derivation_chain-IsChain 3 plans

apply_derived_option-bounds_example :
    let up =
      apply_derived_option
        (pos 9900)
        (record { option_kind = percent; direction = increase; value = pos 1000 }) in
    let down =
      apply_derived_option
        (pos 9900)
        (record { option_kind = percent; direction = decrease; value = pos 1000 }) in
    (pos 9900 ≤ℤ up) × (down ≤ℤ pos 9900) × (pos 0 ≤ℤ up) × (pos 0 ≤ℤ down)
apply_derived_option-bounds_example = apply_derived_option-bounds 9900 1000 percent
