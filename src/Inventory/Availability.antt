-- ===== src/Inventory/Availability.antt =====
-- `computeAvailable` of ari.ts: derived availability and the overbooking that it reports.
use channex_pms.Prelude.{ℕ, ◌+◌, ◌-◌, ◌≡◌, arith, if◌then◌else◌}
use channex_pms.Prelude.Int.{
  ℤ, pos, ◌-ℤ◌, ltb_ℤ, pos_part, neg_part, int_laws, parts_zero, -ℤ_parts,
}

pub record RoomCounts : Type 0 where
  pub count_of_rooms : ℕ
  pub booked : ℕ
  pub out_of_order : ℕ
  pub blocks : ℕ
  pub keep_back : ℕ

pub record Availability : Type 0 where
  pub available : ℤ
  pub overbooked_by : ℤ

raw_count : RoomCounts → ℤ
raw_count r =
    pos r.count_of_rooms -ℤ pos r.booked -ℤ pos r.out_of_order -ℤ pos r.blocks -ℤ pos r.keep_back

unfoldable pub compute_available : RoomCounts → Availability
unfolding raw_count
compute_available r =
    let raw = raw_count r in
    if ltb_ℤ raw (pos 0)
    then record { available = pos 0; overbooked_by = pos 0 -ℤ raw }
    else record { available = raw; overbooked_by = pos 0 }

abbrev pub claimed : RoomCounts → ℕ
claimed r = r.booked + r.out_of_order + r.blocks + r.keep_back

raw_count_parts :
    (r : RoomCounts)
    → pos_part (raw_count r) + claimed r ≡ r.count_of_rooms + neg_part (raw_count r)
unfolding raw_count
raw_count_parts r = omega int_laws

-- What is booked, closed, blocked or kept back plus what is available equals the rooms plus the
-- reported overbooking; neither number is negative; and what is available is the truncated
-- difference of the rooms and the claims.
pub compute_available_balance :
    (r : RoomCounts)
    → let a = compute_available r in
      (claimed r + pos_part a.available ≡ r.count_of_rooms + pos_part a.overbooked_by)
      × (neg_part a.available ≡ 0)
      × (neg_part a.overbooked_by ≡ 0)
      × (pos_part a.available ≡ r.count_of_rooms - claimed r)
unfolding compute_available
compute_available_balance r = ground (
  arith,
  raw_count_parts r,
  parts_zero (raw_count r),
  parts_zero (pos 0 -ℤ raw_count r),
  -ℤ_parts (pos 0) (raw_count r),
)
