-- ===== src/Inventory/Derive.antt =====
-- packages/core/src/inventory/derive.ts: derived rate plans.
pub mod Chains
use channex_pms.Prelude.{
  ℕ, zero, suc, Bool, true, false, ◌||◌, Option, none, some, List, [], ◌∷◌, ◌++◌, if◌then◌else◌,
  ◌==◌, ltb, map, contains, length, nat_eq,
}
use channex_pms.Prelude.Int.{ℤ, pos, ◌+ℤ◌, ◌-ℤ◌, ◌*ℤ◌, ltb_ℤ, round_div}
use channex_pms.Prelude.Maps.{lookup}
use channex_pms.Shared.Result.{Result, ok, err}
use channex_pms.Inventory.{
  EntityId, rate, rates, FieldValue, num, table, flag, RestrictionValues, with_field, RateCell,
  field_has_eq,
}

pub data OptionKind : Type 0 where
  percent amount : OptionKind

pub data Direction : Type 0 where
  increase decrease : Direction

-- A percent is in basis points.
pub record DerivedOption : Type 0 where
  pub option_kind : OptionKind
  pub direction : Direction
  pub value : ℤ

abbrev pub delta : OptionKind → ℤ → ℤ → ℤ
delta amount parent v = v
delta percent parent v = round_div (parent *ℤ v) 10000

abbrev pub signed : Direction → ℤ → ℤ → ℤ
signed increase parent d = parent +ℤ d
signed decrease parent d = parent -ℤ d

abbrev pub at_least_zero : ℤ → ℤ
at_least_zero a = if ltb_ℤ a (pos 0) then pos 0 else a

unfoldable pub apply_derived_option : ℤ → DerivedOption → ℤ
apply_derived_option parent opt =
    at_least_zero (signed opt.direction parent (delta opt.option_kind parent opt.value))

derive_table : DerivedOption → List (ℕ × ℤ) → List (ℕ × ℤ)
unfolding apply_derived_option
derive_table opt t = map (λ p. (p.0, apply_derived_option p.1 opt)) t

-- A rate, or a table of rates, follows the parent's.
derive_value : DerivedOption → Option FieldValue → Option FieldValue
unfolding derive_table
derive_value opt none = none
derive_value opt (some (num r)) = some (num (apply_derived_option r opt))
derive_value opt (some (table t)) = some (table (derive_table opt t))
derive_value opt (some (flag b)) = some (flag b)

unfoldable pub derive_cells : List RateCell → EntityId → DerivedOption → List RateCell
unfolding derive_value
derive_cells parent child opt =
    map
      (λ c. record {
        rate_plan_id = child;
        date = c.date;
        values =
            with_field rate (derive_value opt (c.values rate))
              (with_field rates (derive_value opt (c.values rates)) c.values);
      })
      parent

-- The parents of the plans, by the plan's id.
abbrev pub RatePlans : Type 0
RatePlans = List (EntityId × Option EntityId)

abbrev pub parent_of : RatePlans → EntityId → Option EntityId
parent_of plans p = elim (lookup p plans) [ none ↦ none | some parent ↦ parent ]

pub data ChainError : Type 0 where
  own_ancestor too_deep out_of_rounds : ChainError

-- MAX_DERIVATION_DEPTH.
abbrev pub max_derivation_depth : ℕ
max_derivation_depth = 3

-- The loop; a chain longer than the depth ends it, so that one round more than the depth is enough.
chain_from :
    RatePlans → ℕ → EntityId → Option EntityId → List EntityId → Result (List EntityId) ChainError
chain_from plans rounds plan none chain = ok chain
chain_from plans zero plan (some cur) chain = err out_of_rounds
chain_from plans (suc rounds) plan (some cur) chain =
    let rest = chain_from plans rounds plan (parent_of plans cur) (chain ++ cur ∷ []) in
    if (cur == plan) || contains cur chain
    then err own_ancestor
    else if ltb max_derivation_depth (length (chain ++ cur ∷ []))
    then err too_deep
    else rest

unfoldable pub derivation_chain : EntityId → RatePlans → Result (List EntityId) ChainError
unfolding chain_from
derivation_chain plan plans =
    chain_from plans (suc max_derivation_depth) plan (parent_of plans plan) []
