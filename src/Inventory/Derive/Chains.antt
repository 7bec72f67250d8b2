-- ===== src/Inventory/Derive/Chains.antt =====
-- What a derivation chain is, and the bounds of a derived rate.
use channex_pms.Prelude.{
  ℕ, zero, suc, ◌+◌, ◌*◌, ◌≤◌, ◌≡◌, refl, true, false, ◌||◌, Option, none, some, List, [], ◌∷◌,
  ◌++◌, ◌==◌, ltb, contains, length, arith, Bool-cases, inl, inr, ◌∙◌, sym, subst, length-append,
  any-append, append_assoc, append-nil,
}
use channex_pms.Prelude.Int.{
  pos, ◌+ℤ◌, ◌-ℤ◌, ◌*ℤ◌, ◌≤ℤ◌, neg_part, int_laws, parts_zero, round_div-neg,
}
use channex_pms.Shared.Result.{Result, ok, err}
use channex_pms.Inventory.{EntityId}
use channex_pms.Inventory.Derive.{
  OptionKind, percent, amount, increase, decrease, delta, apply_derived_option, RatePlans,
  parent_of, ChainError, own_ancestor, too_deep, out_of_rounds, chain_from, derivation_chain,
}

-- The ancestors from a parent on, nearest first, up to a plan without a parent.
abbrev pub IsAncestry : RatePlans → Option EntityId → List EntityId → Type 0
IsAncestry plans none [] = Unit
IsAncestry plans none (a ∷ above) = ⊥
IsAncestry plans (some p) [] = ⊥
IsAncestry plans (some p) (a ∷ above) = (p ≡ a) × IsAncestry plans (parent_of plans p) above

-- The first ancestors from a parent on, nearest first.
abbrev pub StartsAncestry : RatePlans → Option EntityId → List EntityId → Type 0
StartsAncestry plans cur [] = Unit
StartsAncestry plans none (a ∷ above) = ⊥
StartsAncestry plans (some p) (a ∷ above) = (p ≡ a) × StartsAncestry plans (parent_of plans p) above

-- What the loop may answer: the whole ancestry, of at most three, without the plan itself; or the
-- reason of its failure, an ancestor that is the plan or one of the ancestors before it, or four
-- ancestors.
abbrev pub IsChain :
    RatePlans → EntityId → Option EntityId → Result (List EntityId) ChainError → Type 0
IsChain plans plan cur (ok chain) =
    IsAncestry plans cur chain × (length chain ≤ 3) × (contains plan chain ≡ false)
IsChain plans plan cur (err own_ancestor) =
    (above : List EntityId) × (a : EntityId) × StartsAncestry plans cur (above ++ a ∷ [])
    × (((a == plan) || contains a above) ≡ true)
IsChain plans plan cur (err too_deep) =
    (above : List EntityId) × StartsAncestry plans cur above × (length above ≡ 4)
IsChain plans plan cur (err out_of_rounds) = ⊥

abbrev Extends :
    RatePlans
    → EntityId
    → Option EntityId
    → List EntityId
    → Result (List EntityId) ChainError
    → Type 0
Extends plans plan cur chain (ok out) =
    (rest : List EntityId) × (out ≡ chain ++ rest)
    × IsAncestry plans cur rest
    × (length out ≤ 3)
    × (contains plan out ≡ false)
Extends plans plan cur chain (err own_ancestor) =
    (rest : List EntityId) × (a : EntityId) × StartsAncestry plans cur (rest ++ a ∷ [])
    × (((a == plan) || contains a (chain ++ rest)) ≡ true)
Extends plans plan cur chain (err too_deep) =
    (rest : List EntityId) × StartsAncestry plans cur rest × (length (chain ++ rest) ≡ 4)
Extends plans plan cur chain (err out_of_rounds) = ⊥

longer :
    (plans : RatePlans) (plan cur : EntityId) (chain : List EntityId)
    (r : Result (List EntityId) ChainError)
    → Extends plans plan (parent_of plans cur) (chain ++ cur ∷ []) r
    → Extends plans plan (some cur) chain r
longer plans plan cur chain (ok out) (rest, e, a, l, c) =
    (cur ∷ rest, e ∙ append_assoc chain (cur ∷ []) rest, (refl, a), l, c)
longer plans plan cur chain (err own_ancestor) (rest, a, p, h) = (
  cur ∷ rest,
  a,
  (refl, p),
  subst (λ xs. ((a == plan) || contains a xs) ≡ true) (append_assoc chain (cur ∷ []) rest) h,
)
longer plans plan cur chain (err too_deep) (rest, p, n) =
    (cur ∷ rest, (refl, p), subst (λ xs. length xs ≡ 4) (append_assoc chain (cur ∷ []) rest) n)
longer plans plan cur chain (err out_of_rounds) h = h

chain_from-Extends :
    (plans : RatePlans) (rounds : ℕ) (plan : EntityId) (cur : Option EntityId)
    (chain : List EntityId)
    → length chain + rounds ≡ 4
    → length chain ≤ 3
    → contains plan chain ≡ false
    → Extends plans plan cur chain (chain_from plans rounds plan cur chain)
unfolding chain_from
chain_from-Extends plans zero plan none chain f l c = ([], sym (append-nil chain), tt, l, c)
chain_from-Extends plans (suc rounds) plan none chain f l c = ([], sym (append-nil chain), tt, l, c)
chain_from-Extends plans zero plan (some cur) chain f l c = let no : ⊥ = omega arith in elim no [ ]
chain_from-Extends plans (suc rounds) plan (some cur) chain f l c =
    let more : List EntityId = chain ++ cur ∷ [] in
    let n : length more ≡ length chain + 1 = length-append chain (cur ∷ []) ∙ (omega arith) in
    elim (Bool-cases ((cur == plan) || contains cur chain)) [
      | inl y ↦ rw (y, chain_from) ([], cur, (refl, tt), rw (append-nil chain) y)
      | inr z ↦ elim (Bool-cases (ltb 3 (length more))) [
        | inl deep ↦ rw (z, deep, chain_from) (cur ∷ [], (refl, tt), ground (arith, n, deep, f, l))
        | inr fits ↦
            rw (z, fits, chain_from)
              (longer plans plan cur chain (chain_from plans rounds plan (parent_of plans cur) more)
                (chain_from-Extends plans rounds plan (parent_of plans cur) more (omega (arith, n))
                  (ground (arith, n))
                  (any-append (λ x. x == plan) chain (cur ∷ []) ∙ (ground arith))))
      ]
    ]

-- For every plan and every table of parents, cyclic or not, the loop ends within its rounds: it
-- returns all ancestors of the plan, nearest first, at most three and none of them the plan itself;
-- or it fails for an ancestor that is the plan or an earlier ancestor again, or for a chain of four
-- ancestors.
pub derivation_chain-IsChain :
    (plan : EntityId) (plans : RatePlans)
    → IsChain plans plan (parent_of plans plan) (derivation_chain plan plans)
unfolding derivation_chain
derivation_chain-IsChain plan plans =
    settle (chain_from plans 4 plan (parent_of plans plan) [])
      (chain_from-Extends plans 4 plan (parent_of plans plan) [] (omega arith) (omega arith) refl)
  where
    settle :
        (r : Result (List EntityId) ChainError)
        → Extends plans plan (parent_of plans plan) [] r
        → IsChain plans plan (parent_of plans plan) r
    settle (ok out) (rest, e, a, l, c) = (rw e a, l, c)
    settle (err own_ancestor) h = h
    settle (err too_deep) h = h
    settle (err out_of_rounds) h = h

product : (n v : ℕ) → pos n *ℤ pos v ≡ pos (n * v)
unfolding ◌*ℤ◌
product n v = ground arith

delta-nonneg : (k : OptionKind) (n v : ℕ) → neg_part (delta k (pos n) (pos v)) ≡ 0
delta-nonneg amount n v = refl
delta-nonneg percent n v = (round_div-neg (pos n *ℤ pos v) 10000).1 (rw (product n v) (omega arith))

-- From a rate and a modifier that are not negative, an increase gives at least the rate, a decrease
-- at most the rate, and neither gives a negative rate.
pub apply_derived_option-bounds :
    (n v : ℕ) (k : OptionKind)
    → let up =
        apply_derived_option
          (pos n)
          (record { option_kind = k; direction = increase; value = pos v }) in
      let down =
        apply_derived_option
          (pos n)
          (record { option_kind = k; direction = decrease; value = pos v }) in
      (pos n ≤ℤ up) × (down ≤ℤ pos n) × (pos 0 ≤ℤ up) × (pos 0 ≤ℤ down)
unfolding apply_derived_option
apply_derived_option-bounds n v k =
    let d = delta k (pos n) (pos v) in
    let h = delta-nonneg k n v in
    let u : (pos n ≤ℤ (pos n +ℤ d)) = omega int_laws in
    let w : ((pos n -ℤ d) ≤ℤ pos n) = omega int_laws in
    let zu = parts_zero (pos n +ℤ d) in
    let zd = parts_zero (pos n -ℤ d) in ground (arith, u, w, zu, zd)
