-- ===== src/Operations/Assignment/Placed.antt =====
-- The stays that `autoAssign` puts on one unit, beside the stays that the unit has.
use channex_pms.Prelude.{
  Bool, true, false, ◌&&◌, Option, none, some, List, [], ◌∷◌, ◌++◌, filter, any, if◌then◌else◌,
  ◌==◌, nat_eq, ◌≡◌, ◌⊎◌, refl, subst, arith, All, All-weaken, any-append, Bool-cases, Option-cases,
  inl, inr,
}
use channex_pms.Prelude.Maps.{lookup, change, lookup-adjust}
use channex_pms.Prelude.Sort.{All-sort_by}
use channex_pms.Inventory.{EntityId}
use channex_pms.Operations.Assignment.{
  BusyStay, UnitCandidate, AssignmentRequest, AssignmentSuggestion, AssignmentWarning, overlaps,
  BusyMap, busy_of, stays_in, range_of, is_free, find_unit, first_unit, kept_unit, best_unit,
  pick_unit, suggestion, after_pick, assign_all, gap, mismatch,
}

-- The stays that the suggestions place, each with its unit: a request with a suggested unit takes
-- its range there.
abbrev pub placements :
    List AssignmentRequest → List AssignmentSuggestion → List (EntityId × BusyStay)
placements [] ss = []
placements (r ∷ rs) [] = []
placements (r ∷ rs) (s ∷ ss) =
    let rest = placements rs ss in
    elim s.suggested_unit [ none ↦ rest | some id ↦ (id, range_of r) ∷ rest ]

abbrev pub clashes : EntityId × BusyStay → EntityId × BusyStay → Bool
clashes (u, s) (v, t) = (u == v) && overlaps s t

-- No two placed stays clash.
abbrev pub AllApart : List (EntityId × BusyStay) → Type 0
AllApart [] = Unit
AllApart (p ∷ ps) = All (λ q. clashes p q ≡ false) ps × AllApart ps

-- A placed stay overlaps none of the stays of its unit.
abbrev pub IsClear : BusyMap → EntityId × BusyStay → Type 0
IsClear m (u, s) = any (λ b. overlaps b s) (busy_of u m) ≡ false

abbrev pub HasUnit : BusyMap → UnitCandidate → Type 0
HasUnit m u = (stays : List BusyStay) × (lookup u.unit_id m ≡ some stays)

free-units :
    (m : BusyMap) (r : AssignmentRequest) (us : List UnitCandidate)
    → All (HasUnit m) us
    → All (λ u. (is_free m r u ≡ true) × HasUnit m u) (filter (is_free m r) us)
free-units m r [] h = tt
free-units m r (u ∷ us) (p, h) = elim (Bool-cases (is_free m r u)) [
  | inl y ↦ rw (y, is_free) ((y, p), free-units m r us h)
  | inr n ↦ rw (n, is_free) (free-units m r us h)
]

abbrev HoldsFor : (UnitCandidate → Type 0) → Option UnitCandidate → Type 0
HoldsFor P none = Unit
HoldsFor P (some u) = P u

module _ (P : UnitCandidate → Type 0) where
  find_unit-HoldsFor :
      (id : EntityId) (us : List UnitCandidate) → All P us → HoldsFor P (find_unit id us)
  unfolding find_unit
  find_unit-HoldsFor id [] h = tt
  find_unit-HoldsFor id (v ∷ us) (p, h) = elim (Bool-cases (v.unit_id == id)) [
    | inl y ↦ rw (y, find_unit) p
    | inr n ↦ rw (n, find_unit) (find_unit-HoldsFor id us h)
  ]

  first_unit-HoldsFor : (us : List UnitCandidate) → All P us → HoldsFor P (first_unit us)
  first_unit-HoldsFor [] h = tt
  first_unit-HoldsFor (v ∷ us) (p, h) = p

  kept_unit-HoldsFor :
      (r : AssignmentRequest) (free : List UnitCandidate)
      → All P free
      → HoldsFor P (kept_unit r free)
  kept_unit-HoldsFor r free h = elim (Option-cases r.current_unit) [
    | inl n ↦ rw (n, kept_unit) tt
    | inr (id, f) ↦ rw (f, kept_unit) (find_unit-HoldsFor id free h)
  ]

  best_unit-HoldsFor :
      (m : BusyMap) (r : AssignmentRequest) (free : List UnitCandidate)
      → All P free
      → HoldsFor P (best_unit m r free)
  best_unit-HoldsFor m r free h = first_unit-HoldsFor _ (
      All-sort_by (mismatch r) P _
        (All-sort_by (gap m r) P _ (All-sort_by (λ u. u.unit_id) P free h)))

  pick_unit-HoldsFor :
      (m : BusyMap) (r : AssignmentRequest) (free : List UnitCandidate)
      → All P free
      → HoldsFor P (pick_unit m r free).0
  unfolding pick_unit
  pick_unit-HoldsFor m r free h = elim (Option-cases (kept_unit r free)) [
    | inr (k, f) ↦ rw (f, pick_unit) (subst (HoldsFor P) f (kept_unit-HoldsFor r free h))
    | inl n ↦ elim (Option-cases (best_unit m r free)) [
      | inl b ↦ rw (n, pick_unit, b) tt
      | inr (k, f) ↦ rw (n, pick_unit, f) (subst (HoldsFor P) f (best_unit-HoldsFor m r free h))
    ]
  ]

joined :
    (b : Bool) (o : Option (List BusyStay)) (t s : BusyStay)
    → ((b ≡ false) ⊎ ((stays : List BusyStay) × (o ≡ some stays)))
    → any (λ x. overlaps x s) (stays_in (if b then change (λ xs. xs ++ t ∷ []) o else o)) ≡ false
    → (any (λ x. overlaps x s) (stays_in o) ≡ false) × ((b && overlaps t s) ≡ false)
joined false o t s k h = (h, refl)
joined true none t s (inl e) h = cc
joined true none t s (inr (stays, e)) h = cc
joined true (some stays) t s k h = ground (arith, h, any-append (λ x. overlaps x s) stays (t ∷ []))

-- Adding a stay to a unit that is there: what stays clear was clear and is apart from it.
IsClear-before :
    (m : BusyMap) (r : AssignmentRequest) (u : UnitCandidate) (p : EntityId × BusyStay)
    → HasUnit m u
    → IsClear (after_pick r (some u) m) p
    → IsClear m p × (clashes (u.unit_id, range_of r) p ≡ false)
IsClear-before m r u (v, s) (stays, h) c =
    joined (u.unit_id == v) (lookup v m) (range_of r) s
      (elim (Bool-cases (u.unit_id == v)) [
        | inl y ↦ let same : u.unit_id ≡ v = ground (arith, y) in inr (stays, rw (← same) h)
        | inr n ↦ inl n
      ])
      (subst (λ o. any (λ b. overlaps b s) (stays_in o) ≡ false)
        (lookup-adjust u.unit_id v (λ xs. xs ++ range_of r ∷ []) m) c)

after_pick-HasUnit :
    (m : BusyMap) (r : AssignmentRequest) (u w : UnitCandidate)
    → HasUnit m w
    → HasUnit (after_pick r (some u) m) w
after_pick-HasUnit m r u w (stays, h) =
    rw (lookup-adjust u.unit_id w.unit_id (λ xs. xs ++ range_of r ∷ []) m, h)
      (elim (Bool-cases (u.unit_id == w.unit_id)) [
        | inl y ↦ rw y (_, refl)
        | inr n ↦ rw n (_, refl)
      ])

-- What one request adds to the placements.
placed-apart :
    (m : BusyMap) (r : AssignmentRequest) (rs : List AssignmentRequest)
    (pick : Option UnitCandidate × List AssignmentWarning) (ss : List AssignmentSuggestion)
    → HoldsFor (λ u. (is_free m r u ≡ true) × HasUnit m u) pick.0
    → All (IsClear (after_pick r pick.0 m)) (placements rs ss) × AllApart (placements rs ss)
    → let ps = placements (r ∷ rs) (suggestion r pick ∷ ss) in All (IsClear m) ps × AllApart ps
placed-apart m r rs (none, w) ss p ih = ih
placed-apart m r rs (some u, w) ss (free, has) (clear, apart) =
    let ps = placements rs ss in
    let both =
      All-weaken (IsClear (after_pick r (some u) m)) _ ps (λ p. IsClear-before m r u p has) clear in
    (
      (ground (arith, free), All-weaken _ (IsClear m) ps (λ p h. h.0) both),
      (All-weaken _ (λ q. clashes (u.unit_id, range_of r) q ≡ false) ps (λ p h. h.1) both, apart),
    )

after-units :
    (m : BusyMap) (r : AssignmentRequest) (pick : Option UnitCandidate) (units : List UnitCandidate)
    → All (HasUnit m) units
    → All (HasUnit (after_pick r pick m)) units
after-units m r none units h = h
after-units m r (some u) units h =
    All-weaken (HasUnit m) _ units (λ w. after_pick-HasUnit m r u w) h

pub assign_all-apart :
    (units : List UnitCandidate) (m : BusyMap) (rs : List AssignmentRequest)
    → All (HasUnit m) units
    → let ps = placements rs (assign_all units m rs) in All (IsClear m) ps × AllApart ps
unfolding assign_all
assign_all-apart units m [] h = (tt, tt)
assign_all-apart units m (r ∷ rs) h =
    let pick = pick_unit m r (filter (is_free m r) units) in
    let m' = after_pick r pick.0 m in
    placed-apart m r rs pick (assign_all units m' rs)
      (pick_unit-HoldsFor _ m r (filter (is_free m r) units) (free-units m r units h))
      (assign_all-apart units m' rs (after-units m r pick.0 units h))
