-- ===== src/Operations/Assignment/Overlaps.antt =====
-- `autoAssign` against the nights of the stays.
use channex_pms.Prelude.{
  Bool, true, false, not, ◌∙◌, ◌&&◌, ◌||◌, none, some, List, [], ◌∷◌, any, if◌then◌else◌, ◌==◌, leb,
  ltb, nat_eq, ◌≡◌, refl, subst, arith, All, All-weaken, Bool-cases, inl, inr,
}
use channex_pms.Prelude.Maps.{Distinct, lookup, insert, lookup-insert}
use channex_pms.Shared.Date.{LocalDate}
use channex_pms.Inventory.{EntityId}
use channex_pms.Operations.Assignment.{
  BusyStay, UnitCandidate, AssignmentRequest, overlaps, BusyMap, kept_stays, busy_from, stays_in,
  in_check_in_order, auto_assign,
}
use channex_pms.Operations.Assignment.Placed.{
  placements, clashes, AllApart, IsClear, HasUnit, assign_all-apart,
}

-- A stay takes the nights from its first date to the one before its last.
abbrev pub is_night : LocalDate → BusyStay → Bool
is_night night s = leb s.from_date night && ltb night s.to_date

-- No two placed stays of one unit take the night.
abbrev pub AllAlone : LocalDate → List (EntityId × BusyStay) → Type 0
AllAlone night [] = Unit
AllAlone night ((u, s) ∷ ps) =
    All (λ q. ((u == q.0) && (is_night night s && is_night night q.1)) ≡ false) ps
    × AllAlone night ps

common-night :
    (night : LocalDate) (a b : BusyStay)
    → overlaps a b ≡ false
    → (is_night night a && is_night night b) ≡ false
common-night night a b h = ground (arith, h)

AllApart-alone :
    (night : LocalDate) (ps : List (EntityId × BusyStay)) → AllApart ps → AllAlone night ps
AllApart-alone night [] h = tt
AllApart-alone night ((u, s) ∷ ps) (apart, h) = (
  All-weaken (λ q. clashes (u, s) q ≡ false) _ ps
      (λ q e. elim (Bool-cases (u == q.0)) [
        | inl y ↦ rw y (common-night night s q.1 (rw y at e))
        | inr n ↦ rw n refl
      ])
      apart,
  AllApart-alone night ps h,
)

busy_from-keeps :
    (requests : List AssignmentRequest) (m : BusyMap) (us : List UnitCandidate) (w : UnitCandidate)
    → HasUnit m w
    → HasUnit (busy_from requests m us) w
unfolding busy_from
busy_from-keeps requests m [] w h = h
busy_from-keeps requests m (u ∷ us) w (stays, h) =
    busy_from-keeps requests (insert u.unit_id (kept_stays requests u.busy) m) us w (
      rw (lookup-insert u.unit_id w.unit_id (kept_stays requests u.busy) m, h)
        (elim (Bool-cases (u.unit_id == w.unit_id)) [
          | inl y ↦ rw y (_, refl)
          | inr n ↦ rw n (_, refl)
        ]))

busy_from-HasUnit :
    (requests : List AssignmentRequest) (m : BusyMap) (us : List UnitCandidate)
    → All (HasUnit (busy_from requests m us)) us
unfolding busy_from
busy_from-HasUnit requests m [] = tt
busy_from-HasUnit requests m (u ∷ us) =
    let stays = kept_stays requests u.busy in
    let m' = insert u.unit_id stays m in
    (
      busy_from-keeps requests m' us u (
        stays,
        rw (lookup-insert u.unit_id u.unit_id stays m, (nat_eq.beq_iff u.unit_id u.unit_id).1 refl)
            refl,
      ),
      busy_from-HasUnit requests m' us,
    )

or-false : (a b : Bool) → (a || b) ≡ false → (a ≡ false) × (b ≡ false)
or-false false b h = (refl, h)
or-false true b h = cc

-- Whether a stay that is placed on a unit takes a night that one takes which the unit has from a
-- booking outside the requests.
abbrev pub double_books :
    List AssignmentRequest → LocalDate → EntityId × BusyStay → UnitCandidate → Bool
double_books requests night (u, s) c =
    (c.unit_id == u)
    && any
        (λ b.
          is_night night b
          && (is_night night s && not (any (λ r. r.for_booking == b.of_booking) requests)))
        c.busy

-- The units by their ids.
abbrev pub by_id : List UnitCandidate → List (EntityId × UnitCandidate)
by_id [] = []
by_id (u ∷ us) = (u.unit_id, u) ∷ by_id us

any-kept_stays :
    (requests : List AssignmentRequest) (night : LocalDate) (s : BusyStay) (bs : List BusyStay)
    → any (λ b. overlaps b s) (kept_stays requests bs) ≡ false
    → any
        (λ b.
          is_night night b
          && (is_night night s && not (any (λ r. r.for_booking == b.of_booking) requests)))
        bs
      ≡ false
any-kept_stays requests night s [] h = refl
any-kept_stays requests night s (b ∷ bs) h =
    elim (Bool-cases (any (λ r. r.for_booking == b.of_booking) requests)) [
      | inl y ↦
          let rest = any-kept_stays requests night s bs (rw y at h) in rw y (ground (arith, rest))
      | inr n ↦
          let here = rw n at h in
          let (apart, later) = or-false _ _ here in
          let one = common-night night b s apart in
          let rest = any-kept_stays requests night s bs later in rw n (ground (arith, one, rest))
    ]

-- A unit that no later one shares its id with keeps its entry.
busy_from-absent :
    (requests : List AssignmentRequest) (m : BusyMap) (us : List UnitCandidate) (id : EntityId)
    → lookup id (by_id us) ≡ none
    → lookup id (busy_from requests m us) ≡ lookup id m
unfolding busy_from
busy_from-absent requests m [] id h = refl
busy_from-absent requests m (u ∷ us) id h = elim (Bool-cases (u.unit_id == id)) [
  | inl y ↦
      let bad : some u ≡ none =
        subst (λ b. (if b then some u else lookup id (by_id us)) ≡ none) y h in
      cc
  | inr n ↦
      busy_from-absent requests (insert u.unit_id (kept_stays requests u.busy) m) us id
        (subst (λ b. (if b then some u else lookup id (by_id us)) ≡ none) n h)
      ∙ (lookup-insert u.unit_id id (kept_stays requests u.busy) m ∙ (rw n refl))
]

busy_from-clear :
    (requests : List AssignmentRequest) (night : LocalDate) (m : BusyMap) (us : List UnitCandidate)
    (p : EntityId × BusyStay)
    → Distinct (by_id us)
    → IsClear (busy_from requests m us) p
    → All (λ c. double_books requests night p c ≡ false) us
unfolding busy_from
busy_from-clear requests night m [] p d h = tt
busy_from-clear requests night m (u ∷ us) (id, s) (n, d) h =
    let stays = kept_stays requests u.busy in
    let m' = insert u.unit_id stays m in
    (
      elim (Bool-cases (u.unit_id == id)) [
        | inl y ↦
            let same : u.unit_id ≡ id = (nat_eq.beq_iff u.unit_id id).0 y in
            let found : lookup id (busy_from requests m' us) ≡ some stays =
              busy_from-absent requests m' us id (subst (λ i. lookup i (by_id us) ≡ none) same n)
              ∙ (lookup-insert u.unit_id id stays m ∙ (rw y refl)) in
            rw y (
              any-kept_stays requests night s u.busy
                (subst (λ o. any (λ b. overlaps b s) (stays_in o) ≡ false) found h))
        | inr z ↦ rw z refl
      ],
      busy_from-clear requests night m' us (id, s) d h,
    )

-- For units with different ids, `autoAssign` never books a night of a unit twice: no stay that it
-- places takes a night that another stay it places on the unit takes, or that a stay takes which
-- the unit has from a booking outside the requests.
pub auto_assign-apart :
    (requests : List AssignmentRequest) (units : List UnitCandidate) (night : LocalDate)
    → Distinct (by_id units)
    → let ps = placements (in_check_in_order requests) (auto_assign requests units) in
      All (λ p. All (λ c. double_books requests night p c ≡ false) units) ps × AllAlone night ps
unfolding auto_assign
auto_assign-apart requests units night d =
    let (clear, apart) =
      assign_all-apart units (busy_from requests [] units) (in_check_in_order requests)
        (busy_from-HasUnit requests [] units) in
    let ps = placements (in_check_in_order requests) (auto_assign requests units) in
    (
      All-weaken (IsClear (busy_from requests [] units)) _ ps
          (λ p. busy_from-clear requests night [] units p d) clear,
      AllApart-alone night ps apart,
    )
