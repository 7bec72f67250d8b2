-- ===== src/Authz/Decision.antt =====
-- `evaluate` of packages/authz/src/evaluate.ts, and the decision by the grants that apply.
use channex_pms.Prelude.{
  ℕ, ◌≡◌, refl, Bool, true, false, not, ◌||◌, Option, none, some, List, [], ◌∷◌, if◌then◌else◌,
  contains, nat_eq, any, filter, arith, Bool-cases, inl, inr,
}
use channex_pms.Authz.{
  Permission, ScopeRef, ScopeGraph, RoleDefinition, RowFilter, Grant, Decided, deny, permit,
  no_grant, denied_by, unknown_permission, out_of_scope, covers, Seen, nothing_seen, is_none,
  or_first, resolve_role, is_expired, via_role, via_override, filter_of, visit, visit_all, evaluate,
}

module _ (roles : ℕ → RoleDefinition) (target : ScopeRef) (graph : ScopeGraph) (now : ℕ)
    (permission : Permission) where
  -- A grant applies if it has not expired and covers the target.
  abbrev pub is_applicable : Grant → Bool
  is_applicable g = not (
      is_expired roles target graph now permission g.expires_at
      || not (covers g.scope target graph))

  abbrev pub denies : Grant → Bool
  denies g = contains permission g.override_deny

  abbrev pub gives : Grant → Bool
  gives g =
      via_role roles target graph now permission g
      || via_override roles target graph now permission g

  abbrev pub asks_step_up : Grant → Bool
  asks_step_up g =
      contains permission ((resolve_role roles target graph now permission g.role).step_up_set)

  abbrev pub filter_by : Grant → Option RowFilter
  filter_by = filter_of roles target graph now permission

  -- The filter of the first grant that has one.
  abbrev pub first_filter : List Grant → Option RowFilter
  first_filter [] = none
  first_filter (g ∷ gs) = or_first (filter_by g) (first_filter gs)

  abbrev pub applicable : List Grant → List Grant
  applicable = filter is_applicable

  abbrev pub giving : List Grant → List Grant
  giving gs = filter gives (applicable gs)

  -- The grants, each read on its own: any denial refuses, any grant of the permission permits.
  abbrev pub verdict : List Permission → List Grant → Decided
  verdict catalogue gs =
      if not (contains permission catalogue)
      then deny permission unknown_permission
      else if any denies (applicable gs)
      then deny permission denied_by
      else if any gives (applicable gs)
      then permit (any asks_step_up (giving gs))
          (if any (λ g. is_none (filter_by g)) (giving gs) then none else first_filter (giving gs))
      else deny permission (if any (λ g. true) (applicable gs) then no_grant else out_of_scope)

  abbrev seen_after : Seen → List Grant → Seen
  seen_after s gs = record {
    allowed = s.allowed || any gives (applicable gs);
    needs_step_up = s.needs_step_up || any asks_step_up (giving gs);
    unfiltered = s.unfiltered || any (λ g. is_none (filter_by g)) (giving gs);
    filter_found = or_first s.filter_found (first_filter (giving gs));
    saw_covering = s.saw_covering || any (λ g. true) (applicable gs);
  }

  or_first-none : (f : Option RowFilter) → or_first f none ≡ f
  or_first-none none = refl
  or_first-none (some f) = refl

  or_first_assoc :
      (f g h : Option RowFilter) → or_first (or_first f g) h ≡ or_first f (or_first g h)
  or_first_assoc none g h = refl
  or_first_assoc (some f) g h = refl

  or_assoc : (a b c : Bool) → ((a || b) || c) ≡ (a || (b || c))
  or_assoc a b c = ground arith

  or-false : (a : Bool) → (a || false) ≡ a
  or-false a = ground arith

  or-true : (a : Bool) → (a || true) ≡ true
  or-true a = ground arith

  visit_all-seen :
      (gs : List Grant) (s : Seen)
      → visit_all roles target graph now permission gs s
        ≡ (if any denies (applicable gs) then none else some (seen_after s gs))
  unfolding visit_all
  visit_all-seen [] s = ground (arith, or_first-none s.filter_found)
  visit_all-seen (g ∷ gs) s =
      elim (Bool-cases (
        is_expired roles target graph now permission g.expires_at
        || not (covers g.scope target graph))) [
          | inl x ↦ rw (x, visit_all, visit, filter) (visit_all-seen gs s)
          | inr a ↦ elim (Bool-cases (denies g)) [
            | inl d ↦ rw (a, d, visit_all, visit, filter) refl
            | inr n ↦ elim (Bool-cases (gives g)) [
              | inl y ↦
                  let t : Seen = record {
                    allowed = true;
                    needs_step_up = s.needs_step_up || asks_step_up g;
                    unfiltered = s.unfiltered || is_none (filter_by g);
                    filter_found = or_first s.filter_found (filter_by g);
                    saw_covering = true;
                  } in
                  let rest = giving gs in
                  rw
                    (
                      a,
                      n,
                      y,
                      visit_all,
                      visit,
                      filter,
                      or-true s.allowed,
                      ← (or_assoc s.needs_step_up (asks_step_up g) (any asks_step_up rest)),
                      ← (
                          or_assoc s.unfiltered (is_none (filter_by g))
                            (any (λ x. is_none (filter_by x)) rest)),
                      ← (or_first_assoc s.filter_found (filter_by g) (first_filter rest)),
                      or-true s.saw_covering,
                    )
                    (visit_all-seen gs t)
              | inr z ↦
                  rw (a, n, z, visit_all, visit, filter)
                    (rw (or-true s.saw_covering)
                      (visit_all-seen gs (record s { saw_covering = true })))
            ]
          ]
        ]

  -- For every order of the grants: an unknown permission is denied; a denial by any applicable
  -- grant denies; else any applicable grant of the permission permits, with step-up if one of those
  -- asks for it, and with the first row filter only if each of those has one; else it is denied.
  pub evaluate-verdict :
      (catalogue : List Permission) (gs : List Grant)
      → evaluate roles target graph now permission catalogue gs ≡ verdict catalogue gs
  unfolding evaluate
  evaluate-verdict catalogue gs =
      rw (visit_all-seen gs nothing_seen, evaluate)
        (elim (Bool-cases (any denies (applicable gs))) [ inl d ↦ rw d refl | inr n ↦ rw n refl ])
