-- ===== src/Authz.antt =====
-- packages/authz/src/evaluate.ts: the evaluation of grants. Permissions, role keys and ids stand for
-- their numbers; the catalogue of permissions and the table of roles are arguments.
pub mod Decision
mod Tests
use channex_pms.Prelude.{
  ℕ, Bool, true, false, not, ◌&&◌, ◌||◌, Option, none, some, List, [], ◌∷◌, if◌then◌else◌, ◌==◌,
  leb, contains, nat_eq,
}
use channex_pms.Prelude.Maps.{lookup}
use channex_pms.Inventory.{EntityId}

abbrev pub Permission : Type 0
Permission = ℕ

pub data ScopeKind : Type 0 where
  organization group property : ScopeKind

-- SCOPE_RANK.
abbrev pub scope_rank : ScopeKind → ℕ
scope_rank organization = 0
scope_rank group = 1
scope_rank property = 2

abbrev pub same_kind : ScopeKind → ScopeKind → Bool
same_kind a b = scope_rank a == scope_rank b

pub data RowFilter : Type 0 where
  own today limited aggregate name_only own_stays : RowFilter

pub record ScopeRef : Type 0 where
  pub kind : ScopeKind
  pub scope_id : EntityId

pub record ScopeGraph : Type 0 where
  pub org_id : EntityId
  pub group_properties : List (EntityId × List EntityId)

pub record RoleDefinition : Type 0 where
  pub allow_set : List Permission
  pub step_up_set : List Permission
  pub row_filter_map : List (Permission × RowFilter)
  pub max_scope_map : List (Permission × ScopeKind)

pub data RoleRef : Type 0 where
  named : ℕ → RoleRef
  custom : RoleDefinition → RoleRef

-- `overrides.allow` and `overrides.deny` are empty where they are absent.
pub record Grant : Type 0 where
  pub role : RoleRef
  pub scope : ScopeRef
  pub override_allow : List Permission
  pub override_deny : List Permission
  pub expires_at : Option ℕ

pub data DenyReason : Type 0 where
  no_grant denied_by unknown_permission out_of_scope : DenyReason

pub data Decided : Type 0 where
  deny : Permission → DenyReason → Decided
  permit : (step_up : Bool) (row_filter : Option RowFilter) → Decided

in_group : Option (List EntityId) → EntityId → Bool
in_group none p = false
in_group (some ps) p = contains p ps

covers_kind : ScopeKind → ScopeKind → EntityId → EntityId → ScopeGraph → Bool
unfolding in_group
covers_kind organization k i j g = i == g.org_id
covers_kind group group i j g = i == j
covers_kind property property i j g = i == j
covers_kind group property i j g = in_group (lookup i g.group_properties) j
covers_kind _ _ i j g = false

unfoldable pub covers : ScopeRef → ScopeRef → ScopeGraph → Bool
unfolding covers_kind
covers scope target g = covers_kind scope.kind target.kind scope.scope_id target.scope_id g

-- What the loop has seen.
pub record Seen : Type 0 where
  pub allowed : Bool
  pub needs_step_up : Bool
  pub unfiltered : Bool
  pub filter_found : Option RowFilter
  pub saw_covering : Bool

abbrev pub nothing_seen : Seen
nothing_seen = record {
  allowed = false;
  needs_step_up = false;
  unfiltered = false;
  filter_found = none;
  saw_covering = false;
}

abbrev pub is_none : {A : Type 0} → Option A → Bool
is_none none = true
is_none (some a) = false

-- `filter ??= f`.
abbrev pub or_first : Option RowFilter → Option RowFilter → Option RowFilter
or_first none f = f
or_first (some g) f = some g

-- The decision that what was seen gives.
abbrev pub decide : Permission → Seen → Decided
decide p s =
    if s.allowed
    then permit s.needs_step_up (if s.unfiltered then none else s.filter_found)
    else deny p (if s.saw_covering then no_grant else out_of_scope)

module _ (roles : ℕ → RoleDefinition) (target : ScopeRef) (graph : ScopeGraph) (now : ℕ)
    (permission : Permission) where
  abbrev pub resolve_role : RoleRef → RoleDefinition
  resolve_role (named k) = roles k
  resolve_role (custom r) = r

  abbrev pub is_expired : Option ℕ → Bool
  is_expired none = false
  is_expired (some t) = leb t now

  abbrev pub wide_enough : Option ScopeKind → ScopeKind → Bool
  wide_enough none k = true
  wide_enough (some m) k = leb (scope_rank m) (scope_rank k)

  abbrev pub via_role : Grant → Bool
  via_role g =
      let r = resolve_role g.role in
      contains permission r.allow_set
      && wide_enough (lookup permission r.max_scope_map) g.scope.kind

  abbrev pub via_override : Grant → Bool
  via_override g = contains permission g.override_allow

  abbrev pub filter_of : Grant → Option RowFilter
  filter_of g =
      if via_role g then lookup permission ((resolve_role g.role).row_filter_map) else none

  -- One round of the loop; `none` is the return for a denial.
  abbrev pub visit : Grant → Seen → Option Seen
  visit g s =
      if is_expired g.expires_at || not (covers g.scope target graph)
      then some s
      else if contains permission g.override_deny
      then none
      else if not (via_role g || via_override g)
      then some (record s { saw_covering = true })
      else some (record {
        allowed = true;
        needs_step_up = s.needs_step_up || contains permission ((resolve_role g.role).step_up_set);
        unfiltered = s.unfiltered || is_none (filter_of g);
        filter_found = or_first s.filter_found (filter_of g);
        saw_covering = true;
      })

  unfoldable pub visit_all : List Grant → Seen → Option Seen
  visit_all [] s = some s
  visit_all (g ∷ gs) s = elim (visit g s) [ none ↦ none | some t ↦ visit_all gs t ]

  unfoldable pub evaluate : List Permission → List Grant → Decided
  evaluate catalogue grants =
      if not (contains permission catalogue)
      then deny permission unknown_permission
      else elim (visit_all grants nothing_seen) [
        | none ↦ deny permission denied_by
        | some s ↦ decide permission s
      ]
