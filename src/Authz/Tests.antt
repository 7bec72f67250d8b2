-- ===== src/Authz/Tests.antt =====
-- The theorem on decisions at a role grant on a group and a denial on one of its properties.
use channex_pms.Prelude.{ℕ, ◌≡◌, none, List, [], ◌∷◌}
use channex_pms.Authz.{
  Permission, group, property, own, ScopeRef, ScopeGraph, RoleDefinition, named, Grant, evaluate,
}
use channex_pms.Authz.Decision.{verdict, evaluate-verdict}

abbrev cleaner : RoleDefinition
cleaner = record {
  allow_set = 4 ∷ 5 ∷ [];
  step_up_set = 5 ∷ [];
  row_filter_map = (4, own) ∷ [];
  max_scope_map = (5, group) ∷ [];
}

abbrev roles : ℕ → RoleDefinition
roles k = cleaner

abbrev graph : ScopeGraph
graph = record { org_id = 1; group_properties = (20, 30 ∷ 31 ∷ []) ∷ [] }

abbrev target : ScopeRef
target = record { kind = property; scope_id = 31 }

abbrev by_group : Grant
by_group = record {
  role = named 2;
  scope = record { kind = group; scope_id = 20 };
  override_allow = [];
  override_deny = [];
  expires_at = none;
}

abbrev by_property : Grant
by_property = record {
  role = named 2;
  scope = record { kind = property; scope_id = 31 };
  override_allow = 6 ∷ [];
  override_deny = 5 ∷ [];
  expires_at = none;
}

abbrev known : List Permission
known = 4 ∷ 5 ∷ 6 ∷ []

evaluate-verdict_example :
    evaluate roles target graph 1000 5 known (by_group ∷ by_property ∷ [])
    ≡ verdict roles target graph 1000 5 known (by_group ∷ by_property ∷ [])
evaluate-verdict_example =
    evaluate-verdict roles target graph 1000 5 known (by_group ∷ by_property ∷ [])
