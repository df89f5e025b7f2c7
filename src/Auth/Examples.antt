-- ===== src/Auth/Examples.antt =====
-- The theorems on roles and the gate at concrete inputs.
use buchi_maker.Common.{
  if◌then◌else◌, any, All, lookup, ok, err, ◌-◌, String, ◌≡◌, refl, ap, ◌⊎◌, true, false, not,
  Option, none, some, List, [], ◌∷◌, map, ◌==◌,
}
use buchi_maker.Json.{str, arr, obj, Fields, nil, cons, end, field}
use buchi_maker.Session.{SessionData}
use buchi_maker.Auth.{
  Role, deny, viewer, data_admin, administrator, Principal, anonymous_principal, Mapping, role_of,
  role_or_deny, role_granted, resolve_role_from_claims, same_role, unauthorized, forbidden,
  require_authentication, require_role, data_admin_or_above, admin_only,
}
use buchi_maker.Auth.FirstMatch.{IsFirst, resolve_role-IsFirst}
use buchi_maker.Auth.Gate.{IsSession, HasNoSession, IsRefusal, gate_passed, gate_refused}

abbrev claims : Fields
claims =
    field "realm_access"
      (obj (field "roles" (arr (cons (str "staff") (cons (str "lead") nil))) end)) end

abbrev mappings : List Mapping
mappings =
    record { claim = some "groups"; value = some "lead"; role = some "Administrator" }
    ∷ record { claim = some "realm_access.roles"; value = some "lead"; role = some " data ADMIN" }
    ∷ record { claim = some "realm_access.roles"; value = some "staff"; role = some "Viewer" }
    ∷ []

resolve_role-IsFirst_example :
    IsFirst claims mappings (resolve_role_from_claims claims mappings)
    ⊎ All (λ m. role_granted claims m ≡ none) mappings
      × (resolve_role_from_claims claims mappings ≡ deny)
resolve_role-IsFirst_example = resolve_role-IsFirst claims mappings

second_mapping : resolve_role_from_claims claims mappings ≡ data_admin
unfolding resolve_role_from_claims buchi_maker.Auth.claim_matches buchi_maker.Auth.resolve_claim
    buchi_maker.Common.lookup role_of
second_mapping = refl

abbrev ann : SessionData
ann = record {
  subject = "u1";
  email = none;
  name = "Ann";
  role = "Data Admin";
  issued_at = 1700000000;
}

abbrev sessions : String → Option SessionData
sessions id = if id == "s1" then some ann else none

abbrev ann_principal : Principal
ann_principal = record {
  subject = "u1";
  name = "Ann";
  email = none;
  role = data_admin;
  is_anonymous = false;
}

ann_enters :
    require_role data_admin_or_above (require_authentication false sessions (some "s1"))
    ≡ ok ann_principal
unfolding require_role require_authentication
ann_enters = refl

gate_passed_example :
    (any (same_role ann_principal.role) data_admin_or_above ≡ true)
    × ((false ≡ true) × (ann_principal ≡ anonymous_principal)
        ⊎ (false ≡ false) × IsSession sessions (some "s1") ann_principal)
gate_passed_example =
    gate_passed sessions false (some "s1") data_admin_or_above ann_principal ann_enters

gate_refused_example :
    let outcome = require_role admin_only (require_authentication false sessions (some "s1")) in
    HasNoSession sessions (some "s1") × IsRefusal 401 outcome
    ⊎ (q : Principal) × (IsSession sessions (some "s1") q
        × ((any (same_role q.role) admin_only ≡ true) × (outcome ≡ ok q)
            ⊎ (any (same_role q.role) admin_only ≡ false) × IsRefusal 403 outcome))
gate_refused_example = gate_refused sessions (some "s1") admin_only

ann_forbidden :
    require_role admin_only (require_authentication false sessions (some "s1"))
    ≡ err (record {
      status = 403;
      detail = "Role 'Data Admin' is not permitted to perform this action.";
    })
unfolding require_role require_authentication
ann_forbidden = refl

unknown_role_denied : resolve_role_from_claims claims [] ≡ deny
unfolding resolve_role_from_claims
unknown_role_denied = refl
