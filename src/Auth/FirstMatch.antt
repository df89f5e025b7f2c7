-- ===== src/Auth/FirstMatch.antt =====
-- The first mapping that grants a role decides.
use buchi_maker.Common.{
  Option-cases, All, ◌≡◌, refl, sym, ap, ◌∙◌, ◌⊎◌, inl, inr, none, some, List, [], ◌∷◌, ◌++◌,
}
use buchi_maker.Json.{Fields}
use buchi_maker.Auth.{Role, deny, Mapping, role_granted, resolve_role_from_claims}

-- Some mapping grants the role, and none before it grants any.
pub record IsFirst (claims : Fields) (mappings : List Mapping) (role : Role) : Type 0 where
  pub before : List Mapping
  pub chosen : Mapping
  pub rest : List Mapping
  pub split : mappings ≡ before ++ chosen ∷ rest
  pub grants : role_granted claims chosen ≡ some role
  pub silent : All (λ m. role_granted claims m ≡ none) before

resolve_skip :
    (claims : Fields) (m : Mapping) (ms : List Mapping)
    → role_granted claims m ≡ none
    → resolve_role_from_claims claims (m ∷ ms) ≡ resolve_role_from_claims claims ms
unfolding resolve_role_from_claims
resolve_skip claims m ms e = rw (e, resolve_role_from_claims) refl

resolve_take :
    (claims : Fields) (m : Mapping) (ms : List Mapping) (role : Role)
    → role_granted claims m ≡ some role
    → resolve_role_from_claims claims (m ∷ ms) ≡ role
unfolding resolve_role_from_claims
resolve_take claims m ms role e = rw (e, resolve_role_from_claims) refl

resolve_nil : (claims : Fields) → resolve_role_from_claims claims [] ≡ deny
unfolding resolve_role_from_claims
resolve_nil claims = refl

-- The role is that of the first mapping that grants one; or no mapping grants any, and it is Deny.
pub resolve_role-IsFirst :
    (claims : Fields) (mappings : List Mapping)
    → IsFirst claims mappings (resolve_role_from_claims claims mappings)
      ⊎ All (λ m. role_granted claims m ≡ none) mappings
        × (resolve_role_from_claims claims mappings ≡ deny)
resolve_role-IsFirst claims [] = inr (tt, resolve_nil claims)
resolve_role-IsFirst claims (m ∷ ms) = elim (Option-cases (role_granted claims m)) [
  | inl e ↦ elim (resolve_role-IsFirst claims ms) [
    | inl f ↦ inl (record {
      before = m ∷ f.before;
      chosen = f.chosen;
      rest = f.rest;
      split = ap (λ t. m ∷ t) f.split;
      grants = f.grants ∙ ap some (sym (resolve_skip claims m ms e));
      silent = (e, f.silent);
    })
    | inr (none_grants, is_deny) ↦ inr ((e, none_grants), resolve_skip claims m ms e ∙ is_deny)
  ]
  | inr (role, e) ↦ inl (record {
    before = [];
    chosen = m;
    rest = ms;
    split = refl;
    grants = e ∙ ap some (sym (resolve_take claims m ms role e));
    silent = tt;
  })
]
