-- ===== src/Auth.antt =====
-- backend/app/core/auth.py, roles.py and `resolve_claim` of oidc.py: who the caller is, and what the
-- caller may do.
pub mod FirstMatch
pub mod Gate
mod Examples
use buchi_maker.Common.{
  if◌then◌else◌, all, any, codes, format, Dict, lookup, Result, ◌>>=◌, ◌>>◌, ok, err, ◌-◌, ◌*◌, ◌/◌,
  String, ap, Bool, true, false, not, Option, none, some, List, [], ◌∷◌, map, ◌==◌,
}
use buchi_maker.Json.{
  Json, null, bool, num, str, arr, obj, Items, nil, cons, items, Fields, end, field, fields,
}
use buchi_maker.Python.Chars.{strip, lower, same_codes}
use buchi_maker.Python.Replace.{split}
use buchi_maker.Validator.{HttpError}
use buchi_maker.Session.{SessionData}

pub data Role : Type 0 where
  deny viewer data_admin administrator : Role

-- Role.value
unfoldable pub role_value : Role → String
role_value deny = "Deny"
role_value viewer = "Viewer"
role_value data_admin = "Data Admin"
role_value administrator = "Administrator"

-- Role(value), with `_missing_`: white space around the text and its case do not count. `none` is
-- the ValueError.
unfoldable pub role_of : String → Option Role
unfolding strip
role_of value =
    let normalized = map lower (strip (codes value)) in
    if same_codes normalized (codes "deny")
    then some deny
    else if same_codes normalized (codes "viewer")
    then some viewer
    else if same_codes normalized (codes "data admin")
    then some data_admin
    else if same_codes normalized (codes "administrator")
    then some administrator
    else none

pub record Principal : Type 0 where
  pub subject : String
  pub name : String
  pub email : Option String
  pub role : Role
  pub is_anonymous : Bool

abbrev pub anonymous_principal : Principal
anonymous_principal = record {
  subject = "anonymous";
  name = "Anonymous";
  email = none;
  role = administrator;
  is_anonymous = true;
}

-- the value of a dict's key, or None
abbrev pub member_of : String → Dict Json → Json
member_of key d = elim (lookup key d) [ none ↦ null | some v ↦ v ]

-- one segment of the path after another
unfoldable pub resolve_path : Json → List String → Json
resolve_path value [] = value
resolve_path (obj fs) (segment ∷ rest) = resolve_path (member_of segment (fields fs)) rest
resolve_path _ (segment ∷ rest) = null

unfoldable pub resolve_claim : Fields → String → Json
unfolding resolve_path split
resolve_claim claims claim_path = resolve_path (obj claims) (split b'.' claim_path)

-- One entry of `role_mappings`; each key may be missing.
pub record Mapping : Type 0 where
  pub claim : Option String
  pub value : Option String
  pub role : Option String

-- `actual == expected`, for a text that is expected
unfoldable pub is_text : String → Json → Bool
is_text expected (str s) = s == expected
is_text expected _ = false

-- a list matches by membership, anything else by equality
unfoldable pub claim_matches : String → Json → Bool
unfolding is_text
claim_matches expected (arr vs) = any (is_text expected) (items vs)
claim_matches expected actual = is_text expected actual

-- The role that one mapping gives: `none` is a `continue`.
granted : Fields → Option String → Option String → Option String → Option Role
granted claims none value role = none
granted claims (some claim) none role = none
granted claims (some claim) (some expected) none = none
granted claims (some claim) (some expected) (some role) =
    if claim == ""
    then none
    else if claim_matches expected (resolve_claim claims claim)
    then role_of role
    else none

unfoldable pub role_granted : Fields → Mapping → Option Role
unfolding granted
role_granted claims m = granted claims m.claim m.value m.role

unfoldable pub resolve_role_from_claims : Fields → List Mapping → Role
unfolding role_granted
resolve_role_from_claims claims [] = deny
resolve_role_from_claims claims (m ∷ ms) = elim (role_granted claims m) [
  | some role ↦ role
  | none ↦ resolve_role_from_claims claims ms
]

abbrev pub unauthorized : HttpError
unauthorized = record { status = 401; detail = "Authentication required. Sign in at /auth/login." }

abbrev pub role_or_deny : Option Role → Role
role_or_deny none = deny
role_or_deny (some role) = role

unfoldable pub principal_of : Option SessionData → Result HttpError Principal
unfolding role_of
principal_of none = err unauthorized
principal_of (some session) = ok (record {
  subject = session.subject;
  name = session.name;
  email = session.email;
  role = role_or_deny (role_of session.role);
  is_anonymous = false;
})

-- `get_session` is the session store's; a missing or empty cookie is no session
unfoldable pub require_authentication :
    Bool → (String → Option SessionData) → Option String → Result HttpError Principal
unfolding principal_of
require_authentication anonymous_access get_session cookie =
    if anonymous_access
    then ok anonymous_principal
    else principal_of (elim cookie [
      | none ↦ none
      | some session_id ↦ if session_id == "" then none else get_session session_id
    ])

abbrev pub same_role : Role → Role → Bool
same_role deny deny = true
same_role viewer viewer = true
same_role data_admin data_admin = true
same_role administrator administrator = true
same_role _ _ = false

abbrev pub any_authenticated : List Role
any_authenticated = viewer ∷ data_admin ∷ administrator ∷ []

abbrev pub data_admin_or_above : List Role
data_admin_or_above = data_admin ∷ administrator ∷ []

abbrev pub admin_only : List Role
admin_only = administrator ∷ []

abbrev pub forbidden : Role → HttpError
forbidden role = record {
  status = 403;
  detail = format ("Role '" ∷ role_value role ∷ "' is not permitted to perform this action." ∷ []);
}

-- require_role(*allowed), on top of require_authentication
unfoldable pub require_role : List Role → Result HttpError Principal → Result HttpError Principal
unfolding role_value
require_role allowed caller = do
  principal ← caller
  if any (same_role principal.role) allowed then ok principal else err (forbidden principal.role)
