-- ===== src/Login.antt =====
-- backend/app/api/auth.py and the exchange of backend/app/core/oidc.py: signing in through an identity provider.
pub mod Verified
pub mod SignedIn
pub mod Start
pub mod Resumed
mod Examples
use buchi_maker.Common.{
  eqb, if◌then◌else◌, all, take, format, Dict, lookup, Result, ◌>>=◌, ◌>>◌, guard, map_err, ok, err,
  ℕ, ◌-◌, ◌*◌, ◌/◌, String, ap, Bool, false, not, ◌&&◌, Option, none, some, List, [], ◌∷◌, map,
  ◌==◌,
}
use Prim.Native.Char.{code}
use Prim.Native.String
use buchi_maker.Json.{Json, null, str, Fields, end, field, fields}
use buchi_maker.Redis.{Redis}
use buchi_maker.Session.{
  SessionData, FlowData, Codec, Store, create_session, pop_flow_state, destroy_session,
}
use buchi_maker.Auth.{Role, role_value, member_of, Mapping, resolve_role_from_claims}
use buchi_maker.Validator.{HttpError}

-- _safe_next_path
unfoldable pub safe_next_path : Option String → String
safe_next_path none = "/"
safe_next_path (some String.[]) = "/"
safe_next_path (some (String.◌∷◌ c String.[])) = if eqb (code c) b'/' then String.◌∷◌ c "" else "/"
safe_next_path (some (String.◌∷◌ c (String.◌∷◌ d s))) =
    if eqb (code c) b'/' && not (eqb (code d) b'/') then String.◌∷◌ c (String.◌∷◌ d s) else "/"

pub record SsoConfig : Type 0 where
  pub issuer_url : String
  pub client_id : String
  pub client_secret : String
  pub scopes : String
  pub redirect_uri : String

-- a setting that is there and not empty
unfoldable pub setting : String → Dict String → Option String
setting key sso = elim (lookup key sso) [ none ↦ none | some v ↦ if v == "" then none else some v ]

-- text.rstrip("/")
unfoldable pub rstrip_slashes : String → String
rstrip_slashes String.[] = ""
rstrip_slashes (String.◌∷◌ c s) =
    let rest = rstrip_slashes s in if eqb (code c) b'/' && rest == "" then "" else String.◌∷◌ c rest

abbrev pub needed : String → Dict String → Result (Unit {0}) String
needed key sso = elim (setting key sso) [ none ↦ err tt | some v ↦ ok v ]

unfoldable pub config_from_settings : Dict String → Result (Unit {0}) SsoConfig
config_from_settings sso = do
  issuer_url ← needed "issuer_url" sso
  client_id ← needed "client_id" sso
  client_secret ← needed "client_secret" sso
  redirect_uri ← needed "redirect_uri" sso
  ok (record {
    issuer_url = rstrip_slashes issuer_url;
    client_id = client_id;
    client_secret = client_secret;
    scopes = elim (setting "scopes" sso) [ none ↦ "openid profile email" | some v ↦ v ];
    redirect_uri = redirect_uri;
  })

pub record Tokens : Type 0 where
  pub id_token : Option String
  pub access_token : Option String

-- The identity provider and the JWT library: the discovery document is there or not, the answer of the token
-- endpoint to a code and a verifier, the claims of an id token whose signature, audience and issuer hold, and
-- those of the userinfo endpoint, if it is there and answers with 200.
pub record Provider : Type 0 where
  pub discovers : String → Bool
  pub exchange : SsoConfig → (code code_verifier : String) → Option Tokens
  pub verify : SsoConfig → String → Option Fields
  pub userinfo : SsoConfig → String → Option Fields

-- claims[key] = value
unfoldable pub set_claim : String → Json → Fields → Fields
set_claim key v end = field key v end
set_claim key v (field k w fs) = if k == key then field k v fs else field k w (set_claim key v fs)

-- {**claims, **more}
unfoldable pub merge_claims : Fields → Fields → Fields
merge_claims claims end = claims
merge_claims claims (field k v more) = merge_claims (set_claim k v claims) more

-- a claim that is a text: the claims of an identity are taken to be texts
unfoldable pub text_claim : String → Fields → Option String
text_claim key claims = elim (member_of key (fields claims)) [ str s ↦ some s | _ ↦ none ]

-- `a or b`
abbrev pub or_else : Option String → Option String → Option String
or_else (some s) o = if s == "" then o else some s
or_else none o = o

abbrev pub present : Option String → Result String String
present none = err "Identity provider did not return an id_token."
present (some t) = if t == "" then err "Identity provider did not return an id_token." else ok t

abbrev pub required : {A : Type 0} → String → Option A → Result String A
required e none = err e
required e (some a) = ok a

module _ (provider : Provider) (cfg : SsoConfig) where
  abbrev pub with_userinfo : Fields → Option String → Fields
  with_userinfo claims none = claims
  with_userinfo claims (some token) =
      if token == "" then claims else elim (provider.userinfo cfg token) [
        | none ↦ claims
        | some more ↦ merge_claims claims more
      ]

  -- the nonce that the token carries is the one of the login
  abbrev pub is_nonce : FlowData → Fields → Bool
  is_nonce flow claims = elim (member_of "nonce" (fields claims)) [
    | str s ↦ s == flow.nonce
    | _ ↦ false
  ]

  -- exchange_code, after the state of the login has been popped; a message ends where the code adds the exception
  unfoldable pub verified_claims : (code : String) → FlowData → Result String Fields
  verified_claims code flow = do
    guard (provider.discovers cfg.issuer_url) "Could not fetch OIDC discovery document."
    tokens ←
        required "Token exchange with the identity provider failed."
          (provider.exchange cfg code flow.code_verifier)
    id_token ← present tokens.id_token
    claims ← required "ID token verification failed." (provider.verify cfg id_token)
    guard (is_nonce flow claims) "ID token nonce mismatch — possible replay."
    ok (set_claim "_next_path" (str flow.next_path) (with_userinfo claims tokens.access_token))

  unfoldable pub exchange_code : (code : String) → Option FlowData → Result String Fields
  exchange_code code none = err "Login flow expired or was already used. Please sign in again."
  exchange_code code (some flow) = verified_claims code flow

abbrev pub text_or : String → Option String → String
text_or default none = default
text_or default (some s) = s

-- the session of the caller that the claims are about
unfoldable pub session_of : (issued_at : ℕ) → List Mapping → Fields → SessionData
session_of issued_at mappings claims =
    let subject = text_or "unknown" (text_claim "sub" claims) in
    let email = text_claim "email" claims in
    record {
      subject = subject;
      email = email;
      name = text_or "" (
          or_else (text_claim "name" claims)
            (or_else (text_claim "preferred_username" claims) (or_else email (some subject))));
      role = role_value (resolve_role_from_claims claims mappings);
      issued_at = issued_at;
    }

-- A redirect that sets the cookie.
pub record SignIn : Type 0 where
  pub location : String
  pub session_id : String

abbrev pub http : ℕ → String → HttpError
http status detail = record { status = status; detail = detail }

-- What the provider's redirect carries.
pub record CallbackQuery : Type 0 where
  pub code : Option String
  pub state : Option String
  pub error : Option String
  pub error_description : Option String

abbrev pub given : Option String → Option String
given o = or_else o none

unfoldable pub check_error : CallbackQuery → Result HttpError (Unit {0})
check_error q = elim (given q.error) [
  | none ↦ ok tt
  | some error ↦ err (
      http 400 (
        format (
          "Identity provider returned an error: "
          ∷ error
          ∷ " ("
          ∷ text_or "no description" (given q.error_description)
          ∷ ")."
          ∷ [])))
]

abbrev pub missing : HttpError
missing = http 400 "Missing code or state."

abbrev pub parameter_of : Option String → Result HttpError String
parameter_of o = elim (given o) [ none ↦ err missing | some s ↦ ok s ]

-- What is asked of the provider: the configuration, the code and the state.
pub record Asked : Type 0 where
  pub cfg : SsoConfig
  pub code : String
  pub state : String

-- the checks before the exchange
unfoldable pub asked_of : Dict String → CallbackQuery → Result HttpError Asked
asked_of sso q = do
  check_error q
  code ← parameter_of q.code
  state ← parameter_of q.state
  cfg ← map_err (λ u. http 400 "SSO is not fully configured.") (config_from_settings sso)
  ok (record { cfg = cfg; code = code; state = state })

module _ (provider : Provider) (mappings : List Mapping) (r : Redis) (sessions : Codec SessionData)
    (flows : Codec FlowData) where
  -- the session is stored under the fresh identifier, and named in the cookie
  unfoldable pub signed_in :
      Fields
      → Store r sessions flows × Option String
      → Store r sessions flows × Result HttpError SignIn
  signed_in claims (s, none) = (s, err (http 503 "Session store unavailable."))
  signed_in claims (s, some session_id) = (
    s,
    ok (record {
      location = safe_next_path (text_claim "_next_path" claims);
      session_id = session_id;
    }),
  )

  unfoldable pub finish :
      (fails : Bool) (fresh : String) (now : ℕ)
      → Store r sessions flows
      → Result String Fields
      → Store r sessions flows × Result HttpError SignIn
  finish fails fresh now s (err e) = (s, err (http 401 e))
  finish fails fresh now s (ok claims) =
      signed_in claims
        (create_session r sessions flows fails s fresh (session_of now mappings claims))

  unfoldable pub exchanged :
      (fails : Bool) (fresh : String) (now : ℕ)
      → Asked
      → Store r sessions flows × Option FlowData
      → Store r sessions flows × Result HttpError SignIn
  exchanged fails fresh now asked (s, flow) =
      finish fails fresh now s (exchange_code provider asked.cfg asked.code flow)

  -- `fails` is an exception of Redis, `fresh` the random identifier of the new session
  unfoldable pub callback :
      (fails : Bool) (fresh : String) (now : ℕ)
      → Dict String
      → CallbackQuery
      → Store r sessions flows
      → Store r sessions flows × Result HttpError SignIn
  callback fails fresh now sso q s = elim (asked_of sso q) [
    | err e ↦ (s, err e)
    | ok asked ↦
        exchanged fails fresh now asked (pop_flow_state r sessions flows fails s asked.state)
  ]
