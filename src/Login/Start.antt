-- ===== src/Login/Start.antt =====
-- The start and the end of a session: login, logout and me of backend/app/api/auth.py, over discover,
-- build_authorize_url and end_session_url of backend/app/core/oidc.py. Times are in milliseconds.
use buchi_maker.Common.{
  ltb, if◌then◌else◌, format, Dict, lookup, insert, has_key, Result, ◌>>=◌, map_err, ok, err, ℕ,
  ◌-◌, ◌*◌, String, Bool, true, false, Option, none, some, List, [], ◌∷◌, ◌==◌,
}
use buchi_maker.Json.{Json, Fields, fields, truthy, str_of}
use buchi_maker.Redis.{Redis}
use buchi_maker.Session.{
  FlowData, SessionData, Codec, Store, create_flow_state, destroy_session, get_session,
}
use buchi_maker.Auth.{role_value, require_authentication}
use buchi_maker.Validator.{HttpError}
use buchi_maker.Login.{SsoConfig, config_from_settings, rstrip_slashes, safe_next_path, http}

-- What is outside: the document that an address gives, or the text of the exception; the SHA-256 challenge of a
-- verifier; urllib's urlencode; and the text of a list or a dict. A document is taken to be a dict.
pub record Network : Type 0 where
  pub fetch : String → Result String Fields
  pub challenge_of : String → String
  pub urlencode : Dict String → String
  pub repr : Json → String

-- the random texts of one login
pub record Random : Type 0 where
  pub verifier : String
  pub state : String
  pub nonce : String

-- _DISCOVERY_CACHE: the documents by issuer, each with the time at which it was fetched
abbrev pub Discovered : Type 0
Discovered = Dict (ℕ × Fields)

abbrev pub discovery_ttl : ℕ
discovery_ttl = 600 * 1000

-- a cached document that is young enough
unfoldable pub cached_doc : ℕ → Option (ℕ × Fields) → Option Fields
cached_doc now none = none
cached_doc now (some (at, doc)) = if ltb (now - at) discovery_ttl then some doc else none

abbrev pub endpoints : List String
endpoints = "authorization_endpoint" ∷ "token_endpoint" ∷ "jwks_uri" ∷ []

-- the first endpoint that the document lacks
unfoldable pub lacking : List String → Dict Json → Option String
lacking [] doc = none
lacking (e ∷ es) doc = if has_key e doc then lacking es doc else some e

-- `next_path or "/"`
abbrev pub or_root : String → String
or_root s = if s == "" then "/" else s

unfoldable pub flow_of : Random → String → FlowData
flow_of random next_path = record {
  code_verifier = random.verifier;
  nonce = random.nonce;
  next_path = or_root next_path;
}

module _ (net : Network) where
  unfoldable pub fetched :
      ℕ
      → Discovered
      → (issuer url : String) → Result String Fields
      → Discovered × Result String Fields
  fetched now cache issuer url (err e) =
      (cache, err (format ("Could not fetch OIDC discovery document from " ∷ url ∷ ": " ∷ e ∷ [])))
  fetched now cache issuer url (ok doc) = elim (lacking endpoints (fields doc)) [
    | some e ↦
        (cache, err (format ("Discovery document at " ∷ url ∷ " is missing '" ∷ e ∷ "'." ∷ [])))
    | none ↦ (insert issuer (now, doc) cache, ok doc)
  ]

  unfoldable pub discover : ℕ → Discovered → String → Discovered × Result String Fields
  discover now cache issuer_url =
      let issuer = rstrip_slashes issuer_url in
      let url = format (issuer ∷ "/.well-known/openid-configuration" ∷ []) in
      elim (cached_doc now (lookup issuer cache)) [
        | some doc ↦ (cache, ok doc)
        | none ↦ fetched now cache issuer url (net.fetch url)
      ]

  -- doc["authorization_endpoint"] in an f-string
  unfoldable pub authorize_url : Random → SsoConfig → Fields → String
  authorize_url random cfg doc = format (
      elim (lookup "authorization_endpoint" (fields doc)) [ none ↦ "" | some v ↦ str_of net.repr v ]
      ∷ "?"
      ∷ net.urlencode (
          ("response_type", "code")
          ∷ ("client_id", cfg.client_id)
          ∷ ("redirect_uri", cfg.redirect_uri)
          ∷ ("scope", cfg.scopes)
          ∷ ("state", random.state)
          ∷ ("nonce", random.nonce)
          ∷ ("code_challenge", net.challenge_of random.verifier)
          ∷ ("code_challenge_method", "S256")
          ∷ [])
      ∷ [])

  -- end_session_url
  unfoldable pub end_session_url : Fields → (client_id post_logout : String) → Option String
  end_session_url doc client_id post_logout = elim (lookup "end_session_endpoint" (fields doc)) [
    | none ↦ none
    | some endpoint ↦
        if truthy endpoint
        then some (
            format (
              str_of net.repr endpoint
              ∷ "?"
              ∷ net.urlencode
                  (("client_id", client_id) ∷ ("post_logout_redirect_uri", post_logout) ∷ [])
              ∷ []))
        else none
  ]

  -- where logout leads to; an OIDCError is passed over
  unfoldable pub provider_logout : SsoConfig → String → Result String Fields → String
  provider_logout cfg base_url (err e) = "/"
  provider_logout cfg base_url (ok doc) = elim (end_session_url doc cfg.client_id base_url) [
    | none ↦ "/"
    | some url ↦ url
  ]

  unfoldable pub logout_url : ℕ → Discovered → Dict String → String → Discovered × String
  logout_url now cache sso base_url = elim (config_from_settings sso) [
    | err e ↦ (cache, "/")
    | ok cfg ↦
        let (cache, doc) = discover now cache cfg.issuer_url in
        (cache, provider_logout cfg base_url doc)
  ]

  module _ (r : Redis) (sessions : Codec SessionData) (flows : Codec FlowData) where
    -- the process's cache, the session store, and the address or the error of OIDCError
    abbrev pub Started : Type 0
    Started = Discovered × (Store r sessions flows × Result String String)

    unfoldable pub persisted :
        Random → SsoConfig → Fields → Discovered → Store r sessions flows × Bool → Started
    persisted random cfg doc cache (s, true) = (cache, (s, ok (authorize_url random cfg doc)))
    persisted random cfg doc cache (s, false) =
        (cache, (s, err "Could not persist login flow state (session store unavailable)."))

    unfoldable pub with_doc :
        (fails : Bool)
        → Random
        → SsoConfig
        → String
        → Store r sessions flows
        → Discovered × Result String Fields
        → Started
    with_doc fails random cfg next s (cache, err e) = (cache, (s, err e))
    with_doc fails random cfg next s (cache, ok doc) =
        persisted random cfg doc cache
          (create_flow_state r sessions flows fails s random.state (flow_of random next))

    -- `fails` is an exception of Redis
    unfoldable pub build_authorize_url :
        (fails : Bool) (now : ℕ)
        → Discovered
        → Random
        → SsoConfig
        → String
        → Store r sessions flows
        → Started
    build_authorize_url fails now cache random cfg next s =
        with_doc fails random cfg next s (discover now cache cfg.issuer_url)

    unfoldable pub login :
        (fails : Bool) (now : ℕ)
        → Discovered
        → Random
        → Dict String
        → Option String
        → Store r sessions flows
        → Discovered × (Store r sessions flows × Result HttpError String)
    login fails now cache random sso next s = elim (config_from_settings sso) [
      | err e ↦ (
        cache,
        (
          s,
          err (
              http 400
                "SSO is not fully configured. Set issuer, client ID, secret, and redirect URI in Settings > SSO."),
        ),
      )
      | ok cfg ↦
          let (cache, (s, url)) =
            build_authorize_url fails now cache random cfg (safe_next_path next) s in
          (cache, (s, map_err (http 502) url))
    ]

    unfoldable pub end_session :
        (fails : Bool) → Option String → Store r sessions flows → Store r sessions flows
    end_session fails none s = s
    end_session fails (some id) s =
        if id == "" then s else destroy_session r sessions flows fails s id

    -- the address that logout redirects to; the cookie is deleted in every answer
    unfoldable pub logout :
        (fails : Bool) (now : ℕ)
        → Discovered
        → Dict String
        → (base_url : String) → Option String
        → Store r sessions flows
        → Discovered × (Store r sessions flows × String)
    logout fails now cache sso base_url cookie s =
        let (cache, url) = logout_url now cache sso base_url in
        (cache, (end_session fails cookie s, url))

    pub record Me : Type 0 where
      pub is_anonymous : Bool
      pub name : String
      pub email : Option String
      pub role : String
      pub sso_configured : Bool

    abbrev is_configured : Result (Unit {0}) SsoConfig → Bool
    is_configured (ok cfg) = true
    is_configured (err e) = false

    unfoldable pub me :
        (fails anonymous_access : Bool)
        → Dict String
        → Option String
        → Store r sessions flows
        → Result HttpError Me
    me fails anonymous_access sso cookie s = do
      principal ←
          require_authentication anonymous_access (get_session r sessions flows fails s) cookie
      ok (record {
        is_anonymous = principal.is_anonymous;
        name = principal.name;
        email = principal.email;
        role = role_value principal.role;
        sso_configured = is_configured (config_from_settings sso);
      })
