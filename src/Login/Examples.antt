-- ===== src/Login/Examples.antt =====
-- A sign-in at a small provider, with sessions in memory.
use buchi_maker.Common.{
  if◌then◌else◌, all, Dict, lookup, insert, OnOk, ok, err, ◌-◌, ◌/◌, String, ◌≡◌, refl, ap, true,
  false, not, ◌&&◌, none, some, List, [], ◌∷◌, map, arith, ◌==◌,
}
use buchi_maker.Json.{str, Fields, end, field}
use buchi_maker.Redis.Memory.{memory, empty}
use buchi_maker.Session.{
  FlowData, get_session, create_flow_state, pop_flow_state, wait, connected, Store,
}
use buchi_maker.Session.Text.{sessions, flows}
use buchi_maker.Auth.{Mapping}
use buchi_maker.Login.Start.{Network, Random, login, logout}
use buchi_maker.Login.Resumed.{login-IsResumed, logout-ends}
use buchi_maker.Login.{Provider, CallbackQuery, callback, safe_next_path, config_from_settings}

abbrev claims : Fields
claims = field "sub" (str "u1") (field "nonce" (str "n1") (field "groups" (str "staff") end))

-- a provider that knows one code and one verifier
abbrev provider : Provider
provider = record {
  discovers = λ url. true;
  exchange = λ cfg code verifier.
      if code == "c1" && verifier == "v1"
      then some (record { id_token = some "t1"; access_token = none })
      else none;
  verify = λ cfg token. if token == "t1" then some claims else none;
  userinfo = λ cfg token. none;
}

abbrev mappings : List Mapping
mappings = record { claim = some "groups"; value = some "staff"; role = some "Viewer" } ∷ []

abbrev sso : Dict String
sso =
    ("issuer_url", "https://id.example.org/")
    ∷ ("client_id", "buchi")
    ∷ ("client_secret", "s3")
    ∷ ("redirect_uri", "https://app.example.org/auth/callback")
    ∷ []

abbrev query : CallbackQuery
query = record { code = some "c1"; state = some "st1"; error = none; error_description = none }

abbrev under_way : String → Store memory sessions flows
under_way nonce =
    (create_flow_state memory sessions flows false (connected memory sessions flows empty) "st1"
      (record { code_verifier = "v1"; nonce = nonce; next_path = "/dashboards" })).0

goes_on :
    (callback provider mappings memory sessions flows false "s1" 12 sso query (under_way "n1")).1
    ≡ ok (record { location = "/dashboards"; session_id = "s1" })
unfolding callback buchi_maker.Login.asked_of buchi_maker.Login.check_error config_from_settings
    buchi_maker.Login.setting buchi_maker.Common.lookup buchi_maker.Login.exchanged
    buchi_maker.Login.finish buchi_maker.Login.exchange_code buchi_maker.Session.pop_flow_state
    create_flow_state buchi_maker.Common.insert buchi_maker.Session.flow_key
    buchi_maker.Session.Text.read buchi_maker.Login.verified_claims buchi_maker.Login.signed_in
    buchi_maker.Session.create_session safe_next_path buchi_maker.Login.set_claim
    buchi_maker.Login.text_claim buchi_maker.Session.session_key buchi_maker.Login.rstrip_slashes
goes_on = refl

-- a token of another login
replayed :
    (callback provider mappings memory sessions flows false "s1" 12 sso query (under_way "n2")).1
    ≡ err (record { status = 401; detail = "ID token nonce mismatch — possible replay." })
unfolding callback buchi_maker.Login.asked_of buchi_maker.Login.check_error config_from_settings
    buchi_maker.Login.setting buchi_maker.Common.lookup buchi_maker.Login.exchanged
    buchi_maker.Login.finish buchi_maker.Login.exchange_code buchi_maker.Session.pop_flow_state
    create_flow_state buchi_maker.Common.insert buchi_maker.Session.flow_key
    buchi_maker.Session.Text.read buchi_maker.Login.verified_claims
replayed = refl

-- browsers read a backslash as a slash
backslash_kept : safe_next_path (some "/\\evil.example") ≡ "/\\evil.example"
unfolding safe_next_path
backslash_kept = refl

abbrev document : Fields
document =
    field "authorization_endpoint" (str "https://id.example.org/auth")
      (field "token_endpoint" (str "t") (field "jwks_uri" (str "k") end))

abbrev net : Network
net = record {
  fetch = λ url.
      if url == "https://id.example.org/.well-known/openid-configuration"
      then ok document
      else err "no route";
  challenge_of = λ v. "c9";
  urlencode = λ d. "state=st1";
  repr = λ v. "[]";
}

abbrev drawn : Random
drawn = record { verifier = "v1"; state = "st1"; nonce = "n1" }

leads_to_provider :
    (login net memory sessions flows false 5 [] drawn sso
      (some "/dashboards")
      (connected memory sessions flows empty)).1.1
    ≡ ok "https://id.example.org/auth?state=st1"
unfolding login config_from_settings buchi_maker.Login.setting lookup
    buchi_maker.Login.Start.build_authorize_url buchi_maker.Login.Start.with_doc
    buchi_maker.Login.Start.discover buchi_maker.Login.Start.cached_doc
    buchi_maker.Login.Start.fetched buchi_maker.Login.rstrip_slashes buchi_maker.Login.Start.lacking
    buchi_maker.Login.Start.persisted create_flow_state buchi_maker.Login.Start.authorize_url
    buchi_maker.Json.str_of
leads_to_provider = refl

login-IsResumed_example :
    OnOk
      (λ (url : String).
        (pop_flow_state memory sessions flows false
          (wait memory sessions flows 60
            (login net memory sessions flows false 5 [] drawn sso
              (some "//evil.example")
              (connected memory sessions flows empty)).1.0)
          "st1").1
        ≡ some (record { code_verifier = "v1"; nonce = "n1"; next_path = "/" }))
      (login net memory sessions flows false 5 [] drawn sso
        (some "//evil.example")
        (connected memory sessions flows empty)).1.1
unfolding safe_next_path
login-IsResumed_example =
    login-IsResumed net memory sessions flows empty 5 [] drawn sso (some "//evil.example") 60 refl
      (omega arith)

logout-ends_example :
    get_session memory sessions flows false
      (wait memory sessions flows 60
        (logout net memory sessions flows false 5 [] sso "https://buchi.example.org"
          (some "s1")
          (connected memory sessions flows empty)).1.0)
      "s1"
    ≡ none
logout-ends_example =
    logout-ends net memory sessions flows empty 5 [] sso "https://buchi.example.org" "s1" 60
