-- ===== src/Login/SignedIn.antt =====
-- The callback: who is signed in, and where the browser goes on to.
use buchi_maker.Common.{Dict, Result, OnOk, ok, ℕ, String, ◌≡◌, Bool, true, false, some, List}
use buchi_maker.Json.{Fields}
use buchi_maker.Python.Replace.{starts}
use buchi_maker.Redis.{Redis}
use buchi_maker.Session.{SessionData, FlowData, Codec, Store, get_session, pop_flow_state}
use buchi_maker.Auth.{Principal, require_authentication, Mapping, resolve_role_from_claims}
use buchi_maker.Validator.{HttpError}
use buchi_maker.Login.{Provider, session_of, SignIn, CallbackQuery, Asked, asked_of}
use buchi_maker.Login.Verified.{IsVerified}

-- a path on the same site: it starts with one slash, and not with two
abbrev pub IsLocal : String → Type 0
IsLocal s = (starts "/" s ≡ true) × (starts "//" s ≡ false)

module _ (provider : Provider) (mappings : List Mapping) (r : Redis) (sessions : Codec SessionData)
    (flows : Codec FlowData) where
  -- What a sign-in comes from: the request, the state of the login that was popped, and its verified claims.
  pub record IsFrom (fails : Bool) (sso : Dict String) (q : CallbackQuery)
      (s : Store r sessions flows) (claims : Fields) : Type 0 where
    pub asked : Asked
    pub flow : FlowData
    pub valid : asked_of sso q ≡ ok asked
    pub popped : (pop_flow_state r sessions flows fails s asked.state).1 ≡ some flow
    pub verified : IsVerified provider asked flow claims

  -- The caller whom the cookie stands for.
  abbrev pub caller : Store r sessions flows → String → Result HttpError Principal
  caller t session_id =
      require_authentication false (get_session r sessions flows false t) (some session_id)

  abbrev pub principal_for : ℕ → Fields → Principal
  principal_for now claims =
      let session = session_of now mappings claims in
      record {
        subject = session.subject;
        name = session.name;
        email = session.email;
        role = resolve_role_from_claims claims mappings;
        is_anonymous = false;
      }

  -- Who is signed in, and where the browser goes.
  pub record IsSignedIn (now : ℕ) (t : Store r sessions flows) (claims : Fields) (a : SignIn)
      : Type 0 where
    pub known : caller t a.session_id ≡ ok (principal_for now claims)
    pub local : IsLocal a.location

  -- the state that is left, and the answer: signed in with claims of this login
  abbrev pub IsAnswer :
      Bool
      → ℕ
      → Dict String
      → CallbackQuery
      → Store r sessions flows
      → Store r sessions flows × Result HttpError SignIn
      → Type 0
  IsAnswer fails now sso q s ended =
      OnOk
        (λ a. (claims : Fields) × (IsFrom fails sso q s claims × IsSignedIn now ended.0 claims a))
        ended.1
