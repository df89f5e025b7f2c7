-- ===== src/Login/Resumed.antt =====
-- What a login leaves for the callback, and what a logout leaves of the session.
use buchi_maker.Common.{
  eqb, Bool-cases, Dict, Result, map_err, Result-cases, OnOk, ok, err, ℕ, ◌<◌, String, ◌≡◌, refl,
  inl, inr, true, false, not, ◌&&◌, Option, none, some, arith, ◌==◌, eq_iff,
}
use Prim.Native.Char.{code}
use Prim.Native.Char.{Char}
use text.Mathlib.TextLemmas.{cons≢nil}
use buchi_maker.Json.{Fields}
use buchi_maker.Redis.{Redis}
use buchi_maker.Session.{
  FlowData, SessionData, Codec, Store, flow_ttl_seconds, connected, wait, create_flow_state,
  pop_flow_state, get_session,
}
use buchi_maker.Session.Lifetime.{pop_flow_state-once, get_session-destroy_session}
use buchi_maker.Validator.{HttpError}
use buchi_maker.Login.{http, SsoConfig, config_from_settings, safe_next_path}
use buchi_maker.Login.Start.{
  Network, Random, Discovered, discover, or_root, flow_of, persisted, with_doc, build_authorize_url,
  login, end_session, logout,
}

not_empty : (c : Char) (s : String) → (String.◌∷◌ c s == "") ≡ false
not_empty c s = elim (Bool-cases (String.◌∷◌ c s == "")) [
  | inl e ↦ absurd (cons≢nil ((eq_iff (String.◌∷◌ c s) "").0 e))
  | inr e ↦ e
]

or_root-safe : (next : Option String) → or_root (safe_next_path next) ≡ safe_next_path next
unfolding safe_next_path
or_root-safe none = refl
or_root-safe (some String.[]) = refl
or_root-safe (some (String.◌∷◌ c String.[])) = elim (Bool-cases (eqb (code c) b'/')) [
  | inl e ↦ rw (e, not_empty) refl
  | inr e ↦ rw e refl
]
or_root-safe (some (String.◌∷◌ c (String.◌∷◌ d s))) =
    elim (Bool-cases (eqb (code c) b'/' && not (eqb (code d) b'/'))) [
      | inl e ↦ rw (e, not_empty) refl
      | inr e ↦ rw e refl
    ]

module _ (net : Network) (r : Redis) (sessions : Codec SessionData) (flows : Codec FlowData) where
  -- the callback finds this under the state
  abbrev pub resumed : Random → Option String → FlowData
  resumed random next = record {
    code_verifier = random.verifier;
    nonce = random.nonce;
    next_path = safe_next_path next;
  }

  abbrev IsResumed : ℕ → Random → Option String → Store r sessions flows → Type 0
  IsResumed n random next s =
      (pop_flow_state r sessions flows false (wait r sessions flows n s) random.state).1
      ≡ some (resumed random next)

  created-IsResumed :
      (st : r.State) (random : Random) (next : Option String) (n : ℕ)
      → (random.state == "") ≡ false
      → n < flow_ttl_seconds
      → IsResumed n random next
          (create_flow_state r sessions flows false
            (connected r sessions flows st)
            random.state
            (flow_of random (safe_next_path next))).0
  unfolding flow_of
  created-IsResumed st random next n named early =
      rw (or_root-safe next)
        (pop_flow_state-once r sessions flows st random.state (resumed random next) n 0 named
          early).0

  with_doc-IsResumed :
      (st : r.State) (random : Random) (cfg : SsoConfig) (next : Option String) (n : ℕ)
      (d : Discovered × Result String Fields)
      → (random.state == "") ≡ false
      → n < flow_ttl_seconds
      → let t =
          with_doc net r sessions flows false random cfg
            (safe_next_path next)
            (connected r sessions flows st)
            d in
        OnOk (λ (url : String). IsResumed n random next t.1.0) t.1.1
  unfolding with_doc persisted create_flow_state
  with_doc-IsResumed st random cfg next n (cache, err e) named early = tt
  with_doc-IsResumed st random cfg next n (cache, ok doc) named early =
      created-IsResumed st random next n named early

  map_err-OnOk :
      (P : String → Type 0) (g : String → HttpError) (a : Result String String)
      → OnOk P a
      → OnOk P (map_err g a)
  map_err-OnOk P g (ok url) h = h
  map_err-OnOk P g (err e) h = tt

  -- With a connected session store whose server raises nothing, whatever the state of the cache of discovery documents and
  -- whatever the provider answers: if a login leads to the provider, then for five minutes its state gives back
  -- the verifier and the nonce of this login and the requested path, made safe.
  pub login-IsResumed :
      (st : r.State) (now : ℕ) (cache : Discovered) (random : Random) (sso : Dict String)
      (next : Option String) (n : ℕ)
      → (random.state == "") ≡ false
      → n < flow_ttl_seconds
      → let t =
          login net r sessions flows false now cache random sso next
            (connected r sessions flows st) in
        OnOk (λ (url : String). IsResumed n random next t.1.0) t.1.1
  unfolding login build_authorize_url
  login-IsResumed st now cache random sso next n named early =
      elim (Result-cases (config_from_settings sso)) [
        | inr (e, p) ↦ rw (p, login) tt
        | inl (cfg, p) ↦
            rw (p, login)
              (let t =
                  with_doc net r sessions flows false random cfg (safe_next_path next)
                    (connected r sessions flows st) (discover net now cache cfg.issuer_url) in
                map_err-OnOk (λ (url : String). IsResumed n random next t.1.0) (http 502) t.1.1
                  (with_doc-IsResumed st random cfg next n (discover net now cache cfg.issuer_url)
                    named early))
      ]

  unnamed_session :
      (s : Store r sessions flows) (id : String)
      → (id == "") ≡ true
      → get_session r sessions flows false s id ≡ none
  unfolding get_session
  unnamed_session s id e = ground (arith, e)

  end_session-ends :
      (st : r.State) (id : String) (n : ℕ)
      → get_session r sessions flows false
          (wait r sessions flows n
            (end_session net r sessions flows false (some id) (connected r sessions flows st)))
          id
        ≡ none
  unfolding end_session
  end_session-ends st id n = elim (Bool-cases (id == "")) [
    | inl e ↦ unnamed_session _ id e
    | inr e ↦ rw (e, end_session) (get_session-destroy_session r sessions flows st id n)
  ]

  -- After a logout, the session of the cookie is not found, however long one waits, and whether or not the provider
  -- answers.
  pub logout-ends :
      (st : r.State) (now : ℕ) (cache : Discovered) (sso : Dict String) (base_url id : String)
      (n : ℕ)
      → get_session r sessions flows false
          (wait r sessions flows n
            (logout net r sessions flows false now cache sso base_url
              (some id)
              (connected r sessions flows st)).1.0)
          id
        ≡ none
  unfolding logout
  logout-ends st now cache sso base_url id n = end_session-ends st id n
