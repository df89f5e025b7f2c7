-- ===== src/Login/Verified.antt =====
-- exchange_code: where the claims come from.
use buchi_maker.Common.{
  Bool-cases, guard, OnOk, OnOk-bind, OnOk-true, String, ◌≡◌, refl, inl, inr, Bool, true, false,
  Option, none, some, ◌==◌,
}
use buchi_maker.Json.{str, Fields}
use buchi_maker.Session.{FlowData}
use buchi_maker.Login.{
  Provider, Tokens, set_claim, with_userinfo, present, required, is_nonce, verified_claims,
  exchange_code, Asked,
}

-- The provider gave an id token for the code and the login's verifier, the library verified it for this client, its
-- claims carry the nonce of the login, and the claims are these: joined with the ones of userinfo for the access token
-- of the same exchange, and with the login's path to go on to.
pub record IsVerified (provider : Provider) (asked : Asked) (flow : FlowData) (claims : Fields)
    : Type 0 where
  pub tokens : Tokens
  pub exchanged : provider.exchange asked.cfg asked.code flow.code_verifier ≡ some tokens
  pub id_token : String
  pub given : tokens.id_token ≡ some id_token
  pub own_claims : Fields
  pub verified : provider.verify asked.cfg id_token ≡ some own_claims
  pub nonce : is_nonce provider asked.cfg flow own_claims ≡ true
  pub joined :
      claims
      ≡ set_claim "_next_path"
          (str flow.next_path)
          (with_userinfo provider asked.cfg own_claims tokens.access_token)

required-some : {A : Type 0} (e : String) (o : Option A) → OnOk (λ a. o ≡ some a) (required e o)
required-some e none = tt
required-some e (some a) = refl

present-some : (o : Option String) → OnOk (λ t. o ≡ some t) (present o)
present-some none = tt
present-some (some t) = elim (Bool-cases (t == "")) [ inl e ↦ rw e tt | inr e ↦ rw e refl ]

guard-true : {E : Type 0} (b : Bool) (e : E) → OnOk (λ _. b ≡ true) (guard b e)
guard-true true e = refl
guard-true false e = tt

pub exchange_code-IsVerified :
    (provider : Provider) (asked : Asked) (flow : FlowData)
    → OnOk
        (IsVerified provider asked flow)
        (exchange_code provider asked.cfg asked.code (some flow))
unfolding exchange_code verified_claims
exchange_code-IsVerified provider asked flow =
    let Q : Fields → Type 0 = IsVerified provider asked flow in
    OnOk-bind (λ (u : Unit {0}). Unit {0}) Q (guard (provider.discovers asked.cfg.issuer_url) _) _
      (OnOk-true _)
      λ u _.
        OnOk-bind
          (λ (t : Tokens). provider.exchange asked.cfg asked.code flow.code_verifier ≡ some t) Q
          (required "Token exchange with the identity provider failed."
            (provider.exchange asked.cfg asked.code flow.code_verifier))
          _ (required-some _ (provider.exchange asked.cfg asked.code flow.code_verifier))
          λ tokens exchanged.
            OnOk-bind (λ (t : String). tokens.id_token ≡ some t) Q (present tokens.id_token) _
              (present-some tokens.id_token)
              λ id_token given.
                OnOk-bind (λ (c : Fields). provider.verify asked.cfg id_token ≡ some c) Q
                  (required "ID token verification failed." (provider.verify asked.cfg id_token)) _
                  (required-some _ (provider.verify asked.cfg id_token))
                  λ own verified.
                    OnOk-bind (λ (u : Unit {0}). is_nonce provider asked.cfg flow own ≡ true) Q
                      (guard (is_nonce provider asked.cfg flow own) _) _
                      (guard-true (is_nonce provider asked.cfg flow own) _)
                      λ u nonce. (record {
                        tokens = tokens;
                        exchanged = exchanged;
                        id_token = id_token;
                        given = given;
                        own_claims = own;
                        verified = verified;
                        nonce = nonce;
                        joined = refl;
                      })
