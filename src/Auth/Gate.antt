-- ===== src/Auth/Gate.antt =====
-- Who passes the gate of an endpoint.
use buchi_maker.Common.{
  Bool-cases, Option-cases, any, Result, Result-cases, ok_injective, ok, err, ℕ, String, ◌≡◌, refl,
  sym, ap, subst, ◌∙◌, ◌⊎◌, inl, inr, Bool, true, false, Option, none, some, List, ◌==◌,
}
use buchi_maker.Session.{SessionData}
use buchi_maker.Validator.{HttpError}
use buchi_maker.Auth.{
  Role, Principal, anonymous_principal, role_of, role_or_deny, same_role, unauthorized, forbidden,
  principal_of, require_authentication, require_role,
}

-- The caller has a session, and its role is the one that is recorded there, or Deny.
pub record IsSession (get_session : String → Option SessionData) (cookie : Option String)
    (p : Principal) : Type 0 where
  pub session_id : String
  pub session : SessionData
  pub sent : cookie ≡ some session_id
  pub found : get_session session_id ≡ some session
  pub subject_is : p.subject ≡ session.subject
  pub role_is : p.role ≡ role_or_deny (role_of session.role)
  pub not_anonymous : p.is_anonymous ≡ false

-- The gate answers with an error of this status.
abbrev pub IsRefusal : ℕ → Result HttpError Principal → Type 0
IsRefusal status r = (e : HttpError) × ((r ≡ err e) × (e.status ≡ status))

module _ (get_session : String → Option SessionData) where
  found-IsSession :
      (session_id : String) (o : Option SessionData) (p : Principal)
      → get_session session_id ≡ o
      → principal_of o ≡ ok p
      → IsSession get_session (some session_id) p
  unfolding principal_of
  found-IsSession session_id none p e h = cc
  found-IsSession session_id (some info) p e h =
      let same = ok_injective h in
      record {
        session_id = session_id;
        session = info;
        sent = refl;
        found = e;
        subject_is = sym (ap (λ (q : Principal). q.subject) same);
        role_is = sym (ap (λ (q : Principal). q.role) same);
        not_anonymous = sym (ap (λ (q : Principal). q.is_anonymous) same);
      }

  caller_cases :
      (anonymous_access : Bool) (cookie : Option String) (p : Principal)
      → require_authentication anonymous_access get_session cookie ≡ ok p
      → (anonymous_access ≡ true) × (p ≡ anonymous_principal)
        ⊎ (anonymous_access ≡ false) × IsSession get_session cookie p
  unfolding require_authentication
  caller_cases true cookie p h = inl (refl, sym (ok_injective h))
  caller_cases false none p h = inr (refl, absurd (unfold principal_of in cc))
  caller_cases false (some session_id) p h = elim (Bool-cases (session_id == "")) [
    | inl e ↦ absurd (unfold principal_of in cc (rw e at h))
    | inr e ↦ inr (refl, found-IsSession session_id (get_session session_id) p refl (rw e at h))
  ]

  passed_role :
      (allowed : List Role) (p q : Principal)
      → require_role allowed (ok q) ≡ ok p
      → (q ≡ p) × (any (same_role p.role) allowed ≡ true)
  unfolding require_role
  passed_role allowed p q h = elim (Bool-cases (any (same_role q.role) allowed)) [
    | inl e ↦
        let same = ok_injective (rw e at h) in
        (same, subst (λ (x : Principal). any (same_role x.role) allowed ≡ true) same e)
    | inr e ↦ absurd (cc (rw e at h))
  ]

  -- Who passes the gate has one of the allowed roles, and is the anonymous administrator while anonymous
  -- access is on, or else the subject of a session of the store that the cookie names, with the role
  -- recorded there.
  pub gate_passed :
      (anonymous_access : Bool) (cookie : Option String) (allowed : List Role) (p : Principal)
      → require_role allowed (require_authentication anonymous_access get_session cookie) ≡ ok p
      → (any (same_role p.role) allowed ≡ true)
        × ((anonymous_access ≡ true) × (p ≡ anonymous_principal)
            ⊎ (anonymous_access ≡ false) × IsSession get_session cookie p)
  gate_passed anonymous_access cookie allowed p h =
      elim (Result-cases (require_authentication anonymous_access get_session cookie)) [
        | inl (q, e) ↦
            let (same, role) = passed_role allowed p q (rw e at h) in
            (role, caller_cases anonymous_access cookie p (e ∙ ap ok same))
        | inr (x, e) ↦ absurd (unfold require_role in cc (rw e at h))
      ]

  -- The caller sends no cookie, an empty one, or one that names no session of the store.
  abbrev pub HasNoSession : Option String → Type 0
  HasNoSession none = Unit
  HasNoSession (some session_id) = ((session_id == "") ≡ true) ⊎ (get_session session_id ≡ none)

  allowed_or_refused :
      (allowed : List Role) (q : Principal)
      → (any (same_role q.role) allowed ≡ true) × (require_role allowed (ok q) ≡ ok q)
        ⊎ (any (same_role q.role) allowed ≡ false) × IsRefusal 403 (require_role allowed (ok q))
  unfolding require_role
  allowed_or_refused allowed q = elim (Bool-cases (any (same_role q.role) allowed)) [
    | inl e ↦ inl (e, rw e refl)
    | inr e ↦ inr (e, (forbidden q.role, (rw e refl, refl)))
  ]

  found_or_refused :
      (cookie : Option String)
      → HasNoSession cookie × IsRefusal 401 (require_authentication false get_session cookie)
        ⊎ (q : Principal) × (IsSession get_session cookie q
            × (require_authentication false get_session cookie ≡ ok q))
  unfolding require_authentication principal_of
  found_or_refused none = inl (tt, (unauthorized, (refl, refl)))
  found_or_refused (some session_id) = elim (Bool-cases (session_id == "")) [
    | inl e ↦ inl (inl e, (unauthorized, (rw e refl, refl)))
    | inr e ↦ elim (Option-cases (get_session session_id)) [
      | inl absent ↦ inl (inr absent, (unauthorized, (rw e (rw absent refl), refl)))
      | inr (info, h) ↦
          let q : Principal = record {
            subject = info.subject;
            name = info.name;
            email = info.email;
            role = role_or_deny (role_of info.role);
            is_anonymous = false;
          } in
          inr (q, (found-IsSession session_id (some info) q h refl, rw e (rw h refl)))
    ]
  ]

  -- With anonymous access off, and whatever the cookie, the gate does one of three things: a caller who sends no
  -- cookie, an empty one, or one that names no session of the store gets 401; one with a session whose role is not
  -- among the allowed ones gets 403; one with a session whose role is among them passes.
  pub gate_refused :
      (cookie : Option String) (allowed : List Role)
      → let outcome = require_role allowed (require_authentication false get_session cookie) in
        HasNoSession cookie × IsRefusal 401 outcome
        ⊎ (q : Principal) × (IsSession get_session cookie q
            × ((any (same_role q.role) allowed ≡ true) × (outcome ≡ ok q)
                ⊎ (any (same_role q.role) allowed ≡ false) × IsRefusal 403 outcome))
  gate_refused cookie allowed = elim (found_or_refused cookie) [
    | inl (absent, (e, (h, status))) ↦ inl (absent, (e, (unfold require_role in rw h refl, status)))
    | inr (q, (session, h)) ↦ inr (q, (session, rw h (allowed_or_refused allowed q)))
  ]
