-- ===== src/Session/Lifetime.antt =====
-- How long a session lasts, and that the state of a login is used once.
use buchi_maker.Common.{
  ltb, if◌then◌else◌, Bool-cases, lt→ltb, ℕ, ◌<◌, String, ◌≡◌, refl, ◌∙◌, inl, inr, Bool, true,
  false, Option, none, some, [], ◌∷◌, arith, ◌==◌, eq_refl,
}
use buchi_maker.Redis.{Redis, setex, delete}
use buchi_maker.Session.{
  SessionData, FlowData, Codec, session_key, flow_key, session_ttl_seconds, flow_ttl_seconds,
  read_record, create_session, get_session, destroy_session, create_flow_state, pop_found,
  pop_flow_state, wait, connected,
}

module _ (r : Redis) where
  -- a text with a TTL is there until the TTL has passed
  value-tick-setex :
      (s : r.State) (k v : String) (ttl n : ℕ)
      → r.value (r.tick n (r.apply (setex k ttl v) s)) k ≡ (if ltb n ttl then some v else none)
  value-tick-setex s k v ttl n =
      rw
        (
          r.value-tick (r.apply (setex k ttl v) s) n k,
          r.deadline-setex s k ttl v k,
          r.value-setex s k ttl v k,
          r.now-apply (setex k ttl v) s,
          eq_refl k,
        )
        (ground arith)

module _ {A : Type 0} (codec : Codec A) where
  read_record-dumps :
      (b : Bool) (a : A)
      → read_record codec (if b then some (codec.dumps a) else none) ≡ (if b then some a else none)
  unfolding read_record
  read_record-dumps true a = rw (codec.dumps-ne-empty a) (codec.loads-dumps a)
  read_record-dumps false a = refl

module _ (r : Redis) (sessions : Codec SessionData) (flows : Codec FlowData) where
  -- With a connection and no exception, a session that was just created is found, with all its data,
  -- as long as fewer than eight hours have passed, and no longer.
  pub get_session-create_session :
      (st : r.State) (session_id : String) (info : SessionData) (n : ℕ)
      → (session_id == "") ≡ false
      → get_session r sessions flows false
          (wait r sessions flows n
            (create_session r sessions flows false
              (connected r sessions flows st)
              session_id
              info).0)
          session_id
        ≡ (if ltb n session_ttl_seconds then some info else none)
  unfolding get_session create_session
  get_session-create_session st session_id info n named =
      rw
        (
          named,
          value-tick-setex r st (session_key session_id) (sessions.dumps info) session_ttl_seconds
              n,
        )
        (read_record-dumps sessions (ltb n session_ttl_seconds) info)

  lapsed_none : (b : Bool) → ◌≡◌ {A = Option String} (if b then none else none) none
  lapsed_none true = refl
  lapsed_none false = refl

  -- what is not there does not come back
  absent-tick :
      (st : r.State) (k : String) (n : ℕ) → r.value st k ≡ none → r.value (r.tick n st) k ≡ none
  absent-tick st k n e = r.value-tick st n k ∙ rw e (lapsed_none _)

  deleted : (st : r.State) (k : String) → r.value (r.apply (delete (k ∷ [])) st) k ≡ none
  deleted st k = r.value-delete st (k ∷ []) k ∙ rw (eq_refl k) refl

  -- With a connection and no exception, a session that was destroyed is not found, however long one
  -- waits.
  pub get_session-destroy_session :
      (st : r.State) (session_id : String) (n : ℕ)
      → get_session r sessions flows false
          (wait r sessions flows n
            (destroy_session r sessions flows false (connected r sessions flows st) session_id))
          session_id
        ≡ none
  unfolding get_session destroy_session read_record
  get_session-destroy_session st session_id n = elim (Bool-cases (session_id == "")) [
    | inl e ↦ rw e refl
    | inr e ↦ rw e (
        rw
          (absent-tick (r.apply (delete (session_key session_id ∷ [])) st) (session_key session_id)
            n (deleted st (session_key session_id)))
          refl)
  ]

  -- The state of a login is popped, with all its data, while fewer than five minutes have passed since
  -- it was created; and with a connection and no exception, a second pop finds nothing, however long
  -- after the first.
  pub pop_flow_state-once :
      (st : r.State) (state : String) (info : FlowData) (n later : ℕ)
      → (state == "") ≡ false
      → n < flow_ttl_seconds
      → let created =
          (create_flow_state r sessions flows false (connected r sessions flows st) state info).0 in
        let first = pop_flow_state r sessions flows false (wait r sessions flows n created) state in
        (first.1 ≡ some info)
        × ((pop_flow_state r sessions flows false (wait r sessions flows later first.0) state).1
            ≡ none)
  unfolding pop_flow_state create_flow_state pop_found
  pop_flow_state-once st state info n later named early =
      let there : r.value
            (r.tick n (r.apply (setex (flow_key state) flow_ttl_seconds (flows.dumps info)) st))
            (flow_key state)
          ≡ some (flows.dumps info) =
        value-tick-setex r st (flow_key state) (flows.dumps info) flow_ttl_seconds n
        ∙ rw (lt→ltb n flow_ttl_seconds early) refl in
      (
        rw named (rw there (rw (flows.dumps-ne-empty info) (flows.loads-dumps info))),
        rw named (
            rw there (
              rw (flows.dumps-ne-empty info) (
                rw
                  (absent-tick _ (flow_key state) later (
                    deleted
                      (r.tick n
                        (r.apply (setex (flow_key state) flow_ttl_seconds (flows.dumps info)) st))
                      (flow_key state)))
                  refl))),
      )
