-- ===== src/Session.antt =====
-- backend/app/core/session_store.py: sessions and the state of a login that is under way, in Redis.
pub mod Lifetime
pub mod Text
mod Examples
use buchi_maker.Common.{
  if◌then◌else◌, format, ℕ, ◌-◌, ◌*◌, ◌/◌, String, ◌≡◌, ap, Bool, true, false, not, ◌||◌, Option,
  none, some, [], ◌∷◌, ◌==◌,
}
use buchi_maker.Redis.{Redis, Command, setex, delete}

pub record SessionData : Type 0 where
  pub subject : String
  pub email : Option String
  pub name : String
  pub role : String
  pub issued_at : ℕ

-- The state of a login: PKCE verifier, nonce and the path to go on to.
pub record FlowData : Type 0 where
  pub code_verifier : String
  pub nonce : String
  pub next_path : String

-- json.dumps and json.loads of one kind of record; a text that is none raises
pub record Codec (A : Type 0) : Type 0 where
  pub dumps : A → String
  pub loads : String → Option A
  pub loads-dumps : (a : A) → loads (dumps a) ≡ some a
  pub dumps-ne-empty : (a : A) → (dumps a == "") ≡ false

abbrev pub session_ttl_seconds : ℕ
session_ttl_seconds = 8 * 3600

abbrev pub flow_ttl_seconds : ℕ
flow_ttl_seconds = 5 * 60

unfoldable pub session_key : String → String
session_key session_id = format ("sso_session:" ∷ session_id ∷ [])

unfoldable pub flow_key : String → String
flow_key state = format ("oidc_flow:" ∷ state ∷ [])

-- a missing or empty text is no record; one that cannot be read raises, which is caught
unfoldable pub read_record : {A : Type 0} → Codec A → Option String → Option A
read_record codec none = none
read_record codec (some raw) = if raw == "" then none else codec.loads raw

module _ (r : Redis) (sessions : Codec SessionData) (flows : Codec FlowData) where
  pub record Store : Type 0 where
    pub available : Bool
    pub store : r.State

  -- `session_id` is the fresh random text, and `fails` an exception of the server
  unfoldable pub create_session :
      Bool → Store → (session_id : String) → SessionData → Store × Option String
  create_session fails s session_id info = if not s.available || fails then (s, none) else (
    record s {
      store =
          r.apply (setex (session_key session_id) session_ttl_seconds (sessions.dumps info))
            s.store;
    },
    some session_id,
  )

  unfoldable pub get_session : Bool → Store → String → Option SessionData
  unfolding read_record
  get_session fails s session_id =
      if not s.available || session_id == "" || fails
      then none
      else read_record sessions (r.value s.store (session_key session_id))

  unfoldable pub destroy_session : Bool → Store → String → Store
  destroy_session fails s session_id =
      if not s.available || session_id == "" || fails
      then s
      else record s { store = r.apply (delete (session_key session_id ∷ [])) s.store }

  unfoldable pub create_flow_state : Bool → Store → String → FlowData → Store × Bool
  create_flow_state fails s state info = if not s.available || fails then (s, false) else (
    record s {
      store = r.apply (setex (flow_key state) flow_ttl_seconds (flows.dumps info)) s.store;
    },
    true,
  )

  -- what is found is deleted, and then read
  pop_found : Store → String → Option String → Store × Option FlowData
  unfolding read_record
  pop_found s state none = (s, none)
  pop_found s state (some raw) =
      if raw == ""
      then (s, none)
      else (record s { store = r.apply (delete (flow_key state ∷ [])) s.store }, flows.loads raw)

  unfoldable pub pop_flow_state : Bool → Store → String → Store × Option FlowData
  unfolding pop_found
  pop_flow_state fails s state =
      if not s.available || state == "" || fails
      then (s, none)
      else pop_found s state (r.value s.store (flow_key state))

  -- time passes
  abbrev pub wait : ℕ → Store → Store
  wait n s = record s { store = r.tick n s.store }

  -- a store with its connection
  abbrev pub connected : r.State → Store
  connected st = record { available = true; store = st }
