-- ===== src/Cache.antt =====
-- backend/app/core/redis_client.py: the cache of dashboard data, and the index by data source.
pub mod Keys
pub mod Index
pub mod Kept
pub mod Evicts
pub mod Stored
mod Examples
use buchi_maker.Common.{
  ltb, if◌then◌else◌, all, any, format, keys, ℕ, zero, suc, ◌+◌, ◌-◌, ◌/◌, String, ap, Bool, true,
  false, not, ◌&&◌, ◌||◌, Option, none, some, List, [], ◌∷◌, ◌++◌,
}
use buchi_maker.Redis.{Redis, Command, setex, set_plain, sadd, expire, delete, flushdb, is_nil}

-- RedisCache._DATA_KEY and _DS_INDEX_KEY
unfoldable pub data_key : String → String → String
data_key dashboard_id filter_hash = format ("db:" ∷ dashboard_id ∷ ":" ∷ filter_hash ∷ [])

unfoldable pub index_key : String → String
index_key datasource_name = format ("ds:" ∷ datasource_name ∷ ":keys" ∷ [])

module _ (r : Redis) where
  -- Commands one after the other. An exception comes before the command at the given place; those
  -- before it have been carried out. The flag tells whether all were.
  unfoldable pub run : Option ℕ → List Command → r.State → r.State × Bool
  run outage [] s = (s, true)
  run none (c ∷ cs) s = run none cs (r.apply c s)
  run (some zero) (c ∷ cs) s = (s, false)
  run (some (suc n)) (c ∷ cs) s = run (some n) cs (r.apply c s)

  -- the client: without a connection every method does nothing
  pub record Client : Type 0 where
    pub available : Bool
    pub store : r.State

  -- RedisCache.get; `fails` is an exception of the server
  unfoldable pub get : Bool → Client → String → String → Option String
  get fails c dashboard_id filter_hash =
      if not c.available || fails then none else r.value c.store (data_key dashboard_id filter_hash)

  -- the index of one data source, and its deadline
  unfoldable pub index_commands : String → ℕ → List String → List Command
  index_commands key ttl [] = []
  index_commands key ttl (n ∷ ns) =
      let rest = index_commands key ttl ns in
      sadd (index_key n) key ∷ (if ltb 0 ttl then expire (index_key n) (ttl + 60) ∷ rest else rest)

  unfoldable pub set_commands : String → String → List String → ℕ → List Command
  unfolding index_commands
  set_commands key payload names ttl =
      (if ltb 0 ttl then setex key ttl payload else set_plain key payload)
      ∷ index_commands key ttl names

  -- RedisCache.set
  unfoldable pub set : Option ℕ → Client → String → String → String → List String → ℕ → Client
  unfolding set_commands run
  set outage c dashboard_id filter_hash payload names ttl =
      if c.available
      then record c {
        store =
            (run outage (set_commands (data_key dashboard_id filter_hash) payload names ttl)
              c.store).0;
      }
      else c

  -- delete what is listed, if anything is: the new state, and whether the keys are gone
  unfoldable pub delete_all : Bool → List String → List String → r.State → r.State
  delete_all fails [] more s = s
  delete_all fails (k ∷ ks) more s = if fails then s else r.apply (delete ((k ∷ ks) ++ more)) s

  -- RedisCache.invalidate_datasource
  unfoldable pub invalidate_datasource : Bool → Client → String → Client
  unfolding delete_all
  invalidate_datasource fails c name =
      if c.available
      then record c {
        store = delete_all fails (r.members c.store (index_key name)) (index_key name ∷ []) c.store;
      }
      else c

  -- RedisCache.invalidate_dashboard; an identifier holds no character that is special in the pattern
  unfoldable pub invalidate_dashboard : Bool → Client → String → Client
  unfolding delete_all
  invalidate_dashboard fails c dashboard_id =
      if c.available
      then record c {
        store = delete_all fails (r.matching c.store (data_key dashboard_id "")) [] c.store;
      }
      else c

  -- RedisCache.delete and flush_all
  unfoldable pub delete_entry : Bool → Client → String → String → Client
  delete_entry fails c dashboard_id filter_hash =
      if c.available && not fails
      then record c { store = r.apply (delete (data_key dashboard_id filter_hash ∷ [])) c.store }
      else c

  unfoldable pub flush_all : Bool → Client → Client × Bool
  flush_all fails c =
      if c.available && not fails
      then (record c { store = r.apply flushdb c.store }, true)
      else (c, false)
