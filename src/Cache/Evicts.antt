-- ===== src/Cache/Evicts.antt =====
-- After a data source is invalidated, nothing that was computed from it is served.
use buchi_maker.Common.{
  Bool-cases, is_some, All, elem, ℕ, ◌<◌, String, ◌≡◌, refl, ap, inl, inr, true, false, none, List,
  [], ◌∷◌,
}
use buchi_maker.Redis.{Redis}
use buchi_maker.Cache.{data_key, index_key, Client, set, invalidate_datasource, get}
use buchi_maker.Cache.Index.{Sources}
use buchi_maker.Cache.Kept.{IsKept, set-IsKept, tick-IsKept, invalidate-IsKept, gone_after}

-- What happens to the cache, one thing after another: a payload is stored with the sources that it was
-- computed from, time passes, a data source is reloaded.
pub data Event : Type 0 where
  stored : (dashboard_id filter_hash payload : String) (names : List String) → Event
  passed : ℕ → Event
  reloaded : String → Event

module _ (r : Redis) (ttl : ℕ) where
  unfoldable pub after : Client r → List Event → Client r
  after c [] = c
  after c (stored d h payload names ∷ es) = after (set r none c d h payload names ttl) es
  after c (passed n ∷ es) = after (record c { store = r.tick n c.store }) es
  after c (reloaded n ∷ es) = after (invalidate_datasource r false c n) es

-- Each payload is stored with all the sources that it uses.
abbrev pub IsComplete : Sources → Event → Type 0
IsComplete uses (stored d h payload names) =
    (n : String) → uses (data_key d h) n ≡ true → elem n names ≡ true
IsComplete uses (passed n) = Unit
IsComplete uses (reloaded n) = Unit

module _ (r : Redis) (ttl : ℕ) (uses : Sources) (pos : 0 < ttl) where
  after-IsKept :
      (c : Client r) (es : List Event)
      → All (IsComplete uses) es
      → IsKept r ttl uses pos c
      → IsKept r ttl uses pos (after r ttl c es)
  unfolding after
  after-IsKept c [] h inv = inv
  after-IsKept c (stored d p payload names ∷ es) (h, k) inv =
      after-IsKept (set r none c d p payload names ttl) es k
        (set-IsKept r ttl uses pos c d p payload names h inv)
  after-IsKept c (passed n ∷ es) (h, k) inv =
      after-IsKept (record c { store = r.tick n c.store }) es k (tick-IsKept r ttl uses pos c n inv)
  after-IsKept c (reloaded n ∷ es) (h, k) inv =
      after-IsKept (invalidate_datasource r false c n) es k
        (invalidate-IsKept r ttl uses pos c n inv)

  pub empty-IsKept :
      (c : Client r)
      → ((k : String) → r.value c.store k ≡ none)
      → ((k : String) → r.members c.store k ≡ [])
      → IsKept r ttl uses pos c
  empty-IsKept c nothing unlisted = record {
    bounded = λ d h live. absurd (cc (live, ap is_some (nothing (data_key d h))));
    listed = λ d h n u live free. absurd (cc (live, ap is_some (nothing (data_key d h))));
    outlives = λ d h n u live free. absurd (cc (live, ap is_some (nothing (data_key d h))));
    only_payloads = λ n m. rw (unlisted (index_key n)) refl;
  }

  pub evicted :
      (c : Client r) (d h n : String)
      → uses (data_key d h) n ≡ true
      → IsKept r ttl uses pos c
      → get r false (invalidate_datasource r false c n) d h ≡ none
  unfolding get invalidate_datasource
  evicted c d h n u inv = elim (Bool-cases c.available) [
    | inl e ↦
        simp e
          (gone_after r ttl uses pos c.store d h n (r.members c.store (index_key n)) refl u inv)
    | inr e ↦ simp e refl
  ]

-- Start from an empty cache, and let payloads be stored with one positive TTL and with all the
-- sources that they use, time pass and sources be reloaded, in any order and with no exception of the
-- server. Then, right after a source is invalidated, no payload that uses it is served.
pub invalidate_datasource-evicts :
    (r : Redis) (ttl : ℕ) (uses : Sources) (c : Client r) (es : List Event) (d h n : String)
    → 0 < ttl
    → ((k : String) → r.value c.store k ≡ none)
    → ((k : String) → r.members c.store k ≡ [])
    → All (IsComplete uses) es
    → uses (data_key d h) n ≡ true
    → get r false (invalidate_datasource r false (after r ttl c es) n) d h ≡ none
invalidate_datasource-evicts r ttl uses c es d h n pos nothing unlisted complete u =
    evicted r ttl uses pos (after r ttl c es) d h n u
      (after-IsKept r ttl uses pos c es complete (empty-IsKept r ttl uses pos c nothing unlisted))
