-- ===== src/Cache/Stored.antt =====
-- RedisCache: what is stored is what is found.
use buchi_maker.Common.{
  ltb, Bool-cases, ℕ, ◌+◌, String, ◌≡◌, refl, ◌∙◌, inl, inr, true, false, none, some, List, [], ◌∷◌,
  arith, eq_refl,
}
use buchi_maker.Redis.{Redis}
use buchi_maker.Cache.{Client, get, set, run, index_commands, set_commands, data_key, index_key}

module _ (r : Redis) where
  index_commands-value :
      (key : String) (ttl : ℕ) (names : List String) (s : r.State) (d h : String)
      → r.value (run r none (index_commands r key ttl names) s).0 (data_key d h)
        ≡ r.value s (data_key d h)
  unfolding run index_commands
  index_commands-value key ttl [] s d h = refl
  index_commands-value key ttl (n ∷ ns) s d h = elim (Bool-cases (ltb 0 ttl)) [
    | inl e ↦ rw e (
        index_commands-value key ttl ns _ d h
        ∙ r.value-expire _ _ (ttl + 60) _ (omega arith)
        ∙ r.value-sadd s (index_key n) key (data_key d h))
    | inr e ↦
        rw e
          (index_commands-value key ttl ns _ d h ∙ r.value-sadd s (index_key n) key (data_key d h))
  ]

  -- what is stored is found
  pub get-set :
      (c : Client r) (d h payload : String) (names : List String) (ttl : ℕ)
      → c.available ≡ true
      → get r false (set r none c d h payload names ttl) d h ≡ some payload
  unfolding get set set_commands run
  get-set c d h payload names ttl on = elim (Bool-cases (ltb 0 ttl)) [
    | inl e ↦
        simp (on, e)
          (index_commands-value (data_key d h) ttl names _ d h
            ∙ r.value-setex c.store (data_key d h) ttl payload (data_key d h)
            ∙ rw (eq_refl (data_key d h)) refl)
    | inr e ↦
        simp (on, e)
          (index_commands-value (data_key d h) ttl names _ d h
            ∙ r.value-set_plain c.store (data_key d h) payload (data_key d h)
            ∙ rw (eq_refl (data_key d h)) refl)
  ]
