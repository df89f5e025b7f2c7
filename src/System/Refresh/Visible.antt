-- ===== src/System/Refresh/Visible.antt =====
-- What a refresh makes visible: everything or nothing.
use buchi_maker.Common.{
  Bool-cases, lookup, values, ℕ, String, ◌≡◌, refl, sym, ap, subst, ◌∙◌, inl, inr, Bool, true,
  false, Option, none, some, List,
}
use buchi_maker.Redis.{Redis}
use buchi_maker.Db.{
  Con, Db, Outcome, promoted, no_standby, not_valid, failed, other_slot, get_standby_db,
  promote_standby,
}
use buchi_maker.Db.Paired.{IsPaired, get_standby_db-IsPaired}
use buchi_maker.Db.Promotion.{IsResult, slot_of, promote_standby-IsResult}
use buchi_maker.System.Rate.{admit}
use buchi_maker.System.Refresh.{
  Content, Store, content, World, System, Failure, rate_limited, standby_not_opened, load_failed,
  view_failed, not_promoted, load_all, create_views, refresh_bases, promote, refill, with_views,
  with_tables, with_standby, do_refresh, global_refresh,
}
use buchi_maker.System.Refresh.Loading.{
  IsDict, load_all-found, create_views-tables, refresh_bases-tables,
}
use buchi_maker.System.Refresh.Standby.{put-other, put-content, IsBeside, beside}

module _ (world : World) (r : Redis) where
  -- The active connection `c`, its file and the cache are as they were.
  pub record IsUntouched (c : Con) (s t : System r) : Type 0 where
    pub active : t.db.active ≡ some c
    pub file : content c.slot t.store ≡ content c.slot s.store
    pub cache : t.cache ≡ s.cache

  -- The active connection is on the other file, which has the data of every source.
  pub record IsRefreshed (c : Con) (s t : System r) : Type 0 where
    pub slot : slot_of t.db.active ≡ some (other_slot (some c.slot))
    pub loaded :
        (name source : String)
        → lookup name s.sources ≡ some source
        → lookup name (content (other_slot (some c.slot)) t.store).tables ≡ world.read name source

  -- By how a refresh ends. After a promotion that failed half-way nothing is said.
  abbrev pub IsOutcome : Con → System r → System r × Option Failure → Type 0
  IsOutcome c s (t, none) = IsRefreshed c s t
  IsOutcome c s (t, some (not_promoted failed)) = Unit
  IsOutcome c s (t, some (not_promoted promoted)) = ⊥
  IsOutcome c s (t, some (not_promoted no_standby)) = IsUntouched c s t
  IsOutcome c s (t, some (not_promoted not_valid)) = IsUntouched c s t
  IsOutcome c s (t, some rate_limited) = IsUntouched c s t
  IsOutcome c s (t, some standby_not_opened) = IsUntouched c s t
  IsOutcome c s (t, some load_failed) = IsUntouched c s t
  IsOutcome c s (t, some view_failed) = IsUntouched c s t

  -- What is known just before the promotion: the standby file is ready, and nothing else has changed.
  record IsReady (c : Con) (s t : System r) : Type 0 where
    active : t.db.active ≡ some c
    at_slot : t.db.active_slot ≡ some c.slot
    paired : IsPaired t.db
    file : content c.slot t.store ≡ content c.slot s.store
    cache : t.cache ≡ s.cache

  abbrev IsLoaded : Con → System r → Store → Type 0
  IsLoaded c s store =
      (name source : String)
      → lookup name s.sources ≡ some source
      → lookup name (content (other_slot (some c.slot)) store).tables ≡ world.read name source

  promote-IsOutcome :
      (c : Con) (s t : System r) (db : Db) (how : Outcome)
      → IsReady c s t
      → IsLoaded c s t.store
      → IsResult t.db db how
      → IsOutcome c s (promote world r (db, how) t)
  unfolding promote
  promote-IsOutcome c s t db promoted k loaded h = record {
    slot = h.0 ∙ ap (λ x. some (other_slot x)) k.at_slot;
    loaded = loaded;
  }
  promote-IsOutcome c s t db no_standby k loaded h = record {
    active = ap (λ (x : Db). x.active) h ∙ k.active;
    file = k.file;
    cache = k.cache;
  }
  promote-IsOutcome c s t db not_valid k loaded h = record {
    active = h.0 ∙ k.active;
    file = k.file;
    cache = k.cache;
  }
  promote-IsOutcome c s t db failed k loaded h = tt

  -- the steps before the promotion, on the standby file
  views-IsOutcome :
      (c : Con) (s t : System r) (made : Content × Bool)
      → IsReady c s t
      → ((name source : String)
          → lookup name s.sources ≡ some source
          → lookup name made.0.tables ≡ world.read name source)
      → IsOutcome c s (with_views world r (other_slot (some c.slot)) t made)
  unfolding with_views refill
  views-IsOutcome c s t (made, false) k loaded = record {
    active = k.active;
    file = put-other c.slot made t.store ∙ k.file;
    cache = k.cache;
  }
  views-IsOutcome c s t (made, true) k loaded =
      let rebuilt = refresh_bases world t.bases made in
      let u = refill world r (other_slot (some c.slot)) t rebuilt in
      promote-IsOutcome c s u (promote_standby world.disk t.db).0
        (promote_standby world.disk t.db).1
        (record {
          active = k.active;
          at_slot = k.at_slot;
          paired = k.paired;
          file = put-other c.slot rebuilt.0 t.store ∙ k.file;
          cache = k.cache;
        })
        (λ name source h.
          ap (λ (x : Content). lookup name x.tables)
            (put-content (other_slot (some c.slot)) rebuilt.0 t.store)
          ∙ ap (lookup name) (refresh_bases-tables world t.bases made)
          ∙ loaded name source h)
        (promote_standby-IsResult world.disk t.db k.paired)

  tables-IsOutcome :
      (c : Con) (s t : System r) (made : Content × Bool)
      → IsReady c s t
      → (made.1 ≡ true
          → (name source : String) → lookup name s.sources ≡ some source
          → lookup name made.0.tables ≡ world.read name source)
      → IsOutcome c s (with_tables world r (other_slot (some c.slot)) t made)
  unfolding with_tables
  tables-IsOutcome c s t (made, false) k loaded = record {
    active = k.active;
    file = put-other c.slot made t.store ∙ k.file;
    cache = k.cache;
  }
  tables-IsOutcome c s t (made, true) k loaded =
      views-IsOutcome c s t (create_views world (values t.bases) made) k (λ name source h.
        ap (lookup name) (create_views-tables world (values t.bases) made)
        ∙ loaded refl name source h)

  standby-IsOutcome :
      (c : Con) (s : System r) (history : List ℕ) (db : Db) (o : Option Con)
      → IsDict s.sources
      → IsPaired db
      → IsBeside c (db, o)
      → IsOutcome c s (with_standby world r (record s { history = history }) (db, o))
  unfolding with_standby
  standby-IsOutcome c s history db none d paired (active, (at_slot, other)) = record {
    active = active;
    file = refl;
    cache = refl;
  }
  standby-IsOutcome c s history db (some con) d paired (active, (at_slot, other)) =
      let made = load_all world s.sources (content con.slot s.store) in
      let t : System r = record s { db = db; history = history } in
      subst (λ slot. IsOutcome c s (with_tables world r slot t made)) (sym other)
        (tables-IsOutcome c s t made
          (record {
            active = active;
            at_slot = at_slot;
            paired = paired;
            file = refl;
            cache = refl;
          })
          (λ e name source h.
            load_all-found world name source s.sources (content con.slot s.store) d e h))

  refresh-IsOutcome :
      (c : Con) (s : System r) (history : List ℕ)
      → s.db.active ≡ some c
      → IsPaired s.db
      → IsDict s.sources
      → IsOutcome c s (do_refresh world r (record s { history = history }))
  unfolding do_refresh
  refresh-IsOutcome c s history e paired d =
      standby-IsOutcome c s history (get_standby_db world.disk s.db).0
        (get_standby_db world.disk s.db).1 d (get_standby_db-IsPaired world.disk s.db paired)
        (beside world.disk c s.db e paired)

  -- With an active connection beside which a standby is on the other file: a refresh that ends well makes the other
  -- file the active one, with the data that every source has now; one that is refused, whose data or views cannot be
  -- loaded, or whose standby does not pass the check, leaves the active connection, its file and the cache as they
  -- were. Nothing is said of a promotion that breaks off.
  pub global_refresh-IsOutcome :
      (rate_limit : Bool) (c : Con) (s : System r)
      → s.db.active ≡ some c
      → IsPaired s.db
      → IsDict s.sources
      → IsOutcome c s (global_refresh world r rate_limit s)
  unfolding global_refresh
  global_refresh-IsOutcome rate_limit c s e paired d =
      let (history, goes) = admit rate_limit world.now s.history in
      elim (Bool-cases goes) [
        | inl f ↦ rw (f, global_refresh) (refresh-IsOutcome c s history e paired d)
        | inr f ↦ rw (f, global_refresh) (record { active = e; file = refl; cache = refl })
      ]
