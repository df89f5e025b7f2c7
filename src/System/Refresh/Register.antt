-- ===== src/System/Refresh/Register.antt =====
-- register_data_source: a source whose data cannot be loaded is not registered.
use buchi_maker.Common.{
  Bool-cases, Dict, lookup, insert, values, lookup-insert, lookup-erase, String, ◌≡◌, refl, sym, ap,
  subst, ◌∙◌, inl, inr, Bool, true, false, Option, none, some, [], ◌∷◌, arith, ◌==◌, eq_iff,
  eq_refl,
}
use buchi_maker.Redis.{Redis}
use buchi_maker.Db.{
  Slot, Con, Db, Outcome, promoted, no_standby, not_valid, failed, get_standby_db, promote_standby,
}
use buchi_maker.Db.Paired.{IsPaired}
use buchi_maker.System.Rate.{admit}
use buchi_maker.System.Sets.{Writing, done, broken}
use buchi_maker.System.Refresh.{
  Content, World, System, Failure, Registration, registered, not_loaded, not_saved, create_views,
  promote, refill, with_views, with_tables, with_standby, do_refresh, global_refresh, roll_back,
  settle, register_data_source,
}
use buchi_maker.System.Refresh.Loading.{IsDict}
use buchi_maker.System.Refresh.Visible.{IsRefreshed, IsOutcome, global_refresh-IsOutcome}

insert-IsDict : (k v : String) (d : Dict String) → IsDict d → IsDict (insert k v d)
unfolding insert
insert-IsDict k v [] h = unfold lookup in (refl, tt)
insert-IsDict k v ((j, w) ∷ d) (new, h) = elim (Bool-cases (j == k)) [
  | inl e ↦ rw (e, insert) (subst (λ n. lookup n d ≡ none) ((eq_iff j k).0 e) new, h)
  | inr e ↦
      rw (e, insert)
        (rw lookup-insert (ground (arith, eq_iff j k, eq_iff k j, e, new)), insert-IsDict k v d h)
]

module _ (world : World) (r : Redis) where
  promote-sources :
      (s : System r) (db : Db) (how : Outcome) → (promote world r (db, how) s).0.sources ≡ s.sources
  unfolding promote
  promote-sources s db promoted = refl
  promote-sources s db no_standby = refl
  promote-sources s db not_valid = refl
  promote-sources s db failed = refl

  tables-sources :
      (slot : Slot) (s : System r) (made views : Content × Bool)
      → (with_views world r slot s views).0.sources ≡ s.sources
  unfolding with_views refill
  tables-sources slot s made (c, false) = refl
  tables-sources slot s made (c, true) =
      promote-sources _ (promote_standby world.disk s.db).0 (promote_standby world.disk s.db).1

  loaded-sources :
      (slot : Slot) (s : System r) (made : Content × Bool)
      → (with_tables world r slot s made).0.sources ≡ s.sources
  unfolding with_tables
  loaded-sources slot s (c, false) = refl
  loaded-sources slot s (c, true) =
      tables-sources slot s (c, true) (create_views world (values s.bases) c)

  standby-sources :
      (s : System r) (db : Db) (o : Option Con)
      → (with_standby world r s (db, o)).0.sources ≡ s.sources
  unfolding with_standby
  standby-sources s db none = refl
  standby-sources s db (some con) = loaded-sources con.slot (record s { db = db }) _

  refresh-sources :
      (rate_limit : Bool) (s : System r)
      → (global_refresh world r rate_limit s).0.sources ≡ s.sources
  unfolding global_refresh do_refresh
  refresh-sources rate_limit s =
      let (history, goes) = admit rate_limit world.now s.history in
      let next = get_standby_db world.disk s.db in
      elim (Bool-cases goes) [
        | inl f ↦
            rw (f, global_refresh) (standby-sources (record s { history = history }) next.0 next.1)
        | inr f ↦ rw (f, global_refresh) refl
      ]

  roll_back-lookup :
      (name source : String) (ds : Dict String) (old : Option String) (k : String)
      → lookup name ds ≡ old
      → lookup k (roll_back world r name old (insert name source ds)) ≡ lookup k ds
  unfolding roll_back
  roll_back-lookup name source ds none k p = elim (Bool-cases (name == k)) [
    | inl e ↦ rw (lookup-erase, e) (sym (ap (λ n. lookup n ds) (sym ((eq_iff name k).0 e)) ∙ p))
    | inr e ↦ rw (lookup-erase, e, lookup-insert, e) refl
  ]
  roll_back-lookup name source ds (some v) k p = elim (Bool-cases (name == k)) [
    | inl e ↦ rw (lookup-insert, e) (sym (ap (λ n. lookup n ds) (sym ((eq_iff name k).0 e)) ∙ p))
    | inr e ↦ rw (lookup-insert, e, lookup-insert, e) refl
  ]

  -- By how a registration ends: the source is there and the active file has its data, whether or not the list
  -- of the sources could be saved; or every source is as it was.
  abbrev pub IsRegistration :
      Con → System r → (name source : String) → System r × Registration → Type 0
  IsRegistration c s name source (t, registered) =
      (lookup name t.sources ≡ some source)
      × IsRefreshed world r c (record s { sources = insert name source s.sources }) t
  IsRegistration c s name source (t, not_saved) =
      (lookup name t.sources ≡ some source)
      × IsRefreshed world r c (record s { sources = insert name source s.sources }) t
  IsRegistration c s name source (t, not_loaded e) =
      (k : String) → lookup k t.sources ≡ lookup k s.sources

  found :
      (s : System r) (name source : String) (t : System r)
      → t.sources ≡ insert name source s.sources
      → lookup name t.sources ≡ some source
  found s name source t same = ap (lookup name) same ∙ rw lookup-insert (rw (eq_refl name) refl)

  settle-IsRegistration :
      (save : Bool) (how : Writing) (c : Con) (s : System r) (name source : String) (t : System r)
      (f : Option Failure)
      → t.sources ≡ insert name source s.sources
      → IsOutcome world r c (record s { sources = insert name source s.sources }) (t, f)
      → IsRegistration c s name source (settle world r save how name (lookup name s.sources) (t, f))
  unfolding settle
  settle-IsRegistration save how c s name source t (some e) same h = λ k.
      ap (λ ds. lookup k (roll_back world r name (lookup name s.sources) ds)) same
      ∙ roll_back-lookup name source s.sources (lookup name s.sources) k refl
  settle-IsRegistration true done c s name source t none same h =
      (found s name source t same, record { slot = h.slot; loaded = h.loaded })
  settle-IsRegistration true (broken left) c s name source t none same h =
      (found s name source t same, record { slot = h.slot; loaded = h.loaded })
  settle-IsRegistration false how c s name source t none same h = (found s name source t same, h)

  -- From a paired state with an active connection: a source that is registered, or registered again, is loaded
  -- first, together with all the others. If that goes well, the source is there and the new active file has the data
  -- of every source, and that is so even where saving the list of the sources then raises; if loading fails, every
  -- look-up among the sources gives what it gave before.
  pub register-IsRegistration :
      (save : Bool) (how : Writing) (c : Con) (s : System r) (name source : String)
      → s.db.active ≡ some c
      → IsPaired s.db
      → IsDict s.sources
      → IsRegistration c s name source (register_data_source world r save how name source s)
  unfolding register_data_source
  register-IsRegistration save how c s name source e paired d =
      let t : System r = record s { sources = insert name source s.sources } in
      let ended = global_refresh world r false t in
      settle-IsRegistration save how c s name source ended.0 ended.1 (refresh-sources false t) (
        global_refresh-IsOutcome world r false c t e paired (insert-IsDict name source s.sources d))
