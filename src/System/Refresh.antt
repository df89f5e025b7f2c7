-- ===== src/System/Refresh.antt =====
-- SystemManager.global_refresh, register_data_source and remove_data_source: fresh data goes to the standby
-- database, and becomes visible by a promotion.
pub mod Standby
pub mod Loading
pub mod Visible
pub mod Register
use buchi_maker.Common.{
  if◌then◌else◌, all, drop, Dict, lookup, insert, erase, keys, values, ok, ℕ, ◌-◌, String, Bool,
  true, false, not, ◌&&◌, Option, none, some, List, [], ◌∷◌, ◌==◌,
}
use buchi_maker.Redis.{Redis}
use buchi_maker.Cache.{Client, invalidate_datasource}
use buchi_maker.Db.{
  Slot, a, b, Con, Db, Disk, Outcome, promoted, get_db, get_standby_db, promote_standby,
}
use buchi_maker.Dashboard.Load.Text.{rstrip_semicolons}
use buchi_maker.System.Rate.{admit}
use buchi_maker.System.Sets.{Writing, done, broken}

-- What one database file holds: the tables of the data sources, the base views and the tables of the filters.
pub record Content : Type 0 where
  pub tables : Dict String
  pub views : Dict String
  pub cached : Dict String

pub record Store : Type 0 where
  pub in_a : Content
  pub in_b : Content

abbrev pub content : Slot → Store → Content
content a s = s.in_a
content b s = s.in_b

abbrev pub put : Slot → Content → Store → Store
put a c s = record s { in_a = c }
put b c s = record s { in_b = c }

-- A cached filter of a dashboard: the table, and the query that fills it.
pub record Cached : Type 0 where
  pub view_name : String
  pub query : String
  pub is_loaded : Bool

pub record Base : Type 0 where
  pub source_table : String
  pub base_view_sql : String
  pub filters : Dict Cached

-- What is outside: the clock, the disk, the data that a connector of this name would load (`none` is an
-- exception, after which the file holds what `broken` says), whether DuckDB runs a statement, and whether the
-- cache's server raises.
pub record World : Type 0 where
  pub now : ℕ
  pub disk : Disk
  pub read : (name source : String) → Option String
  pub broken : (name source : String) → Content → Content
  pub redis_fails : Bool
  pub accepts : String → Bool

pub data Failure : Type 0 where
  rate_limited : Failure
  standby_not_opened load_failed view_failed : Failure
  not_promoted : Outcome → Failure

-- How the removal of a source ends: `unknown` is the KeyError, `not_dropped` the exception of the connection.
pub data Removal : Type 0 where
  removed unknown not_dropped : Removal

-- `sources` are the connectors by name, each with what it loads from
pub record System (r : Redis) : Type 0 where
  pub sources : Dict String
  pub bases : Dict Base
  pub history : List ℕ
  pub db : Db
  pub store : Store
  pub cache : Client r
  pub saved : List String

-- How a registration ends: as it should, with the RuntimeError about the refresh that failed, or with the exception of
-- saving.
pub data Registration : Type 0 where
  registered : Registration
  not_loaded : Failure → Registration
  not_saved : Registration

module _ (world : World) where
  -- ds.load(con) for each source; an exception stops the loop
  unfoldable pub load_all : Dict String → Content → Content × Bool
  load_all [] c = (c, true)
  load_all ((name, source) ∷ ds) c = elim (world.read name source) [
    | none ↦ (world.broken name source c, false)
    | some rows ↦ load_all ds (record c { tables = insert name rows c.tables })
  ]

  -- the base views; a dashboard without one is passed over
  unfoldable pub create_views : List Base → Content → Content × Bool
  create_views [] c = (c, true)
  create_views (d ∷ ds) c =
      let next =
        create_views ds (record c { views = insert d.source_table d.base_view_sql c.views }) in
      let skipped = create_views ds c in
      if d.source_table == ""
      then skipped
      else if not (d.base_view_sql == "") && world.accepts (rstrip_semicolons d.base_view_sql)
      then next
      else (c, false)

  -- f.refresh(con): the table is dropped before it is created
  unfoldable pub refresh_filter : Cached → Content → Content × Bool
  refresh_filter f c =
      if world.accepts f.query
      then (record c { cached = insert f.view_name f.query c.cached }, true)
      else (record c { cached = erase f.view_name c.cached }, false)

  -- the filters that are kept: one that cannot be built is forgotten
  unfoldable pub refresh_filters : Dict Cached → Content → Content × Dict Cached
  refresh_filters [] c = (c, [])
  refresh_filters ((h, f) ∷ fs) c =
      let (here, goes) = if f.is_loaded then refresh_filter f c else (c, true) in
      let (later, kept) = refresh_filters fs here in (later, if goes then (h, f) ∷ kept else kept)

  unfoldable pub refresh_bases : Dict Base → Content → Content × Dict Base
  refresh_bases [] c = (c, [])
  refresh_bases ((id, d) ∷ ds) c =
      let (here, kept) = refresh_filters d.filters c in
      let (later, bases) = refresh_bases ds here in
      (later, (id, record d { filters = kept }) ∷ bases)

  module _ (r : Redis) where
    -- redis_cache.invalidate_datasource for each source
    unfoldable pub invalidate_all : List String → Client r → Client r
    invalidate_all [] c = c
    invalidate_all (n ∷ ns) c = invalidate_all ns (invalidate_datasource r world.redis_fails c n)

    unfoldable pub promote : Db × Outcome → System r → System r × Option Failure
    promote (db, promoted) s =
        (record s { db = db; cache = invalidate_all (keys s.sources) s.cache }, none)
    promote (db, how) s = (record s { db = db }, some (not_promoted how))

    unfoldable pub refill : Slot → System r → Content × Dict Base → System r
    refill slot s (c, bases) = record s { store = put slot c s.store; bases = bases }

    unfoldable pub with_views : Slot → System r → Content × Bool → System r × Option Failure
    with_views slot s (c, false) = (record s { store = put slot c s.store }, some view_failed)
    with_views slot s (c, true) =
        promote (promote_standby world.disk s.db) (refill slot s (refresh_bases s.bases c))

    unfoldable pub with_tables : Slot → System r → Content × Bool → System r × Option Failure
    with_tables slot s (c, false) = (record s { store = put slot c s.store }, some load_failed)
    with_tables slot s (c, true) = with_views slot s (create_views (values s.bases) c)

    unfoldable pub with_standby : System r → Db × Option Con → System r × Option Failure
    with_standby s (db, none) = (record s { db = db }, some standby_not_opened)
    with_standby s (db, some con) =
        let t = record s { db = db } in
        with_tables con.slot t (load_all s.sources (content con.slot s.store))

    unfoldable pub do_refresh : System r → System r × Option Failure
    do_refresh s = with_standby s (get_standby_db world.disk s.db)

    unfoldable pub global_refresh : Bool → System r → System r × Option Failure
    global_refresh rate_limit s =
        let (history, goes) = admit rate_limit world.now s.history in
        let t = record s { history = history } in
        if goes then do_refresh t else (t, some rate_limited)

    -- the sources as they were, after a failure
    unfoldable pub roll_back : String → Option String → Dict String → Dict String
    roll_back name none now = erase name now
    roll_back name (some old) now = insert name old now

    -- _save_data_sources, which may raise
    abbrev pub saving : Writing → System r → System r × Registration
    saving done s = (record s { saved = keys s.sources }, registered)
    saving (broken left) s = (record s { saved = left }, not_saved)

    unfoldable pub settle :
        Bool
        → Writing
        → String
        → Option String
        → System r × Option Failure
        → System r × Registration
    settle save how name old (s, some e) =
        (record s { sources = roll_back name old s.sources }, not_loaded e)
    settle save how name old (s, none) = if save then saving how s else (s, registered)

    unfoldable pub register_data_source :
        (save : Bool) → Writing → (name source : String) → System r → System r × Registration
    register_data_source save how name source s =
        settle save how name (lookup name s.sources)
          (global_refresh false (record s { sources = insert name source s.sources }))

    -- connector.drop() on the active connection, and saving; without a connection nothing is dropped or saved
    unfoldable pub drop_from : String → System r → Db × Option Con → System r × Removal
    drop_from name s (db, none) = (record s { db = db }, not_dropped)
    drop_from name s (db, some con) =
        let held = content con.slot s.store in
        let without = record held { tables = erase name held.tables } in
        (
          record s { db = db; store = put con.slot without s.store; saved = keys s.sources },
          removed,
        )

    unfoldable pub remove_found : String → Option String → System r → System r × Removal
    remove_found name none s = (s, unknown)
    remove_found name (some source) s =
        drop_from name (record s { sources = erase name s.sources }) (get_db world.disk s.db)

    unfoldable pub remove_data_source : String → System r → System r × Removal
    remove_data_source name s = remove_found name (lookup name s.sources) s
