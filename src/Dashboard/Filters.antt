-- ===== src/Dashboard/Filters.antt =====
-- Filter, and the filter cache of a Dashboard: tables in DuckDB, one for each combination of conditions. Times
-- are in milliseconds.
pub mod Owned
pub mod Data
mod Examples
use buchi_maker.Common.{
  ltb, if◌then◌else◌, length, all, any, keep, drop, format, join, Dict, lookup, insert, erase, keys,
  values, ok, ℕ, ◌+◌, ◌-◌, ◌*◌, ◌/◌, ◌<◌, String, ap, Bool, true, false, not, Option, none, some,
  List, [], ◌∷◌, map, ◌==◌,
}
use buchi_maker.Python.Float.{is_float}
use buchi_maker.Python.Replace.{split}

-- {"field", "operator", "value"}
pub record RawCondition : Type 0 where
  pub field : String
  pub operator : String
  pub value : String

pub record Filter : Type 0 where
  pub conditions : List RawCondition
  pub source_table : String
  pub view_name : String
  pub refresh_frequency : ℕ
  pub is_loaded : Bool
  pub last_refreshed : ℕ
  pub last_queried : ℕ

-- the last of the parts, which are never none at all
abbrev pub last_part : List String → String
last_part [] = ""
last_part (t ∷ []) = t
last_part (t ∷ u ∷ ts) = last_part (u ∷ ts)

-- a number stands as it is, and any other value between quotes
unfoldable pub clause_text : RawCondition → String
clause_text c =
    let field = last_part (split b'.' c.field) in
    if is_float c.value
    then format (field ∷ " " ∷ c.operator ∷ " " ∷ c.value ∷ [])
    else format (field ∷ " " ∷ c.operator ∷ " '" ∷ c.value ∷ "'" ∷ [])

-- Filter._build_where_clause
unfoldable pub where_clause : List RawCondition → String
where_clause [] = "1=1"
where_clause (c ∷ cs) = join " AND " (map clause_text (c ∷ cs))

abbrev pub create_statement : Filter → String
create_statement f = format (
    "CREATE TABLE "
    ∷ f.view_name
    ∷ " AS SELECT * FROM "
    ∷ f.source_table
    ∷ " WHERE "
    ∷ where_clause f.conditions
    ∷ [])

-- (time.time() - self.last_refreshed) / 60 < self.refresh_frequency
abbrev pub is_fresh : (now : ℕ) → Filter → Bool
is_fresh now f = ltb now (1000 * f.last_refreshed + 60000 * f.refresh_frequency)

-- DROP TABLE IF EXISTS
unfoldable pub drop_table : String → List String → List String
drop_table t tables = keep (λ x. not (x == t)) tables

-- The filters by hash, the tables in the database, and the settings.
pub record State : Type 0 where
  pub filters : Dict Filter
  pub tables : List String
  pub source_table : String
  pub refresh_frequency : ℕ
  pub unallocate_frequency : ℕ

abbrev pub view_of : String → String
view_of h = format ("__filter_" ∷ h ∷ [])

-- `accepts` tells whether DuckDB creates a table, `hash` is the MD5 digest of the conditions
module _ (accepts : String → Bool) (hash : List RawCondition → String) where
  -- Filter.refresh: the table goes before it is created again; `false` is an exception
  unfoldable pub refresh : (now : ℕ) → Filter → List String → Filter × (List String × Bool)
  refresh now f tables =
      let without = drop_table f.view_name tables in
      if accepts (create_statement f)
      then (
        record f { is_loaded = true; last_refreshed = now / 1000 },
        (f.view_name ∷ without, true),
      )
      else (f, (without, false))

  unfoldable pub new_filter : List RawCondition → State → Filter
  new_filter conditions s = record {
    conditions = conditions;
    source_table = s.source_table;
    view_name = view_of (hash conditions);
    refresh_frequency = s.refresh_frequency;
    is_loaded = false;
    last_refreshed = 0;
    last_queried = 0;
  }

  -- what a refresh of the filter `h` leaves; a filter whose refresh raises stays as it was
  abbrev pub refreshed : String → State → Filter × (List String × Bool) → State × Bool
  refreshed h s (f, (tables, goes)) = (
    record s { filters = if goes then insert h f s.filters else s.filters; tables = tables },
    goes,
  )

  abbrev pub set_found : (now : ℕ) → List RawCondition → Option Filter → State → State × Bool
  set_found now conditions none s =
      refreshed (hash conditions) s (refresh now (new_filter conditions s) s.tables)
  set_found now conditions (some f) s =
      if is_fresh now f then (s, true) else refreshed (hash conditions) s (refresh now f s.tables)

  unfoldable pub set_filters : (now : ℕ) → List RawCondition → State → State × Bool
  set_filters now conditions s = set_found now conditions (lookup (hash conditions) s.filters) s

  -- time.time() - f.last_queried > threshold
  abbrev pub is_stale : (now : ℕ) → State → Filter → Bool
  is_stale now s f = ltb (1000 * (f.last_queried + s.unallocate_frequency * 60)) now

  unfoldable pub stale_hashes : (now : ℕ) → State → Dict Filter → List String
  stale_hashes now s [] = []
  stale_hashes now s ((h, f) ∷ fs) =
      let rest = stale_hashes now s fs in if is_stale now s f then h ∷ rest else rest

  -- self.filters[h].drop(), del self.filters[h]
  abbrev pub forget : String → Option Filter → State → State
  forget h none s = s
  forget h (some f) s = record s {
    filters = erase h s.filters;
    tables = drop_table f.view_name s.tables;
  }

  unfoldable pub forget_all : List String → State → State
  forget_all [] s = s
  forget_all (h ∷ hs) s = forget_all hs (forget h (lookup h s.filters) s)

  unfoldable pub trim_filters : (now : ℕ) → State → State × ℕ
  trim_filters now s = let hs = stale_hashes now s s.filters in (forget_all hs s, length hs)

  -- what comes later, unless there was an exception
  abbrev pub stop_or : State × Bool → State × Bool → State × Bool
  stop_or (t, true) later = later
  stop_or (t, false) later = (t, false)

  -- the loop of refresh_filters, which an exception ends
  unfoldable pub refresh_each : (now : ℕ) → List String → State → State × Bool
  refresh_each now [] s = (s, true)
  refresh_each now (h ∷ hs) s = elim (lookup h s.filters) [
    | none ↦ refresh_each now hs s
    | some f ↦
        let next = refreshed h s (refresh now f s.tables) in
        stop_or next (refresh_each now hs next.0)
  ]

  unfoldable pub refresh_filters : (now : ℕ) → State → State × Bool
  refresh_filters now s = refresh_each now (keys s.filters) s

  unfoldable pub drop_each : List Filter → List String → List String
  drop_each [] tables = tables
  drop_each (f ∷ fs) tables = drop_each fs (drop_table f.view_name tables)

  unfoldable pub drop_all : State → State
  drop_all s = record s { filters = []; tables = drop_each (values s.filters) s.tables }

-- list_virtual_tables
unfoldable pub list_virtual_tables : State → List String
list_virtual_tables s =
    map (λ (f : Filter). f.view_name) (keep (λ (f : Filter). f.is_loaded) (values s.filters))
