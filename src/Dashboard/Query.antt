-- ===== src/Dashboard/Query.antt =====
-- Dashboard.get_data_for_filters: the queries that are sent to DuckDB, and the response.
pub mod Response
pub mod Unfiltered
use buchi_maker.Common.{
  if◌then◌else◌, any, keep, format, elem, Dict, lookup, insert, ok, ℕ, ◌+◌, ◌-◌, ◌*◌, String, ap,
  Bool, not, ◌&&◌, Option, none, some, List, [], ◌∷◌, ◌++◌, map, ◌==◌,
}
use buchi_maker.Json.{Json}
use buchi_maker.Python.Replace.{replace, show_nat}
use buchi_maker.Dashboard.{Definition, Summary, Aggregate, Condition}
use buchi_maker.Dashboard.Where.{Part, build_sql_where}
use buchi_maker.Dashboard.Widgets.{
  Entry, build_widget_map, raw_sources_needed, widget_unfiltered_data_refs,
}

-- What a cursor holds after a query: `cursor.description` and the rows.
pub record Table : Type 0 where
  pub columns : List String
  pub rows : List (List Json)

-- An open connection to DuckDB: the answer to a query text with bound parameters, where `none` is an exception, and
-- the text of such an exception.
pub record Database : Type 0 where
  pub execute : String → List String → Option Table
  pub error : String

-- {display: value} of one row; a display name that stands twice keeps its last value
abbrev pub row_dict : Dict String → Dict Json → List String → List Json → Dict Json
row_dict aliases found [] vals = found
row_dict aliases found (c ∷ cs) [] = found
row_dict aliases found (c ∷ cs) (v ∷ vs) =
    row_dict aliases
      (insert (elim (lookup c aliases) [ none ↦ c | some display ↦ display ]) v found) cs vs

abbrev pub records : Dict String → Table → List (Dict Json)
records aliases t = map (row_dict aliases [] t.columns) t.rows

pub data Total : Type 0 where
  missing : Total
  scalar : Json → Total
  pairs : Dict Json → Total

-- the first row: one column is a value, any other number a dict
total_of_rows : List String → List (List Json) → Total
total_of_rows columns [] = missing
total_of_rows columns ((v ∷ []) ∷ rs) = scalar v
total_of_rows columns (r ∷ rs) = pairs (row_dict [] [] columns r)

unfoldable pub total_of_table : Option Table → Total
unfolding total_of_rows
total_of_table none = missing
total_of_table (some t) = total_of_rows t.columns t.rows

abbrev pub rows_of_table : Dict String → Option Table → List (Dict Json)
rows_of_table aliases none = []
rows_of_table aliases (some t) = records aliases t

-- `bool(self.source_table and where != "1=1")`
abbrev pub applies : Definition → String → Bool
applies dash where_clause = not (dash.source_table == "") && not (where_clause == "1=1")

-- the CTE in front of the query, whose mentions of the base view are redirected to it
unfoldable pub inject : Definition → String → String → String
unfolding replace
inject dash where_clause query = format (
    "WITH __filtered AS (SELECT * FROM "
    ∷ dash.source_table
    ∷ " WHERE "
    ∷ where_clause
    ∷ ") "
    ∷ replace dash.source_table "__filtered" query
    ∷ [])

module _ (db : Database) (repr : Json → String) (dash : Definition) (row_limit : ℕ)
    (part : Part) where
  unfoldable pub run : Bool → String → String → Option Table
  run filtered with_filter plain =
      if filtered then db.execute with_filter part.1 else db.execute plain []

  unfoldable pub total_of : Summary → Total
  unfolding total_of_table run inject
  total_of s =
      total_of_table
        (run (applies dash part.0 && not s.unfiltered) (inject dash part.0 s.query) s.query)

  abbrev pub limited_query : Aggregate → String
  limited_query a =
      format ("SELECT * FROM (" ∷ a.query ∷ ") __agg LIMIT " ∷ show_nat row_limit ∷ [])

  unfoldable pub aggregate_of : Aggregate → List (Dict Json)
  unfolding run inject
  aggregate_of a =
      let shared = elem a.name (widget_unfiltered_data_refs repr dash) in
      rows_of_table a.column_aliases (
        run (applies dash part.0 && not a.unfiltered && not shared)
          (inject dash part.0 (limited_query a)) (limited_query a))

  unfoldable pub raw_of : String → List (Dict Json)
  unfolding run
  raw_of source =
      let filtered =
        not (part.0 == "1=1") && not (elem source (widget_unfiltered_data_refs repr dash)) in
      rows_of_table [] (
        run filtered
          (format
            ("SELECT * FROM " ∷ source ∷ " WHERE " ∷ part.0 ∷ " LIMIT " ∷ show_nat row_limit ∷ []))
          (format ("SELECT * FROM " ∷ source ∷ " LIMIT " ∷ show_nat row_limit ∷ [])))

-- one entry for each item, in the order of the loop
unfoldable pub collect {ℓ κ} :
    {A : Type ℓ} {V : Type κ} → (A → String) → (A → V) → Dict V → List A → Dict V
collect name value found [] = found
collect name value found (x ∷ xs) = collect name value (insert (name x) (value x) found) xs

pub record Data : Type 0 where
  pub totals : Dict Total
  pub aggregates : Dict (List (Dict Json))
  pub raw : Dict (List (Dict Json))
  pub widget_map : List Entry
  pub source_tables : List String

abbrev pub add_source : List String → String → List String
add_source found name = if elem name found then found else found ++ name ∷ []

unfoldable pub add_sources : List String → List String → List String
add_sources found [] = found
add_sources found (s ∷ ss) = add_sources (add_source found s) ss

unfoldable pub source_tables_of : (Json → String) → Definition → List String
unfolding add_sources
source_tables_of repr dash =
    add_sources (if dash.source_table == "" then [] else dash.source_table ∷ [])
      (raw_sources_needed repr dash)

unfoldable pub data_for : Database → (Json → String) → Definition → ℕ → Part → Data
unfolding collect total_of aggregate_of raw_of source_tables_of
data_for db repr dash row_limit part = record {
  totals =
      collect (λ (s : Summary). s.name) (total_of db repr dash row_limit part) [] dash.summaries;
  aggregates =
      collect (λ (a : Aggregate). a.name) (aggregate_of db repr dash row_limit part) []
        dash.aggregates;
  raw = collect (λ s. s) (raw_of db repr dash row_limit part) [] (raw_sources_needed repr dash);
  widget_map = build_widget_map repr dash;
  source_tables = source_tables_of repr dash;
}

abbrev pub map_some {ℓ κ} : {A : Type ℓ} {B : Type κ} → (A → B) → Option A → Option B
map_some f none = none
map_some f (some a) = some (f a)

-- `none` is the KeyError of the WHERE clause
unfoldable pub get_data_for_filters :
    Database → (Json → String) → Definition → List Condition → ℕ → Option Data
unfolding data_for
get_data_for_filters db repr dash conditions row_limit =
    map_some (data_for db repr dash row_limit) (build_sql_where conditions)
