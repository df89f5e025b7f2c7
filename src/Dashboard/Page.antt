-- ===== src/Dashboard/Page.antt =====
-- Dashboard.get_widget_page and export_widget_csv: one widget's rows, a page at a time or all at once.
pub mod Relation
pub mod Paging
mod Examples
use buchi_maker.Common.{
  ltb, if◌then◌else◌, length, all, format, elem, Dict, lookup, Result, ◌>>=◌, ◌>>◌, ok, err, ℕ, ◌+◌,
  ◌-◌, ◌*◌, String, ap, Bool, not, ◌&&◌, Option, none, some, List, [], ◌∷◌, map, ◌==◌,
}
use buchi_maker.Json.{Json}
use buchi_maker.Python.Replace.{show_nat}
use buchi_maker.Dashboard.{Widget, Definition, Aggregate, Condition, filter_widgets}
use buchi_maker.Dashboard.Where.{Part, build_sql_where}
use buchi_maker.Dashboard.Widgets.{config_text, is_flagged}
use buchi_maker.Dashboard.Query.{Table, Database, records, applies, inject}

-- ValueError with its message, or the KeyError of the WHERE clause
pub data Failure : Type 0 where
  value_error : String → Failure
  key_error : Failure

-- the first widget of the layout with this id
unfoldable pub find_widget : String → List Widget → Option Widget
find_widget id [] = none
find_widget id (w ∷ ws) = if w.id == id then some w else find_widget id ws

-- {a.name: a for a in self.aggregates}.get(name): the last one of a name
unfoldable pub find_aggregate : String → List Aggregate → Option Aggregate
find_aggregate name [] = none
find_aggregate name (a ∷ as_) = elim (find_aggregate name as_) [
  | some b ↦ some b
  | none ↦ if a.name == name then some a else none
]

-- the checks that both methods begin with; `purpose` ends the two messages that differ
unfoldable pub check_data_key :
    (Json → String) → String → String → String → Widget → Result Failure (Widget × String)
check_data_key repr widget_id only_for only_backed w =
    if elem w.kind filter_widgets
    then err (
        value_error (
          format (
            "Widget '" ∷ widget_id ∷ "' is a filter widget (type='" ∷ w.kind ∷ "'). " ∷ only_for
            ∷ [])))
    else if config_text repr "data" w == ""
    then err (
        value_error
          (format ("Widget '" ∷ widget_id ∷ "' has no 'data' config field. " ∷ only_backed ∷ [])))
    else ok (w, config_text repr "data" w)

unfoldable pub resolve_widget :
    (Json → String) → Definition → String → String → String → Result Failure (Widget × String)
unfolding find_widget check_data_key
resolve_widget repr dash widget_id only_for only_backed = elim (find_widget widget_id dash.layout) [
  | none ↦
      err (value_error (format ("Widget '" ∷ widget_id ∷ "' not found in dashboard layout." ∷ [])))
  | some w ↦ check_data_key repr widget_id only_for only_backed w
]

-- The queries of one widget: the text that LIMIT follows, the text that counts, whether the
-- parameters are bound, and the display names.
pub record Plan : Type 0 where
  pub body : String
  pub count_query : String
  pub filtered : Bool
  pub column_aliases : Dict String

abbrev pub plan_of_aggregate : Definition → Widget → Part → Aggregate → Plan
plan_of_aggregate dash w part agg =
    let filtered = applies dash part.0 && not agg.unfiltered && not (is_flagged w) in
    let inner = if filtered then inject dash part.0 agg.query else agg.query in
    record {
      body = format ("SELECT * FROM (" ∷ inner ∷ ") __agg" ∷ []);
      count_query = format ("SELECT COUNT(*) FROM (" ∷ inner ∷ ") __agg" ∷ []);
      filtered = filtered;
      column_aliases = agg.column_aliases;
    }

abbrev pub plan_of_source : String → Widget → Part → Plan
plan_of_source data_key w part =
    let filtered = not (part.0 == "1=1") && not (is_flagged w) in
    let suffix = if filtered then format (" WHERE " ∷ part.0 ∷ []) else "" in
    record {
      body = format ("SELECT * FROM " ∷ data_key ∷ suffix ∷ []);
      count_query = format ("SELECT COUNT(*) FROM " ∷ data_key ∷ suffix ∷ []);
      filtered = filtered;
      column_aliases = [];
    }

unfoldable pub plan_of : Definition → Widget → String → Part → Plan
unfolding find_aggregate
plan_of dash w data_key part = elim (find_aggregate data_key dash.aggregates) [
  | some agg ↦ plan_of_aggregate dash w part agg
  | none ↦ plan_of_source data_key w part
]

abbrev pub bound : Plan → Part → List String
bound plan part = if plan.filtered then part.1 else []

abbrev pub paged_query : Plan → ℕ → ℕ → String
paged_query plan limit offset =
    format (plan.body ∷ " LIMIT " ∷ show_nat limit ∷ " OFFSET " ∷ show_nat offset ∷ [])

abbrev pub where_of : Option Part → Result Failure Part
where_of none = err key_error
where_of (some part) = ok part

pub record Page : Type 0 where
  pub data_key : String
  pub rows : List (Dict Json)
  pub total_count : ℕ
  pub has_more : Bool

-- The answer of a COUNT(*) query is a number of its own.
pub record Counting : Type 0 where
  pub db : Database
  pub count : String → List String → Option ℕ

abbrev pub failed_query : String → String → Failure
failed_query error widget_id =
    value_error (format ("DuckDB query failed for widget '" ∷ widget_id ∷ "': " ∷ error ∷ []))

unfoldable pub answer_page :
    (error widget_id data_key : String) → Plan → ℕ → Option Table → Option ℕ → Result Failure Page
answer_page error widget_id data_key plan offset none n = err (failed_query error widget_id)
answer_page error widget_id data_key plan offset (some t) none = err (failed_query error widget_id)
answer_page error widget_id data_key plan offset (some t) (some n) =
    let rows = records plan.column_aliases t in
    ok (record {
      data_key = data_key;
      rows = rows;
      total_count = n;
      has_more = ltb (offset + length rows) n;
    })

-- the count is asked for only after the rows, and an exception in either ends the same way
unfoldable pub fetch_page : Counting → String → String → Plan → Part → ℕ → ℕ → Result Failure Page
unfolding answer_page
fetch_page c widget_id data_key plan part limit offset =
    answer_page c.db.error widget_id data_key plan offset
      (c.db.execute (paged_query plan limit offset) (bound plan part))
      (c.count plan.count_query (bound plan part))

unfoldable pub get_widget_page :
    Counting → (Json → String) → Definition → String → List Condition → ℕ → ℕ → Result Failure Page
unfolding resolve_widget plan_of fetch_page
get_widget_page c repr dash widget_id conditions limit offset = do
  found ←
      resolve_widget repr dash widget_id "Pagination is only supported for data widgets."
        "Only widgets backed by an aggregate or raw datasource can be paginated."
  part ← where_of (build_sql_where conditions)
  fetch_page c widget_id found.1 (plan_of dash found.0 found.1 part) part limit offset

-- The header line and the rows of an export, before they are written as CSV.
pub record Export : Type 0 where
  pub headers : List String
  pub lines : List (List Json)

abbrev pub header_of : Dict String → String → String
header_of aliases col = elim (lookup col aliases) [ none ↦ col | some display ↦ display ]

unfoldable pub export_widget_csv :
    Database → (Json → String) → Definition → String → List Condition → ℕ → Result Failure Export
unfolding resolve_widget plan_of
export_widget_csv db repr dash widget_id conditions limit = do
  found ←
      resolve_widget repr dash widget_id "Export is only supported for data widgets."
        "Only widgets backed by an aggregate or raw datasource can be exported."
  part ← where_of (build_sql_where conditions)
  let plan = plan_of dash found.0 found.1 part
  elim (db.execute (format (plan.body ∷ " LIMIT " ∷ show_nat limit ∷ [])) (bound plan part)) [
    | none ↦ err (failed_query db.error widget_id)
    | some t ↦
        ok (record { headers = map (header_of plan.column_aliases) t.columns; lines = t.rows })
  ]
