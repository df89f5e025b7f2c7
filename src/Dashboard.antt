-- ===== src/Dashboard.antt =====
-- backend/app/models/dashboard.py: the objects that a dashboard is made of.
pub mod Where
pub mod Parse
pub mod Widgets
pub mod Query
pub mod Load
pub mod Page
pub mod Filters
mod Examples
use buchi_maker.Common.{
  if◌then◌else◌, drop, Dict, values, ◌-◌, ◌/◌, ◌<◌, String, ap, Bool, not, List, [], ◌∷◌, map,
}
use buchi_maker.Json.{Json}

-- Summary: a total of one row
pub record Summary : Type 0 where
  pub name : String
  pub query : String
  pub unfiltered : Bool

-- Aggregate: a table; the aliases map a column of the query to its display name
pub record Aggregate : Type 0 where
  pub name : String
  pub query : String
  pub column_aliases : Dict String
  pub unfiltered : Bool

-- A widget of the layout. `kind` is the dict's "type".
pub record Widget : Type 0 where
  pub kind : String
  pub id : String
  pub config : Dict Json

-- What `load_yaml` has read.
pub record Definition : Type 0 where
  pub id : String
  pub source_table : String
  pub summaries : List Summary
  pub aggregates : List Aggregate
  pub mappings : Dict String
  pub layout : List Widget

-- A condition of `parse_widget_filters`. Its value is a list of texts exactly for `in` and `not_in`.
pub data Condition : Type 0 where
  compare : (column operator value widget_id : String) → Condition
  member :
      (column : String) (negated : Bool) (values : List String) (widget_id : String) → Condition

abbrev pub column_of : Condition → String
column_of (compare column _ _ _) = column
column_of (member column _ _ _) = column

abbrev pub operator_of : Condition → String
operator_of (compare _ operator _ _) = operator
operator_of (member _ negated _ _) = if negated then "not_in" else "in"

abbrev pub widget_of : Condition → String
widget_of (compare _ _ _ widget_id) = widget_id
widget_of (member _ _ _ widget_id) = widget_id

-- _OP_MAP
abbrev pub op_map : Dict String
op_map =
    ("eq", "=")
    ∷ ("neq", "!=")
    ∷ ("gt", ">")
    ∷ ("lt", "<")
    ∷ ("gte", ">=")
    ∷ ("lte", "<=")
    ∷ ("ge", ">=")
    ∷ ("le", "<=")
    ∷ ("has", "LIKE")
    ∷ ("prefix", "LIKE")
    ∷ ("suffix", "LIKE")
    ∷ ("in", "IN")
    ∷ ("not_in", "NOT IN")
    ∷ ("last_minutes", "last_minutes")
    ∷ []

-- _AGGREGATE_WIDGETS, _TOTAL_WIDGETS, _FILTER_WIDGETS
abbrev pub aggregate_widgets : List String
aggregate_widgets =
    "bar_chart" ∷ "horizontal_bar_chart" ∷ "stacked_bar_chart" ∷ "area_chart" ∷ "line_chart"
    ∷ "pie_chart" ∷ "sankey" ∷ "basic_table" ∷ "widget_type" ∷ []

abbrev pub total_widgets : List String
total_widgets = "tile" ∷ "radial_gauge_full" ∷ "radial_gauge_semi" ∷ []

abbrev pub filter_widgets : List String
filter_widgets =
    "button_filter" ∷ "input_filter" ∷ "dropdown_multy" ∷ "dropdown_single" ∷ "button_url"
    ∷ "widget_start_end_time" ∷ "button_datetime_filter" ∷ []
