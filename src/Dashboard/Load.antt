-- ===== src/Dashboard/Load.antt =====
-- Dashboard.load_yaml: from the mapping that the YAML file holds to a dashboard.
pub mod Text
pub mod Base
pub mod Start
pub mod Queries
pub mod Layout
pub mod Kinds
pub mod Grid
pub mod Widgets
pub mod Checked
mod Examples
use buchi_maker.Common.{
  all, any, drop, format, Dict, Result, ◌>>=◌, ◌>>◌, ok, err, ◌-◌, String, ap, not, Option, none,
  some, [], ◌∷◌, map,
}
use buchi_maker.Json.{Json}
use buchi_maker.Python.Number.{ℤ}
use buchi_maker.Dashboard.{Definition, Summary, Aggregate}
use buchi_maker.Dashboard.Load.Text.{rstrip_semicolons}
use buchi_maker.Dashboard.Load.Base.{Python, Refusal, message, raised}
use buchi_maker.Dashboard.Load.Start.{Head, head_of}
use buchi_maker.Dashboard.Load.Queries.{items_of, listed, summary_of, aggregate_from, mappings_of}
use buchi_maker.Dashboard.Load.Layout.{Names, layout_of}

-- What is loaded: the definition that the queries use, and the rest of the first part.
pub record Loaded : Type 0 where
  pub head : Head
  pub definition : Definition

-- the part after the base view has been created
unfoldable pub body_of : Python → Dict Json → Head → Result Refusal Loaded
unfolding items_of listed summary_of aggregate_from mappings_of layout_of
body_of py content head = do
  totals ← listed "totals" content
  kept_totals ← items_of py head.view_name "total" totals
  aggregates ← listed "aggregates" content
  kept_aggregates ← items_of py head.view_name "aggregate" aggregates
  mappings ← listed "mappings" content
  let summaries = map summary_of kept_totals
  let tables = map (aggregate_from py.repr) kept_aggregates
  widgets ← listed "layout" content
  layout ←
      layout_of py
        (record {
          grid_columns = head.grid_columns;
          totals = map (λ (s : Summary). s.name) summaries;
          aggregates = map (λ (a : Aggregate). a.name) tables;
        })
        0 [] widgets
  ok (record {
    head = head;
    definition = record {
      id = head.id;
      source_table = head.view_name;
      summaries = summaries;
      aggregates = tables;
      mappings = mappings_of py.repr [] mappings;
      layout = layout;
    };
  })

-- `sent` is the text that the database is given to run, if any, which may hold several statements; it answers with
-- an error or not. A dashboard is loaded into a new object, which has no filters, so that _drop_all_filters runs nothing.
pub record Run : Type 0 where
  pub sent : Option String
  pub result : Result Refusal Loaded

-- recreate_base_view, and the rest
unfoldable pub created : Python → (String → Option String) → Dict Json → Head → Run
unfolding rstrip_semicolons body_of
created py database content head =
    let statement = rstrip_semicolons head.base_view_sql in
    elim (database statement) [
      | some e ↦ record {
        sent = some statement;
        result = err (message (format ("base_view creation failed: " ∷ e ∷ [])));
      }
      | none ↦ record { sent = some statement; result = body_of py content head }
    ]

unfoldable pub load_yaml : Python → (String → Option String) → Dict Json → Run
unfolding head_of created
load_yaml py database content = elim (head_of py content) [
  | err e ↦ record { sent = none; result = err e }
  | ok head ↦ created py database content head
]
