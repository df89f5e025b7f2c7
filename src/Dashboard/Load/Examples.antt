-- ===== src/Dashboard/Load/Examples.antt =====
-- Loading of one small dashboard.
use buchi_maker.Common.{
  ltb, eqb, all, Dict, lookup, ◌>>=◌, ◌>>◌, OnOk, ok, err, ◌-◌, ◌*◌, String, ◌≡◌, refl, ap, false,
  not, ◌&&◌, ◌||◌, Option, none, some, List, [], ◌∷◌, map,
}
use buchi_maker.Json.{Json, str, arr, obj, nil, cons, end, field, num}
use buchi_maker.Dashboard.{Widget}
use buchi_maker.Dashboard.Load.{Loaded, Run, load_yaml}
use buchi_maker.Dashboard.Load.Base.{Python, refused}
use buchi_maker.Dashboard.Load.Checked.{IsLoaded, load_yaml-IsLoaded}

abbrev py : Python
py = record {
  repr = λ v. "{}";
  quoted = λ v. "'?'";
  truncate = λ s. refused;
  is_word = λ c. ltb 96 c && ltb c 123 || eqb c b'_';
  exceeds = λ x w n. false;
  sum_text = λ x w. "0";
  fresh = λ n. "generated";
}

abbrev database : String → Option String
database sql = none

abbrev place : String → String → Json
place x w = obj (field "x" (num x) (field "w" (num w) end))

abbrev widget_fields : String → String → String → String → Json → Json
widget_fields kind id key name grid =
    obj (field kind (obj (field "id" (str id) (field key (str name) (field "grid" grid end)))) end)

abbrev total_item : String → Json
total_item query = obj (field "name" (str "revenue") (field "query" (str query) end))

-- a mapping whose total has the given query, and whose second widget begins in this column
abbrev content_at : String → String → Dict Json
content_at column query =
    ("id", str "sales")
    ∷ ("base_view", str "CREATE OR REPLACE VIEW orders_view AS SELECT * FROM orders;")
    ∷ ("totals", arr (cons (total_item query) nil))
    ∷ (
      "layout",
      arr (
          cons (widget_fields "kpi" "w1" "value" "revenue" (place "0" "6"))
            (cons (widget_fields "table" "w2" "data" "orders_view" (place column "6")) nil)),
    )
    ∷ []

abbrev content : String → Dict Json
content = content_at "6"

abbrev executed_text : String
executed_text = "CREATE OR REPLACE VIEW orders_view AS SELECT * FROM orders"

abbrev ids_of : Run → Option (List String)
ids_of r = elim r.result [
  | ok l ↦ some (map (λ (w : Widget). w.id) l.definition.layout)
  | err e ↦ none
]

loads :
    ids_of (load_yaml py database (content "SELECT SUM(a) FROM orders_view;"))
    ≡ some ("w1" ∷ "w2" ∷ [])
unfolding load_yaml buchi_maker.Common.lookup buchi_maker.Dashboard.Load.Start.int_or_raise
    buchi_maker.Python.Number.int_of_text
loads = refl

-- a total on another table is refused, after the view has been created
refuses :
    ((load_yaml py database (content "SELECT SUM(a) FROM orders")).sent ≡ some executed_text)
    × (ids_of (load_yaml py database (content "SELECT SUM(a) FROM orders")) ≡ none)
unfolding load_yaml buchi_maker.Common.lookup buchi_maker.Dashboard.Load.Start.int_or_raise
    buchi_maker.Python.Number.int_of_text
refuses = (refl, refl)

-- six columns from the seventh on do not fit into twelve
too_wide : ids_of (load_yaml py database (content_at "7" "SELECT SUM(a) FROM orders_view;")) ≡ none
unfolding load_yaml lookup buchi_maker.Dashboard.Load.Start.int_or_raise
    buchi_maker.Python.Number.int_of_text
too_wide = refl

load_yaml-IsLoaded_example :
    OnOk (IsLoaded py) (load_yaml py database (content "SELECT SUM(a) FROM orders_view;")).result
load_yaml-IsLoaded_example =
    load_yaml-IsLoaded py database (content "SELECT SUM(a) FROM orders_view;")
