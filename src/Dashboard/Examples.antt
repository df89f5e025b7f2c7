-- ===== src/Dashboard/Examples.antt =====
-- The theorems on dashboards at concrete inputs, and runs of the queries.
use buchi_maker.Common.{
  is_some, OnSome, drop, All, join, lookup, insert, values, OnOk, ok, ◌-◌, ◌*◌, ◌<◌, String, ◌≡◌,
  refl, ap, true, false, not, some, List, [], ◌∷◌, map,
}
use buchi_maker.Json.{Json, num, str, arr, obj, nil, cons, end, field}
use buchi_maker.Dashboard.{Definition, Condition, compare, member, column_of}
use buchi_maker.Dashboard.Where.{build_sql_where}
use buchi_maker.Dashboard.Where.Placeholders.{IsBalanced, build_sql_where-IsBalanced}
use buchi_maker.Dashboard.Where.Shape.{mask, text_of, build_sql_where-mask}
use buchi_maker.Dashboard.Parse.{Encoding, parse_widget_filters}
use buchi_maker.Dashboard.Parse.Columns.{IsFromLayout, parse-IsFromLayout}
use buchi_maker.Dashboard.Parse.Total.{parse-build_sql_where}
use buchi_maker.Dashboard.Where.{build_sql_where}
use buchi_maker.Dashboard.Widgets.{raw_sources_needed}

abbrev conditions : List Condition
conditions =
    compare "region" "eq" "north'; DROP TABLE orders" "w1"
    ∷ compare "amount" "gt" "12.5" "w2"
    ∷ member "kind" true ("a" ∷ "b" ∷ []) "w3"
    ∷ []

conditions_where :
    build_sql_where conditions
    ≡ some (
      "region = ? AND amount > 12.5 AND kind NOT IN (?, ?)",
      "north'; DROP TABLE orders" ∷ "a" ∷ "b" ∷ [],
    )
unfolding build_sql_where buchi_maker.Common.lookup buchi_maker.Python.Float.is_float
conditions_where = refl

-- a word that `float` accepts stands in the text as it is
word_as_number :
    build_sql_where (compare "amount" "lt" "Infinity" "w2" ∷ []) ≡ some ("amount < Infinity", [])
unfolding build_sql_where buchi_maker.Common.lookup buchi_maker.Python.Float.is_float
word_as_number = refl

build_sql_where-IsBalanced_example : OnSome IsBalanced (build_sql_where conditions)
build_sql_where-IsBalanced_example =
    build_sql_where-IsBalanced conditions (refl, (refl, (refl, tt)))

build_sql_where-mask_example :
    text_of (build_sql_where (map mask conditions)) ≡ text_of (build_sql_where conditions)
build_sql_where-mask_example = build_sql_where-mask conditions

abbrev encoding : Encoding
encoding = record {
  repr = λ v. "{}";
  dumps_value = λ c. elim c [
    | compare column operator value widget_id ↦ value
    | member column negated values widget_id ↦ join "," values
  ];
  digest = λ cs. join "," (map column_of cs);
}

abbrev pub repr : Json → String
repr v = "{}"

abbrev pub dash : Definition
dash = record {
  id = "sales";
  source_table = "orders_view";
  summaries =
      record { name = "revenue"; query = "SELECT SUM(amount) FROM orders_view"; unfiltered = false }
      ∷ record { name = "everything"; query = "SELECT COUNT(*) FROM orders"; unfiltered = true }
      ∷ [];
  aggregates =
      record {
        name = "by_region";
        query = "SELECT region FROM orders_view";
        column_aliases = ("region", "Region") ∷ [];
        unfiltered = false;
      }
      ∷ [];
  mappings = ("area", "region") ∷ [];
  layout =
      record {
        kind = "dropdown_multy";
        id = "f1";
        config = ("mapping", str "area") ∷ ("data", str "regions") ∷ [];
      }
      ∷ record { kind = "tile"; id = "t1"; config = ("value", str "revenue") ∷ [] }
      ∷ record { kind = "bar_chart"; id = "c1"; config = ("data", str "by_region") ∷ [] }
      ∷ record { kind = "basic_table"; id = "c2"; config = ("data", str "stock") ∷ [] }
      ∷ [];
}

-- two texts for one widget, and a widget that the layout does not have
abbrev request : List (String × Json)
request =
    ("f1", arr (cons (str "north") (cons (str "east") nil)))
    ∷ ("unknown", str "1; DROP TABLE orders")
    ∷ []

request_parsed :
    parse_widget_filters encoding dash request
    ≡ ok (
      compare "region" "eq" "east" "f1" ∷ compare "region" "eq" "north" "f1" ∷ [],
      "region,region",
    )
unfolding parse_widget_filters buchi_maker.Validator.sanitize_name buchi_maker.Common.lookup
    buchi_maker.Common.insert buchi_maker.Json.str_of
request_parsed = refl

-- the conditions in the request's order
abbrev found : List Condition
found = compare "region" "eq" "north" "f1" ∷ compare "region" "eq" "east" "f1" ∷ []

parse-IsFromLayout_example :
    OnOk
      (λ (r : List Condition × String). All (IsFromLayout encoding dash) r.0)
      (parse_widget_filters encoding dash request)
parse-IsFromLayout_example = parse-IsFromLayout encoding dash request

parse-build_sql_where_example :
    OnOk
      (λ (r : List Condition × String). is_some (build_sql_where r.0) ≡ true)
      (parse_widget_filters encoding dash request)
parse-build_sql_where_example = parse-build_sql_where encoding dash request

sources_needed : raw_sources_needed repr dash ≡ "regions" ∷ "stock" ∷ []
unfolding raw_sources_needed buchi_maker.Json.str_of buchi_maker.Common.lookup
sources_needed = refl
