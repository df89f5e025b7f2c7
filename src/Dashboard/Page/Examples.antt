-- ===== src/Dashboard/Page/Examples.antt =====
-- The theorems on responses and pages at concrete inputs, with a database that answers three pages.
use buchi_maker.Common.{
  if◌then◌else◌, OnSome, All, format, lookup, insert, ok, ℕ, String, ◌≡◌, refl, Bool, true, false,
  Option, none, some, List, [], ◌∷◌, map, ◌==◌,
}
use buchi_maker.Json.{Json, num, str, arr, obj, nil, cons, end, field}
use buchi_maker.Dashboard.{Widget, Definition, Condition, compare, member, column_of}
use buchi_maker.Dashboard.Where.{Part, build_sql_where}
use buchi_maker.Dashboard.Query.{Table, Database, Data, get_data_for_filters}
use buchi_maker.Dashboard.Query.Response.{IsAnswered, get_data-IsAnswered}
use buchi_maker.Dashboard.Page.{Page, Counting, resolve_widget, plan_of, get_widget_page}
use buchi_maker.Dashboard.Page.Relation.{relation_of}
use buchi_maker.Dashboard.Page.Paging.{Serves, page_at, get_widget_page-served}
use buchi_maker.Dashboard.Examples.{dash, repr}

abbrev region_row : String → List Json
region_row r = str r ∷ []

-- a database that answers the queries of three pages, and nothing else
abbrev page_query : String → String
page_query bounds = format (
    "SELECT * FROM (WITH __filtered AS (SELECT * FROM orders_view WHERE region = ?) SELECT region FROM __filtered) __agg "
    ∷ bounds ∷ [])

abbrev rows_of : String → Option (List (List Json))
rows_of q =
    if q == page_query "LIMIT 2 OFFSET 0"
    then some (region_row "north" ∷ region_row "east" ∷ [])
    else if q == page_query "LIMIT 1 OFFSET 2"
    then some (region_row "west" ∷ [])
    else if q == page_query "LIMIT 3 OFFSET 0"
    then some (region_row "north" ∷ region_row "east" ∷ region_row "west" ∷ [])
    else none

abbrev db : Database
db = record {
  error = "no table";
  execute = λ q ps. elim (rows_of q) [
    | none ↦ none
    | some rows ↦ some (record { columns = "region" ∷ []; rows = rows })
  ];
}

abbrev counting : Counting
counting = record { db = db; count = λ q ps. some 3 }

abbrev by_north : List Condition
by_north = compare "region" "eq" "north" "f1" ∷ []

get_data-IsAnswered_example :
    OnSome
      (λ (d : Data). All (IsAnswered d) d.widget_map)
      (get_data_for_filters db repr dash by_north 1000)
get_data-IsAnswered_example = get_data-IsAnswered db repr dash 1000 by_north

abbrev north : Part
north = ("region = ?", "north" ∷ [])

abbrev east : Part
east = ("region = ?", "east" ∷ [])

abbrev chart : Widget × String
chart =
    (record { kind = "bar_chart"; id = "c1"; config = ("data", str "by_region") ∷ [] }, "by_region")

abbrev all_rows : List (List Json)
all_rows = region_row "north" ∷ region_row "east" ∷ region_row "west" ∷ []

abbrev IsPage : ℕ → ℕ → Type 0
IsPage =
    Serves counting (relation_of dash chart.0 chart.1 north) ("north" ∷ []) ("region" ∷ []) all_rows

first_IsPage : IsPage 2 0
unfolding plan_of lookup buchi_maker.Dashboard.Query.inject buchi_maker.Python.Replace.show_nat
first_IsPage = record { page = refl; counts = refl }

next_IsPage : IsPage 1 2
unfolding plan_of lookup buchi_maker.Dashboard.Query.inject buchi_maker.Python.Replace.show_nat
next_IsPage = record { page = refl; counts = refl }

both_IsPage : IsPage 3 0
unfolding plan_of lookup buchi_maker.Dashboard.Query.inject buchi_maker.Python.Replace.show_nat
both_IsPage = record { page = refl; counts = refl }

chart_found :
    resolve_widget repr dash "c1" "Pagination is only supported for data widgets."
      "Only widgets backed by an aggregate or raw datasource can be paginated."
    ≡ ok chart
unfolding resolve_widget buchi_maker.Json.str_of lookup
chart_found = refl

north_where : build_sql_where by_north ≡ some north
unfolding build_sql_where lookup buchi_maker.Python.Float.is_float
north_where = refl

get_widget_page-served_example :
    get_widget_page counting repr dash "c1" by_north 2 0
    ≡ ok (page_at (plan_of dash chart.0 chart.1 north) "by_region" ("region" ∷ []) all_rows 2 0)
unfolding plan_of lookup
get_widget_page-served_example =
    get_widget_page-served counting repr dash "c1" by_north chart north ("region" ∷ []) all_rows
      chart_found north_where 2 0 first_IsPage

abbrev page_of : List String → Bool → Page
page_of regions more = record {
  data_key = "by_region";
  rows = map (λ r. ("Region", str r) ∷ []) regions;
  total_count = 3;
  has_more = more;
}

first_page :
    get_widget_page counting repr dash "c1" by_north 2 0 ≡ ok (page_of ("north" ∷ "east" ∷ []) true)
unfolding get_widget_page buchi_maker.Json.str_of lookup build_sql_where
    buchi_maker.Python.Float.is_float buchi_maker.Dashboard.Query.inject
    buchi_maker.Python.Replace.show_nat insert
first_page = refl

next_page : get_widget_page counting repr dash "c1" by_north 1 2 ≡ ok (page_of ("west" ∷ []) false)
unfolding get_widget_page buchi_maker.Json.str_of lookup build_sql_where
    buchi_maker.Python.Float.is_float buchi_maker.Dashboard.Query.inject
    buchi_maker.Python.Replace.show_nat insert
next_page = refl

both_pages :
    get_widget_page counting repr dash "c1" by_north 3 0
    ≡ ok (page_of ("north" ∷ "east" ∷ "west" ∷ []) false)
unfolding get_widget_page buchi_maker.Json.str_of lookup build_sql_where
    buchi_maker.Python.Float.is_float buchi_maker.Dashboard.Query.inject
    buchi_maker.Python.Replace.show_nat insert
both_pages = refl
