-- ===== src/Dashboard/Load/Start.antt =====
-- The first part of Dashboard.load_yaml: identifier, settings and the base view.
use buchi_maker.Common.{
  ltb, if◌then◌else◌, format, elem, Dict, lookup, keys, Result, ◌>>=◌, ◌>>◌, map_err, ok, err, ℕ,
  suc, String, Bool, not, ◌&&◌, ◌||◌, Option, none, some, List, [], ◌∷◌, ◌==◌,
}
use buchi_maker.Json.{Json, num, truthy, str_of, get_or}
use buchi_maker.Python.Number.{ℤ}
use buchi_maker.Validator.{sanitize_name}
use buchi_maker.Dashboard.Load.Base.{
  Python, Conversion, whole, refused, infinite, Refusal, raised, int_of, show_int, is_int,
  validation,
}
use buchi_maker.Dashboard.Load.Text.{view_name_of, strip_text}

pub record Head : Type 0 where
  pub id : String
  pub title : String
  pub refresh_frequency_filter : ℤ
  pub unallocate_frequency_filter : ℤ
  pub grid_columns : ℕ
  pub base_view_sql : String
  pub view_name : String

-- data.get(key, default), for a default that is a number
abbrev pub get_number : String → String → Dict Json → Json
get_number key default d = elim (lookup key d) [ none ↦ num default | some v ↦ v ]

-- int(...), where nothing is caught
unfoldable pub int_or_raise : Conversion → Result Refusal ℤ
int_or_raise (whole z) = ok z
int_or_raise refused = err raised
int_or_raise infinite = err raised

unfoldable pub columns_of : Python → Json → Result Refusal ℕ
unfolding int_of show_int
columns_of py raw = elim (int_of py raw) [
  | infinite ↦ err raised
  | refused ↦
      err
        (validation (format ("'grid_columns' must be an integer, got " ∷ py.quoted raw ∷ "." ∷ [])))
  | whole z ↦
      if is_int 12 z
      then ok 12
      else if is_int 24 z
      then ok 24
      else err
          (validation (format ("'grid_columns' must be 12 or 24, got " ∷ show_int z ∷ "." ∷ [])))
]

-- list.index
abbrev place : String → List String → ℕ
place key [] = 0
place key (k ∷ ks) = if k == key then 0 else suc (place key ks)

-- `later_key in keys and keys.index(later_key) < base_view_idx`
abbrev comes_first : String → List String → Bool
comes_first later_key ks = elem later_key ks && ltb (place later_key ks) (place "base_view" ks)

unfoldable pub check_order : List String → Result Refusal (Unit {0})
check_order ks =
    if comes_first "aggregates" ks
    then err (validation "'base_view' must be defined before 'aggregates' in the YAML file.")
    else if comes_first "totals" ks
    then err (validation "'base_view' must be defined before 'totals' in the YAML file.")
    else ok tt

unfoldable pub required_view : Python → Option Json → Result Refusal String
unfolding truthy strip_text str_of
required_view py none = err (
    validation
      "'base_view' is required and must define a \"CREATE [OR REPLACE] VIEW <name> AS SELECT ...\" statement.")
required_view py (some v) =
    let sql = strip_text (str_of py.repr v) in
    if not (truthy v) || sql == ""
    then err (
        validation
          "'base_view' is required and must define a \"CREATE [OR REPLACE] VIEW <name> AS SELECT ...\" statement.")
    else ok sql

unfoldable pub checked_name : String → Result Refusal String
unfolding view_name_of sanitize_name
checked_name sql = elim (view_name_of sql) [
  | none ↦ err (
      validation
        "'base_view' must be a \"CREATE [OR REPLACE] VIEW <name> AS SELECT ...\" statement.")
  | some view_name ↦ map_err validation (sanitize_name view_name "base_view name")
]

unfoldable pub head_of : Python → Dict Json → Result Refusal Head
unfolding str_of sanitize_name int_of columns_of required_view check_order checked_name
head_of py definition = do
  let id = str_of py.repr (get_or "id" "" definition)
  map_err validation (sanitize_name id "dashboard id")
  let title = str_of py.repr (get_or "title" "Unnamed Dashboard" definition)
  refresh ← int_or_raise (int_of py (get_number "refresh_frequency_filter" "10" definition))
  unallocate ← int_or_raise (int_of py (get_number "unallocate_frequency_filter" "30" definition))
  grid_columns ← columns_of py (get_number "grid_columns" "12" definition)
  sql ← required_view py (lookup "base_view" definition)
  check_order (keys definition)
  view_name ← checked_name sql
  ok (record {
    id = id;
    title = title;
    refresh_frequency_filter = refresh;
    unallocate_frequency_filter = unallocate;
    grid_columns = grid_columns;
    base_view_sql = sql;
    view_name = view_name;
  })
