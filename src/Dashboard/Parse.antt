-- ===== src/Dashboard/Parse.antt =====
-- Dashboard.parse_widget_filters: from the filters of a request, keyed by widget, to the sorted
-- conditions and their hash.
pub mod Columns
pub mod Total
pub mod Order
use buchi_maker.Common.{
  if◌then◌else◌, keep, take, All, format, join, elem, Dict, lookup, insert, keys, values, has_key,
  Result, ◌>>=◌, ◌>>◌, map_err, ok, err, ◌+◌, ◌-◌, String, ap, Bool, true, false, not, ◌&&◌, ◌||◌,
  Option, none, some, List, [], ◌∷◌, ◌++◌, map, ◌==◌,
}
use Prim.Native.String
use text.Mathlib.Text.{is_le}
use buchi_maker.Json.{
  Json, null, bool, num, str, arr, obj, Items, items, Fields, fields, str_of, get_or, truthy,
}
use buchi_maker.Validator.{sanitize_name}
use buchi_maker.Dashboard.{
  Widget, Definition, Condition, compare, member, op_map, filter_widgets, column_of, operator_of,
}

-- What the code takes from Python and the libraries: the text of a list or dict, the JSON text of a
-- condition's value, by which it sorts, and the MD5 digest of the conditions' JSON text.
pub record Encoding : Type 0 where
  pub repr : Json → String
  pub dumps_value : Condition → String
  pub digest : List Condition → String

-- How parsing fails: the ValueError with its message, or the TypeError of a list or a dict as a key.
pub data ParseError : Type 0 where
  value_error : String → ParseError
  type_error : ParseError

-- widget_id → widget config, for filter widgets only; a later widget of the same id wins
abbrev pub is_filter_widget : Widget → Bool
is_filter_widget w = elem w.kind filter_widgets && not (w.kind == "button_url") && not (w.id == "")

filter_widget_configs : Dict (Dict Json) → List Widget → Dict (Dict Json)
filter_widget_configs found [] = found
filter_widget_configs found (w ∷ ws) =
    filter_widget_configs (if is_filter_widget w then insert w.id w.config found else found) ws

module _ (enc : Encoding) where
  -- the operator and the value of one item
  abbrev alias_of : Json → String
  alias_of (obj fs) = str_of enc.repr (get_or "operator" "eq" (fields fs))
  alias_of item = "eq"

  abbrev raw_value_of : Json → Json
  raw_value_of (obj fs) = get_or "value" "" (fields fs)
  raw_value_of item = item

  abbrev raw_list : Json → List Json
  raw_list (arr vs) = items vs
  raw_list v = v ∷ []

  -- [str(v) for v in raw_list if str(v) != ""]
  abbrev selected : Json → List String
  selected v = keep (λ s. not (s == "")) (map (str_of enc.repr) (raw_list v))

  member_of :
      (column : String) (negated : Bool) (values : List String) (widget_id : String)
      → Option Condition
  member_of column negated [] widget_id = none
  member_of column negated (v ∷ vs) widget_id = some (member column negated (v ∷ vs) widget_id)

  unknown_operator : String → String → String
  unknown_operator alias widget_id = format (
      "Unknown operator '"
      ∷ alias
      ∷ "' for widget '"
      ∷ widget_id
      ∷ "'. Allowed: ['"
      ∷ join "', '" (keys op_map)
      ∷ "']"
      ∷ [])

  -- one item of a widget's value: `none` where nothing is selected
  unfoldable pub condition_of :
      (widget_id db_column : String) → Json → Result ParseError (Option Condition)
  unfolding member_of unknown_operator
  condition_of widget_id db_column item =
      let alias = alias_of item in
      let raw = raw_value_of item in
      if not (has_key alias op_map)
      then err (value_error (unknown_operator alias widget_id))
      else if alias == "in" || alias == "not_in"
      then ok (member_of db_column (alias == "not_in") (selected raw) widget_id)
      else ok (some (compare db_column alias (str_of enc.repr raw) widget_id))

  abbrev pub add : Option Condition → List Condition → List Condition
  add none cs = cs
  add (some c) cs = c ∷ cs

  unfoldable pub conditions_of_items :
      (widget_id db_column : String) → List Json → Result ParseError (List Condition)
  unfolding condition_of
  conditions_of_items widget_id db_column [] = ok []
  conditions_of_items widget_id db_column (item ∷ rest) = do
    c ← condition_of widget_id db_column item
    cs ← conditions_of_items widget_id db_column rest
    ok (add c cs)

  -- a list at the top level is several conditions of one widget
  abbrev pub values_of : Json → List Json
  values_of (arr vs) = items vs
  values_of v = v ∷ []

  -- self.mappings.get(mapping_key, mapping_key), "" for every value that is false; a number or `true` is kept as the
  -- text that the WHERE clause shows
  unfoldable pub column_for : Dict String → Dict Json → Result ParseError String
  column_for mappings cfg = elim (get_or "mapping" "" cfg) [
    | str key ↦ elim (lookup key mappings) [ none ↦ ok key | some column ↦ ok column ]
    | arr vs ↦ err type_error
    | obj fs ↦ err type_error
    | v ↦ ok (if truthy v then str_of enc.repr v else "")
  ]

  -- one entry of the request's filters
  unfoldable pub conditions_of_widget :
      Definition → String → Option (Dict Json) → Json → Result ParseError (List Condition)
  unfolding conditions_of_items column_for
  conditions_of_widget dash widget_id none value = ok []
  conditions_of_widget dash widget_id (some cfg) value = do
    db_column ← column_for dash.mappings cfg
    if db_column == "" then ok [] else conditions_of_items widget_id db_column (values_of value)

  unfoldable pub conditions_of : Definition → Dict Json → Result ParseError (List Condition)
  unfolding conditions_of_widget filter_widget_configs
  conditions_of dash [] = ok []
  conditions_of dash ((widget_id, value) ∷ rest) = do
    map_err value_error (sanitize_name widget_id "filter widget_id")
    cs ←
        conditions_of_widget dash widget_id
          (lookup widget_id (filter_widget_configs [] dash.layout)) value
    ds ← conditions_of dash rest
    ok (cs ++ ds)

  -- the sort's key: column, operator, then the JSON text of the value
  abbrev pub key_le : Condition → Condition → Bool
  key_le c d = is_le (
      String.then (String.compare (column_of c) (column_of d)) (
        String.then (String.compare (operator_of c) (operator_of d))
          (String.compare (enc.dumps_value c) (enc.dumps_value d))))

  unfoldable pub insert_sorted : Condition → List Condition → List Condition
  insert_sorted c [] = c ∷ []
  insert_sorted c (d ∷ ds) = if key_le c d then c ∷ d ∷ ds else d ∷ insert_sorted c ds

  unfoldable pub sort_conditions : List Condition → List Condition
  unfolding insert_sorted
  sort_conditions [] = []
  sort_conditions (c ∷ cs) = insert_sorted c (sort_conditions cs)

  unfoldable pub parse_widget_filters :
      Definition → Dict Json → Result ParseError (List Condition × String)
  unfolding conditions_of sort_conditions
  parse_widget_filters dash raw_filters = do
    conditions ← conditions_of dash raw_filters
    let sorted = sort_conditions conditions
    ok (sorted, enc.digest sorted)
