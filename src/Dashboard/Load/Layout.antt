-- ===== src/Dashboard/Load/Layout.antt =====
-- Dashboard.load_yaml: the widgets of the layout and their checks.
use buchi_maker.Common.{
  if◌then◌else◌, format, elem, Dict, lookup, Result, ◌>>=◌, ◌>>◌, guard, map_err, ok, err, ℕ, ◌+◌,
  String, Bool, false, not, ◌&&◌, ◌||◌, Option, none, some, List, [], ◌∷◌, ◌==◌,
}
use buchi_maker.Json.{Json, null, obj, fields, truthy, str_of}
use buchi_maker.Validator.{sanitize_name}
use buchi_maker.Python.Replace.{show_nat}
use buchi_maker.Dashboard.{Widget, aggregate_widgets, total_widgets}
use buchi_maker.Dashboard.Load.Base.{
  Python, Refusal, raised, is_number, goes_beyond, in_set, validation,
}

-- config.get(key), or None
abbrev pub got : String → Dict Json → Json
got key d = elim (lookup key d) [ none ↦ null | some v ↦ v ]

-- the type and the configuration of an item of the layout; `none` is a `continue`
unfoldable pub widget_entry : Json → Option (String × Dict Json)
widget_entry (obj fs) = elim (fields fs) [
  | [] ↦ none
  | (kind, obj cfg) ∷ rest ↦ if kind == "" then none else some (kind, fields cfg)
  | _ ∷ rest ↦ none
]
widget_entry _ = none

-- The dashboard's own names, against which a widget is checked.
pub record Names : Type 0 where
  pub grid_columns : ℕ
  pub totals : List String
  pub aggregates : List String

module _ (py : Python) (names : Names) where
  off_grid : (kind id : String) → Json → Json → Refusal
  unfolding str_of show_nat
  off_grid kind id x w = validation (
      format (
        "layout."
        ∷ kind
        ∷ " '"
        ∷ id
        ∷ "' grid.x ("
        ∷ str_of py.repr x
        ∷ ") + grid.w ("
        ∷ str_of py.repr w
        ∷ ") = "
        ∷ py.sum_text x w
        ∷ " exceeds this dashboard's grid_columns ("
        ∷ show_nat names.grid_columns
        ∷ ")."
        ∷ []))

  unfoldable pub check_cells : (kind id : String) → Json → Json → Result Refusal (Unit {0})
  unfolding off_grid goes_beyond
  check_cells kind id x w =
      if is_number x && is_number w && goes_beyond py x w names.grid_columns
      then err (off_grid kind id x w)
      else ok tt

  -- a `grid` that is no dict has no `get`
  unfoldable pub check_grid : (kind id : String) → Option Json → Result Refusal (Unit {0})
  unfolding check_cells
  check_grid kind id none = ok tt
  check_grid kind id (some (obj fs)) =
      check_cells kind id (got "x" (fields fs)) (got "w" (fields fs))
  check_grid kind id (some v) = err raised

  -- `value and value in names`
  unfoldable pub refers : Json → List String → Result Refusal Bool
  unfolding truthy in_set
  refers v set =
      if truthy v then elim (in_set v set) [ none ↦ err raised | some b ↦ ok b ] else ok false

  wrong_kind : (kind id used text accepted : String) → Refusal
  wrong_kind kind id used text accepted = validation (
      format (
        "layout." ∷ kind ∷ " '" ∷ id ∷ "' cannot use " ∷ used ∷ " '" ∷ text ∷ "'. It accepts only "
        ∷ accepted ∷ "." ∷ []))

  unfoldable pub check_total : (kind id : String) → Dict Json → Result Refusal (Unit {0})
  unfolding refers wrong_kind str_of
  check_total kind id cfg = do
    found ← refers (got "value" cfg) names.aggregates
    guard (not found) (wrong_kind kind id "aggregate" (str_of py.repr (got "value" cfg)) "Totals")

  unfoldable pub check_aggregate : (kind id : String) → Dict Json → Result Refusal (Unit {0})
  unfolding refers wrong_kind str_of
  check_aggregate kind id cfg = do
    found ← refers (got "data" cfg) names.totals
    guard (not found) (
        wrong_kind kind id "total" (str_of py.repr (got "data" cfg))
          "Aggregates or raw data source")

  -- of two default buttons of one group the code only warns, but it looks the group up in a dict
  unfoldable pub check_toggle : Dict Json → Result Refusal (Unit {0})
  unfolding truthy in_set
  check_toggle cfg =
      if truthy (got "default_active" cfg) && truthy (got "toggle_group" cfg)
      then elim (in_set (got "toggle_group" cfg) []) [ none ↦ err raised | some b ↦ ok tt ]
      else ok tt

  unfoldable pub check_kind : (kind id : String) → Dict Json → Result Refusal (Unit {0})
  unfolding check_total check_aggregate check_toggle
  check_kind kind id cfg =
      if elem kind total_widgets
      then check_total kind id cfg
      else if elem kind aggregate_widgets
      then check_aggregate kind id cfg
      else if kind == "button_filter"
      then check_toggle cfg
      else if kind == "dropdown_single" || kind == "dropdown_multy"
      then check_aggregate kind id cfg
      else ok tt

  duplicate : String → Refusal
  duplicate id = validation (
      format (
        "duplicate widget id '" ∷ id ∷ "' in layout. Widget ids must be unique within a dashboard."
        ∷ []))

  -- one widget, after the widgets `seen`; `n` tells which fresh identifier it would get
  unfoldable pub checked_widget :
      (n : ℕ) (seen : List String) (kind : String) → Dict Json → Result Refusal Widget
  unfolding str_of sanitize_name duplicate check_grid check_kind
  checked_widget n seen kind cfg = do
    let id : String = elim (lookup "id" cfg) [ none ↦ py.fresh n | some v ↦ str_of py.repr v ]
    map_err validation (sanitize_name id (format ("widget '" ∷ kind ∷ "' id" ∷ [])))
    guard (not (elem id seen)) (duplicate id)
    check_grid kind id (lookup "grid" cfg)
    check_kind kind id cfg
    ok (record { kind = kind; id = id; config = cfg })

  unfoldable pub layout_of : (n : ℕ) (seen : List String) → List Json → Result Refusal (List Widget)
  unfolding widget_entry checked_widget
  layout_of n seen [] = ok []
  layout_of n seen (v ∷ vs) = elim (widget_entry v) [
    | none ↦ layout_of (n + 1) seen vs
    | some (kind, cfg) ↦ checked_widget n seen kind cfg >>= λ w.
        layout_of (n + 1) (w.id ∷ seen) vs >>= λ ws. ok (w ∷ ws)
  ]
