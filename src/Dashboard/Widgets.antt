-- ===== src/Dashboard/Widgets.antt =====
-- Dashboard._build_widget_map, _raw_sources_needed and _widget_unfiltered_data_refs: what the widgets
-- of the layout show.
pub mod Resolved
use buchi_maker.Common.{
  if◌then◌else◌, drop, elem, lookup, ok, ◌+◌, ◌-◌, String, ap, Bool, false, not, ◌&&◌, ◌||◌, Option,
  none, some, List, [], ◌∷◌, ◌++◌, map, ◌==◌,
}
use buchi_maker.Json.{Json, truthy, str_of, get_or}
use buchi_maker.Dashboard.{
  Widget, Definition, Summary, Aggregate, aggregate_widgets, total_widgets, filter_widgets,
}

pub data DataType : Type 0 where
  total aggregate raw : DataType

-- an entry of the widget map
pub record Entry : Type 0 where
  pub widget_id : String
  pub data_type : DataType
  pub data_key : String

abbrev pub total_names : Definition → List String
total_names dash = map (λ (s : Summary). s.name) dash.summaries

abbrev pub aggregate_names : Definition → List String
aggregate_names dash = map (λ (a : Aggregate). a.name) dash.aggregates

abbrev pub is_dropdown : String → Bool
is_dropdown kind = kind == "dropdown_single" || kind == "dropdown_multy"

-- cfg.get("unfiltered"), as a truth value
abbrev pub is_flagged : Widget → Bool
is_flagged w = elim (lookup "unfiltered" w.config) [ none ↦ false | some v ↦ truthy v ]

module _ (repr : Json → String) where
  -- str(cfg.get(key, ""))
  abbrev pub config_text : String → Widget → String
  config_text key w = str_of repr (get_or key "" w.config)

  abbrev pub aggregate_or_raw : Definition → Widget → Option Entry
  aggregate_or_raw dash w =
      let data_ref = config_text "data" w in
      if elem data_ref (aggregate_names dash)
      then some (record { widget_id = w.id; data_type = aggregate; data_key = data_ref })
      else if not (data_ref == "")
      then some (record { widget_id = w.id; data_type = raw; data_key = data_ref })
      else none

  abbrev pub total_or_literal : Definition → Widget → Option Entry
  total_or_literal dash w =
      let value_ref = config_text "value" w in
      if elem value_ref (total_names dash)
      then some (record { widget_id = w.id; data_type = total; data_key = value_ref })
      else none

  -- one round of the loop: `none` adds nothing
  unfoldable pub entry_of : Definition → Widget → Option Entry
  entry_of dash w =
      if w.id == ""
      then none
      else if is_dropdown w.kind
      then aggregate_or_raw dash w
      else if elem w.kind filter_widgets
      then none
      else if elem w.kind total_widgets
      then total_or_literal dash w
      else if elem w.kind aggregate_widgets
      then aggregate_or_raw dash w
      else none

  abbrev pub add_entry : Option Entry → List Entry → List Entry
  add_entry none es = es
  add_entry (some e) es = e ∷ es

  unfoldable pub map_widgets : Definition → List Widget → List Entry
  unfolding entry_of
  map_widgets dash [] = []
  map_widgets dash (w ∷ ws) = add_entry (entry_of dash w) (map_widgets dash ws)

  unfoldable pub build_widget_map : Definition → List Entry
  unfolding map_widgets
  build_widget_map dash = map_widgets dash dash.layout

  -- the widget's `data`, unless it is an aggregate
  unfoldable pub raw_name : Definition → Widget → String
  raw_name dash w =
      let data_ref = config_text "data" w in
      if not (data_ref == "") && not (elem data_ref (aggregate_names dash)) then data_ref else ""

  -- the raw source that a widget needs, or the empty text
  unfoldable pub raw_source_of : Definition → Widget → String
  unfolding raw_name
  raw_source_of dash w =
      if is_dropdown w.kind
      then raw_name dash w
      else if elem w.kind filter_widgets || elem w.kind total_widgets
      then ""
      else if not (elem w.kind aggregate_widgets)
      then ""
      else raw_name dash w

  abbrev pub append_new : List String → String → List String
  append_new needed source =
      if source == "" || elem source needed then needed else needed ++ source ∷ []

  unfoldable pub collect_sources : Definition → List String → List Widget → List String
  unfolding raw_source_of
  collect_sources dash needed [] = needed
  collect_sources dash needed (w ∷ ws) =
      collect_sources dash (append_new needed (raw_source_of dash w)) ws

  unfoldable pub raw_sources_needed : Definition → List String
  unfolding collect_sources
  raw_sources_needed dash = collect_sources dash [] dash.layout

  unfoldable pub unfiltered_refs : List Widget → List String
  unfiltered_refs [] = []
  unfiltered_refs (w ∷ ws) =
      let data_ref = config_text "data" w in
      let rest = unfiltered_refs ws in
      if not (data_ref == "") && is_flagged w then data_ref ∷ rest else rest

  unfoldable pub widget_unfiltered_data_refs : Definition → List String
  unfolding unfiltered_refs
  widget_unfiltered_data_refs dash = unfiltered_refs dash.layout
