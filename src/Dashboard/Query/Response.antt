-- ===== src/Dashboard/Query/Response.antt =====
-- The response holds what its widget map points at.
use buchi_maker.Common.{
  Bool-cases, OnSome, All, elem, Dict, insert, lookup-insert, has_key, ℕ, String, ◌≡◌, refl, inl,
  inr, true, Option, none, some, List, [], ◌∷◌, map, arith, ◌==◌,
}
use buchi_maker.Json.{Json}
use buchi_maker.Dashboard.{Definition, Condition}
use buchi_maker.Dashboard.Where.{Part, build_sql_where}
use buchi_maker.Dashboard.Widgets.{
  Entry, DataType, total, aggregate, raw, build_widget_map, raw_sources_needed,
}
use buchi_maker.Dashboard.Widgets.Resolved.{IsResolved, widget_map-IsResolved}
use buchi_maker.Dashboard.Query.{Database, map_some, collect, Data, data_for, get_data_for_filters}

module _ {V A : Type 0} (name : A → String) (value : A → V) where
  collect-keep :
      (k : String) (found : Dict V) (xs : List A)
      → has_key k found ≡ true
      → has_key k (collect name value found xs) ≡ true
  unfolding collect
  collect-keep k found [] h = h
  collect-keep k found (x ∷ xs) h =
      collect-keep k (insert (name x) (value x) found) xs (rw lookup-insert (ground arith))

  collect-has_key :
      (k : String) (found : Dict V) (xs : List A)
      → elem k (map name xs) ≡ true
      → has_key k (collect name value found xs) ≡ true
  unfolding collect
  collect-has_key k found [] h = cc
  collect-has_key k found (x ∷ xs) h = elim (Bool-cases (name x == k)) [
    | inl e ↦ collect-keep k (insert (name x) (value x) found) xs (rw lookup-insert (rw e refl))
    | inr e ↦ collect-has_key k (insert (name x) (value x) found) xs (ground arith)
  ]

-- The data that a widget map entry points at is in the response.
abbrev pub IsAnswered : Data → Entry → Type 0
IsAnswered response e = elim e.data_type [
  | total ↦ has_key e.data_key response.totals ≡ true
  | aggregate ↦ has_key e.data_key response.aggregates ≡ true
  | raw ↦ has_key e.data_key response.raw ≡ true
]

module _ (db : Database) (repr : Json → String) (dash : Definition) (row_limit : ℕ) where
  elem-map_id : (k : String) (xs : List String) → elem k xs ≡ true → elem k (map (λ s. s) xs) ≡ true
  elem-map_id k [] h = h
  elem-map_id k (x ∷ xs) h = ground (arith, elem-map_id k xs)

  resolved-IsAnswered :
      (part : Part) (e : Entry)
      → IsResolved repr dash (raw_sources_needed repr dash) e
      → IsAnswered (data_for db repr dash row_limit part) e
  unfolding data_for
  resolved-IsAnswered part e own = go e.data_type refl own
    where
      go :
          (t : DataType)
          → e.data_type ≡ t
          → IsResolved repr dash (raw_sources_needed repr dash) e
          → IsAnswered (data_for db repr dash row_limit part) e
      go total p o = rw p (collect-has_key _ _ e.data_key [] dash.summaries (rw p at o))
      go aggregate p o = rw p (collect-has_key _ _ e.data_key [] dash.aggregates (rw p at o))
      go raw p o = rw p (
          collect-has_key _ _ e.data_key [] (raw_sources_needed repr dash)
            (elem-map_id e.data_key (raw_sources_needed repr dash) (rw p at o)))

  All-IsAnswered :
      (part : Part) (es : List Entry)
      → All (IsResolved repr dash (raw_sources_needed repr dash)) es
      → All (IsAnswered (data_for db repr dash row_limit part)) es
  All-IsAnswered part [] h = tt
  All-IsAnswered part (e ∷ es) (h, k) = (resolved-IsAnswered part e h, All-IsAnswered part es k)

  data_for-IsAnswered :
      (found : Option Part)
      → OnSome
          (λ (d : Data). All (IsAnswered d) d.widget_map)
          (map_some (data_for db repr dash row_limit) found)
  data_for-IsAnswered none = tt
  data_for-IsAnswered (some part) =
      unfold data_for in
      All-IsAnswered part (build_widget_map repr dash) (widget_map-IsResolved repr dash)

  -- In every response, the data that each entry of the widget map points at is there: its total, its
  -- aggregate or its raw source, whatever the conditions and even where a query failed.
  pub get_data-IsAnswered :
      (conditions : List Condition)
      → OnSome
          (λ (d : Data). All (IsAnswered d) d.widget_map)
          (get_data_for_filters db repr dash conditions row_limit)
  unfolding get_data_for_filters
  get_data-IsAnswered conditions = data_for-IsAnswered (build_sql_where conditions)
