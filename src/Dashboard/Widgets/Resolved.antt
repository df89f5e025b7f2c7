-- ===== src/Dashboard/Widgets/Resolved.antt =====
-- Every entry of the widget map points at data that the response holds.
use buchi_maker.Common.{
  Bool-cases, OnSome, All, elem, elem-append, String, ◌≡◌, refl, subst, inl, inr, true, false,
  Option, none, some, List, [], ◌∷◌, arith, ◌==◌, eq_refl,
}
use buchi_maker.Json.{Json}
use buchi_maker.Dashboard.{Widget, Definition, aggregate_widgets, total_widgets, filter_widgets}
use buchi_maker.Dashboard.Widgets.{
  total, aggregate, raw, Entry, total_names, aggregate_names, is_dropdown, config_text,
  aggregate_or_raw, total_or_literal, entry_of, raw_source_of, raw_name, append_new,
  collect_sources, DataType, add_entry, map_widgets, build_widget_map, raw_sources_needed,
}

module _ (repr : Json → String) (dash : Definition) where
  abbrev pub IsResolved : List String → Entry → Type 0
  IsResolved sources e = elim e.data_type [
    | total ↦ elem e.data_key (total_names dash) ≡ true
    | aggregate ↦ elem e.data_key (aggregate_names dash) ≡ true
    | raw ↦ elem e.data_key sources ≡ true
  ]

  append_new-elem :
      (x : String) (needed : List String) (source : String)
      → elem x needed ≡ true
      → elem x (append_new repr needed source) ≡ true
  append_new-elem x needed source h = ground (arith, elem-append x needed (source ∷ []))

  append_new_self :
      (needed : List String) (source : String)
      → (source == "") ≡ false
      → elem source (append_new repr needed source) ≡ true
  append_new_self needed source h =
      ground (arith, elem-append source needed (source ∷ []), eq_refl source)

  collect-elem :
      (x : String) (needed : List String) (ws : List Widget)
      → elem x needed ≡ true
      → elem x (collect_sources repr dash needed ws) ≡ true
  unfolding collect_sources
  collect-elem x needed [] h = h
  collect-elem x needed (w ∷ ws) h =
      collect-elem x (append_new repr needed (raw_source_of repr dash w)) ws
        (append_new-elem x needed (raw_source_of repr dash w) h)

  -- what an entry of one widget points at
  abbrev IsOwn : Widget → Entry → Type 0
  IsOwn w e = elim e.data_type [
    | total ↦ elem e.data_key (total_names dash) ≡ true
    | aggregate ↦ elem e.data_key (aggregate_names dash) ≡ true
    | raw ↦ (raw_source_of repr dash w ≡ e.data_key) × ((e.data_key == "") ≡ false)
  ]

  named-IsOwn :
      (w : Widget)
      → raw_source_of repr dash w ≡ raw_name repr dash w
      → OnSome (IsOwn w) (aggregate_or_raw repr dash w)
  unfolding raw_name
  named-IsOwn w h = elim (Bool-cases (elem (config_text repr "data" w) (aggregate_names dash))) [
    | inl e ↦ rw e e
    | inr e ↦ rw e (elim (Bool-cases (config_text repr "data" w == "")) [
      | inl e' ↦ rw e' tt
      | inr e' ↦ rw e' (rw h (rw (e, e') refl), e')
    ])
  ]

  total-IsOwn : (w : Widget) → OnSome (IsOwn w) (total_or_literal repr dash w)
  total-IsOwn w = elim (Bool-cases (elem (config_text repr "value" w) (total_names dash))) [
    | inl e ↦ rw e e
    | inr e ↦ rw e tt
  ]

  entry_of-IsOwn : (w : Widget) → OnSome (IsOwn w) (entry_of repr dash w)
  unfolding entry_of
  entry_of-IsOwn w = elim (Bool-cases (w.id == "")) [
    | inl e ↦ rw e tt
    | inr e ↦ rw e (elim (Bool-cases (is_dropdown w.kind)) [
      | inl e ↦ rw e (named-IsOwn w (unfold raw_source_of in rw e refl))
      | inr d ↦ rw d (elim (Bool-cases (elem w.kind filter_widgets)) [
        | inl e ↦ rw e tt
        | inr f ↦ rw f (elim (Bool-cases (elem w.kind total_widgets)) [
          | inl e ↦ rw e (total-IsOwn w)
          | inr t ↦ rw t (elim (Bool-cases (elem w.kind aggregate_widgets)) [
            | inl a ↦ rw a (named-IsOwn w (unfold raw_source_of in rw (d, f, t, a) refl))
            | inr e ↦ rw e tt
          ])
        ])
      ])
    ])
  ]

  own-IsResolved :
      (w : Widget) (sources : List String) (e : Entry)
      → ((raw_source_of repr dash w == "") ≡ false
          → elem (raw_source_of repr dash w) sources ≡ true)
      → IsOwn w e
      → IsResolved sources e
  own-IsResolved w sources e has own = go e.data_type refl own
    where
      go : (t : DataType) → e.data_type ≡ t → IsOwn w e → IsResolved sources e
      go total p o = rw p (rw p at o)
      go aggregate p o = rw p (rw p at o)
      go raw p o =
          let (same, present) = rw p at o in
          rw p (subst (λ x. elem x sources ≡ true) same (has (rw same present)))

  add_entry-All :
      (P : Entry → Type 0) (o : Option Entry) (es : List Entry)
      → OnSome P o
      → All P es
      → All P (add_entry repr o es)
  add_entry-All P none es h k = k
  add_entry-All P (some e) es h k = (h, k)

  OnSome-map :
      (P Q : Entry → Type 0) (o : Option Entry)
      → ((e : Entry) → P e → Q e)
      → OnSome P o
      → OnSome Q o
  OnSome-map P Q none f h = tt
  OnSome-map P Q (some e) f h = f e h

  map_widgets-IsResolved :
      (needed : List String) (ws : List Widget)
      → All (IsResolved (collect_sources repr dash needed ws)) (map_widgets repr dash ws)
  unfolding map_widgets collect_sources
  map_widgets-IsResolved needed [] = tt
  map_widgets-IsResolved needed (w ∷ ws) =
      let needed' = append_new repr needed (raw_source_of repr dash w) in
      let sources = collect_sources repr dash needed' ws in
      add_entry-All (IsResolved sources) (entry_of repr dash w) (map_widgets repr dash ws)
        (OnSome-map (IsOwn w) (IsResolved sources) (entry_of repr dash w)
          (λ e. own-IsResolved w sources e (λ n.
            collect-elem (raw_source_of repr dash w) needed' ws
              (append_new_self needed (raw_source_of repr dash w) n)))
          (entry_of-IsOwn w))
        (map_widgets-IsResolved needed' ws)

  -- Every entry of the widget map names a total of the dashboard, an aggregate of the dashboard, or a
  -- raw source that the code goes on to query, each according to its data type.
  pub widget_map-IsResolved :
      All (IsResolved (raw_sources_needed repr dash)) (build_widget_map repr dash)
  unfolding build_widget_map raw_sources_needed
  widget_map-IsResolved = map_widgets-IsResolved [] dash.layout
