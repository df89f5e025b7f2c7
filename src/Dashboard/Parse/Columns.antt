-- ===== src/Dashboard/Parse/Columns.antt =====
-- Where the columns and operators of the parsed conditions come from.
use buchi_maker.Common.{
  if◌then◌else◌, Bool-cases, OnSome, All, All-append, Dict, lookup, insert, lookup-insert, has_key,
  Result, map_err, OnOk, OnOk-map, OnOk-bind, OnOk-true, ok, err, String, ◌≡◌, refl, sym, ap, subst,
  ◌∙◌, inl, inr, Bool, true, false, ◌||◌, Option, none, some, List, [], ◌∷◌, Memᴰ, ◌==◌, eq_iff,
}
use buchi_maker.Json.{Json}
use buchi_maker.Validator.{sanitize_name}
use buchi_maker.Dashboard.{Widget, Definition, Condition, op_map, column_of, operator_of, widget_of}
use buchi_maker.Dashboard.Parse.{
  Encoding, value_error, is_filter_widget, filter_widget_configs, alias_of, raw_value_of, selected,
  member_of, condition_of, add, conditions_of_items, values_of, column_for, conditions_of_widget,
  conditions_of, key_le, insert_sorted, sort_conditions, parse_widget_filters,
}

-- A filter widget of the layout has this id and this configuration.
pub record IsPlaced (layout : List Widget) (id : String) (cfg : Dict Json) : Type 0 where
  pub widget : Widget
  pub listed : Memᴰ widget layout
  pub filters : is_filter_widget widget ≡ true
  pub named : widget.id ≡ id
  pub configured : widget.config ≡ cfg

module _ (layout : List Widget) where
  abbrev AllPlaced : Dict (Dict Json) → Type 0
  AllPlaced found = (k : String) → OnSome (IsPlaced layout k) (lookup k found)

  insert-AllPlaced :
      (found : Dict (Dict Json)) (w : Widget)
      → Memᴰ w layout
      → is_filter_widget w ≡ true
      → AllPlaced found
      → AllPlaced (insert w.id w.config found)
  insert-AllPlaced found w m f h k = rw lookup-insert (elim (Bool-cases (w.id == k)) [
    | inl e ↦ rw e (record {
      widget = w;
      listed = m;
      filters = f;
      named = (eq_iff w.id k).0 e;
      configured = refl;
    })
    | inr e ↦ rw e (h k)
  ])

  configs-AllPlaced :
      (found : Dict (Dict Json)) (ws : List Widget)
      → ((w : Widget) → Memᴰ w ws → Memᴰ w layout)
      → AllPlaced found
      → AllPlaced (filter_widget_configs found ws)
  unfolding filter_widget_configs
  configs-AllPlaced found [] sub h = h
  configs-AllPlaced found (w ∷ ws) sub h =
      configs-AllPlaced (if is_filter_widget w then insert w.id w.config found else found) ws
        (λ v m. sub v (Memᴰ.tail m))
        (elim (Bool-cases (is_filter_widget w)) [
          | inl e ↦ rw e (insert-AllPlaced found w (sub w (Memᴰ.head refl)) e h)
          | inr e ↦ rw e h
        ])

-- A condition that names the column, the widget, and a known operator.
pub record IsAbout (col wid : String) (c : Condition) : Type 0 where
  pub column_is : column_of c ≡ col
  pub widget_is : widget_of c ≡ wid
  pub known : has_key (operator_of c) op_map ≡ true

module _ (enc : Encoding) (wid col : String) where
  member_of-IsAbout :
      (negated : Bool) (vs : List String)
      → OnSome (IsAbout col wid) (member_of enc col negated vs wid)
  unfolding member_of lookup
  member_of-IsAbout negated [] = tt
  member_of-IsAbout true (v ∷ vs) = record { column_is = refl; widget_is = refl; known = refl }
  member_of-IsAbout false (v ∷ vs) = record { column_is = refl; widget_is = refl; known = refl }

  condition_of-IsAbout :
      (item : Json) → OnOk (OnSome (IsAbout col wid)) (condition_of enc wid col item)
  unfolding condition_of
  condition_of-IsAbout item = elim (Bool-cases (has_key (alias_of enc item) op_map)) [
    | inl known ↦
        rw known (elim (Bool-cases (alias_of enc item == "in" || alias_of enc item == "not_in")) [
          | inl e ↦ rw e (
              member_of-IsAbout (alias_of enc item == "not_in")
                (selected enc (raw_value_of enc item)))
          | inr e ↦ rw e (record { column_is = refl; widget_is = refl; known = known })
        ])
    | inr unknown ↦ rw unknown tt
  ]

  add-All :
      (c : Option Condition) (cs : List Condition)
      → OnSome (IsAbout col wid) c
      → All (IsAbout col wid) cs
      → All (IsAbout col wid) (add enc c cs)
  add-All none cs h k = k
  add-All (some c) cs h k = (h, k)

  items-IsAbout :
      (items : List Json) → OnOk (All (IsAbout col wid)) (conditions_of_items enc wid col items)
  unfolding conditions_of_items
  items-IsAbout [] = tt
  items-IsAbout (item ∷ rest) =
      OnOk-bind (OnSome (IsAbout col wid)) (All (IsAbout col wid)) (condition_of enc wid col item) _
        (condition_of-IsAbout item)
        λ c h.
          OnOk-bind (All (IsAbout col wid)) (All (IsAbout col wid))
            (conditions_of_items enc wid col rest) _ (items-IsAbout rest) λ cs k. add-All c cs h k

-- The condition's column is the one that a filter widget of the layout maps to, for the widget that
-- the request names; it is not empty, and the operator is a known one.
pub record IsFromLayout (enc : Encoding) (dash : Definition) (c : Condition) : Type 0 where
  pub config : Dict Json
  pub placed : IsPlaced dash.layout (widget_of c) config
  pub mapped : column_for enc dash.mappings config ≡ ok (column_of c)
  pub present : (column_of c == "") ≡ false
  pub known : has_key (operator_of c) op_map ≡ true

OnOk-itself : {E A : Type 0} (r : Result E A) → OnOk (λ a. r ≡ ok a) r
OnOk-itself (ok a) = refl
OnOk-itself (err e) = tt

module _ (enc : Encoding) (dash : Definition) where
  IsAbout-IsFromLayout :
      (wid col : String) (cfg : Dict Json)
      → IsPlaced dash.layout wid cfg
      → column_for enc dash.mappings cfg ≡ ok col
      → (col == "") ≡ false
      → (cs : List Condition) → All (IsAbout col wid) cs
      → All (IsFromLayout enc dash) cs
  IsAbout-IsFromLayout wid col cfg p m n [] h = tt
  IsAbout-IsFromLayout wid col cfg p m n (c ∷ cs) (a, h) = (
    record {
      config = cfg;
      placed = subst (λ w. IsPlaced dash.layout w cfg) (sym a.widget_is) p;
      mapped = m ∙ ap ok (sym a.column_is);
      present = rw a.column_is n;
      known = a.known;
    },
    IsAbout-IsFromLayout wid col cfg p m n cs h,
  )

  column-IsFromLayout :
      (wid col : String) (cfg : Dict Json) (value : Json)
      → IsPlaced dash.layout wid cfg
      → column_for enc dash.mappings cfg ≡ ok col
      → OnOk
          (All (IsFromLayout enc dash))
          (if col == "" then ok [] else conditions_of_items enc wid col (values_of enc value))
  column-IsFromLayout wid col cfg value p m = elim (Bool-cases (col == "")) [
    | inl e ↦ rw e tt
    | inr e ↦ rw e (
        OnOk-map (All (IsAbout col wid)) (All (IsFromLayout enc dash))
          (conditions_of_items enc wid col (values_of enc value))
          (IsAbout-IsFromLayout wid col cfg p m e)
          (items-IsAbout enc wid col (values_of enc value)))
  ]

  widget-IsFromLayout :
      (wid : String) (cfg : Option (Dict Json)) (value : Json)
      → OnSome (IsPlaced dash.layout wid) cfg
      → OnOk (All (IsFromLayout enc dash)) (conditions_of_widget enc dash wid cfg value)
  unfolding conditions_of_widget
  widget-IsFromLayout wid none value p = tt
  widget-IsFromLayout wid (some cfg) value p =
      OnOk-bind (λ col. column_for enc dash.mappings cfg ≡ ok col) (All (IsFromLayout enc dash))
        (column_for enc dash.mappings cfg) _ (OnOk-itself (column_for enc dash.mappings cfg))
        λ col m. column-IsFromLayout wid col cfg value p m

  conditions-IsFromLayout :
      (raw : Dict Json) → OnOk (All (IsFromLayout enc dash)) (conditions_of enc dash raw)
  unfolding conditions_of
  conditions-IsFromLayout [] = tt
  conditions-IsFromLayout ((wid, value) ∷ rest) =
      let placed =
        configs-AllPlaced dash.layout [] dash.layout (λ w m. m) (λ k. unfold lookup in tt) wid in
      OnOk-bind (λ _. Unit {0}) (All (IsFromLayout enc dash))
        (map_err value_error (sanitize_name wid "filter widget_id")) _ (OnOk-true _)
        λ _ _.
          OnOk-bind (All (IsFromLayout enc dash)) (All (IsFromLayout enc dash))
            (conditions_of_widget enc dash wid _ value) _
            (widget-IsFromLayout wid (lookup wid (filter_widget_configs [] dash.layout)) value
              placed)
            λ cs h.
              OnOk-bind (All (IsFromLayout enc dash)) (All (IsFromLayout enc dash))
                (conditions_of enc dash rest) _ (conditions-IsFromLayout rest)
                λ ds k. All-append (IsFromLayout enc dash) cs ds h k

  insert_sorted-All :
      (P : Condition → Type 0) (c : Condition) (cs : List Condition)
      → P c
      → All P cs
      → All P (insert_sorted enc c cs)
  unfolding insert_sorted
  insert_sorted-All P c [] h k = (h, tt)
  insert_sorted-All P c (d ∷ ds) h (kd, ks) = elim (Bool-cases (key_le enc c d)) [
    | inl e ↦ rw e (h, (kd, ks))
    | inr e ↦ rw e (kd, insert_sorted-All P c ds h ks)
  ]

  sort_conditions-All :
      (P : Condition → Type 0) (cs : List Condition) → All P cs → All P (sort_conditions enc cs)
  unfolding sort_conditions
  sort_conditions-All P [] h = tt
  sort_conditions-All P (c ∷ cs) (h, k) =
      insert_sorted-All P c (sort_conditions enc cs) h (sort_conditions-All P cs k)

  -- Whatever the request sends, each condition that the parser returns filters on the column of a
  -- filter widget of the layout, with a known operator.
  pub parse-IsFromLayout :
      (raw : Dict Json)
      → OnOk
          (λ (r : List Condition × String). All (IsFromLayout enc dash) r.0)
          (parse_widget_filters enc dash raw)
  unfolding parse_widget_filters
  parse-IsFromLayout raw =
      OnOk-bind (All (IsFromLayout enc dash))
        (λ (r : List Condition × String). All (IsFromLayout enc dash) r.0)
        (conditions_of enc dash raw) _ (conditions-IsFromLayout raw)
        λ cs h. sort_conditions-All (IsFromLayout enc dash) cs h
