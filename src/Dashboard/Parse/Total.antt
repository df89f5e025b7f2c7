-- ===== src/Dashboard/Parse/Total.antt =====
-- The parsed conditions always have a WHERE clause.
use buchi_maker.Common.{
  Bool-cases, is_some, All, Dict, lookup, has_key, OnOk, OnOk-map, String, ◌≡◌, refl, inl, inr,
  true, ◌||◌, Option, none, some, List, [], ◌∷◌, arith, ◌==◌,
}
use buchi_maker.Json.{Json}
use buchi_maker.Dashboard.{Definition, Condition, compare, member, op_map, operator_of}
use buchi_maker.Dashboard.Where.{
  Part, operator_part, compare_part, condition_part, parts_of, cons_part, finish, build_sql_where,
}
use buchi_maker.Dashboard.Parse.{Encoding, parse_widget_filters}
use buchi_maker.Dashboard.Parse.Columns.{IsFromLayout, parse-IsFromLayout}

operator_part-some :
    (col val : String) (found : Option String)
    → is_some found ≡ true
    → is_some (operator_part col found val) ≡ true
unfolding operator_part
operator_part-some col val none h = h
operator_part-some col val (some op) h = refl

compare_part-some :
    (col op val : String) → has_key op op_map ≡ true → is_some (compare_part col op val) ≡ true
unfolding compare_part
compare_part-some col op val h = ground (arith, operator_part-some col val (lookup op op_map) h)

condition_part-some :
    (c : Condition) → has_key (operator_of c) op_map ≡ true → is_some (condition_part c) ≡ true
unfolding condition_part
condition_part-some (compare col op val wid) h = elim (Bool-cases (op == "in" || op == "not_in")) [
  | inl e ↦ rw e refl
  | inr e ↦ rw e (compare_part-some col op val h)
]
condition_part-some (member col negated vals wid) h = refl

cons_part-some :
    (p : Option Part) (ps : Option (List Part))
    → is_some p ≡ true
    → is_some ps ≡ true
    → is_some (cons_part p ps) ≡ true
cons_part-some none ps h k = h
cons_part-some (some p) none h k = k
cons_part-some (some p) (some ps) h k = refl

module _ (enc : Encoding) (dash : Definition) where
  parts_of-some :
      (cs : List Condition) → All (IsFromLayout enc dash) cs → is_some (parts_of cs) ≡ true
  unfolding parts_of
  parts_of-some [] h = refl
  parts_of-some (c ∷ cs) (h, k) =
      cons_part-some (condition_part c) (parts_of cs) (condition_part-some c h.known)
        (parts_of-some cs k)

  finish-some : (ps : Option (List Part)) → is_some ps ≡ true → is_some (finish ps) ≡ true
  finish-some none h = h
  finish-some (some ps) h = refl

  where-some :
      (cs : List Condition) → All (IsFromLayout enc dash) cs → is_some (build_sql_where cs) ≡ true
  unfolding build_sql_where
  where-some [] h = refl
  where-some (c ∷ cs) h = finish-some (parts_of (c ∷ cs)) (parts_of-some (c ∷ cs) h)

  -- The conditions that the parser returns always have a WHERE clause: the look-up of an operator
  -- never fails on them.
  pub parse-build_sql_where :
      (raw : Dict Json)
      → OnOk
          (λ (r : List Condition × String). is_some (build_sql_where r.0) ≡ true)
          (parse_widget_filters enc dash raw)
  parse-build_sql_where raw =
      OnOk-map (λ (r : List Condition × String). All (IsFromLayout enc dash) r.0) _
        (parse_widget_filters enc dash raw) (λ r h. where-some r.0 h)
        (parse-IsFromLayout enc dash raw)
