-- ===== src/Dashboard/Where/Placeholders.antt =====
-- Every placeholder has its parameter.
use buchi_maker.Common.{
  if◌then◌else◌, Bool-cases, OnSome, length, all, All, length-append, codes, format, join,
  count_code, marks, marks-append, lookup, lookup-All, ℕ, String, ◌≡◌, refl, inl, inr, Bool, true,
  false, ◌||◌, Option, none, some, List, [], ◌∷◌, arith, ◌==◌,
}
use buchi_maker.Python.Chars.{is_space, is_decimal, is_letter}
use buchi_maker.Python.Float.{is_float}
use buchi_maker.Python.Float.Literal.{is_literal_char, is_float-all_literal}
use buchi_maker.Dashboard.{Condition, compare, member, op_map, column_of}
use buchi_maker.Dashboard.Where.{
  Part, placeholders, member_part, operator_part, compare_part, condition_part, parts_of, clause_of,
  params_of, finish, cons_part, build_sql_where,
}

not_literal : is_literal_char b'?' ≡ false
unfolding is_literal_char is_space is_decimal is_letter
not_literal = refl

literal_marks : (s : List ℕ) → all is_literal_char s ≡ true → count_code b'?' s ≡ 0
literal_marks [] h = refl
literal_marks (c ∷ s) h = ground (arith, not_literal, literal_marks s)

float_marks : (v : String) → is_float v ≡ true → marks v ≡ 0
float_marks v h = literal_marks (codes v) (is_float-all_literal v h)

marks-join_float : (vs : List String) → all is_float vs ≡ true → marks (join ", " vs) ≡ 0
marks-join_float [] h = refl
marks-join_float (v ∷ []) h = float_marks v (ground arith)
marks-join_float (v ∷ w ∷ vs) h =
    simp marks-append (ground (arith, float_marks v, marks-join_float (w ∷ vs)))

marks-placeholders : (vs : List String) → marks (placeholders vs) ≡ length vs
marks-placeholders [] = refl
marks-placeholders (v ∷ []) = refl
marks-placeholders (v ∷ w ∷ vs) = simp marks-append (ground (arith, marks-placeholders (w ∷ vs)))

-- As many placeholders as parameters.
abbrev pub IsBalanced : Part → Type 0
IsBalanced p = marks p.0 ≡ length p.1

module _ (col : String) (plain : marks col ≡ 0) where
  member_part-IsBalanced :
      (negated : Bool) (vs : List String) → IsBalanced (member_part col negated vs)
  unfolding member_part
  member_part-IsBalanced true [] = refl
  member_part-IsBalanced false [] = refl
  member_part-IsBalanced true (v ∷ vs) = elim (Bool-cases (all is_float (v ∷ vs))) [
    | inl e ↦ rw e (simp marks-append (ground (arith, plain, marks-join_float (v ∷ vs))))
    | inr e ↦ rw e (simp marks-append (ground (arith, plain, marks-placeholders (v ∷ vs))))
  ]
  member_part-IsBalanced false (v ∷ vs) = elim (Bool-cases (all is_float (v ∷ vs))) [
    | inl e ↦ rw e (simp marks-append (ground (arith, plain, marks-join_float (v ∷ vs))))
    | inr e ↦ rw e (simp marks-append (ground (arith, plain, marks-placeholders (v ∷ vs))))
  ]

  sql_part : String → String → Part
  sql_part op val =
      if is_float val
      then (format (col ∷ " " ∷ op ∷ " " ∷ val ∷ []), [])
      else (format (col ∷ " " ∷ op ∷ " ?" ∷ []), val ∷ [])

  sql_part-IsBalanced : (op val : String) → marks op ≡ 0 → IsBalanced (sql_part op val)
  unfolding sql_part
  sql_part-IsBalanced op val h = elim (Bool-cases (is_float val)) [
    | inl e ↦ rw e (simp marks-append (ground (arith, plain, h, float_marks val)))
    | inr e ↦ rw e (simp marks-append (ground (arith, plain, h)))
  ]

  minutes_part : String → Part
  minutes_part val =
      if is_float val
      then (format (col ∷ " >= CURRENT_TIMESTAMP - INTERVAL '" ∷ val ∷ "' MINUTE" ∷ []), [])
      else ("1=1", [])

  minutes_part-IsBalanced : (val : String) → IsBalanced (minutes_part val)
  unfolding minutes_part
  minutes_part-IsBalanced val = elim (Bool-cases (is_float val)) [
    | inl e ↦ rw e (simp marks-append (ground (arith, plain, float_marks val)))
    | inr e ↦ rw e refl
  ]

  like_part-IsBalanced : (v : String) → IsBalanced (format (col ∷ " LIKE ?" ∷ []), v ∷ [])
  like_part-IsBalanced v = simp marks-append (ground (arith, plain))

sql_op_marks : (op_alias : String) → OnSome (λ op. marks op ≡ 0) (lookup op_alias op_map)
sql_op_marks op_alias = lookup-All (λ op. marks op ≡ 0) op_alias op_map (omega arith)

module _ (col : String) (plain : marks col ≡ 0) where
  looked_up-IsBalanced :
      (val : String) (found : Option String)
      → OnSome (λ op. marks op ≡ 0) found
      → OnSome IsBalanced (operator_part col found val)
  unfolding operator_part sql_part
  looked_up-IsBalanced val none h = tt
  looked_up-IsBalanced val (some op) h = sql_part-IsBalanced col plain op val h

  compare_part-IsBalanced :
      (op_alias val : String) → OnSome IsBalanced (compare_part col op_alias val)
  unfolding compare_part minutes_part
  compare_part-IsBalanced op_alias val = elim (Bool-cases (op_alias == "last_minutes")) [
    | inl e ↦ rw e (minutes_part-IsBalanced col plain val)
    | inr e ↦ rw e (elim (Bool-cases (op_alias == "has")) [
      | inl e ↦ rw e (like_part-IsBalanced col plain (format ("%" ∷ val ∷ "%" ∷ [])))
      | inr e ↦ rw e (elim (Bool-cases (op_alias == "prefix")) [
        | inl e ↦ rw e (like_part-IsBalanced col plain (format (val ∷ "%" ∷ [])))
        | inr e ↦ rw e (elim (Bool-cases (op_alias == "suffix")) [
          | inl e ↦ rw e (like_part-IsBalanced col plain (format ("%" ∷ val ∷ [])))
          | inr e ↦ rw e (looked_up-IsBalanced val (lookup op_alias op_map) (sql_op_marks op_alias))
        ])
      ])
    ])
  ]

-- A condition whose column holds no question mark.
abbrev pub IsPlain : Condition → Type 0
IsPlain c = marks (column_of c) ≡ 0

condition_part-IsBalanced : (c : Condition) → IsPlain c → OnSome IsBalanced (condition_part c)
unfolding condition_part
condition_part-IsBalanced (compare col op val _) h =
    elim (Bool-cases (op == "in" || op == "not_in")) [
      | inl e ↦ rw e (member_part-IsBalanced col h (op == "not_in") (val ∷ []))
      | inr e ↦ rw e (compare_part-IsBalanced col h op val)
    ]
condition_part-IsBalanced (member col negated vals _) h = member_part-IsBalanced col h negated vals

cons_part-IsBalanced :
    (p : Option Part) (ps : Option (List Part))
    → OnSome IsBalanced p
    → OnSome (All IsBalanced) ps
    → OnSome (All IsBalanced) (cons_part p ps)
cons_part-IsBalanced none ps h k = tt
cons_part-IsBalanced (some p) none h k = tt
cons_part-IsBalanced (some p) (some ps) h k = (h, k)

parts_of-IsBalanced : (cs : List Condition) → All IsPlain cs → OnSome (All IsBalanced) (parts_of cs)
unfolding parts_of
parts_of-IsBalanced [] h = tt
parts_of-IsBalanced (c ∷ cs) (h, k) =
    cons_part-IsBalanced (condition_part c) (parts_of cs) (condition_part-IsBalanced c h)
      (parts_of-IsBalanced cs k)

clause-IsBalanced :
    (ps : List Part) → All IsBalanced ps → marks (clause_of ps) ≡ length (params_of ps)
clause-IsBalanced [] h = refl
clause-IsBalanced (p ∷ []) h = ground (arith, h.0, length-append p.1 [])
clause-IsBalanced (p ∷ q ∷ ps) (h, k) =
    simp (marks-append, length-append)
      (ground (arith, h, clause-IsBalanced (q ∷ ps) k, length-append q.1 (params_of ps)))

finish-IsBalanced :
    (ps : Option (List Part)) → OnSome (All IsBalanced) ps → OnSome IsBalanced (finish ps)
finish-IsBalanced none h = tt
finish-IsBalanced (some ps) h = clause-IsBalanced ps h

-- For columns without a question mark, the WHERE clause holds exactly as many placeholders as
-- there are parameters to bind, whatever the values that the request filters by.
pub build_sql_where-IsBalanced :
    (cs : List Condition) → All IsPlain cs → OnSome IsBalanced (build_sql_where cs)
unfolding build_sql_where
build_sql_where-IsBalanced [] h = refl
build_sql_where-IsBalanced (c ∷ cs) h =
    finish-IsBalanced (parts_of (c ∷ cs)) (parts_of-IsBalanced (c ∷ cs) h)
