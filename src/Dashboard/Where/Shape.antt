-- ===== src/Dashboard/Where/Shape.antt =====
-- Texts of the request never become part of the WHERE clause.
use buchi_maker.Common.{
  if◌then◌else◌, Bool-cases, all, join, lookup, String, ◌≡◌, refl, ap, ◌∙◌, inl, inr, Bool, false,
  ◌||◌, Option, none, some, List, [], ◌∷◌, map, arith, ◌==◌,
}
use buchi_maker.Python.Float.{is_float}
use buchi_maker.Dashboard.{Condition, compare, member, op_map}
use buchi_maker.Dashboard.Where.{
  Part, placeholders, member_part, operator_part, compare_part, condition_part, parts_of, finish,
  cons_part, build_sql_where,
}

-- A value with what is no number taken out.
abbrev pub mask_text : String → String
mask_text v = if is_float v then v else ""

abbrev pub blank : List String → List String
blank [] = []
blank (v ∷ vs) = "" ∷ blank vs

-- a list is bound value by value unless all of them are numbers
abbrev pub mask_list : List String → List String
mask_list vs = if all is_float vs then vs else blank vs

unfoldable pub mask : Condition → Condition
mask (compare col op val wid) = compare col op (mask_text val) wid
mask (member col negated vals wid) = member col negated (mask_list vals) wid

abbrev pub text_of : Option Part → Option String
text_of none = none
text_of (some p) = some p.0

empty_is_no_float : is_float "" ≡ false
unfolding is_float
empty_is_no_float = refl

mask_text-is_float : (v : String) → is_float (mask_text v) ≡ is_float v
mask_text-is_float v = elim (Bool-cases (is_float v)) [
  | inl e ↦ rw e e
  | inr e ↦ rw e empty_is_no_float
]

blank-is_float : (v : String) (vs : List String) → all is_float (blank (v ∷ vs)) ≡ false
blank-is_float v vs = rw empty_is_no_float

marks-blank :
    (vs : List String) → map {B = String} (λ (v : String). "?") (blank vs) ≡ map (λ v. "?") vs
marks-blank [] = refl
marks-blank (v ∷ vs) = ap (λ (t : List String). "?" ∷ t) (marks-blank vs)

placeholders-blank : (vs : List String) → placeholders (blank vs) ≡ placeholders vs
placeholders-blank vs = ap (join ", ") (marks-blank vs)

member-mask :
    (col : String) (negated : Bool) (vs : List String)
    → (member_part col negated (mask_list vs)).0 ≡ (member_part col negated vs).0
unfolding member_part
member-mask col negated [] = refl
member-mask col negated (v ∷ vs) = elim (Bool-cases (all is_float (v ∷ vs))) [
  | inl e ↦ rw e (rw e refl)
  | inr e ↦ rw e (rw empty_is_no_float (rw (placeholders-blank (v ∷ vs)) refl))
]

operator-mask :
    (col val : String) (found : Option String)
    → text_of (operator_part col found (mask_text val)) ≡ text_of (operator_part col found val)
unfolding operator_part
operator-mask col val none = refl
operator-mask col val (some op) = elim (Bool-cases (is_float val)) [
  | inl e ↦ rw e (rw e refl)
  | inr e ↦ rw e (rw empty_is_no_float refl)
]

compare-mask :
    (col op val : String)
    → text_of (compare_part col op (mask_text val)) ≡ text_of (compare_part col op val)
unfolding compare_part
compare-mask col op val =
    ground (arith, operator-mask col val (lookup op op_map), empty_is_no_float)

lone-mask : (val : String) → mask_text val ∷ [] ≡ mask_list (val ∷ [])
lone-mask val = elim (Bool-cases (is_float val)) [ inl e ↦ rw e refl | inr e ↦ rw e refl ]

lone_member :
    (col : String) (negated : Bool) (val : String)
    → some (member_part col negated (mask_text val ∷ [])).0
      ≡ some (member_part col negated (val ∷ [])).0
lone_member col negated val =
    ap (λ vs. some (member_part col negated vs).0) (lone-mask val)
    ∙ ap some (member-mask col negated (val ∷ []))

condition-mask : (c : Condition) → text_of (condition_part (mask c)) ≡ text_of (condition_part c)
unfolding condition_part mask
condition-mask (compare col op val wid) = elim (Bool-cases (op == "in" || op == "not_in")) [
  | inl e ↦ rw e (lone_member col (op == "not_in") val)
  | inr e ↦ rw e (compare-mask col op val)
]
condition-mask (member col negated vals wid) = ap some (member-mask col negated vals)

abbrev texts_of : Option (List Part) → Option (List String)
texts_of none = none
texts_of (some ps) = some (map (λ (p : Part). p.0) ps)

cons-mask :
    (p q : Option Part) (ps qs : Option (List Part))
    → text_of p ≡ text_of q
    → texts_of ps ≡ texts_of qs
    → texts_of (cons_part p ps) ≡ texts_of (cons_part q qs)
cons-mask none none ps qs h k = refl
cons-mask none (some q) ps qs h k = cc
cons-mask (some p) none ps qs h k = cc
cons-mask (some p) (some q) none none h k = refl
cons-mask (some p) (some q) none (some qs) h k = cc
cons-mask (some p) (some q) (some ps) none h k = cc
cons-mask (some p) (some q) (some ps) (some qs) h k = ground (arith, h, k)

parts-mask : (cs : List Condition) → texts_of (parts_of (map mask cs)) ≡ texts_of (parts_of cs)
unfolding parts_of
parts-mask [] = refl
parts-mask (c ∷ cs) =
    cons-mask (condition_part (mask c)) (condition_part c) (parts_of (map mask cs)) (parts_of cs)
      (condition-mask c) (parts-mask cs)

abbrev joined : Option (List String) → Option String
joined none = none
joined (some ts) = some (join " AND " ts)

finish-mask :
    (ps qs : Option (List Part))
    → texts_of ps ≡ texts_of qs
    → text_of (finish ps) ≡ text_of (finish qs)
finish-mask none none h = refl
finish-mask none (some qs) h = cc
finish-mask (some ps) none h = cc
finish-mask (some ps) (some qs) h = ap (joined) h

-- The text of the WHERE clause stays the same when every value that `float` does not accept is
-- replaced by the empty text (in a list, when not all of its values are numbers): it is made of the
-- columns, the operators, the numbers and the lengths of the lists alone.
pub build_sql_where-mask :
    (cs : List Condition) → text_of (build_sql_where (map mask cs)) ≡ text_of (build_sql_where cs)
unfolding build_sql_where
build_sql_where-mask [] = refl
build_sql_where-mask (c ∷ cs) =
    finish-mask (parts_of (map mask (c ∷ cs))) (parts_of (c ∷ cs)) (parts-mask (c ∷ cs))
