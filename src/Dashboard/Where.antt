-- ===== src/Dashboard/Where.antt =====
-- Dashboard._build_sql_where: the WHERE clause and the values that are bound to its placeholders.
pub mod Placeholders
pub mod Shape
use buchi_maker.Common.{
  if◌then◌else◌, all, format, join, lookup, values, ok, ◌+◌, ◌-◌, ◌*◌, ◌%◌, String, ap, Bool, not,
  ◌||◌, Option, none, some, List, [], ◌∷◌, ◌++◌, map, ◌==◌,
}
use buchi_maker.Python.Float.{is_float}
use buchi_maker.Dashboard.{Condition, compare, member, op_map}

-- the text of one condition, and its parameters
abbrev pub Part : Type 0
Part = String × List String

-- ", ".join(["?"] * len(vals))
abbrev pub placeholders : List String → String
placeholders values = join ", " (map (λ v. "?") values)

unfoldable pub member_part : String → Bool → List String → Part
member_part col negated [] = (if negated then "1=1" else "1=0", [])
member_part col negated (v ∷ vs) =
    let keyword : String = if negated then "NOT IN" else "IN" in
    if all is_float (v ∷ vs)
    then (format (col ∷ " " ∷ keyword ∷ " (" ∷ join ", " (v ∷ vs) ∷ ")" ∷ []), [])
    else (format (col ∷ " " ∷ keyword ∷ " (" ∷ placeholders (v ∷ vs) ∷ ")" ∷ []), v ∷ vs)

-- the last two branches look the operator up: `none` is the KeyError
unfoldable pub operator_part : String → Option String → String → Option Part
operator_part col none val = none
operator_part col (some sql_op) val = some (
    if is_float val
    then (format (col ∷ " " ∷ sql_op ∷ " " ∷ val ∷ []), [])
    else (format (col ∷ " " ∷ sql_op ∷ " ?" ∷ []), val ∷ []))

unfoldable pub compare_part : String → String → String → Option Part
unfolding operator_part
compare_part col op_alias val =
    if op_alias == "last_minutes"
    then some (
        if is_float val
        then (format (col ∷ " >= CURRENT_TIMESTAMP - INTERVAL '" ∷ val ∷ "' MINUTE" ∷ []), [])
        else ("1=1", []))
    else if op_alias == "has"
    then some (format (col ∷ " LIKE ?" ∷ []), format ("%" ∷ val ∷ "%" ∷ []) ∷ [])
    else if op_alias == "prefix"
    then some (format (col ∷ " LIKE ?" ∷ []), format (val ∷ "%" ∷ []) ∷ [])
    else if op_alias == "suffix"
    then some (format (col ∷ " LIKE ?" ∷ []), format ("%" ∷ val ∷ []) ∷ [])
    else operator_part col (lookup op_alias op_map) val

-- one round of the loop; a lone value of `in` or `not_in` counts as a list of one
unfoldable pub condition_part : Condition → Option Part
unfolding compare_part member_part
condition_part (compare col op val _) =
    if op == "in" || op == "not_in"
    then some (member_part col (op == "not_in") (val ∷ []))
    else compare_part col op val
condition_part (member col negated vals _) = some (member_part col negated vals)

abbrev pub cons_part : Option Part → Option (List Part) → Option (List Part)
cons_part none rest = none
cons_part (some p) none = none
cons_part (some p) (some ps) = some (p ∷ ps)

-- the loop: the texts and the parameters, condition by condition
unfoldable pub parts_of : List Condition → Option (List Part)
unfolding condition_part
parts_of [] = some []
parts_of (c ∷ cs) = cons_part (condition_part c) (parts_of cs)

abbrev pub clause_of : List Part → String
clause_of ps = join " AND " (map (λ (p : Part). p.0) ps)

abbrev pub params_of : List Part → List String
params_of [] = []
params_of (p ∷ ps) = p.1 ++ params_of ps

abbrev pub finish : Option (List Part) → Option Part
finish none = none
finish (some ps) = some (clause_of ps, params_of ps)

unfoldable pub build_sql_where : List Condition → Option Part
unfolding parts_of
build_sql_where [] = some ("1=1", [])
build_sql_where (c ∷ cs) = finish (parts_of (c ∷ cs))
