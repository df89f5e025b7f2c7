-- ===== src/Python/Float.antt =====
-- Whether `float(text)` succeeds: the grammar of a floating-point literal as an automaton.
pub mod Literal
use buchi_maker.Common.{
  eqb, if◌then◌else◌, any, drop, codes, ℕ, suc, ◌+◌, ◌-◌, String, ap, Bool, true, false, not, ◌&&◌,
  ◌||◌, List, [], ◌∷◌, map,
}
use buchi_maker.Python.Chars.{lower, same_codes, strip, has_separator, is_decimal, between}

-- Where the reader stands: after the sign, in the digits before the point, after an underscore there,
-- after a point with no digit before it, after the point, in the fraction, and so on for the
-- exponent. `failed` is the ValueError.
pub data Spot : Type 0 where
  start signed whole whole_gap bare_point point fraction fraction_gap : Spot
  mark mark_sign exponent exponent_gap failed : Spot

abbrev pub is_sign : ℕ → Bool
is_sign c = eqb c b'+' || eqb c b'-'

abbrev pub is_mark : ℕ → Bool
is_mark c = eqb c b'e' || eqb c b'E'

unfoldable pub step : Spot → ℕ → Spot
step start c =
    if is_decimal c
    then whole
    else if is_sign c
    then signed
    else if eqb c b'.'
    then bare_point
    else failed
step signed c = if is_decimal c then whole else if eqb c b'.' then bare_point else failed
step whole c =
    if is_decimal c
    then whole
    else if eqb c b'_'
    then whole_gap
    else if eqb c b'.'
    then point
    else if is_mark c
    then mark
    else failed
step whole_gap c = if is_decimal c then whole else failed
step bare_point c = if is_decimal c then fraction else failed
step point c = if is_decimal c then fraction else if is_mark c then mark else failed
step fraction c =
    if is_decimal c
    then fraction
    else if eqb c b'_'
    then fraction_gap
    else if is_mark c
    then mark
    else failed
step fraction_gap c = if is_decimal c then fraction else failed
step mark c = if is_decimal c then exponent else if is_sign c then mark_sign else failed
step mark_sign c = if is_decimal c then exponent else failed
step exponent c = if is_decimal c then exponent else if eqb c b'_' then exponent_gap else failed
step exponent_gap c = if is_decimal c then exponent else failed
step failed c = failed

unfoldable pub accepts : Spot → Bool
accepts whole = true
accepts point = true
accepts fraction = true
accepts exponent = true
accepts _ = false

unfoldable pub run : Spot → List ℕ → Spot
unfolding step
run q [] = q
run q (c ∷ s) = run (step q c) s

-- inf, infinity and nan, in any case
unfoldable pub is_word : List ℕ → Bool
is_word s =
    let w = map lower s in
    same_codes w (codes "inf") || same_codes w (codes "infinity") || same_codes w (codes "nan")

abbrev drop_sign : List ℕ → List ℕ
drop_sign [] = []
drop_sign (c ∷ s) = if is_sign c then s else c ∷ s

unfoldable pub is_float : String → Bool
unfolding run accepts is_word strip is_decimal has_separator
is_float v =
    let s = strip (codes v) in
    not (has_separator (codes v)) && (accepts (run start s) || is_word (drop_sign s))
