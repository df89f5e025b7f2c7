-- ===== src/Python/Float/Literal.antt =====
-- Which characters a text that `float` accepts can hold.
use buchi_maker.Common.{
  eqb, Bool-cases, all, codes, ℕ, String, ◌≡◌, refl, ap, inl, inr, Bool, true, false, ◌||◌, List,
  [], ◌∷◌, map, arith,
}
use buchi_maker.Python.Chars.{
  lower, same_codes, is_space, is_decimal, is_letter, lstrip, rstrip, strip,
}
use buchi_maker.Python.Float.{
  Spot, start, failed, step, accepts, run, is_sign, is_word, drop_sign, is_float,
}

-- White space, digits, letters, the signs, the point and the underscore.
unfoldable pub is_literal_char : ℕ → Bool
is_literal_char c =
    is_space c || is_decimal c || is_letter c || is_sign c || eqb c b'.' || eqb c b'_'

step_literal : (q : Spot) (c : ℕ) → is_literal_char c ≡ false → step q c ≡ failed
unfolding step is_literal_char is_letter
step_literal start c h = ground arith
step_literal failed c h = ground arith
step_literal q c h = ground arith

run-failed : (s : List ℕ) → run failed s ≡ failed
unfolding run step
run-failed [] = refl
run-failed (c ∷ s) = run-failed s

run_literal : (q : Spot) (s : List ℕ) → accepts (run q s) ≡ true → all is_literal_char s ≡ true
unfolding run accepts
run_literal q [] h = refl
run_literal q (c ∷ s) h = elim (Bool-cases (is_literal_char c)) [
  | inl good ↦ rw good (run_literal (step q c) s h)
  | inr bad ↦ cc (ap (λ r. accepts (run r s)) (step_literal q c bad), ap accepts (run-failed s))
]

lower_letter : (c d : ℕ) → eqb (lower c) d ≡ true → is_letter d ≡ true → is_literal_char c ≡ true
unfolding is_literal_char is_letter
lower_letter c d e h = ground arith

word_literal :
    (s t : List ℕ)
    → same_codes (map lower s) t ≡ true
    → all is_letter t ≡ true
    → all is_literal_char s ≡ true
word_literal [] t e h = refl
word_literal (c ∷ s) [] e h = cc
word_literal (c ∷ s) (d ∷ t) e h = ground (arith, lower_letter c d, word_literal s t)

letters :
    (all is_letter (codes "inf") ≡ true)
    × (all is_letter (codes "infinity") ≡ true)
    × (all is_letter (codes "nan") ≡ true)
unfolding is_letter
letters = (refl, refl, refl)

is_word_literal : (s : List ℕ) → is_word s ≡ true → all is_literal_char s ≡ true
unfolding is_word
is_word_literal s h = ground (
  arith,
  word_literal s (codes "inf"),
  word_literal s (codes "infinity"),
  word_literal s (codes "nan"),
  letters.0,
  letters.1,
  letters.2,
)

sign_literal : (c : ℕ) → is_sign c ≡ true → is_literal_char c ≡ true
unfolding is_literal_char
sign_literal c h = ground arith

space_literal : (c : ℕ) → is_space c ≡ true → is_literal_char c ≡ true
unfolding is_literal_char
space_literal c h = ground arith

drop_sign_literal :
    (s : List ℕ) → all is_literal_char (drop_sign s) ≡ true → all is_literal_char s ≡ true
drop_sign_literal [] h = refl
drop_sign_literal (c ∷ s) h = ground (arith, sign_literal c)

lstrip_literal : (s : List ℕ) → all is_literal_char (lstrip s) ≡ true → all is_literal_char s ≡ true
unfolding lstrip
lstrip_literal [] h = refl
lstrip_literal (c ∷ s) h = ground (arith, space_literal c, lstrip_literal s)

rstrip_literal : (s : List ℕ) → all is_literal_char (rstrip s) ≡ true → all is_literal_char s ≡ true
unfolding rstrip
rstrip_literal [] h = refl
rstrip_literal (c ∷ s) h = ground (arith, space_literal c, rstrip_literal s)

-- A text that `float` accepts holds white space, digits, letters, signs, points and underscores
-- alone: no quote, comma, bracket, semicolon or question mark.
pub is_float-all_literal : (v : String) → is_float v ≡ true → all is_literal_char (codes v) ≡ true
unfolding is_float strip
is_float-all_literal v h =
    let s = codes v in
    lstrip_literal s (
      rstrip_literal (lstrip s) (
        ground (
          arith,
          run_literal start (strip s),
          is_word_literal (drop_sign (strip s)),
          drop_sign_literal (strip s),
        )))
