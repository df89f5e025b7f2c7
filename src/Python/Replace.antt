-- ===== src/Python/Replace.antt =====
-- `str.replace`, `str.startswith`, and the decimal text of a number.
use buchi_maker.Common.{
  ltb, eqb, if◌then◌else◌, ℕ, zero, suc, ◌-◌, ◌/◌, ◌%◌, String, Bool, true, false, ◌&&◌, List, [],
  ◌∷◌,
}
use Prim.Native.Char.{code}
use Prim.Native.String

-- text.startswith(prefix)
unfoldable pub starts : String → String → Bool
starts String.[] s = true
starts (String.◌∷◌ p ps) String.[] = false
starts (String.◌∷◌ p ps) (String.◌∷◌ c s) = eqb (code p) (code c) && starts ps s

-- `skip` characters belong to an occurrence that has just been replaced
replace_from : String → String → ℕ → String → String
unfolding starts
replace_from old new skip String.[] = ""
replace_from old new (suc skip) (String.◌∷◌ c s) = replace_from old new skip s
replace_from old new zero (String.◌∷◌ c s) =
    let hit = String.◌++◌ new (replace_from old new (String.count old - 1) s) in
    let miss = String.◌∷◌ c (replace_from old new zero s) in
    if starts old (String.◌∷◌ c s) then hit else miss

-- text.replace(old, new), for an `old` that is not empty
unfoldable pub replace : String → String → String → String
unfolding replace_from
replace old new s = replace_from old new zero s

abbrev pub on_head : (String → String) → List String → List String
on_head f [] = []
on_head f (t ∷ ts) = f t ∷ ts

-- text.split(separator), for a separator of one character
unfoldable pub split : ℕ → String → List String
split sep String.[] = "" ∷ []
split sep (String.◌∷◌ c s) =
    let rest = split sep s in
    if eqb (code c) sep then "" ∷ rest else on_head (λ t. String.◌∷◌ c t) rest

digit_text : ℕ → String
digit_text zero = "0"
digit_text (suc zero) = "1"
digit_text (suc (suc zero)) = "2"
digit_text (suc (suc (suc zero))) = "3"
digit_text (suc (suc (suc (suc zero)))) = "4"
digit_text (suc (suc (suc (suc (suc zero))))) = "5"
digit_text (suc (suc (suc (suc (suc (suc zero)))))) = "6"
digit_text (suc (suc (suc (suc (suc (suc (suc zero))))))) = "7"
digit_text (suc (suc (suc (suc (suc (suc (suc (suc zero)))))))) = "8"
digit_text _ = "9"

-- One digit for each round; n + 1 rounds are enough, since n / 10 is below n.
show_from : ℕ → ℕ → String → String
unfolding digit_text
show_from zero n later = later
show_from (suc fuel) n later =
    let here = String.◌++◌ (digit_text (n % 10)) later in
    let rest = show_from fuel (n / 10) here in if ltb n 10 then here else rest

-- str(n)
unfoldable pub show_nat : ℕ → String
unfolding show_from
show_nat n = show_from (suc n) n ""
