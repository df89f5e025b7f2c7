-- ===== src/Python/Number.antt =====
-- `int(text)`, and the signed integers that it returns.
use buchi_maker.Common.{
  ltb, eqb, if◌then◌else◌, codes, ℕ, zero, suc, ◌+◌, ◌*◌, String, Bool, true, false, ◌&&◌, Option,
  none, some, List, [], ◌∷◌,
}
use buchi_maker.Python.Chars.{strip, has_separator, is_decimal, digit_value}

-- `negsuc n` is -(n + 1).
pub data ℤ : Type 0 where
  pos : ℕ → ℤ
  negsuc : ℕ → ℤ

unfoldable pub negate : ℕ → ℤ
negate zero = pos 0
negate (suc n) = negsuc n

-- z > n, for a natural number n
unfoldable pub exceeds : ℤ → ℕ → Bool
exceeds (pos m) n = ltb n m
exceeds (negsuc m) n = false

-- The digits after the sign: single underscores may stand between two digits, and Python refuses
-- more than 4300 digits. `after` tells that a digit has just been read, `n` counts them.
read_digits : Bool → ℕ → ℕ → List ℕ → Option ℕ
unfolding is_decimal digit_value
read_digits after n acc [] = if after && ltb n 4301 then some acc else none
read_digits after n acc (c ∷ s) =
    let digit = read_digits true (n + 1) (acc * 10 + digit_value c) s in
    let gap = read_digits false n acc s in
    if is_decimal c then digit else if eqb c b'_' && after then gap else none

signed : (ℕ → ℤ) → Option ℕ → Option ℤ
signed f none = none
signed f (some n) = some (f n)

read_sign : List ℕ → Option ℤ
unfolding read_digits signed negate
read_sign [] = none
read_sign (c ∷ s) =
    if eqb c b'-'
    then signed negate (read_digits false 0 0 s)
    else if eqb c b'+'
    then signed pos (read_digits false 0 0 s)
    else signed pos (read_digits false 0 0 (c ∷ s))

-- `none` is the ValueError.
unfoldable pub int_of_text : String → Option ℤ
unfolding read_sign strip has_separator
int_of_text s = if has_separator (codes s) then none else read_sign (strip (codes s))
