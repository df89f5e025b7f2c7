-- ===== src/Dashboard/Load/Base.antt =====
-- What Dashboard.load_yaml takes from Python, and how it can end.
use buchi_maker.Common.{
  ltb, eqb, if◌then◌else◌, format, elem, keys, ℕ, ◌+◌, String, Bool, true, false, Option, none,
  some, List, [], ◌∷◌, map, ◌==◌,
}
use buchi_maker.Json.{Json, bool, num, str, arr, obj, items, fields}
use buchi_maker.Python.Number.{ℤ, pos, negsuc, int_of_text}
use buchi_maker.Python.Replace.{show_nat}

-- What `int` makes of a value; `refused` is a TypeError or a ValueError, `infinite` an OverflowError.
pub data Conversion : Type 0 where
  whole : ℤ → Conversion
  refused infinite : Conversion

-- `repr` is the text of a list or a dict, `quoted` what `!r` prints, `truncate` is `int` of a number
-- that is not written as a whole one, `is_word` the class `\w`, `exceeds` whether the sum of two numbers
-- that are not both whole is above a bound, `sum_text` the text of that sum, and `fresh` the identifier for the nth widget.
pub record Python : Type 0 where
  pub repr : Json → String
  pub quoted : Json → String
  pub truncate : String → Conversion
  pub is_word : ℕ → Bool
  pub exceeds : Json → Json → ℕ → Bool
  pub sum_text : Json → Json → String
  pub fresh : ℕ → String

-- A message that is returned, or an exception that nobody catches.
pub data Refusal : Type 0 where
  message : String → Refusal
  raised : Refusal

abbrev pub whole_or : Conversion → Option ℤ → Conversion
whole_or c none = c
whole_or c (some z) = whole z

-- int(value)
unfoldable pub int_of : Python → Json → Conversion
int_of py (num n) = whole_or (py.truncate n) (int_of_text n)
int_of py (bool b) = whole (pos (if b then 1 else 0))
int_of py (str s) = whole_or refused (int_of_text s)
int_of py _ = refused

unfoldable pub show_int : ℤ → String
show_int (pos n) = show_nat n
show_int (negsuc n) = format ("-" ∷ show_nat (n + 1) ∷ [])

abbrev pub is_int : ℕ → ℤ → Bool
is_int n (pos m) = eqb m n
is_int n (negsuc m) = false

-- `for item in value`: a list, the keys of a dict, the characters of a text (one text stands for them, since
-- every loop here treats them alike); `none` is a TypeError
unfoldable pub iterate : Json → Option (List Json)
iterate (arr vs) = some (items vs)
iterate (obj fs) = some (map str (keys (fields fs)))
iterate (str s) = if s == "" then some [] else some (str s ∷ [])
iterate _ = none

-- isinstance(value, (int, float))
abbrev pub is_number : Json → Bool
is_number (num n) = true
is_number (bool b) = true
is_number _ = false

-- the whole number that a value is, if it is one: a bool is one, too
unfoldable pub whole_of : Json → Option ℤ
whole_of (num n) = int_of_text n
whole_of (bool b) = some (pos (if b then 1 else 0))
whole_of _ = none

-- x + w > n, for whole numbers
unfoldable pub sum_above : ℤ → ℤ → ℕ → Bool
sum_above (pos x) (pos w) n = ltb n (x + w)
sum_above (pos x) (negsuc w) n = ltb (n + (w + 1)) x
sum_above (negsuc x) (pos w) n = ltb (n + (x + 1)) w
sum_above (negsuc x) (negsuc w) n = false

abbrev pub either_above : Bool → Option ℤ → Option ℤ → ℕ → Bool
either_above otherwise (some x) (some w) n = sum_above x w n
either_above otherwise (some x) none n = otherwise
either_above otherwise none w n = otherwise

-- x + w > n: with a fraction among the two, `exceeds` compares
unfoldable pub goes_beyond : Python → Json → Json → ℕ → Bool
unfolding whole_of sum_above
goes_beyond py x w n = either_above (py.exceeds x w n) (whole_of x) (whole_of w) n

-- `value in names`, for a set of texts: `none` is the TypeError of a list or a dict
unfoldable pub in_set : Json → List String → Option Bool
in_set (str s) names = some (elem s names)
in_set (arr vs) names = none
in_set (obj fs) names = none
in_set _ names = some false

abbrev pub validation : String → Refusal
validation text = message (format ("Validation error: " ∷ text ∷ []))
