-- ===== src/Common/Text.antt =====
-- Texts: Python's `str` is the native `String`, walked by code points.
use Prim.Native.Nat.{ℕ, ◌+◌}
use Prim.Native.Char.{code}
use Prim.Native.String
use Prim.Native.String.{String}
use mathlib.Core.Path.{◌≡◌, refl}
use mathlib.Core.Bool.{Bool, false, ◌||◌}
use mathlib.Core.List.{List, [], ◌∷◌, ◌++◌}
use native.Mathlib.Omega.{arith}
use text.Mathlib.Text.{◌==◌}
use text.Mathlib.TextLemmas.{nil-append, cons-append}
use buchi_maker.Common.Tests.{if◌then◌else◌, eqb}

-- the code points of a text
abbrev pub codes : String → List ℕ
codes String.[] = []
codes (String.◌∷◌ c s) = code c ∷ codes s

pub codes-append : (s t : String) → codes (String.◌++◌ s t) ≡ codes s ++ codes t
codes-append String.[] t = rw nil-append
codes-append (String.◌∷◌ c s) t = rw cons-append (rw (codes-append s t))

-- the text of an f-string: its pieces, one after the other
abbrev pub format : List String → String
format [] = ""
format (s ∷ ss) = String.◌++◌ s (format ss)

-- sep.join(parts)
abbrev pub join : String → List String → String
join sep [] = ""
join sep (s ∷ []) = s
join sep (s ∷ t ∷ ss) = String.◌++◌ s (String.◌++◌ sep (join sep (t ∷ ss)))

-- `x in xs`
abbrev pub elem : String → List String → Bool
elem x [] = false
elem x (y ∷ ys) = y == x || elem x ys

-- how many times the code point `k` stands in a text
abbrev pub count_code : ℕ → List ℕ → ℕ
count_code k [] = 0
count_code k (c ∷ s) = (if eqb c k then 1 else 0) + count_code k s

pub count_code-append :
    (k : ℕ) (s t : List ℕ) → count_code k (s ++ t) ≡ count_code k s + count_code k t
count_code-append k [] t = omega arith
count_code-append k (c ∷ s) t = omega (arith, count_code-append k s t)

-- the placeholders of a query's text
abbrev pub marks : String → ℕ
marks s = count_code b'?' (codes s)

pub marks-append : (s t : String) → marks (String.◌++◌ s t) ≡ marks s + marks t
marks-append s t = rw codes-append (count_code-append b'?' (codes s) (codes t))

pub elem-append : (x : String) (xs ys : List String) → elem x (xs ++ ys) ≡ (elem x xs || elem x ys)
elem-append x [] ys = refl
elem-append x (y ∷ xs) ys = ground (arith, elem-append x xs ys)
