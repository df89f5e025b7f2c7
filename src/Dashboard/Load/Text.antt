-- ===== src/Dashboard/Load/Text.antt =====
-- The two regular expressions of Dashboard.load_yaml: the `base_view` statement, and the name of the
-- view in a query. Both ignore case, for which Python knows four letters beyond ASCII.
use buchi_maker.Common.{
  eqb, if◌then◌else◌, ℕ, String, Bool, true, false, not, ◌&&◌, ◌||◌, Option, none, some, ◌==◌,
}
use Prim.Native.Char.{code}
use buchi_maker.Python.Chars.{is_space, is_letter, is_ascii_digit, lower}

abbrev pub fold : ℕ → ℕ
fold c =
    if eqb c 304 || eqb c 305
    then b'i'
    else if eqb c 383
    then b's'
    else if eqb c 8490
    then b'k'
    else lower c

-- the rest after a word
unfoldable pub after_word : String → String → Option String
after_word String.[] s = some s
after_word (String.◌∷◌ w ws) String.[] = none
after_word (String.◌∷◌ w ws) (String.◌∷◌ c s) =
    if eqb (fold (code c)) (fold (code w)) then after_word ws s else none

-- `\s*` and `\s+`
unfoldable pub skip_spaces : String → String
unfolding is_space
skip_spaces String.[] = ""
skip_spaces (String.◌∷◌ c s) =
    let rest = skip_spaces s in if is_space (code c) then rest else String.◌∷◌ c s

abbrev after_spaces : String → Option String
after_spaces String.[] = none
after_spaces (String.◌∷◌ c s) = if is_space (code c) then some (skip_spaces s) else none

abbrev starts_name : ℕ → Bool
starts_name c = is_letter (fold c) || eqb c b'_'

abbrev in_name : ℕ → Bool
in_name c = starts_name c || is_ascii_digit c

-- the longest run of the characters of a name, and the text after it
unfoldable pub name_run : String → String
unfolding is_letter is_ascii_digit
name_run String.[] = ""
name_run (String.◌∷◌ c s) =
    let rest = name_run s in if in_name (code c) then String.◌∷◌ c rest else ""

unfoldable pub after_run : String → String
unfolding is_letter is_ascii_digit
after_run String.[] = ""
after_run (String.◌∷◌ c s) =
    let rest = after_run s in if in_name (code c) then rest else String.◌∷◌ c s

abbrev and_then : Option String → (String → Option String) → Option String
and_then none f = none
and_then (some s) f = f s

-- `([A-Za-z_][A-Za-z0-9_]*)\s+AS\s`
name_before_as : String → Option String
unfolding name_run after_run skip_spaces after_word is_space is_letter
name_before_as String.[] = none
name_before_as (String.◌∷◌ c s) =
    if starts_name (code c)
    then and_then (after_spaces (after_run s)) (λ t.
      and_then (after_word "as" t)
        (λ u. and_then (after_spaces u) (λ v. some (String.◌∷◌ c (name_run s)))))
    else none

-- `VIEW\s+` and what follows
named_view : String → Option String
unfolding after_word skip_spaces is_space name_before_as
named_view s = and_then (after_word "view" s) λ t. and_then (after_spaces t) name_before_as

-- `(?:OR\s+REPLACE\s+)?`, then the view: a text that has the words `OR` here has no `VIEW`
replaced_view : String → Option String
unfolding after_word skip_spaces is_space named_view
replaced_view s = elim (after_word "or" s) [
  | none ↦ named_view s
  | some t ↦
      and_then (after_spaces t)
        λ u. and_then (after_word "replace" u) λ v. and_then (after_spaces v) named_view
]

-- _BASE_VIEW_RE.match, as the name that it captures
unfoldable pub view_name_of : String → Option String
unfolding after_word skip_spaces is_space replaced_view
view_name_of s = and_then (after_word "create" s) λ t. and_then (after_spaces t) replaced_view

-- text.rstrip(";")
unfoldable pub rstrip_semicolons : String → String
rstrip_semicolons String.[] = ""
rstrip_semicolons (String.◌∷◌ c s) =
    let rest = rstrip_semicolons s in
    if eqb (code c) b';' && rest == "" then "" else String.◌∷◌ c rest

-- text.strip()
rstrip_text : String → String
unfolding is_space
rstrip_text String.[] = ""
rstrip_text (String.◌∷◌ c t) =
    let rest = rstrip_text t in if is_space (code c) && rest == "" then "" else String.◌∷◌ c rest

unfoldable pub strip_text : String → String
unfolding is_space skip_spaces rstrip_text
strip_text s = skip_spaces (rstrip_text s)

module _ (is_word : ℕ → Bool) where
  abbrev begins_outside : String → Bool
  begins_outside String.[] = true
  begins_outside (String.◌∷◌ c s) = not (is_word (code c))

  abbrev ends_here : Option String → Bool
  ends_here none = false
  ends_here (some rest) = begins_outside rest

  -- `\bname\b` somewhere in the text, for a name of word characters; `inside` tells that the character before
  -- is a word character
  mentions_from : Bool → String → String → Bool
  unfolding after_word
  mentions_from inside name String.[] = false
  mentions_from inside name (String.◌∷◌ c s) =
      not inside && ends_here (after_word name (String.◌∷◌ c s))
      || mentions_from (is_word (code c)) name s

  -- _uses_base_view
  unfoldable pub mentions : String → String → Bool
  unfolding mentions_from
  mentions name query = mentions_from false name query
