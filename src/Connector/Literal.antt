-- ===== src/Connector/Literal.antt =====
-- The path of a Parquet file inside the statement that creates its view.
use buchi_maker.Common.{
  eqb, if◌then◌else◌, Bool-cases, format, ℕ, String, ◌≡◌, refl, sym, ap, ◌∙◌, inl, inr, Bool, true,
  false, not, ◌&&◌, Option, none, some, [], ◌∷◌, arith,
}
use Prim.Native.Char.{code, Char}
use Prim.Native.String
use text.Mathlib.TextLemmas.{nil-append, append_assoc, cons-append}
use text.Mathlib.TextEquality.{Char-path}
use buchi_maker.Json.{Json, truthy}
use buchi_maker.Python.Replace.{replace, starts}
use buchi_maker.Connector.{BaseConnector, parquet_files}
use buchi_maker.Connector.Load.{
  execute, Engine, plain, escaped, hive_text, view_text, run, finish, load, may, parquet_steps,
  must,
}

is_quote : Char → Bool
is_quote c = eqb b'\'' (code c)

abbrev after_char : Char → Option (String × String) → Option (String × String)
after_char c none = none
after_char c (some (s, t)) = some (String.◌∷◌ c s, t)

-- SQL's string literals, from behind the quote that opens one: the text that it stands for and what follows.
-- A quote is written as two; `quoted` says whether the character before was a quote.
literal_from : (quoted : Bool) → String → Option (String × String)
unfolding is_quote
literal_from true String.[] = some ("", "")
literal_from false String.[] = none
literal_from true (String.◌∷◌ c s) =
    let rest = literal_from false s in
    if is_quote c then after_char c rest else some ("", String.◌∷◌ c s)
literal_from false (String.◌∷◌ c s) =
    let closed = literal_from true s in
    let rest = literal_from false s in if is_quote c then closed else after_char c rest

-- A character that opens no literal, no quoted name and no comment.
unfoldable pub is_plain : Char → Bool
is_plain c =
    not (eqb b'\'' (code c))
    && not (eqb b'"' (code c))
    && not (eqb b'-' (code c))
    && not (eqb b'/' (code c))
    && not (eqb b'$' (code c))

-- a name of such characters only
unfoldable pub all_plain : String → Bool
all_plain String.[] = true
all_plain (String.◌∷◌ c s) = is_plain c && all_plain s

abbrev before_char :
    Char → Option (String × (String × String)) → Option (String × (String × String))
before_char c none = none
before_char c (some (s, t)) = some (String.◌∷◌ c s, t)

abbrev opened : Option (String × String) → Option (String × (String × String))
opened none = none
opened (some t) = some ("", t)

-- SQL's reading of a whole statement up to the end of its first literal: what stands in front, the text that the
-- literal stands for, and what follows; `none` where something else than plain characters stands in front.
unfoldable pub first_literal : String → Option (String × (String × String))
unfolding literal_from is_quote
first_literal String.[] = none
first_literal (String.◌∷◌ c s) =
    let rest = first_literal s in
    if is_quote c
    then opened (literal_from false s)
    else if is_plain c
    then before_char c rest
    else none

no_quote : (c : Char) → is_plain c ≡ true → is_quote c ≡ false
unfolding is_plain is_quote
no_quote c h = ground (arith, h)

plain_first :
    (c : Char) (s : String)
    → is_plain c ≡ true
    → first_literal (String.◌∷◌ c s) ≡ before_char c (first_literal s)
unfolding first_literal
plain_first c s h = rw (no_quote c h) (rw h refl)

opening : (s : String) → first_literal (String.◌∷◌ "'" s) ≡ opened (literal_from false s)
unfolding first_literal is_quote
opening s = refl

all_plain-append :
    (s t : String) → all_plain s ≡ true → all_plain t ≡ true → all_plain (String.◌++◌ s t) ≡ true
unfolding all_plain
all_plain-append String.[] t h k = rw nil-append k
all_plain-append (String.◌∷◌ c s) t h k =
    let c_plain : is_plain c ≡ true = ground (arith, h) in
    let s_plain : all_plain s ≡ true = ground (arith, h) in
    rw (cons-append, c_plain) (all_plain-append s t s_plain k)

first_literal-plain :
    (front s : String) (text rest : String)
    → all_plain front ≡ true
    → literal_from false s ≡ some (text, rest)
    → first_literal (String.◌++◌ front (String.◌∷◌ "'" s)) ≡ some (front, (text, rest))
unfolding all_plain
first_literal-plain String.[] s text rest h k = rw (nil-append, opening s, k) refl
first_literal-plain (String.◌∷◌ c front) s text rest h k =
    let c_plain : is_plain c ≡ true = ground (arith, h) in
    let others : all_plain front ≡ true = ground (arith, h) in
    rw (cons-append, plain_first c _ c_plain, first_literal-plain front s text rest others k) refl

quote_escaped :
    (c : Char) (s : String)
    → is_quote c ≡ true
    → escaped (String.◌∷◌ c s) ≡ String.◌∷◌ "'" (String.◌∷◌ "'" (escaped s))
unfolding is_quote escaped replace
quote_escaped c s h = rw (h, cons-append, cons-append, nil-append) refl

other_escaped :
    (c : Char) (s : String)
    → is_quote c ≡ false
    → escaped (String.◌∷◌ c s) ≡ String.◌∷◌ c (escaped s)
unfolding is_quote escaped replace
other_escaped c s h = rw h refl

closing : (t : String) → starts "'" t ≡ false → literal_from true t ≡ some ("", t)
unfolding literal_from starts is_quote
closing String.[] h = refl
closing (String.◌∷◌ c t) h = ground arith

other_literal :
    (c : Char) (s : String)
    → is_quote c ≡ false
    → literal_from false (String.◌∷◌ c s) ≡ after_char c (literal_from false s)
unfolding literal_from is_quote
other_literal c s h = rw h refl

quote_literal :
    (s : String)
    → literal_from false (String.◌∷◌ "'" (String.◌∷◌ "'" s)) ≡ after_char "'" (literal_from false s)
unfolding literal_from is_quote
quote_literal s = refl

quote_path : (c : Char) → is_quote c ≡ true → "'" ≡ c
unfolding is_quote
quote_path c h = sym (Char-path c "'" (ground (arith, h)))

escaped_nil : escaped "" ≡ ""
unfolding escaped replace
escaped_nil = refl

open_literal : (t : String) → literal_from false (String.◌∷◌ "'" t) ≡ literal_from true t
unfolding literal_from is_quote
open_literal t = refl

-- An escaped text between quotes stands for the text.
literal_from-escaped :
    (s t : String)
    → starts "'" t ≡ false
    → literal_from false (String.◌++◌ (escaped s) (String.◌∷◌ "'" t)) ≡ some (s, t)
literal_from-escaped String.[] t h = rw (escaped_nil, nil-append, open_literal t) (closing t h)
literal_from-escaped (String.◌∷◌ c s) t h = elim (Bool-cases (is_quote c)) [
  | inl q ↦
      rw (quote_escaped c s q, cons-append, cons-append, quote_literal, literal_from-escaped s t h)
        (ap (λ (d : Char). some (String.◌∷◌ d s, t)) (quote_path c q))
  | inr q ↦
      rw (other_escaped c s q, cons-append, other_literal c _ q, literal_from-escaped s t h) refl
]

-- what follows the path in the statement
abbrev pub tail_text : Bool → String
tail_text hive = format (", hive_partitioning=" ∷ hive_text hive ∷ ")" ∷ [])

-- what stands in front of the literal
abbrev pub head_text : String → String
head_text name = format ("CREATE OR REPLACE VIEW " ∷ name ∷ " AS SELECT * FROM read_parquet(" ∷ [])

tail_joined :
    (rest : String)
    → String.◌++◌ "', hive_partitioning=" rest
      ≡ String.◌∷◌ "'" (String.◌++◌ ", hive_partitioning=" rest)
tail_joined rest = cons-append "'" ", hive_partitioning=" rest

head_joined :
    (rest : String)
    → String.◌++◌ " AS SELECT * FROM read_parquet('" rest
      ≡ String.◌++◌ " AS SELECT * FROM read_parquet(" (String.◌∷◌ "'" rest)
head_joined rest =
    append_assoc " AS SELECT * FROM read_parquet(" "'" rest
    ∙ ap (λ x. String.◌++◌ " AS SELECT * FROM read_parquet(" x) (rw (cons-append, nil-append) refl)

view_text_parts :
    (name path : String) (hive : Bool)
    → view_text name path hive
      ≡ String.◌++◌
          (head_text name)
          (String.◌∷◌ "'" (String.◌++◌ (escaped path) (String.◌∷◌ "'" (tail_text hive))))
unfolding view_text
view_text_parts name path hive = rw (append_assoc, append_assoc, head_joined, tail_joined) refl

head_text-plain : (name : String) → all_plain name ≡ true → all_plain (head_text name) ≡ true
head_text-plain name h =
    all_plain-append "CREATE OR REPLACE VIEW " _ (unfold all_plain is_plain in refl) (
      all_plain-append name " AS SELECT * FROM read_parquet(" h (unfold all_plain is_plain in refl))

tail_text_plain : (hive : Bool) → starts "'" (tail_text hive) ≡ false
unfolding starts
tail_text_plain true = refl
tail_text_plain false = refl

sent-parquet :
    (engine : Engine) (now : ℕ) (c : BaseConnector) (name text : String)
    → (finish engine now c (
        run engine
          (may (plain ("DROP VIEW IF EXISTS " ∷ name ∷ []))
            ∷ may (plain ("DROP TABLE IF EXISTS " ∷ name ∷ []))
            ∷ must (execute text [])
            ∷ [])
          [])).sent
      ≡ plain ("DROP VIEW IF EXISTS " ∷ name ∷ [])
        ∷ plain ("DROP TABLE IF EXISTS " ∷ name ∷ [])
        ∷ execute text []
        ∷ []
unfolding run finish
sent-parquet engine now c name text =
    elim (Bool-cases (
      engine.accepts
        (plain ("DROP VIEW IF EXISTS " ∷ name ∷ [])
          ∷ plain ("DROP TABLE IF EXISTS " ∷ name ∷ [])
          ∷ [])
        (execute text []))) [ inl e ↦ rw e refl | inr e ↦ rw e refl ]

-- Loading a Parquet connector whose name has no quote, dash, slash or dollar sign sends two DROP statements and one CREATE
-- statement, whatever the path holds: SQL reads that statement as the text in front of the path, one literal that
-- stands for exactly the path, and a text behind it; neither of the two texts depends on the path.
pub load-literal :
    (engine : Engine) (now : ℕ) (c : BaseConnector) (path : String) (hive : Json)
    → c.source ≡ parquet_files path hive
    → all_plain c.name ≡ true
    → (text : String) × (((load engine now c).sent
          ≡ plain ("DROP VIEW IF EXISTS " ∷ c.name ∷ [])
            ∷ plain ("DROP TABLE IF EXISTS " ∷ c.name ∷ [])
            ∷ execute text []
            ∷ [])
        × (first_literal text ≡ some (head_text c.name, (path, tail_text (truthy hive)))))
unfolding load parquet_steps
load-literal engine now c path hive e plain_name = (
  view_text c.name path (truthy hive),
  (
    rw e (
        sent-parquet engine now (record c { source = parquet_files path hive }) c.name
          (view_text c.name path (truthy hive))),
    ap first_literal (view_text_parts c.name path (truthy hive))
        ∙ first_literal-plain (head_text c.name) _ path _ (head_text-plain c.name plain_name)
            (literal_from-escaped path _ (tail_text_plain _)),
  ),
)
