-- ===== src/Sql/Guarded.antt =====
-- Which statements execute_sql runs.
use buchi_maker.Common.{
  eqb, Bool-cases, &&-eq-true, all, any, codes, elem, Result-cases, ok, ℕ, String, ◌≡◌, refl, sym,
  ap, ◌∙◌, ◌≢◌, inl, inr, Bool, true, false, ◌&&◌, ◌||◌, some, List, [], ◌∷◌, arith, ◌==◌, eq_iff,
}
use Prim.Native.Char.{code}
use Prim.Native.String
use text.Mathlib.TextLemmas.{nil-append, cons-append}
use buchi_maker.Python.Chars.{is_space, strip}
use buchi_maker.Dashboard.Load.Text.{fold, after_word, skip_spaces}
use buchi_maker.Sql.{
  file_read_functions, is_call, call_here, Statement, Duck, search, run, checked_run, execute_sql,
}

-- The same word, whatever the case of its letters.
unfoldable pub is_cased : String → String → Bool
is_cased String.[] String.[] = true
is_cased (String.◌∷◌ w ws) (String.◌∷◌ c s) = eqb (fold (code c)) (fold (code w)) && is_cased ws s
is_cased _ _ = false

-- whether a word character stands at the end of `before`
unfoldable pub ends : (ℕ → Bool) → Bool → String → Bool
ends is_word b String.[] = b
ends is_word b (String.◌∷◌ c s) = ends is_word (is_word (code c)) s

after_word-cased :
    (w word rest : String)
    → is_cased w word ≡ true
    → after_word w (String.◌++◌ word rest) ≡ some rest
unfolding is_cased after_word
after_word-cased String.[] String.[] rest h = rw nil-append refl
after_word-cased String.[] (String.◌∷◌ c s) rest h = absurd (cc)
after_word-cased (String.◌∷◌ w ws) String.[] rest h = absurd (cc)
after_word-cased (String.◌∷◌ w ws) (String.◌∷◌ c s) rest h =
    let (here, later) = &&-eq-true (eqb (fold (code c)) (fold (code w))) (is_cased ws s) h in
    rw (cons-append, here) (after_word-cased ws s rest later)

skip_spaces-append :
    (spaces rest : String)
    → all is_space (codes spaces) ≡ true
    → skip_spaces (String.◌++◌ spaces (String.◌∷◌ "(" rest)) ≡ String.◌∷◌ "(" rest
unfolding skip_spaces is_space
skip_spaces-append String.[] rest h = rw nil-append refl
skip_spaces-append (String.◌∷◌ c s) rest h =
    let (here, later) = &&-eq-true (is_space (code c)) (all is_space (codes s)) h in
    rw (cons-append, here) (skip_spaces-append s rest later)

any-elem :
    (p : String → Bool) (x : String) (xs : List String)
    → elem x xs ≡ true
    → p x ≡ true
    → any p xs ≡ true
any-elem p x [] h q = absurd (cc)
any-elem p x (y ∷ xs) h q = elim (Bool-cases (y == x)) [
  | inl e ↦ rw (ap p ((eq_iff y x).0 e) ∙ q) refl
  | inr e ↦ let later = any-elem p x xs (rw e at h) q in ground (arith, later)
]

-- the text of a call
abbrev pub call : String → String → String → String
call word spaces rest = String.◌++◌ word (String.◌++◌ spaces (String.◌∷◌ "(" rest))

call-found :
    (w word spaces rest : String)
    → elem w file_read_functions ≡ true
    → is_cased w word ≡ true
    → all is_space (codes spaces) ≡ true
    → call_here (call word spaces rest) ≡ true
unfolding call_here
call-found w word spaces rest known same blank =
    any-elem (is_call (call word spaces rest)) w file_read_functions known (
      rw
        (
          after_word-cased w word (String.◌++◌ spaces (String.◌∷◌ "(" rest)) same,
          skip_spaces-append spaces rest blank,
          is_call,
        )
        refl)

or_true : (a : Bool) → (a || true) ≡ true
or_true true = refl
or_true false = refl

differ : ¬ (false ≡ true)
differ p = cc

nothing_called : ¬ (call_here "" ≡ true)
unfolding call_here after_word
nothing_called p = cc

only : (text query : String) → elem text (query ∷ []) ≡ true → query ≡ text
only text query h = (eq_iff query text).0 (ground (arith, h))

module _ (duck : Duck) where
  search-append :
      (b : Bool) (before s : String)
      → search duck (ends duck.is_word b before) s ≡ true
      → search duck b (String.◌++◌ before s) ≡ true
  unfolding search ends
  search-append b String.[] s h = rw nil-append h
  search-append b (String.◌∷◌ c before) s h =
      rw (cons-append, search-append (duck.is_word (code c)) before s h) (or_true _)

  search-found : (s : String) → call_here s ≡ true → search duck false s ≡ true
  unfolding search
  search-found String.[] h = absurd (nothing_called h)
  search-found (String.◌∷◌ c s) h = rw h refl

  run-text :
      (statement : Statement) (text : String)
      → elem text (run duck statement).1 ≡ true
      → statement.query ≡ text
  unfolding run
  run-text statement text h = elim (Result-cases (duck.execute statement.query)) [
    | inl (table, e) ↦ only text statement.query (rw (e, run) at h)
    | inr (m, e) ↦ only text statement.query (rw (e, run) at h)
  ]

  checked_run-passed :
      (statements : List Statement) (text : String)
      → elem text (checked_run duck statements).1 ≡ true
      → (statement : Statement) × ((statements ≡ statement ∷ [])
          × ((statement.is_select ≡ true)
              × ((statement.query ≡ text) × (search duck false statement.query ≡ false))))
  unfolding checked_run run
  checked_run-passed [] text h = absurd (cc)
  checked_run-passed (a ∷ b ∷ more) text h = absurd (cc)
  checked_run-passed (a ∷ []) text h = elim (Bool-cases a.is_select) [
    | inr p ↦ absurd (cc (rw p at h))
    | inl p ↦ elim (Bool-cases (search duck false a.query)) [
      | inl q ↦ absurd (cc (rw (p, q) at h))
      | inr q ↦ (a, (refl, (p, (run-text a text (rw (p, q) at h), q))))
    ]
  ]

  -- If a text was run, then the API is on, and the text is the only statement that DuckDB has read from the request, a
  -- SELECT. A listed function is not called in it: it is not made of a text that does not end in a word character,
  -- one of the names in any case, white space, an opening bracket and more text.
  pub execute_sql-ran :
      (enabled : Bool) (query text before name word spaces rest : String)
      → elem text (execute_sql duck enabled query).1 ≡ true
      → ends duck.is_word false before ≡ false
      → elem name file_read_functions ≡ true
      → is_cased name word ≡ true
      → all is_space (codes spaces) ≡ true
      → (enabled ≡ true)
        × (((statement : Statement) × ((duck.extract_statements (strip (codes query))
                  ≡ ok (statement ∷ []))
                × ((statement.is_select ≡ true) × (statement.query ≡ text))))
            × (text ≢ String.◌++◌ before (call word spaces rest)))
  unfolding execute_sql
  execute_sql-ran false query text before name word spaces rest ran boundary known same blank =
      absurd (cc)
  execute_sql-ran true query text before name word spaces rest ran boundary known same blank =
      elim (Result-cases (duck.extract_statements (strip (codes query)))) [
        | inr (m, e) ↦ absurd (cc (rw (e, execute_sql) at ran))
        | inl (statements, e) ↦
            let (statement, (one, (selects, (same_text, passed)))) =
              checked_run-passed statements text (rw (e, execute_sql) at ran) in
            let found : search duck false (String.◌++◌ before (call word spaces rest)) ≡ true =
              search-append false before _ (
                rw boundary (search-found _ (call-found name word spaces rest known same blank))) in
            (
              refl,
              (
                (statement, (e ∙ ap (λ (x : List Statement). ok x) one, (selects, same_text))),
                λ p. differ (sym passed ∙ ap (search duck false) (same_text ∙ p) ∙ found),
              ),
            )
      ]
