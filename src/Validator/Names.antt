-- ===== src/Validator/Names.antt =====
-- Which texts `sanitize_name` and `validate_identifier` let through.
use buchi_maker.Common.{
  Bool-cases, &&-eq-true, all, any, codes, ok, ℕ, String, ◌≡◌, refl, ap, ◌∙◌, ◌≢◌, ◌↔◌, ◌⊎◌, inl,
  inr, Bool, true, false, not, ◌&&◌, List, [], ◌∷◌, ◌++◌, arith,
}
use buchi_maker.Python.Chars.{is_space}
use buchi_maker.Validator.{
  validate_identifier, rest_matches, matches, is_name_char, is_id_char, sanitize_name, is_blank,
}

-- The text is a run of characters that `p` allows, or such a run and one newline.
pub record IsRun (p : ℕ → Bool) (s : List ℕ) : Type 0 where
  pub body : List ℕ
  pub allowed : all p body ≡ true
  pub whole : (s ≡ body) ⊎ (s ≡ body ++ 10 ∷ [])

module _ (p : ℕ → Bool) where
  rest_matches-IsRun : (s : List ℕ) → rest_matches p s ≡ true → IsRun p s
  unfolding rest_matches
  rest_matches-IsRun [] h = record { body = []; allowed = refl; whole = inl refl }
  rest_matches-IsRun (c ∷ []) h = elim (Bool-cases (p c)) [
    | inl good ↦ record { body = c ∷ []; allowed = ground arith; whole = inl refl }
    | inr bad ↦ record { body = []; allowed = refl; whole = inr (ground arith) }
  ]
  rest_matches-IsRun (c ∷ d ∷ s) h =
      let (good, more) = &&-eq-true (p c) (rest_matches p (d ∷ s)) h in
      let r = rest_matches-IsRun (d ∷ s) more in
      record {
        body = c ∷ r.body;
        allowed = ground (arith, r.allowed);
        whole = elim r.whole [ inl e ↦ inl (ap (λ t. c ∷ t) e) | inr e ↦ inr (ap (λ t. c ∷ t) e) ];
      }

  rest_matches_run : (s : List ℕ) → all p s ≡ true → rest_matches p s ≡ true
  unfolding rest_matches
  rest_matches_run [] h = refl
  rest_matches_run (c ∷ []) h = ground arith
  rest_matches_run (c ∷ d ∷ s) h = ground (arith, rest_matches_run (d ∷ s))

  rest_matches_newline : (s : List ℕ) → all p s ≡ true → rest_matches p (s ++ 10 ∷ []) ≡ true
  unfolding rest_matches
  rest_matches_newline [] h = refl
  rest_matches_newline (c ∷ []) h = ground arith
  rest_matches_newline (c ∷ d ∷ s) h = ground (arith, rest_matches_newline (d ∷ s))

  matches_rest : (s : List ℕ) → matches p s ≡ true → rest_matches p s ≡ true
  unfolding matches rest_matches
  matches_rest [] h = cc
  matches_rest (c ∷ []) h = ground arith
  matches_rest (c ∷ d ∷ s) h = h

  matches_run :
      (s : List ℕ)
      → all p s ≡ true
      → (s ≢ [])
      → (matches p s ≡ true) × (matches p (s ++ 10 ∷ []) ≡ true)
  unfolding matches
  matches_run [] h n = absurd (n refl)
  matches_run (c ∷ s) h n = ground (arith, rest_matches_run s, rest_matches_newline s)

-- The only white space that a name may hold is the space, and the space is no identifier character.
space_in_name : (c : ℕ) → is_name_char c ≡ true → is_space c ≡ not (is_id_char c)
unfolding is_name_char is_space
space_in_name c h = ground arith

blank_name : (s : List ℕ) → all is_name_char s ≡ true → all is_space s ≡ not (any is_id_char s)
blank_name [] h = refl
blank_name (c ∷ s) h = ground (arith, space_in_name c, blank_name s)

newline_space : is_space 10 ≡ true
unfolding is_space
newline_space = refl

all-append : (p : ℕ → Bool) (s t : List ℕ) → all p (s ++ t) ≡ (all p s && all p t)
all-append p [] t = refl
all-append p (c ∷ s) t = ground (arith, all-append p s t)

any-ne_nil : (p : ℕ → Bool) (s : List ℕ) → any p s ≡ true → s ≢ []
any-ne_nil p [] h = cc
any-ne_nil p (c ∷ s) h = λ e. cc

-- A name: a run of letters, digits, spaces, dashes and underscores that is not all spaces, or such a
-- run and one newline.
pub record IsSafeName (s : List ℕ) : Type 0 where
  pub run : IsRun is_name_char s
  pub visible : any is_id_char run.body ≡ true

blank_run : (s : List ℕ) (r : IsRun is_name_char s) → all is_space s ≡ not (any is_id_char r.body)
blank_run s r = elim r.whole [
  | inl e ↦ rw e (blank_name r.body r.allowed)
  | inr e ↦
      rw e (ground (arith, all-append is_space r.body (10 ∷ []), newline_space, blank_name r.body))
]

sanitized :
    (v f : String)
    → sanitize_name v f ≡ ok v
    → (is_blank v ≡ false) × (matches is_name_char (codes v) ≡ true)
unfolding sanitize_name
sanitized v f h = ground arith

not_blank :
    (s : List ℕ) (r : IsRun is_name_char s) → all is_space s ≡ false → any is_id_char r.body ≡ true
not_blank s r h = ground (arith, blank_run s r)

matches_whole :
    (s : List ℕ) (r : IsRun is_name_char s)
    → any is_id_char r.body ≡ true
    → matches is_name_char s ≡ true
matches_whole s r h =
    let (plain, ended) =
      matches_run is_name_char r.body r.allowed (any-ne_nil is_id_char r.body h) in
    elim r.whole [ inl e ↦ rw e plain | inr e ↦ rw e ended ]

accepted :
    (v f : String)
    → matches is_name_char (codes v) ≡ true
    → is_blank v ≡ false
    → sanitize_name v f ≡ ok v
unfolding sanitize_name
accepted v f m b = ground arith

-- `sanitize_name` returns its argument exactly for the names of `IsSafeName`: those the documentation
-- promises, and the same with one newline at the end.
pub sanitize_name_iff : (v f : String) → (sanitize_name v f ≡ ok v) ↔ IsSafeName (codes v)
unfolding is_blank
sanitize_name_iff v f = (
  λ h.
      let (shown, run) = sanitized v f h in
      let r = rest_matches-IsRun is_name_char (codes v) (matches_rest is_name_char (codes v) run) in
      record { run = r; visible = not_blank (codes v) r shown },
  λ n.
      accepted v f (matches_whole (codes v) n.run n.visible)
        (ground (arith, blank_run (codes v) n.run, n.visible)),
)

body-ne_nil : (s : List ℕ) (r : IsRun is_id_char s) → matches is_id_char s ≡ true → r.body ≢ []
unfolding matches is_id_char
body-ne_nil s r h e = elim r.whole [
  | inl w ↦ absurd (cc (rw (w ∙ e) at h))
  | inr w ↦ absurd (cc (rw (w ∙ ap (λ b. b ++ 10 ∷ []) e) at h))
]

-- `validate_identifier` returns its argument exactly for the runs of at least one letter, digit, dash or
-- underscore, and the same with one newline at the end.
pub validate_identifier_iff :
    (v : String)
    → (validate_identifier v ≡ ok v) ↔ ((r : IsRun is_id_char (codes v)) × (r.body ≢ []))
unfolding validate_identifier
validate_identifier_iff v = (
  λ h.
      let run : matches is_id_char (codes v) ≡ true = ground arith in
      let r = rest_matches-IsRun is_id_char (codes v) (matches_rest is_id_char (codes v) run) in
      (r, body-ne_nil (codes v) r run),
  λ (r, n).
      let (plain, ended) = matches_run is_id_char r.body r.allowed n in
      let run : matches is_id_char (codes v) ≡ true = elim r.whole [
        | inl e ↦ rw e plain
        | inr e ↦ rw e ended
      ] in
      rw run refl,
)
