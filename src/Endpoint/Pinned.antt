-- ===== src/Endpoint/Pinned.antt =====
-- post_dashboard_data: how the query parameters override the filters of the body.
use buchi_maker.Common.{
  eqb, if◌then◌else◌, Bool-cases, Option-cases, &&-eq-true, Dict, lookup, insert, lookup-insert,
  String, ◌≡◌, refl, sym, ap, ap₂, subst, ◌∙◌, inl, inr, false, ◌&&◌, Option, none, some, [], ◌∷◌,
  arith, ◌==◌, eq_iff, eq_refl,
}
use text.Mathlib.TextEquality.{Char-path}
use Prim.Native.Char.{code}
use buchi_maker.Json.{Json, str}
use buchi_maker.Endpoint.{before_bracket, pinned_id, pin}

-- the text, and "]" after it
unfoldable pub closed : String → String
closed String.[] = "]"
closed (String.◌∷◌ c s) = String.◌∷◌ c (closed s)

-- the name `f[id]`
abbrev pub parameter : String → String
parameter id = String.◌∷◌ "f" (String.◌∷◌ "[" (closed id))

some_injective : {A : Type 0} {a b : A} → Path (Option A) (some a) (some b) → a ≡ b
some_injective p = cc

before_bracket-closed : (id : String) → before_bracket (closed id) ≡ some id
unfolding before_bracket closed
before_bracket-closed String.[] = refl
before_bracket-closed (String.◌∷◌ c s) = rw (before_bracket-closed s) refl

before_bracket_only : (s id : String) → before_bracket s ≡ some id → s ≡ closed id
unfolding before_bracket closed
before_bracket_only String.[] id e = absurd (cc)
before_bracket_only (String.◌∷◌ c s) id e = elim (Option-cases (before_bracket s)) [
  | inr (t, p) ↦
      let same : String.◌∷◌ c t ≡ id = some_injective (rw p at e) in
      subst (λ x. String.◌∷◌ c s ≡ closed x) same (ap (String.◌∷◌ c) (before_bracket_only s t p))
  | inl p ↦ elim (Bool-cases (eqb (code c) b']' && s == "")) [
    | inl q ↦
        let (at_c, at_s) = &&-eq-true (eqb (code c) b']') (s == "") q in
        let same : "" ≡ id = some_injective (rw (p, q) at e) in
        subst (λ x. String.◌∷◌ c s ≡ closed x) same
          (ap₂ String.◌∷◌ (Char-path c "]" (ground (arith, at_c))) ((eq_iff s "").0 at_s))
    | inr q ↦ absurd (cc (rw (p, q) at e))
  ]
]

pinned_id-parameter : (id : String) → pinned_id (parameter id) ≡ some id
unfolding pinned_id
pinned_id-parameter id = before_bracket-closed id

pinned_id_only : (k id : String) → pinned_id k ≡ some id → k ≡ parameter id
unfolding pinned_id
pinned_id_only String.[] id e = absurd (cc)
pinned_id_only (String.◌∷◌ a String.[]) id e = absurd (cc)
pinned_id_only (String.◌∷◌ a (String.◌∷◌ b s)) id e =
    elim (Bool-cases (eqb (code a) b'f' && eqb (code b) b'[')) [
      | inl q ↦
          let (at_a, at_b) = &&-eq-true (eqb (code a) b'f') (eqb (code b) b'[') q in
          ap₂ String.◌∷◌ (Char-path a "f" (ground (arith, at_a))) (
            ap₂ String.◌∷◌ (Char-path b "[" (ground (arith, at_b)))
              (before_bracket_only s id (rw q at e)))
      | inr q ↦ absurd (cc (rw q at e))
    ]

-- the value of the last parameter with this name
unfoldable pub latest : String → Dict String → Option String
latest key [] = none
latest key ((k, v) ∷ params) = elim (latest key params) [
  | some w ↦ some w
  | none ↦ if k == key then some v else none
]

other_key : (k j : String) → ¬ (k ≡ j) → (k == j) ≡ false
other_key k j h = ground (arith, eq_iff k j)

-- the pinned value, if there is one
abbrev pub pinned_or : Option Json → Option String → Option Json
pinned_or found none = found
pinned_or found (some v) = some (str v)

latest-miss :
    (key k v : String) (params : Dict String)
    → (k == key) ≡ false
    → latest key ((k, v) ∷ params) ≡ latest key params
unfolding latest
latest-miss key k v params e = elim (Option-cases (latest key params)) [
  | inl q ↦ rw (q, e) refl
  | inr (w, q) ↦ rw q refl
]

latest-hit :
    (key v : String) (params : Dict String) (found : Option Json)
    → pinned_or found (latest key ((key, v) ∷ params))
      ≡ pinned_or (some (str v)) (latest key params)
unfolding latest
latest-hit key v params found = elim (Option-cases (latest key params)) [
  | inl q ↦ rw (q, eq_refl key) refl
  | inr (w, q) ↦ rw q refl
]

-- A widget's filter is the value of the last query parameter that is named after it, and the body's only
-- where there is none; no other parameter matters.
pub pin-lookup :
    (found : Dict Json) (params : Dict String) (id : String)
    → lookup id (pin found params) ≡ pinned_or (lookup id found) (latest (parameter id) params)
unfolding pin
pin-lookup found [] id = unfold latest in refl
pin-lookup found ((key, value) ∷ params) id = elim (Option-cases (pinned_id key)) [
  | inl p ↦
      let other : (key == parameter id) ≡ false =
        other_key key (parameter id)
          (λ e. cc (p, subst (λ k. pinned_id k ≡ some id) (sym e) (pinned_id-parameter id))) in
      rw (p, latest-miss (parameter id) key value params other) (pin-lookup found params id)
  | inr (j, p) ↦ elim (Bool-cases (j == id)) [
    | inl q ↦
        let same : key ≡ parameter id = pinned_id_only key id (p ∙ ap some ((eq_iff j id).0 q)) in
        rw p (
          pin-lookup (insert j (str value) found) params id
          ∙ rw (lookup-insert, q, same)
              (sym (latest-hit (parameter id) value params (lookup id found))))
    | inr q ↦
        let other : (key == parameter id) ≡ false = other_key key (parameter id) (λ e. absurd (
          cc (
            q,
            eq_refl id,
            some_injective
                (sym p ∙ subst (λ k. pinned_id k ≡ some id) (sym e) (pinned_id-parameter id)),
          ))) in
        rw (p, latest-miss (parameter id) key value params other)
          (pin-lookup (insert j (str value) found) params id ∙ rw (lookup-insert, q) refl)
  ]
]
