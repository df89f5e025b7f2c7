-- ===== src/Dashboard/Load/Kinds.antt =====
-- What the checks of a widget's type establish.
use buchi_maker.Common.{
  Bool-cases, All, elem, Dict, Result, ◌>>=◌, guard, OnOk, OnOk-map, OnOk-bind, OnOk-true, ok, err,
  String, ◌≡◌, refl, sym, subst, ◌∙◌, inl, inr, Bool, true, false, not, ◌||◌, List, [], ◌∷◌, arith,
  ◌==◌, eq_iff,
}
use buchi_maker.Json.{Json, null, bool, num, str, arr, obj, truthy}
use buchi_maker.Dashboard.{aggregate_widgets, total_widgets}
use buchi_maker.Dashboard.Load.Base.{Python, Refusal, in_set}
use buchi_maker.Dashboard.Load.Layout.{
  Names, got, refers, check_total, check_aggregate, check_toggle, check_kind,
}

pub guard-true : {E : Type 0} (b : Bool) (e : E) → OnOk (λ _. b ≡ true) (guard b e)
guard-true true e = refl
guard-true false e = tt

-- The text `t` that a key of the configuration holds is not one of `set`.
abbrev pub IsNotIn : Json → List String → Type 0
IsNotIn v set = (t : String) → v ≡ str t → (t == "") ≡ false → elem t set ≡ false

no_text :
    (v : Json) (set : List String) (r : Result Refusal Bool)
    → ((t : String) → ¬ (v ≡ str t))
    → OnOk (λ b. (t : String) → v ≡ str t → (t == "") ≡ false → elem t set ≡ b) r
no_text v set (ok b) h = λ t e n. absurd (h t e)
no_text v set (err x) h = tt

-- the widgets whose `data` may name a table
abbrev pub takes_table : String → Bool
takes_table kind =
    elem kind aggregate_widgets || (kind == "dropdown_single" || kind == "dropdown_multy")

elem-All : (P : String → Type 0) (k : String) (xs : List String) → All P xs → elem k xs ≡ true → P k
elem-All P k [] h e = absurd (cc)
elem-All P k (x ∷ xs) (p, h) e = elim (Bool-cases (x == k)) [
  | inl f ↦ subst P ((eq_iff x k).0 f) p
  | inr f ↦ elem-All P k xs h (ground (arith, e, f))
]

total_takes_none : (kind : String) → elem kind total_widgets ≡ true → takes_table kind ≡ false
total_takes_none kind e =
    elem-All (λ k. takes_table k ≡ false) kind total_widgets (refl, (refl, (refl, tt))) e

button_takes_none : (kind : String) → (kind == "button_filter") ≡ true → takes_table kind ≡ false
button_takes_none kind e =
    subst (λ k. takes_table k ≡ false) (sym ((eq_iff kind "button_filter").0 e)) refl

module _ (py : Python) (names : Names) where
  refers_lem :
      (v : Json) (set : List String)
      → OnOk
          (λ b. (t : String) → v ≡ str t → (t == "") ≡ false → elem t set ≡ b)
          (refers py names v set)
  unfolding refers truthy in_set
  refers_lem (str s) set = elim (Bool-cases (s == "")) [
    | inl e ↦ rw e (λ t p n. absurd (cc))
    | inr e ↦ rw e (λ t p n. cc)
  ]
  refers_lem null set = no_text null set (refers py names null set) (λ t e. cc)
  refers_lem (bool b) set = no_text (bool b) set (refers py names (bool b) set) (λ t e. cc)
  refers_lem (num n) set = no_text (num n) set (refers py names (num n) set) (λ t e. cc)
  refers_lem (arr vs) set = no_text (arr vs) set (refers py names (arr vs) set) (λ t e. cc)
  refers_lem (obj fs) set = no_text (obj fs) set (refers py names (obj fs) set) (λ t e. cc)

  not_in :
      (v : Json) (set : List String) (x : Refusal)
      → OnOk (λ _. IsNotIn v set) (refers py names v set >>= λ found. guard (not found) x)
  not_in v set x =
      OnOk-bind (λ b. (t : String) → v ≡ str t → (t == "") ≡ false → elem t set ≡ b)
        (λ _. IsNotIn v set) (refers py names v set) _ (refers_lem v set)
        λ b h.
          OnOk-map (λ _. not b ≡ true) (λ _. IsNotIn v set) (guard (not b) x)
            (λ u k t e n. h t e n ∙ ground arith) (guard-true (not b) x)

  -- What the checks of its type establish for a widget.
  pub record IsKindOk (kind : String) (cfg : Dict Json) : Type 0 where
    pub total_ok : elem kind total_widgets ≡ true → IsNotIn (got "value" cfg) names.aggregates
    pub table_ok : takes_table kind ≡ true → IsNotIn (got "data" cfg) names.totals

  abbrev IsTable : String → Dict Json → Type 0
  IsTable kind cfg = IsNotIn (got "data" cfg) names.totals

  table-IsKindOk :
      (kind id : String) (cfg : Dict Json)
      → elem kind total_widgets ≡ false
      → OnOk (λ _. IsKindOk kind cfg) (check_aggregate py names kind id cfg)
  unfolding check_aggregate
  table-IsKindOk kind id cfg e =
      OnOk-map (λ _. IsTable kind cfg) (λ _. IsKindOk kind cfg)
        (check_aggregate py names kind id cfg)
        (λ u h. record { total_ok = λ t. absurd (cc (t, e)); table_ok = λ _. h })
        (not_in (got "data" cfg) names.totals _)

  other-IsKindOk :
      (kind : String) (cfg : Dict Json) (r : Result Refusal (Unit {0}))
      → elem kind total_widgets ≡ false
      → takes_table kind ≡ false
      → OnOk (λ _. IsKindOk kind cfg) r
  other-IsKindOk kind cfg r e f =
      OnOk-map (λ _. Unit {0}) (λ _. IsKindOk kind cfg) r
        (λ u h. record { total_ok = λ t. absurd (cc (t, e)); table_ok = λ t. absurd (cc (t, f)) })
        (OnOk-true r)

  pub check_kind-IsKindOk :
      (kind id : String) (cfg : Dict Json)
      → OnOk (λ _. IsKindOk kind cfg) (check_kind py names kind id cfg)
  unfolding check_kind check_total
  check_kind-IsKindOk kind id cfg = elim (Bool-cases (elem kind total_widgets)) [
    | inl e ↦ rw e (
        OnOk-map (λ _. IsNotIn (got "value" cfg) names.aggregates) (λ _. IsKindOk kind cfg)
          (check_total py names kind id cfg)
          (λ u h. record {
            total_ok = λ _. h;
            table_ok = λ t. absurd (cc (t, total_takes_none kind e));
          })
          (not_in (got "value" cfg) names.aggregates _))
    | inr e ↦ rw e (elim (Bool-cases (elem kind aggregate_widgets)) [
      | inl f ↦ rw f (table-IsKindOk kind id cfg e)
      | inr f ↦ rw f (elim (Bool-cases (kind == "button_filter")) [
        | inl g ↦
            rw g (other-IsKindOk kind cfg (check_toggle py names cfg) e (button_takes_none kind g))
        | inr g ↦ rw g (elim (Bool-cases (kind == "dropdown_single" || kind == "dropdown_multy")) [
          | inl h ↦ rw h (table-IsKindOk kind id cfg e)
          | inr h ↦ rw h (other-IsKindOk kind cfg (ok tt) e (rw f h))
        ])
      ])
    ])
  ]
