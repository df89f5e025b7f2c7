-- ===== src/Dashboard/Load/Widgets.antt =====
-- What the checks of a layout establish.
use buchi_maker.Common.{
  Option-cases, all, All, codes, elem, Dict, lookup, guard, map_err, Result-cases, OnOk, OnOk-bind,
  OnOk-at, ok, ℕ, ◌+◌, String, ◌≡◌, ap, ◌∙◌, inl, inr, true, false, not, none, some, List, [], ◌∷◌,
  arith,
}
use buchi_maker.Json.{Json, str_of}
use buchi_maker.Validator.{sanitize_name}
use buchi_maker.Validator.Names.{IsSafeName, sanitize_name_iff}
use buchi_maker.Dashboard.{Widget}
use buchi_maker.Dashboard.Load.Base.{Python}
use buchi_maker.Dashboard.Load.Layout.{
  Names, widget_entry, check_grid, check_kind, checked_widget, layout_of,
}
use buchi_maker.Dashboard.Load.Kinds.{guard-true, IsKindOk, check_kind-IsKindOk}
use buchi_maker.Dashboard.Load.Grid.{IsOnGrid, check_grid-IsOnGrid}

sanitize_name-eq : (v f : String) → OnOk (λ a. a ≡ v) (sanitize_name v f)
unfolding sanitize_name
sanitize_name-eq v f = ground arith

pub sanitize_name-IsSafeName :
    {F : Type 0} (g : String → F) (v f : String)
    → OnOk (λ a. (a ≡ v) × IsSafeName (codes v)) (map_err g (sanitize_name v f))
sanitize_name-IsSafeName g v f = elim (Result-cases (sanitize_name v f)) [
  | inl (a, e) ↦
      let same : a ≡ v = OnOk-at (λ b. b ≡ v) (sanitize_name v f) a e (sanitize_name-eq v f) in
      rw e (same, (sanitize_name_iff v f).0 (e ∙ ap ok same))
  | inr (x, e) ↦ rw e tt
]

-- The identifiers are not among `seen`, and no two are equal.
abbrev pub IsDistinct : List String → List Widget → Type 0
IsDistinct seen [] = Unit
IsDistinct seen (w ∷ ws) = (elem w.id seen ≡ false) × IsDistinct (w.id ∷ seen) ws

module _ (py : Python) (names : Names) where
  -- What is known of a widget of a loaded layout.
  pub record IsChecked (w : Widget) : Type 0 where
    pub safe : IsSafeName (codes w.id)
    pub on_grid : IsOnGrid py names (lookup "grid" w.config)
    pub kind_ok : IsKindOk py names w.kind w.config

  checked_widget-IsChecked :
      (n : ℕ) (seen : List String) (kind : String) (cfg : Dict Json)
      → OnOk (λ w. IsChecked w × (elem w.id seen ≡ false)) (checked_widget py names n seen kind cfg)
  unfolding checked_widget
  checked_widget-IsChecked n seen kind cfg =
      let id : String = elim (lookup "id" cfg) [ none ↦ py.fresh n | some v ↦ str_of py.repr v ] in
      let Q : Widget → Type 0 = λ w. IsChecked w × (elem w.id seen ≡ false) in
      OnOk-bind (λ a. (a ≡ id) × IsSafeName (codes id)) Q _ _ (sanitize_name-IsSafeName _ id _)
        λ u (same, safe).
          OnOk-bind (λ _. not (elem id seen) ≡ true) Q (guard (not (elem id seen)) _) _
            (guard-true (not (elem id seen)) _)
            λ u new.
              OnOk-bind (λ _. IsOnGrid py names (lookup "grid" cfg)) Q
                (check_grid py names kind id (lookup "grid" cfg)) _
                (check_grid-IsOnGrid py names kind id (lookup "grid" cfg))
                λ u on_grid.
                  OnOk-bind (λ _. IsKindOk py names kind cfg) Q (check_kind py names kind id cfg) _
                    (check_kind-IsKindOk py names kind id cfg)
                    λ u kind_ok. (
                      record { safe = safe; on_grid = on_grid; kind_ok = kind_ok },
                      ground (arith, new),
                    )

  pub layout_of-IsChecked :
      (n : ℕ) (seen : List String) (vs : List Json)
      → OnOk (λ ws. All IsChecked ws × IsDistinct seen ws) (layout_of py names n seen vs)
  unfolding layout_of
  layout_of-IsChecked n seen [] = (tt, tt)
  layout_of-IsChecked n seen (v ∷ vs) =
      let Q : List Widget → Type 0 = λ ws. All IsChecked ws × IsDistinct seen ws in
      elim (Option-cases (widget_entry v)) [
        | inl e ↦ rw (e, OnOk) (layout_of-IsChecked (n + 1) seen vs)
        | inr ((kind, cfg), e) ↦
            rw (e, OnOk)
              (OnOk-bind (λ w. IsChecked w × (elem w.id seen ≡ false)) Q
                (checked_widget py names n seen kind cfg) _
                (checked_widget-IsChecked n seen kind cfg)
                λ w (checked, new).
                  OnOk-bind (λ ws. All IsChecked ws × IsDistinct (w.id ∷ seen) ws) Q
                    (layout_of py names (n + 1) (w.id ∷ seen) vs) _
                    (layout_of-IsChecked (n + 1) (w.id ∷ seen) vs)
                    λ ws (all, distinct). ((checked, all), (new, distinct)))
      ]
