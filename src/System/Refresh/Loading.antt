-- ===== src/System/Refresh/Loading.antt =====
-- What the loading of the sources, the views and the filters does to the tables of one file.
use buchi_maker.Common.{
  Bool-cases, Option-cases, Dict, lookup, insert, lookup-insert, String, ◌≡◌, refl, sym, ap₂, subst,
  ◌∙◌, inl, inr, true, not, ◌&&◌, Option, none, some, List, [], ◌∷◌, ◌==◌, eq_iff,
}
use buchi_maker.Dashboard.Load.Text.{rstrip_semicolons}
use buchi_maker.System.Refresh.{
  Content, World, Cached, Base, load_all, create_views, refresh_filter, refresh_filters,
  refresh_bases,
}

-- No key stands twice.
abbrev pub IsDict : {V : Type 0} → Dict V → Type 0
IsDict [] = Unit
IsDict ((k, v) ∷ d) = (lookup k d ≡ none) × IsDict d

some_injective : {A : Type 0} {a b : A} → Path (Option A) (some a) (some b) → a ≡ b
some_injective p = cc

module _ (world : World) where
  load_all-other :
      (name : String) (ds : Dict String) (c : Content)
      → lookup name ds ≡ none
      → (load_all world ds c).1 ≡ true
      → lookup name (load_all world ds c).0.tables ≡ lookup name c.tables
  unfolding load_all
  load_all-other name [] c h e = refl
  load_all-other name ((k, source) ∷ ds) c h e = elim (Option-cases (world.read k source)) [
    | inl p ↦ absurd (cc (rw (p, load_all) at e))
    | inr (rows, p) ↦ elim (Bool-cases (k == name)) [
      | inl f ↦
          let g : Path (Option String) (some source) none = unfold lookup in rw f at h in
          absurd (cc g)
      | inr f ↦
          let g : lookup name ds ≡ none = unfold lookup in rw f at h in
          rw (p, load_all)
            (load_all-other name ds (record c { tables = insert k rows c.tables }) g
                (rw (p, load_all) at e)
              ∙ rw (lookup-insert, f) refl)
    ]
  ]

  pub load_all-found :
      (name source : String) (ds : Dict String) (c : Content)
      → IsDict ds
      → (load_all world ds c).1 ≡ true
      → lookup name ds ≡ some source
      → lookup name (load_all world ds c).0.tables ≡ world.read name source
  unfolding load_all
  load_all-found name source [] c d e h =
      let g : Path (Option String) none (some source) = unfold lookup in h in absurd (cc g)
  load_all-found name source ((k, s) ∷ ds) c (new, d) e h = elim (Option-cases (world.read k s)) [
    | inl p ↦ absurd (cc (rw (p, load_all) at e))
    | inr (rows, p) ↦ elim (Bool-cases (k == name)) [
      | inl f ↦
          let same : k ≡ name = (eq_iff k name).0 f in
          let found : Path (Option String) (some s) (some source) = unfold lookup in rw f at h in
          let at_s : s ≡ source = some_injective found in
          rw (p, load_all)
            (load_all-other name ds (record c { tables = insert k rows c.tables })
                (subst (λ n. lookup n ds ≡ none) same new) (rw (p, load_all) at e)
              ∙ rw (lookup-insert, f) (sym p ∙ ap₂ world.read same at_s))
      | inr f ↦
          rw (p, load_all)
            (load_all-found name source ds (record c { tables = insert k rows c.tables }) d
              (rw (p, load_all) at e) (unfold lookup in rw f at h))
    ]
  ]

  pub create_views-tables :
      (ds : List Base) (c : Content) → (create_views world ds c).0.tables ≡ c.tables
  unfolding create_views
  create_views-tables [] c = refl
  create_views-tables (d ∷ ds) c = elim (Bool-cases (d.source_table == "")) [
    | inl e ↦ rw e (create_views-tables ds c)
    | inr e ↦
        rw e
          (elim (Bool-cases
            (not (d.base_view_sql == "") && world.accepts (rstrip_semicolons d.base_view_sql))) [
              | inl f ↦ rw f (
                  create_views-tables ds
                    (record c { views = insert d.source_table d.base_view_sql c.views }))
              | inr f ↦ rw f refl
            ])
  ]

  refresh_filter-tables :
      (f : Cached) (c : Content) → (refresh_filter world f c).0.tables ≡ c.tables
  unfolding refresh_filter
  refresh_filter-tables f c = elim (Bool-cases (world.accepts f.query)) [
    | inl e ↦ rw (e, refresh_filter) refl
    | inr e ↦ rw (e, refresh_filter) refl
  ]

  refresh_filters-tables :
      (fs : Dict Cached) (c : Content) → (refresh_filters world fs c).0.tables ≡ c.tables
  unfolding refresh_filters refresh_filter
  refresh_filters-tables [] c = refl
  refresh_filters-tables ((h, f) ∷ fs) c = elim (Bool-cases f.is_loaded) [
    | inl e ↦
        rw e (refresh_filters-tables fs (refresh_filter world f c).0 ∙ refresh_filter-tables f c)
    | inr e ↦ rw e (refresh_filters-tables fs c)
  ]

  pub refresh_bases-tables :
      (ds : Dict Base) (c : Content) → (refresh_bases world ds c).0.tables ≡ c.tables
  unfolding refresh_bases
  refresh_bases-tables [] c = refl
  refresh_bases-tables ((id, d) ∷ ds) c =
      refresh_bases-tables ds (refresh_filters world d.filters c).0
      ∙ refresh_filters-tables d.filters c
