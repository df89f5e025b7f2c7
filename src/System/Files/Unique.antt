-- ===== src/System/Files/Unique.antt =====
-- Every registered dashboard stands under its own id, and no file is registered twice.
use buchi_maker.Common.{
  Bool-cases, Option-cases, Dict, lookup, insert, erase, lookup-insert, lookup-erase, Result, OnOk,
  OnOk-map, OnOk-true, ok, err, String, ◌≡◌, sym, ap, ◌∙◌, ◌⊎◌, inl, inr, Bool, true, false, Option,
  none, some, [], ◌∷◌, arith, ◌==◌, eq_iff,
}
use buchi_maker.System.Files.{
  Dash, Registry, save_dashboards, other_id, register, checked, load_dashboard, drop_dashboard,
  remove_dashboard, registered,
}

some_injective : {A : Type 0} {a b : A} → Path (Option A) (some a) (some b) → a ≡ b
some_injective p = cc

module _ (resolve : String → String) where
  pub record IsUnique (ds : Dict Dash) : Type 0 where
    pub own_id : (k : String) (d : Dash) → lookup k ds ≡ some d → d.id ≡ k
    pub one_file :
        (j k : String) (d e : Dash)
        → lookup j ds ≡ some d
        → lookup k ds ≡ some e
        → (d.yaml_path == "") ≡ false
        → (e.yaml_path == "") ≡ false
        → resolve d.yaml_path ≡ resolve e.yaml_path
        → j ≡ k

  -- every dashboard of that file has the id
  other_id_lem :
      (path id : String) (ds : Dict Dash)
      → other_id resolve path id ds ≡ none
      → (k : String) (d : Dash) → lookup k ds ≡ some d
      → (d.yaml_path == "") ≡ false
      → resolve d.yaml_path ≡ resolve path
      → k ≡ id
  unfolding other_id lookup
  other_id_lem path id [] h k d p full same = absurd (cc)
  other_id_lem path id ((j, e) ∷ ds) h k d p full same = elim (Bool-cases (j == k)) [
    | inr f ↦ other_id_lem path id ds (ground (arith, h)) k d (rw f at p) full same
    | inl f ↦
        let at_e : e ≡ d = some_injective (rw f at p) in
        elim (Bool-cases (j == id)) [
          | inl g ↦ sym ((eq_iff j k).0 f) ∙ (eq_iff j id).0 g
          | inr g ↦
              let here : (resolve e.yaml_path == resolve path) ≡ true =
                (eq_iff (resolve e.yaml_path) (resolve path)).1
                  (ap (λ (x : Dash). resolve x.yaml_path) at_e ∙ same) in
              let there : (e.yaml_path == "") ≡ false =
                ap (λ (x : Dash). x.yaml_path == "") at_e ∙ full in
              absurd (cc (rw (here, there, g) at h))
        ]
  ]

  -- what is found after an insertion is the new dashboard under its id, or was there
  inserted :
      (dash : Dash) (ds : Dict Dash) (k : String) (d : Dash)
      → lookup k (insert dash.id dash ds) ≡ some d
      → ((dash.id ≡ k) × (dash ≡ d)) ⊎ (lookup k ds ≡ some d)
  inserted dash ds k d p = elim (Bool-cases (dash.id == k)) [
    | inl e ↦ inl ((eq_iff dash.id k).0 e, some_injective (rw (lookup-insert, e) at p))
    | inr e ↦ inr (rw (lookup-insert, e) at p)
  ]

  insert-IsUnique :
      (dash : Dash) (ds : Dict Dash)
      → other_id resolve dash.yaml_path dash.id ds ≡ none
      → IsUnique ds
      → IsUnique (insert dash.id dash ds)
  insert-IsUnique dash ds free inv = record {
    own_id = λ k d p. elim (inserted dash ds k d p) [
      | inl (same, at_d) ↦ ap (λ (x : Dash). x.id) (sym at_d) ∙ same
      | inr q ↦ inv.own_id k d q
    ];
    one_file = λ j k d e p q full_d full_e same. elim (inserted dash ds j d p) [
      | inl (at_j, at_d) ↦ elim (inserted dash ds k e q) [
        | inl (at_k, at_e) ↦ sym at_j ∙ at_k
        | inr q' ↦ sym (
            other_id_lem dash.yaml_path dash.id ds free k e q' full_e
              (sym same ∙ ap (λ (x : Dash). resolve x.yaml_path) (sym at_d))
            ∙ at_j)
      ]
      | inr p' ↦ elim (inserted dash ds k e q) [
        | inl (at_k, at_e) ↦
            other_id_lem dash.yaml_path dash.id ds free j d p' full_d
              (same ∙ ap (λ (x : Dash). resolve x.yaml_path) (sym at_e))
            ∙ at_k
        | inr q' ↦ inv.one_file j k d e p' q' full_d full_e same
      ]
    ];
  }

  remains :
      (id k : String) (ds : Dict Dash) (d : Dash)
      → lookup k (erase id ds) ≡ some d
      → lookup k ds ≡ some d
  remains id k ds d p = elim (Bool-cases (id == k)) [
    | inl e ↦ absurd (cc (rw (lookup-erase, e) at p))
    | inr e ↦ rw (lookup-erase, e) at p
  ]

  erase-IsUnique : (id : String) (ds : Dict Dash) → IsUnique ds → IsUnique (erase id ds)
  erase-IsUnique id ds inv = record {
    own_id = λ k d p. inv.own_id k d (remains id k ds d p);
    one_file = λ j k d e p q. inv.one_file j k d e (remains id j ds d p) (remains id k ds e q);
  }

  -- One call after the other, whatever load_yaml answers.
  pub data Reachable : Registry → Type 0 where
    start : Reachable (record { dashboards = []; saved = []; effects = [] })
    loaded :
        (path : String) (save : Bool) (answer : Result String Dash) {s : Registry}
        → Reachable s
        → Reachable (load_dashboard resolve path save answer s).0
    gone : (id : String) {s : Registry} → Reachable s → Reachable (remove_dashboard id s).0

  checked-free :
      (path : String) (dash : Dash) (s : Registry)
      → OnOk (λ u. other_id resolve path dash.id s.dashboards ≡ none) (checked resolve path dash s)
  unfolding checked
  checked-free path dash s = elim (Option-cases (other_id resolve path dash.id s.dashboards)) [
    | inl e ↦
        OnOk-map (λ u. Unit {0}) (λ u. other_id resolve path dash.id s.dashboards ≡ none)
          (checked resolve path dash s) (λ u h. e) (OnOk-true (checked resolve path dash s))
    | inr (id, e) ↦ rw (e, OnOk, checked) tt
  ]

  registered-IsUnique :
      (save : Bool) (dash : Dash) (s : Registry) (r : Result String (Unit {0}))
      → OnOk (λ u. other_id resolve dash.yaml_path dash.id s.dashboards ≡ none) r
      → IsUnique s.dashboards
      → IsUnique (registered resolve save dash s r).0.dashboards
  unfolding registered register save_dashboards
  registered-IsUnique save dash s (err e) free inv = inv
  registered-IsUnique true dash s (ok u) free inv = insert-IsUnique dash s.dashboards free inv
  registered-IsUnique false dash s (ok u) free inv = insert-IsUnique dash s.dashboards free inv

  load-IsUnique :
      (path : String) (save : Bool) (answer : Result String Dash) (s : Registry)
      → IsUnique s.dashboards
      → IsUnique (load_dashboard resolve path save answer s).0.dashboards
  unfolding load_dashboard
  load-IsUnique path save (err e) s inv = inv
  load-IsUnique path save (ok answer) s inv =
      let dash : Dash = record answer { yaml_path = path } in
      registered-IsUnique save dash s (checked resolve path dash s) (checked-free path dash s) inv

  remove-IsUnique :
      (id : String) (s : Registry)
      → IsUnique s.dashboards
      → IsUnique (remove_dashboard id s).0.dashboards
  unfolding remove_dashboard drop_dashboard save_dashboards
  remove-IsUnique id s inv = elim (Option-cases (lookup id s.dashboards)) [
    | inl e ↦ rw (e, drop_dashboard) inv
    | inr (d, e) ↦ rw (e, drop_dashboard) (erase-IsUnique id s.dashboards inv)
  ]

  -- Whatever is loaded and removed, in any order: a dashboard stands under its own id, and no file belongs to two.
  pub Reachable-IsUnique : (s : Registry) → Reachable s → IsUnique s.dashboards
  Reachable-IsUnique s start =
      unfold lookup in
      record {
        own_id = λ k d p. absurd (cc);
        one_file = λ j k d e p q full_d full_e same. absurd (cc);
      }
  Reachable-IsUnique s (loaded path save answer r) =
      load-IsUnique path save answer _ (Reachable-IsUnique _ r)
  Reachable-IsUnique s (gone id r) = remove-IsUnique id _ (Reachable-IsUnique _ r)
