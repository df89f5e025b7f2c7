-- ===== src/Dashboard/Load/Checked.antt =====
-- What Dashboard.load_yaml promises of a dashboard that it loads.
use buchi_maker.Common.{
  Option-cases, OnSome, all, All, codes, Dict, lookup, keys, map_err, Result-cases, OnOk, OnOk-map,
  OnOk-bind, OnOk-at, OnOk-true, ℕ, String, ◌≡◌, refl, sym, subst, ◌⊎◌, inl, inr, Option, some, [],
  map, arith,
}
use buchi_maker.Json.{Json, str_of, get_or}
use buchi_maker.Validator.{sanitize_name}
use buchi_maker.Validator.Names.{IsSafeName}
use buchi_maker.Dashboard.{Summary, Aggregate}
use buchi_maker.Dashboard.Load.{Loaded, Run, body_of, created, load_yaml, ℤ}
use buchi_maker.Dashboard.Load.Base.{Python, validation, int_of}
use buchi_maker.Dashboard.Load.Text.{view_name_of, rstrip_semicolons}
use buchi_maker.Dashboard.Load.Start.{
  Head, head_of, columns_of, get_number, int_or_raise, checked_name, check_order, required_view,
  int_or_raise,
}
use buchi_maker.Dashboard.Load.Queries.{items_of, summary_of, aggregate_from, listed}
use buchi_maker.Dashboard.Load.Layout.{Names, layout_of}
use buchi_maker.Dashboard.Load.Widgets.{
  IsChecked, IsDistinct, layout_of-IsChecked, sanitize_name-IsSafeName,
}

-- What the first part establishes.
pub record IsHead (h : Head) : Type 0 where
  pub safe_id : IsSafeName (codes h.id)
  pub columns : (h.grid_columns ≡ 12) ⊎ (h.grid_columns ≡ 24)
  pub named : view_name_of h.base_view_sql ≡ some h.view_name
  pub safe_view : IsSafeName (codes h.view_name)

columns_lem : (py : Python) (raw : Json) → OnOk (λ n. (n ≡ 12) ⊎ (n ≡ 24)) (columns_of py raw)
unfolding columns_of
columns_lem py raw = ground arith

checked_name_lem :
    (sql : String)
    → OnOk (λ n. (view_name_of sql ≡ some n) × IsSafeName (codes n)) (checked_name sql)
unfolding checked_name
checked_name_lem sql = elim (Option-cases (view_name_of sql)) [
  | inl e ↦ rw (e, OnOk) tt
  | inr (name, e) ↦
      rw (e, OnOk)
        (OnOk-map (λ a. (a ≡ name) × IsSafeName (codes name))
          (λ n. (view_name_of sql ≡ some n) × IsSafeName (codes n))
          (map_err validation (sanitize_name name "base_view name"))
          (λ n (same, safe). (cc (e, same), subst (λ k. IsSafeName (codes k)) (sym same) safe))
          (sanitize_name-IsSafeName validation name "base_view name"))
]

head_of-IsHead : (py : Python) (content : Dict Json) → OnOk IsHead (head_of py content)
unfolding head_of
head_of-IsHead py content =
    let id : String = str_of py.repr (get_or "id" "" content) in
    OnOk-bind (λ a. (a ≡ id) × IsSafeName (codes id)) IsHead
      (map_err validation (sanitize_name id "dashboard id")) _
      (sanitize_name-IsSafeName validation id "dashboard id")
      λ u (same, safe_id).
        OnOk-bind (λ (z : ℤ). Unit {0}) IsHead
          (int_or_raise (int_of py (get_number "refresh_frequency_filter" "10" content))) _
          (OnOk-true _)
          λ refresh _.
            OnOk-bind (λ (z : ℤ). Unit {0}) IsHead
              (int_or_raise (int_of py (get_number "unallocate_frequency_filter" "30" content))) _
              (OnOk-true _)
              λ unallocate _.
                OnOk-bind (λ (n : ℕ). (n ≡ 12) ⊎ (n ≡ 24)) IsHead
                  (columns_of py (get_number "grid_columns" "12" content)) _
                  (columns_lem py (get_number "grid_columns" "12" content))
                  λ grid_columns columns.
                    OnOk-bind (λ (s : String). Unit {0}) IsHead
                      (required_view py (lookup "base_view" content)) _ (OnOk-true _)
                      λ sql _.
                        OnOk-bind (λ (u : Unit {0}). Unit {0}) IsHead (check_order (keys content)) _
                          (OnOk-true _)
                          λ u _.
                            OnOk-bind
                              (λ (n : String). (view_name_of sql ≡ some n) × IsSafeName (codes n))
                              IsHead (checked_name sql) _ (checked_name_lem sql)
                              λ view_name (named, safe_view). (record {
                                safe_id = safe_id;
                                columns = columns;
                                named = named;
                                safe_view = safe_view;
                              })

-- the names of a loaded dashboard, against which its widgets were checked
abbrev pub names_of : Loaded → Names
names_of l = record {
  grid_columns = l.head.grid_columns;
  totals = map (λ (s : Summary). s.name) l.definition.summaries;
  aggregates = map (λ (a : Aggregate). a.name) l.definition.aggregates;
}

-- A loaded dashboard.
pub record IsLoaded (py : Python) (l : Loaded) : Type 0 where
  pub head_ok : IsHead l.head
  pub widgets_ok : All (IsChecked py (names_of l)) l.definition.layout
  pub distinct : IsDistinct [] l.definition.layout

body_of-IsLoaded :
    (py : Python) (content : Dict Json) (head : Head)
    → IsHead head
    → OnOk (IsLoaded py) (body_of py content head)
unfolding body_of
body_of-IsLoaded py content head h =
    OnOk-bind (λ _. Unit {0}) (IsLoaded py) (listed "totals" content) _ (OnOk-true _)
      λ totals _.
        OnOk-bind (λ _. Unit {0}) (IsLoaded py) (items_of py head.view_name "total" totals) _
          (OnOk-true _)
          λ kept_totals _.
            OnOk-bind (λ _. Unit {0}) (IsLoaded py) (listed "aggregates" content) _ (OnOk-true _)
              λ aggregates _.
                OnOk-bind (λ _. Unit {0}) (IsLoaded py)
                  (items_of py head.view_name "aggregate" aggregates) _ (OnOk-true _)
                  λ kept_aggregates _.
                    OnOk-bind (λ _. Unit {0}) (IsLoaded py) (listed "mappings" content) _
                      (OnOk-true _)
                      λ mappings _.
                        OnOk-bind (λ _. Unit {0}) (IsLoaded py) (listed "layout" content) _
                          (OnOk-true _)
                          λ widgets _.
                            OnOk-bind
                              (λ ws.
                                All
                                  (IsChecked py (record {
                                    grid_columns = head.grid_columns;
                                    totals =
                                        map (λ (s : Summary). s.name) (map summary_of kept_totals);
                                    aggregates =
                                        map (λ (a : Aggregate). a.name)
                                          (map (aggregate_from py.repr) kept_aggregates);
                                  }))
                                  ws
                                × IsDistinct [] ws)
                              (IsLoaded py) (layout_of py _ 0 [] widgets) _
                              (layout_of-IsChecked py _ 0 [] widgets)
                              λ layout (all, distinct). (record {
                                head_ok = h;
                                widgets_ok = all;
                                distinct = distinct;
                              })

-- The text that has been sent is a base view's, and its first statement creates a view with a safe name.
abbrev pub IsCreation : String → Type 0
IsCreation statement =
    (sql name : String) × ((statement ≡ rstrip_semicolons sql)
      × ((view_name_of sql ≡ some name) × IsSafeName (codes name)))

abbrev IsRun : Python → Run → Type 0
IsRun py r = OnSome IsCreation r.sent × OnOk (IsLoaded py) r.result

created-IsRun :
    (py : Python) (database : String → Option String) (content : Dict Json) (head : Head)
    → IsHead head
    → IsRun py (created py database content head)
unfolding created
created-IsRun py database content head h =
    elim (Option-cases (database (rstrip_semicolons head.base_view_sql))) [
      | inl q ↦
          rw (q, created)
            (
              (head.base_view_sql, head.view_name, (refl, (h.named, h.safe_view))),
              body_of-IsLoaded py content head h,
            )
      | inr (e, q) ↦
          rw (q, created) ((head.base_view_sql, head.view_name, (refl, (h.named, h.safe_view))), tt)
    ]

load_yaml-IsRun :
    (py : Python) (database : String → Option String) (content : Dict Json)
    → IsRun py (load_yaml py database content)
unfolding load_yaml
load_yaml-IsRun py database content = elim (Result-cases (head_of py content)) [
  | inr (e, p) ↦ rw (p, load_yaml) (tt, tt)
  | inl (head, p) ↦
      rw (p, load_yaml)
        (created-IsRun py database content head
          (OnOk-at IsHead (head_of py content) head p (head_of-IsHead py content)))
]

-- A dashboard that is loaded has a safe identifier, 12 or 24 columns and a view with a safe name; its widgets
-- have distinct safe identifiers; one whose grid has two whole numbers, x and w, has x + w at most the number of
-- columns; and they name no total where a table is wanted and no
-- aggregate where a total is.
pub load_yaml-IsLoaded :
    (py : Python) (database : String → Option String) (content : Dict Json)
    → OnOk (IsLoaded py) (load_yaml py database content).result
load_yaml-IsLoaded py database content = (load_yaml-IsRun py database content).1
