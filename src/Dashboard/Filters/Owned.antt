-- ===== src/Dashboard/Filters/Owned.antt =====
-- No table of a filter is left behind.
use buchi_maker.Common.{
  Bool-cases, Option-cases, OnSome, All, elem, Dict, lookup, insert, erase, values, lookup-insert,
  lookup-erase, has_key, ℕ, ◌/◌, String, ◌≡◌, refl, sym, ap, ◌∙◌, inl, inr, Bool, true, false,
  Option, some, List, [], ◌∷◌, arith, ◌==◌, eq_iff, eq_refl,
}
use buchi_maker.Dashboard.Filters.{
  RawCondition, Filter, create_statement, State, view_of, drop_table, refresh, new_filter,
  refreshed, set_filters, is_fresh, forget, forget_all, trim_filters, stop_or, refresh_each,
  refresh_filters, drop_each, drop_all,
}

-- Each filter's table has the name of its hash, and each table that there is belongs to a filter in the cache.
pub record IsOwned (s : State) : Type 0 where
  pub named : (h : String) (f : Filter) → lookup h s.filters ≡ some f → f.view_name ≡ view_of h
  pub owned :
      (t : String)
      → elem t s.tables ≡ true
      → (h : String) × ((t ≡ view_of h) × (has_key h s.filters ≡ true))

some_injective : {A : Type 0} {a b : A} → Path (Option A) (some a) (some b) → a ≡ b
some_injective p = cc

drop_table-elem :
    (t v : String) (ts : List String)
    → elem t (drop_table v ts) ≡ true
    → (elem t ts ≡ true) × ((t == v) ≡ false)
unfolding drop_table
drop_table-elem t v [] h = absurd (cc)
drop_table-elem t v (x ∷ ts) h =
    ground (arith, h, eq_iff x t, eq_iff t v, eq_iff x v, drop_table-elem t v ts)

-- fewer tables
dropped-IsOwned :
    (v : String) (s : State) → IsOwned s → IsOwned (record s { tables = drop_table v s.tables })
dropped-IsOwned v s inv = record {
  named = inv.named;
  owned = λ t p. inv.owned t (drop_table-elem t v s.tables p).0;
}

-- one more table, of the filter `h`
created-IsOwned :
    (h : String) (f : Filter) (s : State)
    → f.view_name ≡ view_of h
    → IsOwned s
    → IsOwned (record s { filters = insert h f s.filters; tables = f.view_name ∷ s.tables })
created-IsOwned h f s same inv = record {
  named = λ k g p. elim (Bool-cases (h == k)) [
    | inl e ↦
        let found : f ≡ g = some_injective (rw (lookup-insert, e) at p) in
        ap (λ (x : Filter). x.view_name) (sym found) ∙ same ∙ ap view_of ((eq_iff h k).0 e)
    | inr e ↦ inv.named k g (rw (lookup-insert, e) at p)
  ];
  owned = λ t p. elim (Bool-cases (f.view_name == t)) [
    | inl e ↦ (h, (sym ((eq_iff f.view_name t).0 e) ∙ same, rw lookup-insert (rw (eq_refl h) refl)))
    | inr e ↦
        let (k, (at_t, held)) = inv.owned t (ground (arith, p, e)) in
        (k, (at_t, rw lookup-insert (ground (arith, held))))
  ];
}

-- a table less, and its filter
erased-IsOwned :
    (h : String) (f : Filter) (s : State)
    → f.view_name ≡ view_of h
    → IsOwned s
    → IsOwned (record s { filters = erase h s.filters; tables = drop_table f.view_name s.tables })
erased-IsOwned h f s same inv = record {
  named = λ k g p. elim (Bool-cases (h == k)) [
    | inl e ↦ absurd (cc (rw (lookup-erase, e) at p))
    | inr e ↦ inv.named k g (rw (lookup-erase, e) at p)
  ];
  owned = λ t p.
      let (there, other) = drop_table-elem t f.view_name s.tables p in
      let (k, (at_t, held)) = inv.owned t there in
      elim (Bool-cases (h == k)) [
        | inl e ↦
            let t_same : t ≡ f.view_name = at_t ∙ ap view_of (sym ((eq_iff h k).0 e)) ∙ sym same in
            absurd (cc (other, (eq_iff t f.view_name).1 t_same))
        | inr e ↦ (k, (at_t, rw (lookup-erase, e) held))
      ];
}

-- a dashboard that has just been loaded
abbrev pub empty : (source_table : String) (refresh_frequency unallocate_frequency : ℕ) → State
empty source_table m n = record {
  filters = [];
  tables = [];
  source_table = source_table;
  refresh_frequency = m;
  unallocate_frequency = n;
}

empty-IsOwned : (source_table : String) (m n : ℕ) → IsOwned (empty source_table m n)
unfolding lookup
empty-IsOwned source_table m n = record { named = λ h f p. absurd (cc); owned = λ t p. absurd (cc) }

values-All :
    (P : Filter → Type 0) (k : String) (d : Dict Filter) → All P (values d) → OnSome P (lookup k d)
unfolding lookup
values-All P k [] h = tt
values-All P k ((j, f) ∷ d) (p, h) = elim (Bool-cases (j == k)) [
  | inl e ↦ rw e p
  | inr e ↦ rw e (values-All P k d h)
]

module _ (accepts : String → Bool) (hash : List RawCondition → String) where
  refreshed-IsOwned :
      (now : ℕ) (h : String) (f : Filter) (s : State)
      → f.view_name ≡ view_of h
      → IsOwned s
      → IsOwned (refreshed accepts hash h s (refresh accepts hash now f s.tables)).0
  unfolding refresh
  refreshed-IsOwned now h f s same inv = elim (Bool-cases (accepts (create_statement f))) [
    | inl e ↦
        rw (e, refresh)
          (created-IsOwned h (record f { is_loaded = true; last_refreshed = now / 1000 })
            (record s { tables = drop_table f.view_name s.tables }) same
            (dropped-IsOwned f.view_name s inv))
    | inr e ↦ rw (e, refresh) (dropped-IsOwned f.view_name s inv)
  ]

  set-IsOwned :
      (now : ℕ) (cs : List RawCondition) (s : State)
      → IsOwned s
      → IsOwned (set_filters accepts hash now cs s).0
  unfolding set_filters new_filter
  set-IsOwned now cs s inv = elim (Option-cases (lookup (hash cs) s.filters)) [
    | inl e ↦
        rw (e, set_filters)
          (refreshed-IsOwned now (hash cs) (new_filter accepts hash cs s) s refl inv)
    | inr (f, e) ↦ elim (Bool-cases (is_fresh now f)) [
      | inl g ↦ rw (e, g, set_filters) inv
      | inr g ↦
          rw (e, g, set_filters) (refreshed-IsOwned now (hash cs) f s (inv.named (hash cs) f e) inv)
    ]
  ]

  forget-IsOwned :
      (h : String) (s : State) → IsOwned s → IsOwned (forget accepts hash h (lookup h s.filters) s)
  forget-IsOwned h s inv = elim (Option-cases (lookup h s.filters)) [
    | inl e ↦ rw e inv
    | inr (f, e) ↦ rw e (erased-IsOwned h f s (inv.named h f e) inv)
  ]

  forget_all-IsOwned :
      (hs : List String) (s : State) → IsOwned s → IsOwned (forget_all accepts hash hs s)
  unfolding forget_all
  forget_all-IsOwned [] s inv = inv
  forget_all-IsOwned (h ∷ hs) s inv = forget_all-IsOwned hs _ (forget-IsOwned h s inv)

  drop_each-elem :
      (t : String) (fs : List Filter) (ts : List String)
      → elem t (drop_each accepts hash fs ts) ≡ true
      → (elem t ts ≡ true) × All (λ (f : Filter). (t == f.view_name) ≡ false) fs
  unfolding drop_each
  drop_each-elem t [] ts h = (h, tt)
  drop_each-elem t (f ∷ fs) ts h =
      let (there, others) = drop_each-elem t fs (drop_table f.view_name ts) h in
      let (before, other) = drop_table-elem t f.view_name ts there in (before, (other, others))

  -- afterwards no table is left
  drop_all-IsOwned : (s : State) → IsOwned s → IsOwned (drop_all accepts hash s)
  unfolding drop_all
  drop_all-IsOwned s inv = record {
    named = (empty-IsOwned "" 0 0).named;
    owned = λ t p.
        let (there, others) = drop_each-elem t (values s.filters) s.tables p in
        let (k, (at_t, held)) = inv.owned t there in
        let free = values-All (λ (f : Filter). (t == f.view_name) ≡ false) k s.filters others in
        elim (Option-cases (lookup k s.filters)) [
          | inl e ↦ absurd (cc (rw e at held))
          | inr (f, e) ↦
              let same : t ≡ f.view_name = at_t ∙ sym (inv.named k f e) in
              absurd (cc (rw e at free, (eq_iff t f.view_name).1 same))
        ];
  }

  stop_or-IsOwned :
      (r later : State × Bool)
      → IsOwned r.0
      → IsOwned later.0
      → IsOwned (stop_or accepts hash r later).0
  stop_or-IsOwned (t, true) later h k = k
  stop_or-IsOwned (t, false) later h k = h

  refresh_each-IsOwned :
      (now : ℕ) (hs : List String) (s : State)
      → IsOwned s
      → IsOwned (refresh_each accepts hash now hs s).0
  unfolding refresh_each
  refresh_each-IsOwned now [] s inv = inv
  refresh_each-IsOwned now (h ∷ hs) s inv = elim (Option-cases (lookup h s.filters)) [
    | inl e ↦ rw (e, refresh_each) (refresh_each-IsOwned now hs s inv)
    | inr (f, e) ↦
        let next = refreshed accepts hash h s (refresh accepts hash now f s.tables) in
        let kept = refreshed-IsOwned now h f s (inv.named h f e) inv in
        rw (e, refresh_each)
          (stop_or-IsOwned next (refresh_each accepts hash now hs next.0) kept
            (refresh_each-IsOwned now hs next.0 kept))
  ]

  -- One call after the other, at any times, whatever DuckDB refuses.
  pub data Reachable : State → Type 0 where
    start :
        (source_table : String) (refresh_frequency unallocate_frequency : ℕ)
        → Reachable (empty source_table refresh_frequency unallocate_frequency)
    applied :
        (now : ℕ) (cs : List RawCondition) {s : State}
        → Reachable s
        → Reachable (set_filters accepts hash now cs s).0
    trimmed : (now : ℕ) {s : State} → Reachable s → Reachable (trim_filters accepts hash now s).0
    all_refreshed :
        (now : ℕ) {s : State} → Reachable s → Reachable (refresh_filters accepts hash now s).0
    all_dropped : {s : State} → Reachable s → Reachable (drop_all accepts hash s)

  -- Whatever filters are set, trimmed, refreshed and dropped, at any times and even if DuckDB refuses tables: every table that
  -- there is belongs to a filter of the cache, under the name of its hash.
  pub Reachable-IsOwned : (s : State) → Reachable s → IsOwned s
  unfolding trim_filters refresh_filters
  Reachable-IsOwned s (start source m n) = empty-IsOwned source m n
  Reachable-IsOwned s (applied now cs r) = set-IsOwned now cs _ (Reachable-IsOwned _ r)
  Reachable-IsOwned s (trimmed now r) = forget_all-IsOwned _ _ (Reachable-IsOwned _ r)
  Reachable-IsOwned s (all_refreshed now r) = refresh_each-IsOwned now _ _ (Reachable-IsOwned _ r)
  Reachable-IsOwned s (all_dropped r) = drop_all-IsOwned _ (Reachable-IsOwned _ r)
