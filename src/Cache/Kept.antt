-- ===== src/Cache/Kept.antt =====
-- The invariant of the cache and its index is kept by storing, by the passing of time and by
-- invalidation.
use buchi_maker.Common.{
  ltb, if◌then◌else◌, Bool-cases, Option-cases, is_some, lt→ltb, elem, elem-append, ℕ, ◌+◌, ◌<◌,
  String, ◌≡◌, refl, ap, ◌∙◌, inl, inr, Bool, true, false, Option, none, some, List, [], ◌∷◌, ◌++◌,
  arith, eq_iff,
}
use buchi_maker.Cache.Keys.{index_key-eq}
use buchi_maker.Redis.{Redis, lapsed}
use buchi_maker.Cache.{
  data_key, index_key, run, index_commands, set_commands, Client, set, delete, delete_all,
  invalidate_datasource,
}
use buchi_maker.Cache.Index.{
  Sources, IsIndexed, NoLater, setex-IsIndexed, listed_once, listed_once-IsIndexed, later_trans,
}

module _ (r : Redis) (ttl : ℕ) (uses : Sources) (pos : 0 < ttl) where
  index_commands-IsIndexed :
      (d h : String) (ns : List String) (s : r.State)
      → IsIndexed r ttl uses d h ns s
      → IsIndexed r ttl uses d h [] (run r none (index_commands r (data_key d h) ttl ns) s).0
  unfolding run index_commands listed_once
  index_commands-IsIndexed d h [] s inv = inv
  index_commands-IsIndexed d h (n ∷ ns) s inv =
      let one : ltb 0 ttl ≡ true = ground arith in
      rw one (
        index_commands-IsIndexed d h ns (listed_once r ttl uses d h pos n s)
          (listed_once-IsIndexed r ttl uses d h pos n ns s inv))

  -- With nothing pending, it does not matter for which payload.
  any_payload :
      (d h d' h' : String) (s : r.State)
      → IsIndexed r ttl uses d h [] s
      → IsIndexed r ttl uses d' h' [] s
  any_payload d h d' h' s inv = record {
    bounded = inv.bounded;
    listed = λ x y n u live free. inv.listed x y n u live refl;
    outlives = λ x y n u live free. inv.outlives x y n u live refl;
    only_payloads = inv.only_payloads;
  }

  abbrev pub IsKept : Client r → Type 0
  IsKept c = IsIndexed r ttl uses "" "" [] c.store

  pub set-IsKept :
      (c : Client r) (d h payload : String) (names : List String)
      → ((n : String) → uses (data_key d h) n ≡ true → elem n names ≡ true)
      → IsKept c
      → IsKept (set r none c d h payload names ttl)
  unfolding set set_commands run
  set-IsKept c d h payload names cover inv = elim (Bool-cases c.available) [
    | inl e ↦
        simp (e, lt→ltb 0 ttl pos)
          (any_payload d h "" "" _ (
            index_commands-IsIndexed d h names _ (
              setex-IsIndexed r ttl uses d h pos payload names c.store cover
                (any_payload "" "" d h c.store inv))))
    | inr e ↦ simp e inv
  ]

  alive :
      (b : Bool) (o : Option String)
      → is_some (if b then none else o) ≡ true
      → (b ≡ false) × (is_some o ≡ true)
  alive b o h = ground arith

  alive_before :
      (s : r.State) (n : ℕ) (k : String)
      → is_some (r.value (r.tick n s) k) ≡ true
      → (lapsed (r.deadline s k) (r.now s + n) ≡ false) × (is_some (r.value s k) ≡ true)
  alive_before s n k live = alive _ _ (rw (r.value-tick s n k) at live)

  outlasts : (a b : Option ℕ) (t : ℕ) → NoLater a b → lapsed a t ≡ false → lapsed b t ≡ false
  outlasts a none t h k = refl
  outlasts none (some e) t h k = absurd h
  outlasts (some d) (some e) t h k = ground arith

  unlisted :
      (b : Bool) (xs : List String) (x : String)
      → elem x xs ≡ false
      → elem x (if b then [] else xs) ≡ false
  unlisted true xs x h = refl
  unlisted false xs x h = h

  pub tick-IsKept :
      (c : Client r) (n : ℕ) → IsKept c → IsKept (record c { store = r.tick n c.store })
  tick-IsKept c n inv = record {
    bounded = λ d h live.
        let (on, before) = alive_before c.store n (data_key d h) live in
        rw (r.deadline-tick c.store n (data_key d h) on, r.now-tick c.store n)
          (later_trans r ttl uses (r.deadline c.store (data_key d h)) (r.now c.store + ttl)
            (r.now c.store + n + ttl) (inv.bounded d h before) (omega arith));
    listed = λ d h m u live free.
        let (on, before) = alive_before c.store n (data_key d h) live in
        rw
          (
            r.members-tick c.store n (index_key m),
            outlasts _ (r.deadline c.store (index_key m)) (r.now c.store + n)
                (inv.outlives d h m u before refl) on,
          )
          (inv.listed d h m u before refl);
    outlives = λ d h m u live free.
        let (on, before) = alive_before c.store n (data_key d h) live in
        rw (r.deadline-tick c.store n (data_key d h) on) (
          rw
            (r.deadline-tick c.store n (index_key m) (
              outlasts _ (r.deadline c.store (index_key m)) (r.now c.store + n)
                (inv.outlives d h m u before refl) on))
            (inv.outlives d h m u before refl));
    only_payloads = λ k m.
        rw (r.members-tick c.store n (index_key k))
          (unlisted _ (r.members c.store (index_key k)) (index_key m) (inv.only_payloads k m));
  }

  elem_left : (x : String) (xs ys : List String) → elem x xs ≡ true → elem x (xs ++ ys) ≡ true
  elem_left x xs ys h = ground (arith, elem-append x xs ys)

  -- deleting the payloads that an index lists, with the index
  delete-IsKept :
      (s : r.State) (n : String) (ks : List String)
      → r.members s (index_key n) ≡ ks
      → IsIndexed r ttl uses "" "" [] s
      → IsIndexed r ttl uses "" "" [] (r.apply (delete (ks ++ index_key n ∷ [])) s)
  delete-IsKept s n ks same inv =
      let gone = ks ++ index_key n ∷ [] in
      record {
        bounded = λ d h live.
            let (off, before) = alive _ _ (rw (r.value-delete s gone (data_key d h)) at live) in
            rw (r.deadline-delete s gone (data_key d h) off, r.now-apply (delete gone) s)
              (inv.bounded d h before);
        listed = λ d h m u live free.
            let (off, before) = alive _ _ (rw (r.value-delete s gone (data_key d h)) at live) in
            rw (r.members-delete s gone (index_key m), stays d h m u off before)
              (inv.listed d h m u before refl);
        outlives = λ d h m u live free.
            let (off, before) = alive _ _ (rw (r.value-delete s gone (data_key d h)) at live) in
            rw (r.deadline-delete s gone (data_key d h) off) (
              rw (r.deadline-delete s gone (index_key m) (stays d h m u off before))
                (inv.outlives d h m u before refl));
        only_payloads = λ k m.
            rw (r.members-delete s gone (index_key k))
              (unlisted _ (r.members s (index_key k)) (index_key m) (inv.only_payloads k m));
      }
    where
      -- the index of a source that a payload left alive depends on is not deleted
      stays :
          (d h m : String)
          → uses (data_key d h) m ≡ true
          → elem (data_key d h) (ks ++ index_key n ∷ []) ≡ false
          → is_some (r.value s (data_key d h)) ≡ true
          → elem (index_key m) (ks ++ index_key n ∷ []) ≡ false
      stays d h m u off before =
          rw (elem-append (index_key m) ks (index_key n ∷ []), index_key-eq n m)
            (ground (
              arith,
              rw same at (inv.only_payloads n m),
              eq_iff n m,
              rw same at (inv.listed d h n),
              inv.listed d h m u before refl,
              off,
              elem-append (data_key d h) ks (index_key n ∷ []),
              same,
            ))

  pub gone_after :
      (s : r.State) (d h n : String) (ks : List String)
      → r.members s (index_key n) ≡ ks
      → uses (data_key d h) n ≡ true
      → IsIndexed r ttl uses "" "" [] s
      → r.value (delete_all r false ks (index_key n ∷ []) s) (data_key d h) ≡ none
  unfolding delete_all
  gone_after s d h n [] same u inv = elim (Option-cases (r.value s (data_key d h))) [
    | inl e ↦ e
    | inr (v, e) ↦
        absurd (cc (inv.listed d h n u (ap is_some e) refl, ap (elem (data_key d h)) same))
  ]
  gone_after s d h n (k ∷ ks) same u inv =
      elim (Bool-cases (elem (data_key d h) ((k ∷ ks) ++ index_key n ∷ []))) [
        | inl e ↦ r.value-delete s ((k ∷ ks) ++ index_key n ∷ []) (data_key d h) ∙ rw e refl
        | inr e ↦ elim (Option-cases (r.value s (data_key d h))) [
          | inl f ↦ r.value-delete s ((k ∷ ks) ++ index_key n ∷ []) (data_key d h) ∙ rw e f
          | inr (v, f) ↦ absurd (
              cc (
                elem_left (data_key d h) (k ∷ ks) (index_key n ∷ [])
                    (rw same at (inv.listed d h n u (ap is_some f) refl)),
                e,
              ))
        ]
      ]

  delete_all-IsKept :
      (s : r.State) (n : String) (ks : List String)
      → r.members s (index_key n) ≡ ks
      → IsIndexed r ttl uses "" "" [] s
      → IsIndexed r ttl uses "" "" [] (delete_all r false ks (index_key n ∷ []) s)
  unfolding delete_all
  delete_all-IsKept s n [] same inv = inv
  delete_all-IsKept s n (k ∷ ks) same inv = delete-IsKept s n (k ∷ ks) same inv

  pub invalidate-IsKept :
      (c : Client r) (n : String) → IsKept c → IsKept (invalidate_datasource r false c n)
  unfolding invalidate_datasource
  invalidate-IsKept c n inv = elim (Bool-cases c.available) [
    | inl e ↦ simp e (delete_all-IsKept c.store n (r.members c.store (index_key n)) refl inv)
    | inr e ↦ simp e inv
  ]
