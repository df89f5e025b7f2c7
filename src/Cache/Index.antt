-- ===== src/Cache/Index.antt =====
-- The index of a data source lists every payload that depends on it, for as long as the payload is
-- there, provided that all payloads are stored with one TTL.
use buchi_maker.Common.{
  if◌then◌else◌, Bool-cases, is_some, elem, ℕ, ◌+◌, ◌≤◌, ◌<◌, String, ◌≡◌, refl, sym, ap, subst,
  ◌∙◌, inl, inr, Bool, true, false, ◌&&◌, ◌||◌, Option, none, some, List, [], ◌∷◌, arith, ◌==◌,
  eq_iff, eq_refl,
}
use buchi_maker.Redis.{Redis, setex, sadd, expire, is_nil}
use buchi_maker.Cache.{data_key, index_key}
use buchi_maker.Cache.Keys.{data_key-ne-index_key, index_key-eq, index_key-ne-data_key}

-- the deadline `a` comes no later than `b`
abbrev pub NoLater : Option ℕ → Option ℕ → Type 0
NoLater a none = Unit
NoLater none (some e) = ⊥
NoLater (some d) (some e) = d ≤ e

-- Which data sources the payload of a key was computed from.
abbrev pub Sources : Type 0
Sources = (key source : String) → Bool

module _ (r : Redis) (ttl : ℕ) (uses : Sources) where
  -- `pending` are the sources whose indexes the payload (d₀, h₀) is still to be added to.
  pub record IsIndexed (d₀ h₀ : String) (pending : List String) (s : r.State) : Type 0 where
    pub bounded :
        (d h : String)
        → is_some (r.value s (data_key d h)) ≡ true
        → NoLater (r.deadline s (data_key d h)) (some (r.now s + ttl))
    pub listed :
        (d h n : String)
        → uses (data_key d h) n ≡ true
        → is_some (r.value s (data_key d h)) ≡ true
        → (elem n pending && data_key d₀ h₀ == data_key d h) ≡ false
        → elem (data_key d h) (r.members s (index_key n)) ≡ true
    pub outlives :
        (d h n : String)
        → uses (data_key d h) n ≡ true
        → is_some (r.value s (data_key d h)) ≡ true
        → (elem n pending && data_key d₀ h₀ == data_key d h) ≡ false
        → NoLater (r.deadline s (data_key d h)) (r.deadline s (index_key n))
    pub only_payloads : (n m : String) → elem (index_key m) (r.members s (index_key n)) ≡ false

  nonempty : (x : String) (xs : List String) → elem x xs ≡ true → is_nil xs ≡ false
  nonempty x [] h = cc
  nonempty x (y ∷ ys) h = refl

  pub later_trans : (a : Option ℕ) (m n : ℕ) → NoLater a (some m) → m ≤ n → NoLater a (some n)
  later_trans none m n h k = h
  later_trans (some x) m n h k = omega arith

module _ (r : Redis) (ttl : ℕ) (uses : Sources) (d₀ h₀ : String) (pos : 0 < ttl) where
  covered :
      (names : List String)
      → ((n : String) → uses (data_key d₀ h₀) n ≡ true → elem n names ≡ true)
      → (d h n : String) → uses (data_key d h) n ≡ true
      → (elem n names && data_key d₀ h₀ == data_key d h) ≡ false
      → (data_key d₀ h₀ == data_key d h) ≡ true
      → ⊥
  covered names cover d h n u free e =
      let same = (eq_iff (data_key d₀ h₀) (data_key d h)).0 e in
      cc (cover n (subst (λ k. uses k n ≡ true) (sym same) u), free, e)

  -- the payload itself is stored: its indexes are pending
  pub setex-IsIndexed :
      (payload : String) (names : List String) (s : r.State)
      → ((n : String) → uses (data_key d₀ h₀) n ≡ true → elem n names ≡ true)
      → IsIndexed r ttl uses d₀ h₀ [] s
      → IsIndexed r ttl uses d₀ h₀ names (r.apply (setex (data_key d₀ h₀) ttl payload) s)
  setex-IsIndexed payload names s cover inv = record {
    bounded = λ d h live.
        rw
          (
            r.deadline-setex s (data_key d₀ h₀) ttl payload (data_key d h),
            r.now-apply (setex (data_key d₀ h₀) ttl payload) s,
          )
          (elim (Bool-cases (data_key d₀ h₀ == data_key d h)) [
            | inl e ↦ rw e (omega arith)
            | inr e ↦ rw e (
                inv.bounded d h
                  (rw (r.value-setex s (data_key d₀ h₀) ttl payload (data_key d h), e) at live))
          ]);
    listed = λ d h n u live free.
        rw
          (
            r.members-setex s (data_key d₀ h₀) ttl payload (index_key n),
            data_key-ne-index_key d₀ h₀ n,
          )
          (elim (Bool-cases (data_key d₀ h₀ == data_key d h)) [
            | inl e ↦ absurd (covered names cover d h n u free e)
            | inr e ↦
                inv.listed d h n u
                  (rw (r.value-setex s (data_key d₀ h₀) ttl payload (data_key d h), e) at live) refl
          ]);
    outlives = λ d h n u live free.
        rw
          (
            r.deadline-setex s (data_key d₀ h₀) ttl payload (index_key n),
            data_key-ne-index_key d₀ h₀ n,
          )
          (rw (r.deadline-setex s (data_key d₀ h₀) ttl payload (data_key d h))
            (elim (Bool-cases (data_key d₀ h₀ == data_key d h)) [
              | inl e ↦ absurd (covered names cover d h n u free e)
              | inr e ↦ rw e (
                  inv.outlives d h n u
                    (rw (r.value-setex s (data_key d₀ h₀) ttl payload (data_key d h), e) at live)
                    refl)
            ]));
    only_payloads = λ n m.
        rw
          (
            r.members-setex s (data_key d₀ h₀) ttl payload (index_key n),
            data_key-ne-index_key d₀ h₀ n,
          )
          (inv.only_payloads n m);
  }

  -- one index is extended, and its deadline set
  unfoldable pub listed_once : String → r.State → r.State
  listed_once n s =
      r.apply (expire (index_key n) (ttl + 60)) (r.apply (sadd (index_key n) (data_key d₀ h₀)) s)

  value-listed_once :
      (n : String) (s : r.State) (k : String) → r.value (listed_once n s) k ≡ r.value s k
  unfolding listed_once
  value-listed_once n s k =
      r.value-expire (r.apply (sadd (index_key n) (data_key d₀ h₀)) s) (index_key n) (ttl + 60) k
        (omega arith)
      ∙ r.value-sadd s (index_key n) (data_key d₀ h₀) k

  elem-listed_once :
      (n m : String) (s : r.State) (x : String)
      → elem x (r.members (listed_once n s) (index_key m))
        ≡ (n == m && data_key d₀ h₀ == x || elem x (r.members s (index_key m)))
  unfolding listed_once
  elem-listed_once n m s x =
      rw
        (r.members-expire (r.apply (sadd (index_key n) (data_key d₀ h₀)) s) (index_key n) (ttl + 60)
          (index_key m) (omega arith))
        (r.elem-sadd s (index_key n) (data_key d₀ h₀) (index_key m) x
          ∙ ap (λ b. b && data_key d₀ h₀ == x || elem x (r.members s (index_key m)))
              (index_key-eq n m))

  now-listed_once : (n : String) (s : r.State) → r.now (listed_once n s) ≡ r.now s
  unfolding listed_once
  now-listed_once n s = r.now-apply _ _ ∙ r.now-apply _ s

  just_added :
      (n : String) (s : r.State)
      → elem
          (data_key d₀ h₀)
          (r.members (r.apply (sadd (index_key n) (data_key d₀ h₀)) s) (index_key n))
        ≡ true
  just_added n s =
      rw
        (
          r.elem-sadd s (index_key n) (data_key d₀ h₀) (index_key n) (data_key d₀ h₀),
          eq_refl (index_key n),
          eq_refl (data_key d₀ h₀),
        )
        refl

  deadline-listed_once :
      (n : String) (s : r.State) (k : String)
      → r.deadline (listed_once n s) k
        ≡ (if index_key n == k then some (r.now s + (ttl + 60)) else r.deadline s k)
  unfolding listed_once
  deadline-listed_once n s k =
      let added = r.apply (sadd (index_key n) (data_key d₀ h₀)) s in
      rw
        (r.deadline-expire added (index_key n) (ttl + 60) k
          (nonempty r ttl uses (data_key d₀ h₀) _ (just_added n s)))
        (rw (r.now-apply (sadd (index_key n) (data_key d₀ h₀)) s)
          (elim (Bool-cases (index_key n == k)) [
            | inl e ↦ rw e refl
            | inr e ↦ rw e (rw (r.deadline-sadd s (index_key n) (data_key d₀ h₀) k, e) refl)
          ]))

  pub listed_once-IsIndexed :
      (n : String) (ns : List String) (s : r.State)
      → IsIndexed r ttl uses d₀ h₀ (n ∷ ns) s
      → IsIndexed r ttl uses d₀ h₀ ns (listed_once n s)
  listed_once-IsIndexed n ns s inv = record {
    bounded = λ d h live.
        rw
          (
            deadline-listed_once n s (data_key d h),
            index_key-ne-data_key n d h,
            now-listed_once n s,
          )
          (inv.bounded d h (rw (value-listed_once n s (data_key d h)) at live));
    listed = λ d h m u live free.
        rw (elem-listed_once n m s (data_key d h))
          (elim (Bool-cases (n == m && data_key d₀ h₀ == data_key d h)) [
            | inl e ↦ rw e refl
            | inr e ↦ rw e (
                inv.listed d h m u (rw (value-listed_once n s (data_key d h)) at live)
                  (ground (arith, free, e)))
          ]);
    outlives = λ d h m u live free.
        rw (deadline-listed_once n s (data_key d h), index_key-ne-data_key n d h)
          (rw (deadline-listed_once n s (index_key m), index_key-eq n m)
            (elim (Bool-cases (n == m)) [
              | inl e ↦ rw e (
                  later_trans r ttl uses (r.deadline s (data_key d h)) (r.now s + ttl)
                    (r.now s + (ttl + 60))
                    (inv.bounded d h (rw (value-listed_once n s (data_key d h)) at live))
                    (omega arith))
              | inr e ↦ rw e (
                  inv.outlives d h m u (rw (value-listed_once n s (data_key d h)) at live)
                    (ground (arith, free, e)))
            ]));
    only_payloads = λ k m.
        rw (elem-listed_once n k s (index_key m))
          (ground (arith, data_key-ne-index_key d₀ h₀ m, inv.only_payloads k m));
  }
