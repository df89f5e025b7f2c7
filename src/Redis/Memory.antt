-- ===== src/Redis/Memory.antt =====
-- A store in memory that behaves as `Redis` says.
use buchi_maker.Common.{
  if◌then◌else◌, Bool-cases, is_some, keep, elem, Dict, lookup, insert, keys, lookup-insert, ℕ, ◌+◌,
  String, ◌≡◌, refl, ap, ◌∙◌, ◌↔◌, inl, inr, Bool, true, false, not, ◌&&◌, ◌||◌, Option, none, some,
  List, [], ◌∷◌, arith, ◌==◌, eq_iff,
}
use buchi_maker.Python.Replace.{starts}
use buchi_maker.Redis.{
  Redis, Command, setex, set_plain, sadd, expire, delete, flushdb, lapsed, is_nil,
}

pub record Memory : Type 0 where
  pub texts : Dict String
  pub sets : String → List String
  pub deadlines : String → Option ℕ
  pub clock : ℕ

abbrev pub keep_keys : (String → Bool) → Dict String → Dict String
keep_keys p [] = []
keep_keys p ((k, v) ∷ d) = let rest = keep_keys p d in if p k then (k, v) ∷ rest else rest

lookup-keep_keys :
    (p : String → Bool) (d : Dict String) (j : String)
    → lookup j (keep_keys p d) ≡ (if p j then lookup j d else none)
unfolding lookup
lookup-keep_keys p [] j = ground arith
lookup-keep_keys p ((k, v) ∷ d) j = elim (Bool-cases (k == j)) [
  | inl e ↦ elim (Bool-cases (p j)) [
    | inl f ↦ rw (ap p ((eq_iff k j).0 e) ∙ f, f, e) refl
    | inr f ↦ rw (ap p ((eq_iff k j).0 e) ∙ f, f) (lookup-keep_keys p d j ∙ rw f refl)
  ]
  | inr e ↦ ground (arith, e, lookup-keep_keys p d j)
]

abbrev pub put {ℓ} : {V : Type ℓ} → String → V → (String → V) → String → V
put k v f j = if k == j then v else f j

abbrev pub drop_all {ℓ} : {V : Type ℓ} → (String → Bool) → V → (String → V) → String → V
drop_all p none_ f j = if p j then none_ else f j

abbrev pub step : Command → Memory → Memory
step (setex k t v) s = record s {
  texts = insert k v s.texts;
  sets = put k [] s.sets;
  deadlines = put k (some (s.clock + t)) s.deadlines;
}
step (set_plain k v) s = record s {
  texts = insert k v s.texts;
  sets = put k [] s.sets;
  deadlines = put k none s.deadlines;
}
step (sadd k m) s = record s {
  sets = put k (m ∷ s.sets k) s.sets;
  deadlines = λ j. if k == j && is_nil (s.sets j) then none else s.deadlines j;
}
step (expire k t) s = record s { deadlines = put k (some (s.clock + t)) s.deadlines }
step (delete ks) s = record s {
  texts = keep_keys (λ k. not (elem k ks)) s.texts;
  sets = drop_all (λ k. elem k ks) [] s.sets;
}
step flushdb s = record s { texts = []; sets = λ k. [] }

abbrev pub pass : ℕ → Memory → Memory
pass n s = record s {
  texts = keep_keys (λ k. not (lapsed (s.deadlines k) (s.clock + n))) s.texts;
  sets = drop_all (λ k. lapsed (s.deadlines k) (s.clock + n)) [] s.sets;
  clock = s.clock + n;
}

not-if {ℓ} : {A : Type ℓ} (b : Bool) (x y : A) → (if not b then x else y) ≡ (if b then y else x)
not-if true x y = refl
not-if false x y = refl

pub elem-put :
    (s : String → List String) (k m j x : String)
    → elem x (put k (m ∷ s k) s j) ≡ (k == j && m == x || elem x (s j))
elem-put s k m j x = elim (Bool-cases (k == j)) [
  | inl e ↦ rw e (rw ((eq_iff k j).0 e) refl)
  | inr e ↦ rw e refl
]

abbrev pub listing : String → Dict String → List String
listing start d = keep (starts start) (keys d)

elem-listing :
    (start k : String) (d : Dict String)
    → elem k (listing start d) ≡ (starts start k && is_some (lookup k d))
unfolding lookup
elem-listing start k [] = ground arith
elem-listing start k ((j, v) ∷ d) = elim (Bool-cases (j == k)) [
  | inl e ↦ elim (Bool-cases (starts start k)) [
    | inl f ↦ rw (ap (starts start) ((eq_iff j k).0 e) ∙ f, e, f) refl
    | inr f ↦
        rw (ap (starts start) ((eq_iff j k).0 e) ∙ f, e, f) (elem-listing start k d ∙ rw f refl)
  ]
  | inr e ↦ ground (arith, e, elem-listing start k d)
]

and_iff : (a b : Bool) → ((a && b) ≡ true) ↔ ((a ≡ true) × (b ≡ true))
and_iff a b = (λ h. ground arith, λ h. ground arith)

pub matching_law :
    (start k : String) (d : Dict String)
    → (elem k (listing start d) ≡ true) ↔ ((starts start k ≡ true) × (is_some (lookup k d) ≡ true))
matching_law start k d =
    rw (elem-listing start k d) (and_iff (starts start k) (is_some (lookup k d)))

pub now_law : (c : Command) (s : Memory) → (step c s).clock ≡ s.clock
now_law (setex k t v) s = refl
now_law _ s = refl

pub delete_law :
    (s : Memory) (ks : List String) (j : String)
    → lookup j (keep_keys (λ k. not (elem k ks)) s.texts)
      ≡ (if elem j ks then none else lookup j s.texts)
delete_law s ks j =
    lookup-keep_keys (λ k. not (elem k ks)) s.texts j ∙ not-if (elem j ks) (lookup j s.texts) none

pub tick_law :
    (s : Memory) (n : ℕ) (j : String)
    → lookup j (pass n s).texts
      ≡ (if lapsed (s.deadlines j) (s.clock + n) then none else lookup j s.texts)
tick_law s n j =
    lookup-keep_keys (λ k. not (lapsed (s.deadlines k) (s.clock + n))) s.texts j
    ∙ not-if (lapsed (s.deadlines j) (s.clock + n)) (lookup j s.texts) none

pub nothing : (j : String) → lookup {V = String} j [] ≡ none
unfolding lookup
nothing j = refl

abbrev pub memory : Redis
memory = record {
  State = Memory;
  value = λ s k. lookup k s.texts;
  members = λ s k. s.sets k;
  deadline = λ s k. s.deadlines k;
  now = λ s. s.clock;
  matching = λ s start. listing start s.texts;
  apply = step;
  tick = pass;
  value-setex = λ s k t v j. lookup-insert k j v s.texts;
  value-set_plain = λ s k v j. lookup-insert k j v s.texts;
  value-sadd = λ s k m j. refl;
  value-expire = λ s k t j h. refl;
  value-delete = delete_law;
  value-flushdb = λ s j. nothing j;
  value-tick = tick_law;
  members-setex = λ s k t v j. refl;
  elem-sadd = λ s k m j x. elem-put s.sets k m j x;
  members-expire = λ s k t j h. refl;
  members-delete = λ s ks j. refl;
  members-tick = λ s n j. refl;
  deadline-setex = λ s k t v j. refl;
  deadline-sadd = λ s k m j. refl;
  deadline-expire = λ s k t j h. refl;
  deadline-delete = λ s ks j h. refl;
  deadline-tick = λ s n j h. refl;
  now-apply = now_law;
  now-tick = λ s n. refl;
  matching_iff = λ s start k. matching_law start k s.texts;
}

abbrev pub empty : Memory
empty = record { texts = []; sets = λ k. []; deadlines = λ k. none; clock = 0 }
