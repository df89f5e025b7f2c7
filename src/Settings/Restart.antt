-- ===== src/Settings/Restart.antt =====
-- What a new process reads from the file.
use buchi_maker.Common.{
  Bool-cases, Option-cases, is_some, Dict, lookup, insert, lookup-insert, has_key, String, ◌≡◌,
  refl, sym, ap, ◌∙◌, inl, inr, true, false, Option, none, some, [], ◌∷◌, ◌==◌, eq_iff,
}
use mathlib.Core.Option
use buchi_maker.Json.{Json, obj, Fields, fields}
use buchi_maker.Settings.{
  defaults, or_default, World, written, GeneralSettings, save, fill, loaded_dict, read_file, load,
  started,
}
use buchi_maker.Settings.Reachable.{Reachable}
use buchi_maker.Settings.Complete.{IsComplete, Reachable-HasAll, apply_syslog-current}

-- What PyYAML does with the settings `d`: it writes the keys of a dict in order, so that what is read again is a dict
-- with the same entries, whose values are the same up to the order of keys inside them.
pub record IsReread (w : World) (sorted : Json → Json) (d : Dict Json) : Type 0 where
  pub reread : Fields
  pub reads : w.safe_load (w.dump d) ≡ some (obj reread)
  pub same : (k : String) → lookup k (fields reread) ≡ Option.map sorted (lookup k d)

put-now :
    (k j : String) (e v : Json) (loaded d : Dict Json)
    → lookup k loaded ≡ some v
    → (j == k) ≡ true
    → lookup k (insert j (or_default e (lookup j loaded)) d) ≡ some v
put-now k j e v loaded d h p =
    let value : some (or_default e (lookup j loaded)) ≡ some v =
      ap (λ (x : String). some (or_default e (lookup x loaded))) ((eq_iff j k).0 p) ∙ rw h refl in
    rw (lookup-insert, p) value

fill-kept :
    (k : String) (v : Json) (ds loaded d : Dict Json)
    → lookup k loaded ≡ some v
    → lookup k d ≡ some v
    → lookup k (fill ds loaded d) ≡ some v
unfolding fill
fill-kept k v [] loaded d h here = here
fill-kept k v ((j, e) ∷ ds) loaded d h here =
    fill-kept k v ds loaded (insert j (or_default e (lookup j loaded)) d) h
      (elim (Bool-cases (j == k)) [
        | inl p ↦ put-now k j e v loaded d h p
        | inr p ↦ rw (lookup-insert, p) here
      ])

fill-hit :
    (k : String) (v : Json) (ds loaded d : Dict Json)
    → has_key k ds ≡ true
    → lookup k loaded ≡ some v
    → lookup k (fill ds loaded d) ≡ some v
unfolding fill lookup
fill-hit k v [] loaded d known h = absurd (cc)
fill-hit k v ((j, e) ∷ ds) loaded d known h = elim (Bool-cases (j == k)) [
  | inl p ↦
      fill-kept k v ds loaded (insert j (or_default e (lookup j loaded)) d) h
        (put-now k j e v loaded d h p)
  | inr p ↦ fill-hit k v ds loaded _ (rw p at known) h
]

fill-miss :
    (k : String) (ds loaded d : Dict Json)
    → has_key k ds ≡ false
    → lookup k (fill ds loaded d) ≡ lookup k d
unfolding fill lookup
fill-miss k [] loaded d h = refl
fill-miss k ((j, e) ∷ ds) loaded d h = elim (Bool-cases (j == k)) [
  | inl p ↦ absurd (cc (rw p at h))
  | inr p ↦
      fill-miss k ds loaded (insert j (or_default e (lookup j loaded)) d) (rw p at h)
      ∙ rw (lookup-insert, p) refl
]

not_there : (o : Option Json) → is_some o ≡ false → o ≡ none
not_there none h = refl
not_there (some v) h = absurd (cc)

module _ (w : World) (sorted : Json → Json) where
  filled :
      (d loaded : Dict Json)
      → IsComplete d
      → ((k : String) → lookup k loaded ≡ Option.map sorted (lookup k d))
      → (k : String) → lookup k (fill defaults loaded defaults) ≡ Option.map sorted (lookup k d)
  filled d loaded full same k = elim (Option-cases (lookup k d)) [
    | inr (v, e) ↦ rw e (
        fill-hit k (sorted v) defaults loaded defaults (sym (full k) ∙ rw e refl)
          (same k ∙ rw e refl))
    | inl e ↦ rw e (
        let unknown : has_key k defaults ≡ false = sym (full k) ∙ rw e refl in
        fill-miss k defaults loaded defaults unknown ∙ not_there (lookup k defaults) unknown)
  ]

  -- Whatever was set before, and whether or not the file could be written then: once it is written, a process that reads
  -- the file starts with the same value for every key, up to the order of keys inside a value, and with no other keys.
  pub save-restarted :
      {s : GeneralSettings}
      → Reachable w s
      → IsReread w sorted s.current
      → (k : String)
      → lookup k (started w true (save w written s).file).current
        ≡ Option.map sorted (lookup k s.current)
  unfolding started load save read_file lookup loaded_dict
  save-restarted {s = s} r yaml k =
      rw (yaml.reads, read_file, apply_syslog-current)
        (filled s.current (fields yaml.reread) (Reachable-HasAll w r) yaml.same k)
