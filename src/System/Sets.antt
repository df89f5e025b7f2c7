-- ===== src/System/Sets.antt =====
-- SystemManager: the registered widget sets, one of which is active.
use buchi_maker.Common.{
  if◌then◌else◌, Bool-cases, keep, format, Dict, lookup, insert, erase, values, lookup-insert,
  lookup-erase, has_key, Result, ok, err, String, ◌≡◌, refl, ◌⊎◌, inl, inr, Bool, true, false, not,
  ◌&&◌, ◌||◌, List, [], ◌∷◌, map, arith, ◌==◌, eq_iff, eq_refl,
}

-- What `WidgetSet.load` answers: an error text, or the id and the folder.
pub record WidgetSet : Type 0 where
  pub id : String
  pub folder_path : String

-- the registry, the setting `active_widget_set`, and the folders that the file of the registry lists
pub record Sets : Type 0 where
  pub registered : Dict WidgetSet
  pub active : String
  pub saved : List String

-- How the file is written: as it should, or with an exception, after which it lists `left`.
pub data Writing : Type 0 where
  done : Writing
  broken : (left : List String) → Writing

abbrev pub folders : Dict WidgetSet → List String
folders registered =
    keep (λ p. not (p == "")) (map (λ (w : WidgetSet). w.folder_path) (values registered))

-- _save_widget_sets; the flag says whether it raised
unfoldable pub save_sets : Writing → Sets → Sets × Bool
save_sets done s = (record s { saved = folders s.registered }, false)
save_sets (broken left) s = (record s { saved = left }, true)

-- How a call ends: with what it returns, or with the exception of saving.
pub data Ended (A : Type 0) : Type 0 where
  returned : A → Ended A
  raised : Ended A

-- the first set becomes active, and so does one where the active one is gone
unfoldable pub fall_back : String → Sets → Sets
fall_back id s = if has_key s.active s.registered then s else record s { active = id }

abbrev pub after_saving : String → Sets × Bool → Sets × Ended String
after_saving id (s, true) = (s, raised)
after_saving id (s, false) = (fall_back id s, returned "")

unfoldable pub load_widget_set :
    (save : Bool) → Writing → Result String WidgetSet → Sets → Sets × Ended String
unfolding save_sets fall_back
load_widget_set save how (err e) s = (s, returned e)
load_widget_set save how (ok w) s =
    let kept = record s { registered = insert w.id w s.registered } in
    after_saving w.id (if save then save_sets how kept else (kept, false))

abbrev pub ended_with : {A : Type 0} → A → Bool → Ended A
ended_with a true = raised
ended_with a false = returned a

-- `err` is the ValueError
unfoldable pub remove_widget_set : Writing → String → Sets → Result String (Sets × Ended Bool)
unfolding save_sets
remove_widget_set how id s =
    if not (has_key id s.registered)
    then ok (s, returned false)
    else if s.active == id
    then err (
        format (
          "Cannot delete widget set '" ∷ id
          ∷ "' while it is active. Activate a different widget set first." ∷ []))
    else let (t, failed) = save_sets how (record s { registered = erase id s.registered }) in
      ok (t, ended_with true failed)

unfoldable pub activate_widget_set : String → Sets → Sets × Bool
activate_widget_set id s =
    if has_key id s.registered then (record s { active = id }, true) else (s, false)

abbrev removed : Sets → Result String (Sets × Ended Bool) → Sets
removed s (ok (t, how)) = t
removed s (err e) = s

-- Whether a load was cut short, by an exception of saving, before any active set was registered: not any more, as soon
-- as a load goes well.
abbrev pub cut_short : Bool → Sets → Result String WidgetSet → Ended String → Bool
cut_short was s (err e) how = was
cut_short was s (ok w) (returned t) = false
cut_short was s (ok w) raised = was || not (has_key s.active s.registered)

-- One call after the other, each with a file system of its own; a removal that is refused leaves everything as it was.
pub data Reachable : (cut : Bool) → Sets → Type 0 where
  loaded :
      (save : Bool) (how : Writing) (w : Result String WidgetSet) {was : Bool} {s : Sets}
      → Reachable was s
      → Reachable
          (cut_short was s w (load_widget_set save how w s).1)
          (load_widget_set save how w s).0
  gone :
      (how : Writing) (id : String) {was : Bool} {s : Sets}
      → Reachable was s
      → Reachable was (removed s (remove_widget_set how id s))
  activated :
      (id : String) {was : Bool} {s : Sets}
      → Reachable was s
      → Reachable (was && not (has_key id s.registered)) (activate_widget_set id s).0
  start :
      (active : String) → Reachable false (record { registered = []; active = active; saved = [] })

-- The active set is registered, unless none is.
abbrev pub IsActive : Sets → Type 0
IsActive s = (s.registered ≡ []) ⊎ (has_key s.active s.registered ≡ true)

fall_back-IsActive :
    (id : String) (s : Sets)
    → has_key id s.registered ≡ true
    → has_key (fall_back id s).active (fall_back id s).registered ≡ true
unfolding fall_back
fall_back-IsActive id s h = elim (Bool-cases (has_key s.active s.registered)) [
  | inl e ↦ rw (e, fall_back) e
  | inr e ↦ rw (e, fall_back) h
]

has_key-insert_self : (w : WidgetSet) (d : Dict WidgetSet) → has_key w.id (insert w.id w d) ≡ true
has_key-insert_self w d = rw lookup-insert (rw (eq_refl w.id) refl)

has_key-insert :
    (k : String) (w : WidgetSet) (d : Dict WidgetSet)
    → has_key k d ≡ true
    → has_key k (insert w.id w d) ≡ true
has_key-insert k w d h =
    rw lookup-insert (elim (Bool-cases (w.id == k)) [ inl e ↦ rw e refl | inr e ↦ rw e h ])

load-IsActive :
    (save : Bool) (how : Writing) (w : Result String WidgetSet) (cut : Bool) (s : Sets)
    → (cut ≡ false → IsActive s)
    → cut_short cut s w (load_widget_set save how w s).1 ≡ false
    → IsActive (load_widget_set save how w s).0
unfolding load_widget_set save_sets
load-IsActive save how (err e) cut s h k = h k
load-IsActive false how (ok w) cut s h k =
    inr (fall_back-IsActive w.id _ (has_key-insert_self w s.registered))
load-IsActive true done (ok w) cut s h k =
    inr (fall_back-IsActive w.id _ (has_key-insert_self w s.registered))
load-IsActive true (broken left) (ok w) cut s h k =
    inr (has_key-insert s.active w s.registered (ground (arith, k)))

kept_active :
    (id : String) (s : Sets)
    → has_key id s.registered ≡ true
    → (s.active == id) ≡ false
    → IsActive s
    → has_key s.active (erase id s.registered) ≡ true
unfolding lookup
kept_active id s e f (inl none_yet) = absurd (cc (rw none_yet at e))
kept_active id s e f (inr h) =
    rw lookup-erase (ground (arith, eq_iff id s.active, eq_iff s.active id, f, h))

save_sets-IsActive : (how : Writing) (s : Sets) → IsActive s → IsActive (save_sets how s).0
unfolding save_sets
save_sets-IsActive done s h = h
save_sets-IsActive (broken left) s h = h

remove-IsActive :
    (how : Writing) (id : String) (s : Sets)
    → IsActive s
    → IsActive (removed s (remove_widget_set how id s))
unfolding remove_widget_set save_sets
remove-IsActive how id s h = elim (Bool-cases (has_key id s.registered)) [
  | inr e ↦ rw (e, remove_widget_set) h
  | inl e ↦ elim (Bool-cases (s.active == id)) [
    | inl f ↦ rw (e, f, remove_widget_set) h
    | inr f ↦
        rw (e, f, remove_widget_set)
          (save_sets-IsActive how (record s { registered = erase id s.registered })
            (inr (kept_active id s e f h)))
  ]
]

activate-IsActive :
    (id : String) (cut : Bool) (s : Sets)
    → (cut ≡ false → IsActive s)
    → (cut && not (has_key id s.registered)) ≡ false
    → IsActive (activate_widget_set id s).0
unfolding activate_widget_set
activate-IsActive id cut s h k = elim (Bool-cases (has_key id s.registered)) [
  | inl e ↦ rw (e, activate_widget_set) (inr e)
  | inr e ↦ rw (e, activate_widget_set) (h (ground (arith, k, e)))
]

-- Whatever is loaded, removed and activated, in any order, and whether or not the registry's file can be written: the
-- active set is registered as soon as any is, unless saving raised in a load while the active set was not
-- registered, and no load or activation has gone well since.
pub Reachable-IsActive : (cut : Bool) (s : Sets) → Reachable cut s → cut ≡ false → IsActive s
Reachable-IsActive cut s (start active) k = inl refl
Reachable-IsActive cut s (loaded save how w {was} h) k =
    load-IsActive save how w was _ (Reachable-IsActive was _ h) k
Reachable-IsActive cut s (gone how id h) k = remove-IsActive how id _ (Reachable-IsActive cut _ h k)
Reachable-IsActive cut s (activated id {was} h) k =
    activate-IsActive id was _ (Reachable-IsActive was _ h) k
