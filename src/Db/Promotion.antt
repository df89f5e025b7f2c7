-- ===== src/Db/Promotion.antt =====
-- What a promotion leaves behind, however it ends.
use buchi_maker.Common.{
  Bool-cases, is_some, ℕ, String, ◌≡◌, refl, ◌⊎◌, inl, inr, Bool, true, false, Option, none, some,
  List,
}
use buchi_maker.Python.Chars.{strip}
use buchi_maker.Db.{
  Slot, a, b, Con, Db, Disk, Outcome, promoted, no_standby, not_valid, failed, slot_text,
  read_active_slot, other_slot, open_slot, get_db, reopen, activate, swap, demoted, demote,
  promote_standby, close,
}
use buchi_maker.Db.Paired.{IsPaired, state, started}

abbrev pub slot_of : Option Con → Option Slot
slot_of none = none
slot_of (some c) = some c.slot

-- How a promotion from `s` may leave the state `t`, by its outcome.
abbrev pub IsResult : Db → Db → Outcome → Type 0
IsResult s t promoted =
    (slot_of t.active ≡ some (other_slot s.active_slot))
    × (t.active_slot ≡ some (other_slot s.active_slot))
    × (t.marker ≡ some (slot_text (other_slot s.active_slot)))
    × (slot_of t.standby ≡ s.active_slot)
    × (t.closed ≡ close s.active (close s.standby s.closed))
IsResult s t no_standby = t ≡ s
IsResult s t not_valid =
    (t.active ≡ s.active)
    × (t.active_slot ≡ s.active_slot)
    × (t.marker ≡ s.marker)
    × (is_some t.standby ≡ true)
    × (t.closed ≡ close s.standby s.closed)
IsResult s t failed =
    (t.standby ≡ none)
    × ((t.active ≡ s.active)
          × (t.active_slot ≡ s.active_slot)
          × (t.marker ≡ s.marker)
          × (t.closed ≡ close s.standby s.closed)
        ⊎ (slot_of t.active ≡ some (other_slot s.active_slot))
          × (t.active_slot ≡ some (other_slot s.active_slot))
          × ((t.marker ≡ s.marker) × (t.closed ≡ close s.standby s.closed)
              ⊎ (t.marker ≡ some (slot_text (other_slot s.active_slot)))
                × (t.closed ≡ close s.active (close s.standby s.closed))))

module _ (disk : Disk) where
  promote-state :
      (active standby : Option Con) (k : Option Slot) (m : Option String) (n : ℕ) (cs : List ℕ)
      → IsPaired (state active standby k m n cs)
      → IsResult
          (state active standby k m n cs)
          (promote_standby disk (state active standby k m n cs)).0
          (promote_standby disk (state active standby k m n cs)).1
  unfolding promote_standby swap demote reopen activate demoted open_slot
  promote-state active none k m n cs inv = refl
  promote-state none (some d) k m n cs inv = absurd (cc inv.1.0)
  promote-state (some x) (some d) none m n cs inv = absurd (cc inv.0)
  promote-state (some x) (some d) (some k) m n cs inv =
      let new = other_slot (some k) in
      elim (Bool-cases (disk.connects new true)) [
        | inr e ↦ rw e (elim (Bool-cases (disk.connects new false)) [
          | inl f ↦ rw f (refl, refl, refl, refl, refl)
          | inr f ↦ rw f (refl, inl (refl, refl, refl, refl))
        ])
        | inl e ↦ rw e (elim (Bool-cases (disk.connects new false)) [
          | inr f ↦ rw f (refl, inl (refl, refl, refl, refl))
          | inl f ↦ rw f (elim (Bool-cases disk.writes) [
            | inr g ↦ rw g (refl, inr (refl, refl, inl (refl, refl)))
            | inl g ↦ rw g (elim (Bool-cases (disk.connects k false)) [
              | inl h ↦ rw h (refl, refl, refl, refl, refl)
              | inr h ↦ rw h (refl, inr (refl, refl, inr (refl, refl)))
            ])
          ])
        ])
      ]

  pub promote_standby-IsResult :
      (s : Db) → IsPaired s → IsResult s (promote_standby disk s).0 (promote_standby disk s).1
  promote_standby-IsResult s inv =
      promote-state s.active s.standby s.active_slot s.marker s.opened s.closed inv

  works :
      (active standby : Option Con) (k : Option Slot) (m : Option String) (n : ℕ) (cs : List ℕ)
      → IsPaired (state active standby k m n cs)
      → is_some standby ≡ true
      → ((slot : Slot) (read_only : Bool) → disk.connects slot read_only ≡ true)
      → disk.writes ≡ true
      → (promote_standby disk (state active standby k m n cs)).1 ≡ promoted
  unfolding promote_standby swap demote reopen activate demoted open_slot
  works active none k m n cs inv has connects writes = absurd (cc has)
  works none (some d) k m n cs inv has connects writes = absurd (cc inv.1.0)
  works (some x) (some d) none m n cs inv has connects writes = absurd (cc inv.0)
  works (some x) (some d) (some k) m n cs inv has connects writes =
      rw (connects (other_slot (some k)) true)
        (rw (connects (other_slot (some k)) false) (rw writes (rw (connects k false) refl)))

  written_slot : (k : Slot) → read_active_slot (some (slot_text k)) ≡ k
  unfolding read_active_slot slot_text strip
  written_slot a = refl
  written_slot b = refl

  -- From a paired state with a standby, on a disk that does all that it is asked, the promotion ends
  -- well; and a process that starts afterwards, with the marker that is left, takes the same slot as
  -- active.
  pub promote_standby-restart :
      (s : Db)
      → IsPaired s
      → is_some s.standby ≡ true
      → ((slot : Slot) (read_only : Bool) → disk.connects slot read_only ≡ true)
      → disk.writes ≡ true
      → ((promote_standby disk s).1 ≡ promoted)
        × (slot_of (get_db disk (started (promote_standby disk s).0.marker)).0.active
            ≡ slot_of (promote_standby disk s).0.active)
  unfolding get_db open_slot
  promote_standby-restart s inv has connects writes =
      let well : (promote_standby disk s).1 ≡ promoted =
        works s.active s.standby s.active_slot s.marker s.opened s.closed inv has connects writes in
      let result = rw well at (promote_standby-IsResult s inv) in
      (
        well,
        rw
            (
              result.2,
              result.0,
              written_slot (other_slot s.active_slot),
              connects (other_slot s.active_slot) false,
            )
            refl,
      )
