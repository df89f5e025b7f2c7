-- ===== src/System/Refresh/Standby.antt =====
-- A refresh works on the standby database only.
use buchi_maker.Common.{
  Bool-cases, is_some, OnSome, ℕ, String, ◌≡◌, refl, sym, ap, subst, ◌∙◌, inl, inr, Bool, true,
  false, Option, none, some, List,
}
use buchi_maker.Db.{
  Slot, a, b, Con, Db, Disk, other_slot, get_db, get_standby_db, standby_after, open_slot,
}
use buchi_maker.Db.Paired.{IsPaired, state}
use buchi_maker.System.Refresh.{Content, Store, content, put}

pub put-other :
    (k : Slot) (c : Content) (s : Store) → content k (put (other_slot (some k)) c s) ≡ content k s
unfolding other_slot
put-other a c s = refl
put-other b c s = refl

pub put-content : (k : Slot) (c : Content) (s : Store) → content k (put k c s) ≡ c
put-content a c s = refl
put-content b c s = refl

-- Beside the active connection `c`, the standby is on the other file, and the active connection stays.
abbrev pub IsBeside : Con → Db × Option Con → Type 0
IsBeside c r =
    (r.0.active ≡ some c)
    × ((r.0.active_slot ≡ some c.slot)
        × OnSome (λ (d : Con). d.slot ≡ other_slot (some c.slot)) r.1)

other_one :
    (c : Con) (k : Option Slot) (beside_active : Bool) (standby : Option Con)
    → k ≡ some c.slot
    → OnSome (λ (d : Con). (beside_active ≡ true) × (other_slot k ≡ d.slot)) standby
    → OnSome (λ (d : Con). d.slot ≡ other_slot (some c.slot)) standby
other_one c k t none e h = tt
other_one c k t (some d) e h = sym h.1 ∙ ap other_slot e

module _ (disk : Disk) where
  standby-state :
      (c : Con) (standby : Option Con) (k : Option Slot) (m : Option String) (n : ℕ) (cs : List ℕ)
      → k ≡ some c.slot
      → OnSome (λ (d : Con). d.slot ≡ other_slot (some c.slot)) standby
      → IsBeside c (get_standby_db disk (state (some c) standby k m n cs))
  unfolding get_standby_db get_db standby_after open_slot
  standby-state c (some d) k m n cs e h = (refl, (e, h))
  standby-state c none k m n cs e h = elim (Bool-cases (disk.connects (other_slot k) false)) [
    | inl f ↦ rw f (refl, (e, ap other_slot e))
    | inr f ↦ rw f (refl, (e, tt))
  ]

  pub beside :
      (c : Con) (s : Db) → s.active ≡ some c → IsPaired s → IsBeside c (get_standby_db disk s)
  beside c s e (own, pair) =
      let k : s.active_slot ≡ some c.slot =
        subst (OnSome (λ (x : Con). s.active_slot ≡ some x.slot)) e own in
      subst
        (λ active.
          IsBeside c
            (get_standby_db disk (state active s.standby s.active_slot s.marker s.opened s.closed)))
        (sym e)
        (standby-state c s.standby s.active_slot s.marker s.opened s.closed k
          (other_one c s.active_slot (is_some s.active) s.standby k pair))
