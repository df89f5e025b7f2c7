-- ===== src/Db/Paired.antt =====
-- The active and the standby connection are never on one file.
use buchi_maker.Common.{
  Bool-cases, is_some, OnSome, ℕ, String, ◌≡◌, refl, inl, inr, true, false, Option, none, some,
  List, [],
}
use buchi_maker.Db.{
  Slot, a, b, Con, Db, Disk, read_active_slot, other_slot, open_slot, get_db, standby_after,
  get_standby_db, close_db, reopen, activate, swap, demoted, demote, promote_standby,
}

-- The active connection is on the active slot; a standby exists only beside an active connection, and
-- is on the other slot.
abbrev pub IsPaired : Db → Type 0
IsPaired s =
    OnSome (λ (c : Con). s.active_slot ≡ some c.slot) s.active
    × OnSome (λ (d : Con). (is_some s.active ≡ true) × (other_slot s.active_slot ≡ d.slot))
        s.standby

-- a process that has just started, with the marker file that it finds
abbrev pub started : Option String → Db
started marker = record {
  active = none;
  standby = none;
  active_slot = none;
  marker = marker;
  opened = 0;
  closed = [];
}

-- The states that calls lead to, each with a disk of its own.
pub data Reachable : Db → Type 0 where
  start : (marker : Option String) → Reachable (started marker)
  got : (disk : Disk) {s : Db} → Reachable s → Reachable (get_db disk s).0
  got_standby : (disk : Disk) {s : Db} → Reachable s → Reachable (get_standby_db disk s).0
  closed_down : {s : Db} → Reachable s → Reachable (close_db s)
  promoted : (disk : Disk) {s : Db} → Reachable s → Reachable (promote_standby disk s).0

back : (slot : Slot) → other_slot (some (other_slot (some slot))) ≡ slot
unfolding other_slot
back a = refl
back b = refl

-- a state, field by field
abbrev pub state : Option Con → Option Con → Option Slot → Option String → ℕ → List ℕ → Db
state active standby active_slot marker opened closed = record {
  active = active;
  standby = standby;
  active_slot = active_slot;
  marker = marker;
  opened = opened;
  closed = closed;
}

module _ (disk : Disk) where
  get_db-state :
      (active standby : Option Con) (k : Option Slot) (m : Option String) (n : ℕ) (cs : List ℕ)
      → IsPaired (state active standby k m n cs)
      → IsPaired (get_db disk (state active standby k m n cs)).0
        × OnSome
            (λ (c : Con). is_some (get_db disk (state active standby k m n cs)).0.active ≡ true)
            (get_db disk (state active standby k m n cs)).1
  unfolding get_db open_slot
  get_db-state (some c) standby k m n cs inv = (inv, refl)
  get_db-state none (some d) k m n cs inv = absurd (cc inv.1.0)
  get_db-state none none k m n cs inv =
      elim (Bool-cases (disk.connects (read_active_slot m) false)) [
        | inl e ↦ rw e ((refl, tt), refl)
        | inr e ↦ rw e ((tt, tt), tt)
      ]

  standby-state :
      (active standby : Option Con) (k : Option Slot) (m : Option String) (n : ℕ) (cs : List ℕ)
      (o : Option Con)
      → IsPaired (state active standby k m n cs)
      → OnSome (λ (c : Con). is_some active ≡ true) o
      → IsPaired (standby_after disk (state active standby k m n cs, o)).0
  unfolding standby_after open_slot
  standby-state active standby k m n cs none inv h = inv
  standby-state none standby k m n cs (some c) inv h = absurd (cc h)
  standby-state (some x) (some d) k m n cs (some c) inv h = inv
  standby-state (some x) none k m n cs (some c) inv h =
      elim (Bool-cases (disk.connects (other_slot k) false)) [
        | inl e ↦ rw e (inv.0, (refl, refl))
        | inr e ↦ rw e (inv.0, tt)
      ]

  get_db-IsPaired : (s : Db) → IsPaired s → IsPaired (get_db disk s).0
  get_db-IsPaired s inv =
      (get_db-state s.active s.standby s.active_slot s.marker s.opened s.closed inv).0

  pub get_standby_db-IsPaired : (s : Db) → IsPaired s → IsPaired (get_standby_db disk s).0
  unfolding get_standby_db
  get_standby_db-IsPaired s inv =
      let (paired, found) =
        get_db-state s.active s.standby s.active_slot s.marker s.opened s.closed inv in
      let t = (get_db disk s).0 in
      standby-state t.active t.standby t.active_slot t.marker t.opened t.closed (get_db disk s).1
        paired found

  promote-state :
      (active standby : Option Con) (k : Option Slot) (m : Option String) (n : ℕ) (cs : List ℕ)
      → IsPaired (state active standby k m n cs)
      → IsPaired (promote_standby disk (state active standby k m n cs)).0
  unfolding promote_standby swap demote reopen activate demoted open_slot
  promote-state active none k m n cs inv = inv
  promote-state none (some d) k m n cs inv = absurd (cc inv.1.0)
  promote-state (some x) (some d) none m n cs inv = absurd (cc inv.0)
  promote-state (some x) (some d) (some k) m n cs inv =
      let new = other_slot (some k) in
      elim (Bool-cases (disk.connects new true)) [
        | inr e ↦ rw e (elim (Bool-cases (disk.connects new false)) [
          | inl f ↦ rw f (inv.0, (refl, refl))
          | inr f ↦ rw f (inv.0, tt)
        ])
        | inl e ↦ rw e (elim (Bool-cases (disk.connects new false)) [
          | inr f ↦ rw f (inv.0, tt)
          | inl f ↦ rw f (elim (Bool-cases disk.writes) [
            | inr g ↦ rw g (refl, tt)
            | inl g ↦ rw g (elim (Bool-cases (disk.connects k false)) [
              | inl h ↦ rw h (refl, (refl, back k))
              | inr h ↦ rw h (refl, tt)
            ])
          ])
        ])
      ]

  promote-IsPaired : (s : Db) → IsPaired s → IsPaired (promote_standby disk s).0
  promote-IsPaired s inv =
      promote-state s.active s.standby s.active_slot s.marker s.opened s.closed inv

-- Whatever calls are made one after the other, on disks that may fail at any time, the active
-- connection is on the active slot, and a standby is on the other slot and only beside an active
-- connection.
pub Reachable-IsPaired : (s : Db) → Reachable s → IsPaired s
unfolding close_db
Reachable-IsPaired s (start marker) = (tt, tt)
Reachable-IsPaired s (got disk r) = get_db-IsPaired disk _ (Reachable-IsPaired _ r)
Reachable-IsPaired s (got_standby disk r) = get_standby_db-IsPaired disk _ (Reachable-IsPaired _ r)
Reachable-IsPaired s (closed_down r) = (tt, tt)
Reachable-IsPaired s (promoted disk r) = promote-IsPaired disk _ (Reachable-IsPaired _ r)
