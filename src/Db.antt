-- ===== src/Db.antt =====
-- backend/app/core/db.py: the active and the standby connection, and the promotion of the standby.
pub mod Promotion
pub mod Paired
mod Examples
use buchi_maker.Common.{
  if◌then◌else◌, all, keep, take, codes, ◌>>=◌, ◌>>◌, err, ℕ, ◌+◌, ◌-◌, ◌/◌, String, ap, Bool, true,
  false, not, Option, none, some, List, ◌∷◌, ◌==◌,
}
use buchi_maker.Python.Chars.{strip, same_codes}

-- the two files, and the texts that name them
pub data Slot : Type 0 where
  a b : Slot

unfoldable pub slot_text : Slot → String
slot_text a = "a"
slot_text b = "b"

-- A connection: which one it is, and the file that it is open on.
pub record Con : Type 0 where
  pub id : ℕ
  pub slot : Slot

-- The variables of the module, the text of the marker file, the number of connections that were kept
-- so far, and those that are closed.
pub record Db : Type 0 where
  pub active : Option Con
  pub standby : Option Con
  pub active_slot : Option Slot
  pub marker : Option String
  pub opened : ℕ
  pub closed : List ℕ

-- What the disk lets a call do: `duckdb.connect` on a file, read-only or not, and writing the marker.
pub record Disk : Type 0 where
  pub connects : Slot → Bool → Bool
  pub writes : Bool

-- _read_active_slot
unfoldable pub read_active_slot : Option String → Slot
unfolding strip
read_active_slot none = a
read_active_slot (some text) = if same_codes (strip (codes text)) (codes "b") then b else a

-- "b" if _active_slot == "a" else "a"
unfoldable pub other_slot : Option Slot → Slot
other_slot none = a
other_slot (some a) = b
other_slot (some b) = a

-- _open(path, read_only=False): `none` is an exception
unfoldable pub open_slot : Disk → Slot → Db → Db × Option Con
open_slot disk slot s =
    if disk.connects slot false
    then (record s { opened = s.opened + 1 }, some (record { id = s.opened; slot = slot }))
    else (s, none)

abbrev pub keep_active : Db × Option Con → Db × Option Con
keep_active (s, none) = (s, none)
keep_active (s, some c) = (record s { active = some c }, some c)

abbrev pub keep_standby : Db × Option Con → Db × Option Con
keep_standby (s, none) = (s, none)
keep_standby (s, some c) = (record s { standby = some c }, some c)

unfoldable pub get_db : Disk → Db → Db × Option Con
unfolding open_slot read_active_slot
get_db disk s = elim s.active [
  | some c ↦ (s, some c)
  | none ↦
      let slot = read_active_slot s.marker in
      keep_active (open_slot disk slot (record s { active_slot = some slot }))
]

-- the rest of `get_standby_db`, after its call of `get_db`
unfoldable pub standby_after : Disk → Db × Option Con → Db × Option Con
unfolding open_slot other_slot
standby_after disk (s, none) = (s, none)
standby_after disk (s, some c) = elim s.standby [
  | some d ↦ (s, some d)
  | none ↦ keep_standby (open_slot disk (other_slot s.active_slot) s)
]

unfoldable pub get_standby_db : Disk → Db → Db × Option Con
unfolding get_db standby_after
get_standby_db disk s = standby_after disk (get_db disk s)

abbrev pub close : Option Con → List ℕ → List ℕ
close none ids = ids
close (some c) ids = c.id ∷ ids

unfoldable pub close_db : Db → Db
close_db s = record s {
  active = none;
  standby = none;
  closed = close s.standby (close s.active s.closed);
}

-- How a promotion ends: as it should, with one of its two errors, or with another exception.
pub data Outcome : Type 0 where
  promoted no_standby not_valid failed : Outcome

-- What the first half hands to the second: the old active connection and its slot, or how it ended.
pub data Swapped : Type 0 where
  swapped : Option Con → Option Slot → Swapped
  ended : Outcome → Swapped

-- validation failed: the standby is opened again
reopen : Db × Option Con → Db × Swapped
reopen (s, none) = (s, ended failed)
reopen (s, some d) = (record s { standby = some d }, ended not_valid)

-- the new active connection, and the marker
activate : Disk → Slot → Option Con → Option Slot → Db × Option Con → Db × Swapped
unfolding slot_text
activate disk slot old old_slot (s, none) = (s, ended failed)
activate disk slot old old_slot (s, some d) =
    let now = record s { active = some d; active_slot = some slot } in
    if disk.writes
    then (record now { marker = some (slot_text slot) }, swapped old old_slot)
    else (now, ended failed)

-- the first block under the lock
unfoldable pub swap : Disk → Db → Db × Swapped
unfolding reopen activate open_slot other_slot
swap disk s = elim s.standby [
  | none ↦ (s, ended no_standby)
  | some c ↦
      let slot = other_slot s.active_slot in
      let taken = record s { standby = none; closed = c.id ∷ s.closed } in
      if disk.connects slot true
      then activate disk slot s.active s.active_slot (open_slot disk slot taken)
      else reopen (open_slot disk slot taken)
]

demoted : Db × Option Con → Db × Outcome
demoted (s, none) = (s, failed)
demoted (s, some d) = (record s { standby = some d }, promoted)

-- the second block under the lock, after the grace period
unfoldable pub demote : Disk → Db × Swapped → Db × Outcome
unfolding demoted open_slot
demote disk (s, ended how) = (s, how)
demote disk (s, swapped none old_slot) = (s, failed)
demote disk (s, swapped (some c) none) = (record s { closed = c.id ∷ s.closed }, failed)
demote disk (s, swapped (some c) (some slot)) =
    demoted (open_slot disk slot (record s { closed = c.id ∷ s.closed }))

-- a promotion during whose grace period nobody else calls
unfoldable pub promote_standby : Disk → Db → Db × Outcome
unfolding swap demote
promote_standby disk s = demote disk (swap disk s)
