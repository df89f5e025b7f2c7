-- ===== src/Db/Examples.antt =====
-- The theorems on promotions at concrete inputs.
use buchi_maker.Common.{◌≡◌, refl, true, not, none, some, []}
use buchi_maker.Db.{a, b, Db, Disk, promoted, not_valid, get_db, get_standby_db, promote_standby}
use buchi_maker.Db.Paired.{IsPaired, started, got_standby, start, Reachable-IsPaired}
use buchi_maker.Db.Promotion.{slot_of, promote_standby-restart}

abbrev sound : Disk
sound = record { connects = λ slot read_only. true; writes = true }

-- a standby file that cannot be read
abbrev unreadable : Disk
unreadable = record { connects = λ slot read_only. not read_only; writes = true }

-- a process that started on slot b, with its standby open
abbrev loaded : Db
loaded = record {
  active = some (record { id = 0; slot = b });
  standby = some (record { id = 1; slot = a });
  active_slot = some b;
  marker = some "b\n";
  opened = 2;
  closed = [];
}

loaded_is : (get_standby_db sound (started (some "b\n"))).0 ≡ loaded
unfolding get_standby_db
loaded_is = refl

loaded-IsPaired : IsPaired loaded
unfolding get_standby_db
loaded-IsPaired = (refl, (refl, refl))

promoted_swaps : (promote_standby sound loaded).1 ≡ promoted
unfolding promote_standby
promoted_swaps = refl

aborted : (promote_standby unreadable loaded).1 ≡ not_valid
unfolding promote_standby
aborted = refl

promote_standby-restart_example :
    ((promote_standby sound loaded).1 ≡ promoted)
    × (slot_of (get_db sound (started (promote_standby sound loaded).0.marker)).0.active
        ≡ slot_of (promote_standby sound loaded).0.active)
promote_standby-restart_example =
    promote_standby-restart sound loaded loaded-IsPaired refl (λ slot read_only. refl) refl

Reachable-IsPaired_example : IsPaired (get_standby_db sound (started none)).0
Reachable-IsPaired_example =
    Reachable-IsPaired (get_standby_db sound (started none)).0 (got_standby sound (start none))
