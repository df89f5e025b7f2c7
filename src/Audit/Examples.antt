-- ===== src/Audit/Examples.antt =====
-- The theorems on the audit pipeline at a concrete history.
use buchi_maker.Common.{
  length, ◌≤◌, ◌<◌, String, ◌≡◌, refl, true, false, none, some, List, [], ◌∷◌, arith,
}
use buchi_maker.Audit.{
  Sinks, Event, enqueued, went_round, after_events, drain, idle, queue_maxsize, default_batch_size,
  default_flush_interval,
}
use buchi_maker.Audit.Conserved.{Dropped, sent, drain-stored}
use buchi_maker.Audit.Bounded.{after_events-IsBounded}
use buchi_maker.Audit.Log.{Filters, text, number, time, build_where}

abbrev sound : Sinks String
sound = record { inserts = true; attached = true; sends = λ r. true }

-- the audit database refuses, syslog goes on
abbrev no_db : Sinks String
no_db = record { inserts = false; attached = true; sends = λ r. true }

abbrev history : Sinks String → List (Event String)
history sinks =
    enqueued 10 "GET /"
    ∷ enqueued 11 "GET /dashboards"
    ∷ went_round sinks 20 20
    ∷ went_round sinks 2100 2105
    ∷ enqueued 2200 "POST /data"
    ∷ []

drain-stored_example :
    Dropped
      (sent (history sound))
      (drain sound
        (after_events default_batch_size default_flush_interval idle (history sound))).stored
      (drain sound
        (after_events default_batch_size default_flush_interval idle (history sound))).dropped
drain-stored_example =
    drain-stored default_batch_size default_flush_interval sound (history sound)
      (tt, (tt, (refl, (refl, (tt, tt))))) refl

after_events-IsBounded_example :
    (length (after_events default_batch_size default_flush_interval idle (history sound)).queue
      ≤ queue_maxsize)
    × (length (after_events default_batch_size default_flush_interval idle (history sound)).batch
        < default_batch_size)
after_events-IsBounded_example =
    after_events-IsBounded default_batch_size default_flush_interval (omega arith) (history sound)

-- the flush interval has passed at the second round, so both records are written
second_round_flushes :
    (after_events default_batch_size default_flush_interval idle (history sound)).stored
    ≡ "GET /" ∷ "GET /dashboards" ∷ []
unfolding after_events
second_round_flushes = refl

lost_in_db :
    (drain no_db
      (after_events default_batch_size default_flush_interval idle (history no_db))).stored
    ≡ []
unfolding drain after_events
lost_in_db = refl

abbrev filters : Filters
filters = record {
  search = some "10.0";
  method = some "";
  status_code = some 404;
  date_from = none;
  date_to = some 1700000000;
}

filters_where : build_where filters ≡ (
  "(path ILIKE ? OR client_ip ILIKE ?) AND status_code = ? AND ts <= ?",
  text "%10.0%" ∷ text "%10.0%" ∷ number 404 ∷ time 1700000000 ∷ [],
)
unfolding build_where
filters_where = refl
