-- ===== src/Audit.antt =====
-- backend/app/core/audit_pipeline.py: the bounded queue of audit records, and the thread that writes
-- them. Times are milliseconds of the monotonic clock.
pub mod Conserved
pub mod Bounded
pub mod Log
mod Examples
use buchi_maker.Common.{
  ltb, leb, if◌then◌else◌, length, keep, take, drop, insert, ℕ, suc, ◌+◌, ◌-◌, ◌/◌, ap, Bool, not,
  ◌&&◌, ◌||◌, List, [], ◌∷◌, ◌++◌,
}

abbrev pub queue_maxsize : ℕ
queue_maxsize = 10_000

abbrev pub default_batch_size : ℕ
default_batch_size = 500

abbrev pub default_flush_interval : ℕ
default_flush_interval = 2000

-- What a flush meets: whether the insert into the audit database succeeds, whether a syslog handler is
-- attached, and which records it accepts.
pub record Sinks (R : Type 0) : Type 0 where
  pub inserts : Bool
  pub attached : Bool
  pub sends : R → Bool

-- The queue and the counters of the module, the batch and the clock of the thread, and what the two
-- sinks have received.
pub record Pipeline (R : Type 0) : Type 0 where
  pub queue : List R
  pub dropped : ℕ
  pub last_drop_log : ℕ
  pub batch : List R
  pub last_flush : ℕ
  pub stored : List R
  pub forwarded : List R

module _ {R : Type 0} where
  -- a warning is logged at most once in a second
  unfoldable pub record_drop : ℕ → Pipeline R → Pipeline R
  record_drop now s = record s {
    dropped = s.dropped + 1;
    last_drop_log = if ltb (s.last_drop_log + 1000) now then now else s.last_drop_log;
  }

  unfoldable pub enqueue_audit_record : ℕ → R → Pipeline R → Pipeline R
  unfolding record_drop
  enqueue_audit_record now r s =
      if ltb (length s.queue) queue_maxsize
      then record s { queue = s.queue ++ r ∷ [] }
      else record_drop now s

  abbrev pub write_to_db : Sinks R → List R → List R → List R
  write_to_db sinks batch stored = if sinks.inserts then stored ++ batch else stored

  abbrev pub forward_to_syslog : Sinks R → List R → List R → List R
  forward_to_syslog sinks batch forwarded =
      if sinks.attached then forwarded ++ keep sinks.sends batch else forwarded

  -- the two sinks, one after the other, whatever happens at the first
  unfoldable pub flush : Sinks R → List R → Pipeline R → Pipeline R
  flush sinks [] s = s
  flush sinks (r ∷ rs) s = record s {
    stored = write_to_db sinks (r ∷ rs) s.stored;
    forwarded = forward_to_syslog sinks (r ∷ rs) s.forwarded;
  }

  -- _audit_queue.get, of the queue given first: nothing when it stays empty
  unfoldable pub take_item : List R → Pipeline R → Pipeline R
  take_item [] s = s
  take_item (r ∷ q) s = record s { queue = q; batch = s.batch ++ r ∷ [] }

  module _ (batch_size flush_interval : ℕ) where
    unfoldable pub should_flush : ℕ → Pipeline R → Bool
    should_flush now s =
        leb batch_size (length s.batch)
        || ltb 0 (length s.batch) && leb flush_interval (now - s.last_flush)

    -- one round of the loop of `run`; a flush ends at the time `after`
    unfoldable pub round : Sinks R → (now after : ℕ) → Pipeline R → Pipeline R
    unfolding should_flush flush take_item
    round sinks now after s =
        let t = take_item s.queue s in
        if should_flush now t
        then record (flush sinks t.batch t) { batch = []; last_flush = after }
        else t

  -- the drain after the loop
  unfoldable pub drain : Sinks R → Pipeline R → Pipeline R
  unfolding flush
  drain sinks s = record (flush sinks (s.batch ++ s.queue) s) { batch = []; queue = [] }

  abbrev pub idle : Pipeline R
  idle = record {
    queue = [];
    dropped = 0;
    last_drop_log = 0;
    batch = [];
    last_flush = 0;
    stored = [];
    forwarded = [];
  }

-- What happens: a request enqueues a record, or the thread goes round once.
pub data Event (R : Type 0) : Type 0 where
  enqueued : (now : ℕ) → R → Event R
  went_round : Sinks R → (now after : ℕ) → Event R

module _ {R : Type 0} where
  unfoldable pub after_events :
      (batch_size flush_interval : ℕ) → Pipeline R → List (Event R) → Pipeline R
  unfolding enqueue_audit_record round
  after_events size interval s [] = s
  after_events size interval s (enqueued now r ∷ es) =
      after_events size interval (enqueue_audit_record now r s) es
  after_events size interval s (went_round sinks now after ∷ es) =
      after_events size interval (round size interval sinks now after s) es
