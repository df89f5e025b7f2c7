-- ===== src/Audit/Bounded.antt =====
-- The memory that waiting records take is bounded.
use buchi_maker.Common.{
  ltb, Bool-cases, length, length-append, ℕ, ◌≤◌, ◌<◌, ◌≡◌, refl, inl, inr, false, List, [], ◌∷◌,
  arith,
}
use buchi_maker.Audit.{
  Sinks, Pipeline, record_drop, enqueue_audit_record, take_item, should_flush, round, idle, Event,
  enqueued, went_round, after_events, queue_maxsize,
}
use buchi_maker.Audit.Conserved.{flush-queue}

module _ {R : Type 0} (size interval : ℕ) (pos : 0 < size) where
  abbrev pub IsBounded : Pipeline R → Type 0
  IsBounded s = (length s.queue ≤ queue_maxsize) × (length s.batch < size)

  enqueue-IsBounded :
      (now : ℕ) (r : R) (s : Pipeline R) → IsBounded s → IsBounded (enqueue_audit_record now r s)
  unfolding enqueue_audit_record record_drop
  enqueue-IsBounded now r s (q, b) = elim (Bool-cases (ltb (length s.queue) queue_maxsize)) [
    | inl e ↦ simp e (rw (length-append s.queue (r ∷ [])) (ground arith), b)
    | inr e ↦ simp e (q, b)
  ]

  take_item-length :
      (q : List R) (s : Pipeline R) → s.queue ≡ q → length (take_item q s).queue ≤ length s.queue
  unfolding take_item
  take_item-length [] s e = omega arith
  take_item-length (r ∷ q) s e = rw e (omega arith)

  not_full :
      (now : ℕ) (s : Pipeline R) → should_flush size interval now s ≡ false → length s.batch < size
  unfolding should_flush
  not_full now s h = ground arith

  round-IsBounded :
      (sinks : Sinks R) (now after : ℕ) (s : Pipeline R)
      → IsBounded s
      → IsBounded (round size interval sinks now after s)
  unfolding round
  round-IsBounded sinks now after s (q, b) =
      let t = take_item s.queue s in
      let shorter = take_item-length s.queue s refl in
      elim (Bool-cases (should_flush size interval now t)) [
        | inl e ↦ simp e (rw (flush-queue sinks t.batch t) (omega (arith, shorter, q)), pos)
        | inr e ↦ simp e (omega (arith, shorter, q), not_full now t e)
      ]

  events-IsBounded :
      (s : Pipeline R) (es : List (Event R))
      → IsBounded s
      → IsBounded (after_events size interval s es)
  unfolding after_events
  events-IsBounded s [] h = h
  events-IsBounded s (enqueued now r ∷ es) h =
      events-IsBounded (enqueue_audit_record now r s) es (enqueue-IsBounded now r s h)
  events-IsBounded s (went_round sinks now after ∷ es) h =
      events-IsBounded (round size interval sinks now after s) es
        (round-IsBounded sinks now after s h)

-- For a positive batch size: whatever is enqueued, and however often the thread goes round, starting
-- from an idle pipeline, the queue holds 10 000 records at most, and between two rounds the batch holds fewer
-- than its size, even if the sinks fail.
pub after_events-IsBounded :
    {R : Type 0} (size interval : ℕ) (pos : 0 < size) (es : List (Event R))
    → (length (after_events size interval idle es).queue ≤ queue_maxsize)
      × (length (after_events size interval idle es).batch < size)
after_events-IsBounded size interval pos es =
    events-IsBounded size interval pos idle es (omega arith, pos)
