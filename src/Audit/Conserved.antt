-- ===== src/Audit/Conserved.antt =====
-- Records are written in the order in which they came, and only those that the queue dropped are
-- missing.
use buchi_maker.Common.{
  ltb, Bool-cases, length, keep, All, ℕ, ◌+◌, ◌≡◌, refl, sym, ap, ap₂, subst, ◌∙◌, inl, inr, Bool,
  true, List, [], ◌∷◌, ◌++◌,
}
use buchi_maker.Audit.{
  Sinks, Pipeline, record_drop, enqueue_audit_record, flush, take_item, should_flush, round, drain,
  idle, Event, enqueued, went_round, after_events, queue_maxsize,
}

-- `Dropped xs ys n`: ys is xs without n of its elements.
pub data Dropped {R : Type 0} : List R → List R → ℕ → Type 0 where
  nothing : Dropped [] [] 0
  accepted :
      {xs ys : List R} {n : ℕ} (r : R) → Dropped xs ys n → Dropped (xs ++ r ∷ []) (ys ++ r ∷ []) n
  refused : {xs ys : List R} {n : ℕ} (r : R) → Dropped xs ys n → Dropped (xs ++ r ∷ []) ys (n + 1)

module _ {R : Type 0} where
  -- the records of a list of events
  abbrev pub sent : List (Event R) → List R
  sent [] = []
  sent (enqueued now r ∷ es) = r ∷ sent es
  sent (went_round sinks now after ∷ es) = sent es

  -- what the audit database holds or may still get, and the same for syslog
  abbrev pub for_db : Pipeline R → List R
  for_db s = s.stored ++ (s.batch ++ s.queue)

  abbrev pub for_syslog : Pipeline R → List R
  for_syslog s = s.forwarded ++ (s.batch ++ s.queue)

  -- no insert fails
  abbrev pub IsStoring : Event R → Type 0
  IsStoring (enqueued now r) = Unit
  IsStoring (went_round sinks now after) = sinks.inserts ≡ true

  -- a handler is attached and accepts everything
  abbrev pub IsForwarding : Event R → Type 0
  IsForwarding (enqueued now r) = Unit
  IsForwarding (went_round sinks now after) =
      (sinks.attached ≡ true) × ((r : R) → sinks.sends r ≡ true)

  append_assoc : (xs ys zs : List R) → (xs ++ ys) ++ zs ≡ xs ++ (ys ++ zs)
  append_assoc [] ys zs = refl
  append_assoc (x ∷ xs) ys zs = ap (λ t. x ∷ t) (append_assoc xs ys zs)

  append_nil : (xs : List R) → xs ++ [] ≡ xs
  append_nil [] = refl
  append_nil (x ∷ xs) = ap (λ t. x ∷ t) (append_nil xs)

  keep_all : (p : R → Bool) (xs : List R) → ((r : R) → p r ≡ true) → keep p xs ≡ xs
  keep_all p [] h = refl
  keep_all p (x ∷ xs) h = rw (h x) (ap (λ t. x ∷ t) (keep_all p xs h))

  flush-stored :
      (sinks : Sinks R) (b : List R) (s : Pipeline R)
      → sinks.inserts ≡ true
      → (flush sinks b s).stored ≡ s.stored ++ b
  unfolding flush
  flush-stored sinks [] s h = sym (append_nil s.stored)
  flush-stored sinks (r ∷ b) s h = rw h refl

  flush-forwarded :
      (sinks : Sinks R) (b : List R) (s : Pipeline R)
      → sinks.attached ≡ true
      → ((r : R) → sinks.sends r ≡ true)
      → (flush sinks b s).forwarded ≡ s.forwarded ++ b
  unfolding flush
  flush-forwarded sinks [] s h k = sym (append_nil s.forwarded)
  flush-forwarded sinks (r ∷ b) s h k = rw (h, k r) (rw (keep_all sinks.sends b k) refl)

  pub flush-queue :
      (sinks : Sinks R) (b : List R) (s : Pipeline R) → (flush sinks b s).queue ≡ s.queue
  unfolding flush
  flush-queue sinks [] s = refl
  flush-queue sinks (r ∷ b) s = refl

  flush-dropped :
      (sinks : Sinks R) (b : List R) (s : Pipeline R) → (flush sinks b s).dropped ≡ s.dropped
  unfolding flush
  flush-dropped sinks [] s = refl
  flush-dropped sinks (r ∷ b) s = refl

  -- taking an item moves the border between batch and queue
  take_item-pending :
      (q : List R) (s : Pipeline R)
      → s.queue ≡ q
      → (take_item q s).batch ++ (take_item q s).queue ≡ s.batch ++ s.queue
  unfolding take_item
  take_item-pending [] s e = refl
  take_item-pending (r ∷ q) s e = rw e (append_assoc s.batch (r ∷ []) q)

  take_item-rest :
      (q : List R) (s : Pipeline R)
      → ((take_item q s).stored ≡ s.stored)
        × ((take_item q s).forwarded ≡ s.forwarded)
        × ((take_item q s).dropped ≡ s.dropped)
  unfolding take_item
  take_item-rest [] s = (refl, refl, refl)
  take_item-rest (r ∷ q) s = (refl, refl, refl)

  shift : (out b q : List R) (r : R) → (out ++ (b ++ q)) ++ r ∷ [] ≡ out ++ (b ++ (q ++ r ∷ []))
  shift out b q r =
      append_assoc out (b ++ q) (r ∷ []) ∙ ap (λ t. out ++ t) (append_assoc b q (r ∷ []))

  module _ (size interval : ℕ) where
    round-for_db :
        (sinks : Sinks R) (now after : ℕ) (s : Pipeline R)
        → sinks.inserts ≡ true
        → for_db (round size interval sinks now after s) ≡ for_db s
    unfolding round
    round-for_db sinks now after s h =
        let t = take_item s.queue s in
        let kept : for_db t ≡ for_db s =
          ap₂ (λ x y. x ++ y) (take_item-rest s.queue s).0 (take_item-pending s.queue s refl) in
        elim (Bool-cases (should_flush size interval now t)) [
          | inr e ↦ simp e kept
          | inl e ↦ simp e (
              rw (flush-stored sinks t.batch t h, flush-queue sinks t.batch t)
                (append_assoc t.stored t.batch t.queue ∙ kept))
        ]

    round-for_syslog :
        (sinks : Sinks R) (now after : ℕ) (s : Pipeline R)
        → sinks.attached ≡ true
        → ((r : R) → sinks.sends r ≡ true)
        → for_syslog (round size interval sinks now after s) ≡ for_syslog s
    unfolding round
    round-for_syslog sinks now after s h k =
        let t = take_item s.queue s in
        let kept : for_syslog t ≡ for_syslog s =
          ap₂ (λ x y. x ++ y) (take_item-rest s.queue s).1 (take_item-pending s.queue s refl) in
        elim (Bool-cases (should_flush size interval now t)) [
          | inr e ↦ simp e kept
          | inl e ↦ simp e (
              rw (flush-forwarded sinks t.batch t h k, flush-queue sinks t.batch t)
                (append_assoc t.forwarded t.batch t.queue ∙ kept))
        ]

    round-dropped :
        (sinks : Sinks R) (now after : ℕ) (s : Pipeline R)
        → (round size interval sinks now after s).dropped ≡ s.dropped
    unfolding round
    round-dropped sinks now after s =
        let t = take_item s.queue s in
        elim (Bool-cases (should_flush size interval now t)) [
          | inr e ↦ simp e (take_item-rest s.queue s).2
          | inl e ↦ simp e (flush-dropped sinks t.batch t ∙ (take_item-rest s.queue s).2)
        ]

    enqueue-Dropped :
        (now : ℕ) (r : R) (s : Pipeline R) (xs : List R)
        → (Dropped xs (for_db s) s.dropped
            → Dropped
                (xs ++ r ∷ [])
                (for_db (enqueue_audit_record now r s))
                (enqueue_audit_record now r s).dropped)
          × (Dropped xs (for_syslog s) s.dropped
              → Dropped
                  (xs ++ r ∷ [])
                  (for_syslog (enqueue_audit_record now r s))
                  (enqueue_audit_record now r s).dropped)
    unfolding enqueue_audit_record record_drop
    enqueue-Dropped now r s xs = elim (Bool-cases (ltb (length s.queue) queue_maxsize)) [
      | inl e ↦ simp e (
        λ d.
            subst (λ t. Dropped (xs ++ r ∷ []) t s.dropped) (shift s.stored s.batch s.queue r)
              (accepted r d),
        λ d.
            subst (λ t. Dropped (xs ++ r ∷ []) t s.dropped) (shift s.forwarded s.batch s.queue r)
              (accepted r d),
      )
      | inr e ↦ simp e (λ d. refused r d, λ d. refused r d)
    ]

    from_db :
        (s : Pipeline R) (es : List (Event R)) (xs : List R)
        → All IsStoring es
        → Dropped xs (for_db s) s.dropped
        → Dropped
            (xs ++ sent es)
            (for_db (after_events size interval s es))
            (after_events size interval s es).dropped
    unfolding after_events
    from_db s [] xs h d = rw (append_nil xs) d
    from_db s (enqueued now r ∷ es) xs (h, k) d = rw⁻¹ (append_assoc xs (r ∷ []) (sent es)) (
        from_db (enqueue_audit_record now r s) es (xs ++ r ∷ []) k
          ((enqueue-Dropped now r s xs).0 d))
    from_db s (went_round sinks now after ∷ es) xs (h, k) d =
        from_db (round size interval sinks now after s) es xs k
          (rw (round-for_db sinks now after s h, round-dropped sinks now after s) d)

    from_syslog :
        (s : Pipeline R) (es : List (Event R)) (xs : List R)
        → All IsForwarding es
        → Dropped xs (for_syslog s) s.dropped
        → Dropped
            (xs ++ sent es)
            (for_syslog (after_events size interval s es))
            (after_events size interval s es).dropped
    unfolding after_events
    from_syslog s [] xs h d = rw (append_nil xs) d
    from_syslog s (enqueued now r ∷ es) xs (h, k) d = rw⁻¹ (append_assoc xs (r ∷ []) (sent es)) (
        from_syslog (enqueue_audit_record now r s) es (xs ++ r ∷ []) k
          ((enqueue-Dropped now r s xs).1 d))
    from_syslog s (went_round sinks now after ∷ es) xs (h, k) d =
        from_syslog (round size interval sinks now after s) es xs k
          (rw (round-for_syslog sinks now after s h.0 h.1, round-dropped sinks now after s) d)

  -- Start from an idle pipeline, let records be enqueued and the thread go round in any order, and let
  -- the queue be drained at the end. If no insert fails, the audit database then holds the enqueued
  -- records in their order, without as many of them as were counted as dropped.
  pub drain-stored :
      (size interval : ℕ) (last : Sinks R) (es : List (Event R))
      → All IsStoring es
      → last.inserts ≡ true
      → Dropped
          (sent es)
          (drain last (after_events size interval idle es)).stored
          (drain last (after_events size interval idle es)).dropped
  unfolding drain
  drain-stored size interval last es h k =
      let s = after_events size interval idle es in
      rw (flush-stored last (s.batch ++ s.queue) s k, flush-dropped last (s.batch ++ s.queue) s)
        (from_db size interval idle es [] h nothing)

  -- The same for syslog, if a handler is attached throughout and accepts every record, whether or not
  -- the inserts into the audit database fail.
  pub drain-forwarded :
      (size interval : ℕ) (last : Sinks R) (es : List (Event R))
      → All IsForwarding es
      → last.attached ≡ true
      → ((r : R) → last.sends r ≡ true)
      → Dropped
          (sent es)
          (drain last (after_events size interval idle es)).forwarded
          (drain last (after_events size interval idle es)).dropped
  unfolding drain
  drain-forwarded size interval last es h a k =
      let s = after_events size interval idle es in
      rw
        (flush-forwarded last (s.batch ++ s.queue) s a k, flush-dropped last (s.batch ++ s.queue) s)
        (from_syslog size interval idle es [] h nothing)
