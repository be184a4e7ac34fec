-- ===== src/Server/EventQueue/Accounted.antt =====
-- The counters of the event queue, src/chute/server.py: no best-effort event is lost uncounted.
use chute.Server.EventQueue.{
  Worker, EventQueue, QueuedEvent, get_event, turn_at, emit_event, sending, QueueStep, answered,
  enqueue_event, waiting, idle, retry, send_required, event_queue_max, emitted,
  event_retry_attempts, Text, worked, run_queue, queue_step, new_queue, turn, count_generated,
}
use chute.Prelude.{
  List, ℕ, length, ◌≡◌, ◌+◌, ◌-◌, ◌≤◌, ◌∷◌, ◌<◌, arith, Bool, if◌then◌else◌, [], length-append,
  refl, ◌*◌, false, ◌∙◌, if_cases, leb, ltb, Option, not,
}
use chute.Prelude.Sums.{sum_of, sum_of-append}

module _ {E : Type 0} where
  -- What the worker holds.
  abbrev pub in_hand : Worker E → ℕ
  in_hand idle = 0
  in_hand (sending item) = 1
  in_hand (waiting item) = 1

  -- Everything the queue has settled or still holds.
  abbrev pub accounted : EventQueue E → ℕ
  accounted s = s.delivered + s.dropped + length s.queue + in_hand s.worker

  -- The retries that an item has left.
  abbrev pub retries_left : QueuedEvent E → ℕ
  retries_left item = 2 - item.attempts

  abbrev pub retries_in_hand : Worker E → ℕ
  retries_in_hand idle = 0
  retries_in_hand (sending item) = retries_left item
  retries_in_hand (waiting item) = retries_left item

  abbrev pub CanRetry : Worker E → Type 0
  CanRetry idle = Unit
  CanRetry (sending item) = Unit
  CanRetry (waiting item) = item.attempts + 1 < event_retry_attempts

  -- The queue within its size, and at most two retries for each event that was let in.
  pub record IsBounded (s : EventQueue E) : Type 0 where
    pub depth : length s.queue ≤ event_queue_max
    pub retries :
        s.retried + sum_of retries_left s.queue + retries_in_hand s.worker ≤ 2 * s.enqueued
    pub can_retry : CanRetry s.worker

  -- The best-effort events among the steps.
  abbrev pub best_effort : List (QueueStep E) → ℕ
  best_effort [] = 0
  best_effort (emitted required sent method event ∷ steps) =
      (if required then 0 else 1) + best_effort steps
  best_effort (worked sent ∷ steps) = best_effort steps

  accounted-get_event :
      (items : List (QueuedEvent E)) (s : EventQueue E)
      → s.queue ≡ items
      → s.worker ≡ idle
      → accounted (get_event items s) ≡ accounted s
  unfolding get_event
  accounted-get_event [] s q h = refl
  accounted-get_event (item ∷ items) s q h = grind arith

  pub accounted-turn_at :
      (w : Worker E) (sent : Bool) (s : EventQueue E)
      → s.worker ≡ w
      → accounted (turn_at w sent s) ≡ accounted s
  unfolding turn_at answered retry
  accounted-turn_at idle sent s h = accounted-get_event s.queue s refl h
  accounted-turn_at (sending item) sent s h = grind arith
  accounted-turn_at (waiting item) sent s h = grind (arith, length-append)

  emit_event-accounted :
      (required sent : Bool) (method : Text) (event : E) (s : EventQueue E)
      → s.is_noop ≡ false
      → accounted (emit_event required sent method event s).0
        ≡ (if required then 0 else 1) + accounted s
  unfolding emit_event enqueue_event send_required
  emit_event-accounted required sent method event s h = grind (arith, length-append)

  noop-turn_at :
      (w : Worker E) (sent : Bool) (s : EventQueue E) → (turn_at w sent s).is_noop ≡ s.is_noop
  unfolding turn_at get_event answered retry
  noop-turn_at idle sent s = elim s.queue as (λ items. (get_event items s).is_noop ≡ s.is_noop) [
    | [] ↦ refl
    | item ∷ items ↦ refl
  ]
  noop-turn_at (sending item) sent s = ground arith
  noop-turn_at (waiting item) sent s = ground arith

  noop-emit_event :
      (required sent : Bool) (method : Text) (event : E) (s : EventQueue E)
      → (emit_event required sent method event s).0.is_noop ≡ s.is_noop
  unfolding emit_event enqueue_event
  noop-emit_event required sent method event s = ground arith

  run_queue-accounted_from :
      (steps : List (QueueStep E)) (s : EventQueue E)
      → s.is_noop ≡ false
      → accounted (run_queue steps s) ≡ best_effort steps + accounted s
  unfolding run_queue queue_step
  run_queue-accounted_from [] s h = omega arith
  run_queue-accounted_from (emitted required sent method event ∷ steps) s h = omega (
    arith,
    run_queue-accounted_from steps (emit_event required sent method event s).0
        (noop-emit_event required sent method event s ∙ h),
    emit_event-accounted required sent method event s h,
  )
  run_queue-accounted_from (worked sent ∷ steps) s h = omega (
    arith,
    run_queue-accounted_from steps (turn sent s) (noop-turn_at s.worker sent s ∙ h),
    accounted-turn_at s.worker sent s refl,
  )

  -- After any steps of a new queue with a sink, in any order, the events delivered, those dropped,
  -- those queued and the one the worker holds are together the best-effort events emitted.
  pub run_queue-accounted :
      (counts : List (Text × ℕ)) (steps : List (QueueStep E))
      → accounted (run_queue steps (new_queue false counts)) ≡ best_effort steps
  run_queue-accounted counts steps =
      run_queue-accounted_from steps (new_queue false counts) refl ∙ omega arith

  IsBounded-get_event :
      (items : List (QueuedEvent E)) (s : EventQueue E)
      → s.queue ≡ items
      → s.worker ≡ idle
      → IsBounded s
      → IsBounded (get_event items s)
  unfolding get_event
  IsBounded-get_event [] s q h b = b
  IsBounded-get_event (item ∷ items) s q h b = record {
    depth = grind arith;
    retries = grind arith;
    can_retry = tt;
  }

  IsBounded-answered :
      (sent : Bool) (item : QueuedEvent E) (s : EventQueue E)
      → s.worker ≡ sending item
      → IsBounded s
      → IsBounded (answered sent item s)
  unfolding answered
  IsBounded-answered sent item s h b =
      if_cases IsBounded sent _ _
        (λ e. record { depth = b.depth; retries = grind arith; can_retry = tt })
        (λ e.
          if_cases IsBounded (leb event_retry_attempts (item.attempts + 1)) _ _
            (λ f. record { depth = b.depth; retries = grind arith; can_retry = tt })
            (λ f. record { depth = b.depth; retries = grind arith; can_retry = grind arith }))

  IsBounded-retry :
      (item : QueuedEvent E) (s : EventQueue E)
      → s.worker ≡ waiting item
      → IsBounded s
      → IsBounded (retry item s)
  unfolding retry
  IsBounded-retry item s h b =
      if_cases IsBounded (ltb (length s.queue) event_queue_max) _ _
        (λ e. record {
          depth = grind (arith, length-append);
          retries = grind (arith, sum_of-append);
          can_retry = tt;
        })
        (λ e. record { depth = b.depth; retries = grind arith; can_retry = tt })

  IsBounded-enqueue_event :
      (method : Text) (event : E) (s : EventQueue E)
      → IsBounded s
      → IsBounded (enqueue_event method event s).0
  unfolding enqueue_event
  IsBounded-enqueue_event method event s b =
      if_cases (λ (r : EventQueue E × Option Bool). IsBounded r.0)
        (ltb (length s.queue) event_queue_max) _ _
        (λ e. record {
          depth = grind (arith, length-append);
          retries = grind (arith, sum_of-append);
          can_retry = b.can_retry;
        })
        (λ e. record { depth = b.depth; retries = grind arith; can_retry = b.can_retry })

  IsBounded-emit_event :
      (required sent : Bool) (method : Text) (event : E) (s : EventQueue E)
      → IsBounded s
      → IsBounded (emit_event required sent method event s).0
  unfolding emit_event
  IsBounded-emit_event required sent method event s b =
      let counted : EventQueue E = record s { generated = count_generated method s.generated } in
      let same : IsBounded counted = record {
        depth = b.depth;
        retries = b.retries;
        can_retry = b.can_retry;
      } in
      if_cases (λ (r : EventQueue E × Option Bool). IsBounded r.0) s.is_noop _ _ (λ _. same)
        (λ _.
          if_cases (λ (r : EventQueue E × Option Bool). IsBounded r.0) (not required) _ _
            (λ _. IsBounded-enqueue_event method event counted same) (λ _. same))

  pub IsBounded-turn_at :
      (w : Worker E) (sent : Bool) (s : EventQueue E)
      → s.worker ≡ w
      → IsBounded s
      → IsBounded (turn_at w sent s)
  unfolding turn_at
  IsBounded-turn_at idle sent s h b = IsBounded-get_event s.queue s refl h b
  IsBounded-turn_at (sending item) sent s h b = IsBounded-answered sent item s h b
  IsBounded-turn_at (waiting item) sent s h b = IsBounded-retry item s h b

  -- Any steps keep the queue within 1,024 events and the retries, those made and those still
  -- possible, within two for each event let in, when they were.
  pub run_queue-IsBounded :
      (steps : List (QueueStep E)) (s : EventQueue E) → IsBounded s → IsBounded (run_queue steps s)
  unfolding run_queue queue_step
  run_queue-IsBounded [] s b = b
  run_queue-IsBounded (emitted required sent method event ∷ steps) s b =
      run_queue-IsBounded steps _ (IsBounded-emit_event required sent method event s b)
  run_queue-IsBounded (worked sent ∷ steps) s b =
      run_queue-IsBounded steps _ (IsBounded-turn_at s.worker sent s refl b)
