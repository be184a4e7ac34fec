-- ===== src/Server/EventQueue/Drained.antt =====
-- The worker of the event queue, src/chute/server.py, comes to an end: with no new event, it empties
-- the queue whatever the sink answers.
use chute.Server.EventQueue.Accounted.{accounted, in_hand, accounted-turn_at}
use chute.Server.EventQueue.{
  QueuedEvent, Worker, EventQueue, get_event, answered, retry, turn_at, run_turns, sending, idle,
  waiting, turn, event_retry_attempts, event_queue_max,
}
use chute.Prelude.{
  List, ℕ, ◌≡◌, Bool, ◌≤◌, ◌*◌, ◌-◌, length, ◌∷◌, refl, ◌+◌, arith, if_cases, [], leb, ltb, ◌∙◌, ap,
}
use chute.Prelude.Sums.{sum_of, sum_of-append}

module _ {E : Type 0} where
  -- The turns that an item in the queue can still take: three for each retry left and two more.
  abbrev turns_left : QueuedEvent E → ℕ
  turns_left item = 3 * (2 - item.attempts) + 2

  abbrev turns_in_hand : Worker E → ℕ
  turns_in_hand idle = 0
  turns_in_hand (sending item) = 3 * (2 - item.attempts) + 1
  turns_in_hand (waiting item) = 3 * (1 - item.attempts) + 3

  abbrev pub turns_needed : EventQueue E → ℕ
  turns_needed s = sum_of turns_left s.queue + turns_in_hand s.worker

  get_event-turns :
      (items : List (QueuedEvent E)) (s : EventQueue E)
      → s.queue ≡ items
      → s.worker ≡ idle
      → turns_needed (get_event items s) ≤ turns_needed s - 1
  unfolding get_event
  get_event-turns [] s q h = grind arith
  get_event-turns (item ∷ items) s q h = grind arith

  answered-turns :
      (sent : Bool) (item : QueuedEvent E) (s : EventQueue E)
      → s.worker ≡ sending item
      → turns_needed (answered sent item s) ≤ turns_needed s - 1
  unfolding answered
  answered-turns sent item s h =
      if_cases (λ (r : EventQueue E). turns_needed r ≤ turns_needed s - 1) sent _ _
        (λ e. grind arith)
        (λ e.
          if_cases (λ (r : EventQueue E). turns_needed r ≤ turns_needed s - 1)
            (leb event_retry_attempts (item.attempts + 1)) _ _ (λ f. grind arith)
            (λ f. grind arith))

  retry-turns :
      (item : QueuedEvent E) (s : EventQueue E)
      → s.worker ≡ waiting item
      → turns_needed (retry item s) ≤ turns_needed s - 1
  unfolding retry
  retry-turns item s h =
      if_cases (λ (r : EventQueue E). turns_needed r ≤ turns_needed s - 1)
        (ltb (length s.queue) event_queue_max) _ _ (λ e. grind (arith, sum_of-append))
        (λ e. grind arith)

  turn_at-turns :
      (w : Worker E) (sent : Bool) (s : EventQueue E)
      → s.worker ≡ w
      → turns_needed (turn_at w sent s) ≤ turns_needed s - 1
  unfolding turn_at
  turn_at-turns idle sent s h = get_event-turns s.queue s refl h
  turn_at-turns (sending item) sent s h = answered-turns sent item s h
  turn_at-turns (waiting item) sent s h = retry-turns item s h

  no_items_left : (items : List (QueuedEvent E)) → sum_of turns_left items ≤ 0 → items ≡ []
  no_items_left [] h = refl
  no_items_left (item ∷ items) h = absurd (omega (arith, h))

  nothing_in_hand : (w : Worker E) → turns_in_hand w ≤ 0 → w ≡ idle
  nothing_in_hand idle h = refl
  nothing_in_hand (sending item) h = absurd (omega (arith, h))
  nothing_in_hand (waiting item) h = absurd (omega (arith, h))

  run_turns-accounted :
      (answers : List Bool) (s : EventQueue E) → accounted (run_turns answers s) ≡ accounted s
  unfolding run_turns
  run_turns-accounted [] s = refl
  run_turns-accounted (sent ∷ answers) s =
      run_turns-accounted answers (turn sent s) ∙ accounted-turn_at s.worker sent s refl

  run_turns-empty :
      (answers : List Bool) (s : EventQueue E)
      → turns_needed s ≤ length answers
      → ((run_turns answers s).queue ≡ []) × ((run_turns answers s).worker ≡ idle)
  unfolding run_turns
  run_turns-empty [] s h =
      (no_items_left s.queue (omega (arith, h)), nothing_in_hand s.worker (omega (arith, h)))
  run_turns-empty (sent ∷ answers) s h =
      run_turns-empty answers (turn sent s) (omega (arith, h, turn_at-turns s.worker sent s refl))

  -- With no new event, whatever the sink answers, the worker ends with an empty queue after the
  -- turns that the queued events can still take (at most eight for each), and every event it had
  -- is then delivered or dropped.
  pub run_turns-settles :
      (answers : List Bool) (s : EventQueue E)
      → turns_needed s ≤ length answers
      → ((run_turns answers s).queue ≡ [])
        × ((run_turns answers s).worker ≡ idle)
        × ((run_turns answers s).delivered + (run_turns answers s).dropped ≡ accounted s)
  run_turns-settles answers s h =
      let empty = run_turns-empty answers s h in
      (
        empty.0,
        empty.1,
        omega (arith, run_turns-accounted answers s, ap length empty.0, ap in_hand empty.1),
      )
