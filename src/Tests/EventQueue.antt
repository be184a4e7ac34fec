-- ===== src/Tests/EventQueue.antt =====
-- The event queue of src/chute/server.py at concrete inputs.
use chute.Prelude.{ℕ, ◌≡◌, List, ◌∷◌, Bool, [], false, true, arith, ◌+◌, length, refl}
use chute.Server.EventQueue.{
  emitted, worked, run_queue, EventQueue, run_turns, QueueStep, queue_step, new_queue, emit_event,
  idle, enqueue_event, count_generated, turn_at, get_event, answered, retry,
}
use chute.Prelude.Text.{Text, codes, text_beq}
use chute.Server.EventQueue.Accounted.{
  accounted, IsBounded, run_queue-accounted, run_queue-IsBounded,
}
use chute.Server.EventQueue.Drained.{run_turns-settles}
use chute.Prelude.Dict.{get, put}

-- The queue: an event that the sink refuses three times, and one that it takes at once.
abbrev closed_method : Text
closed_method = codes "tunnel_closed"

abbrev trouble : List (QueueStep ℕ)
trouble =
    emitted false true closed_method 1
    ∷ emitted false true closed_method 2
    ∷ worked true
    ∷ worked false
    ∷ worked true
    ∷ worked true
    ∷ worked true
    ∷ []

abbrev counts : List (Text × ℕ)
counts = (closed_method, 0) ∷ []

trouble_counters :
    let s = run_queue trouble (new_queue false counts) in
    s.delivered ∷ s.retried ∷ s.enqueued ∷ length s.queue ∷ [] ≡ 1 ∷ 1 ∷ 2 ∷ 1 ∷ []
unfolding run_queue queue_step emit_event enqueue_event count_generated turn_at get_event answered
    retry get put text_beq
trouble_counters = refl

run_queue-accounted_example : accounted (run_queue trouble (new_queue false counts)) ≡ 2
run_queue-accounted_example = run_queue-accounted counts trouble

new_queue-IsBounded : IsBounded {E = ℕ} (new_queue false counts)
new_queue-IsBounded = record { depth = omega arith; retries = omega arith; can_retry = tt }

run_queue-IsBounded_example : IsBounded (run_queue trouble (new_queue false counts))
run_queue-IsBounded_example =
    run_queue-IsBounded trouble (new_queue false counts) new_queue-IsBounded

abbrev two_waiting : EventQueue ℕ
two_waiting = record (new_queue false counts) {
  queue =
      record { method = closed_method; event = 1; attempts = 0 }
      ∷ record { method = closed_method; event = 2; attempts = 2 }
      ∷ [];
  enqueued = 2;
}

abbrev all_refused : List Bool
all_refused = false ∷ false ∷ false ∷ false ∷ false ∷ false ∷ false ∷ false ∷ false ∷ false ∷ []

run_turns-settles_example :
    ((run_turns all_refused two_waiting).queue ≡ [])
    × ((run_turns all_refused two_waiting).worker ≡ idle)
    × ((run_turns all_refused two_waiting).delivered + (run_turns all_refused two_waiting).dropped
        ≡ 2)
run_turns-settles_example = run_turns-settles all_refused two_waiting (omega arith)
