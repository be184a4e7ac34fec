-- ===== src/Server/EventQueue.antt =====
-- The queue of lifecycle events in front of the event sink, src/chute/server.py: `_emit_event`,
-- `_send_event_now` and the worker `_run_event_queue`, cut at its awaits. The sink's answer, an
-- exception or a time-out counted as a failure, is an argument. Cancelling the worker when the
-- server closes is not modelled.
pub mod Accounted
pub mod Drained
use chute.Prelude.{
  ℕ, List, Bool, Option, none, some, true, false, [], ◌∷◌, ◌++◌, ◌+◌, if◌then◌else◌, ltb, leb,
  length, not,
}
use chute.Prelude.Text.{Text, text_eq}
use chute.Prelude.Dict.{get, put}

abbrev pub event_queue_max : ℕ
event_queue_max = 1024

abbrev pub event_retry_attempts : ℕ
event_retry_attempts = 3

pub record QueuedEvent (E : Type 0) : Type 0 where
  pub method : Text
  pub event : E
  pub attempts : ℕ

-- Where the worker stands: at `get`, at the sink, or at the sleep before a retry.
pub data Worker (E : Type 0) : Type 0 where
  idle : Worker E
  sending waiting : QueuedEvent E → Worker E

pub record EventQueue (E : Type 0) : Type 0 where
  pub is_noop : Bool
  pub generated : List (Text × ℕ)
  pub queue : List (QueuedEvent E)
  pub enqueued : ℕ
  pub delivered : ℕ
  pub retried : ℕ
  pub dropped : ℕ
  pub worker : Worker E

-- Only the methods that have a counter are counted.
unfoldable pub count_generated : Text → List (Text × ℕ) → List (Text × ℕ)
count_generated method counts = elim (get method counts) [
  | none ↦ counts
  | some n ↦ put method (n + 1) counts
]

-- A required event goes to the sink at once, whose failure is raised (`none`).
unfoldable pub send_required : Bool → Option Bool
send_required sent = if sent then some true else none

module _ {E : Type 0} where
  abbrev pub new_queue : Bool → List (Text × ℕ) → EventQueue E
  new_queue noop counts = record {
    is_noop = noop;
    generated = counts;
    queue = [];
    enqueued = 0;
    delivered = 0;
    retried = 0;
    dropped = 0;
    worker = idle;
  }

  -- `put_nowait` of a best-effort event
  unfoldable pub enqueue_event : Text → E → EventQueue E → EventQueue E × Option Bool
  enqueue_event method event s =
      if ltb (length s.queue) event_queue_max
      then (
        record s {
          queue = s.queue ++ (record { method = method; event = event; attempts = 0 } ∷ []);
          enqueued = s.enqueued + 1;
        },
        some true,
      )
      else (record s { dropped = s.dropped + 1 }, some false)

  unfoldable pub emit_event :
      (required sent : Bool) → Text → E → EventQueue E → EventQueue E × Option Bool
  emit_event required sent method event s =
      let counted = record s { generated = count_generated method s.generated } in
      if s.is_noop
      then (counted, some true)
      else if not required
      then enqueue_event method event counted
      else (counted, send_required sent)

  -- `await self._event_queue.get()`, which blocks on an empty queue
  unfoldable pub get_event : List (QueuedEvent E) → EventQueue E → EventQueue E
  get_event [] s = s
  get_event (item ∷ items) s = record s { queue = items; worker = sending item }

  -- What the worker does once the sink has answered.
  unfoldable pub answered : Bool → QueuedEvent E → EventQueue E → EventQueue E
  answered sent item s =
      if sent
      then record s { delivered = s.delivered + 1; worker = idle }
      else if leb event_retry_attempts (item.attempts + 1)
      then record s { dropped = s.dropped + 1; worker = idle }
      else record s { worker = waiting item }

  -- What it does after the sleep.
  unfoldable pub retry : QueuedEvent E → EventQueue E → EventQueue E
  retry item s =
      if ltb (length s.queue) event_queue_max
      then record s {
        queue = s.queue ++ (record item { attempts = item.attempts + 1 } ∷ []);
        retried = s.retried + 1;
        worker = idle;
      }
      else record s { dropped = s.dropped + 1; worker = idle }

  -- One turn of the worker from await to await, with the sink's answer if it waits for one.
  unfoldable pub turn_at : Worker E → Bool → EventQueue E → EventQueue E
  turn_at idle sent s = get_event s.queue s
  turn_at (sending item) sent s = answered sent item s
  turn_at (waiting item) sent s = retry item s

  abbrev pub turn : Bool → EventQueue E → EventQueue E
  turn sent s = turn_at s.worker sent s

  unfoldable pub run_turns : List Bool → EventQueue E → EventQueue E
  run_turns [] s = s
  run_turns (sent ∷ answers) s = run_turns answers (turn sent s)

-- What happens to the queue: an event is emitted, or the worker has a turn.
pub data QueueStep (E : Type 0) : Type 0 where
  emitted : (required sent : Bool) → Text → E → QueueStep E
  worked : Bool → QueueStep E

module _ {E : Type 0} where
  unfoldable pub queue_step : QueueStep E → EventQueue E → EventQueue E
  queue_step (emitted required sent method event) s = (emit_event required sent method event s).0
  queue_step (worked sent) s = turn sent s

  unfoldable pub run_queue : List (QueueStep E) → EventQueue E → EventQueue E
  run_queue [] s = s
  run_queue (step ∷ steps) s = run_queue steps (queue_step step s)
