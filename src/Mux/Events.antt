-- ===== src/Mux/Events.antt =====
-- The event loop around one `Mux` of src/chute/mux.py. asyncio switches between coroutines only
-- at an await, so whatever the coroutines of a connection do is a list of events, each of them one
-- run between two awaits. A stream is named by its place in the store.
use chute.Prelude.{ℕ, List, [], ◌∷◌, Bool, ◌==◌, if◌then◌else◌}
use chute.Prelude.Text.{Bytes}
use chute.Protocol.{reset_frame}
use chute.Mux.State.{Mux, send_frame, write_stall, at_stream}
use chute.Mux.Teardown.{close, reset}
use chute.Mux.Receive.{ack, after_read}
use chute.Mux.Transmit.{
  send, wake_sender, credit_stall, write_done, write_failed, write_dropped, send_eof,
}
use chute.Mux.Lifecycle.{
  open_stream, opening, open_refused, open_done, open_failed, goaway, run_finally, drain_turn,
  close_stall, Opened,
}
use chute.Mux.Dispatch.{Message, mux_after, handle_message}

pub data Event : Type 0 where
  -- `run` takes a message; the time, and what the account's budget would answer
  message : ℕ → Bool → Message → Event
  -- `run` ends
  connection_lost : Event
  opens opened goes_away : Event
  open_fails closes resets reads ends : ℕ → Event
  acks : ℕ → ℕ → Event
  sends : Bytes → ℕ → Event
  wakes credit_stalls writes write_drops : ℕ → Event
  write_fails : ℕ → ℕ → Event
  -- any other `_send` that stalls, on a stream id
  stalls : ℕ → ℕ → Event
  -- the two halves of `_send_once`, and a task that is done
  send_once_starts send_once_ends : ℕ → Event
  drains : ℕ → ℕ → Event
  close_stalls : ℕ → Event

abbrev pub opened_mux : Mux → Opened → Mux
opened_mux m (open_refused e) = m
opened_mux m (opening n o) = n

abbrev pub after_open : Mux → Mux
after_open m = opened_mux m (open_stream m)

-- `discard`
unfoldable pub discard : ℕ → List ℕ → List ℕ
discard sid [] = []
discard sid (r ∷ rs) = let rest = discard sid rs in if r == sid then rest else r ∷ rest

unfoldable pub step : Event → Mux → Mux
step (message now answer msg) m = mux_after (handle_message now answer msg m)
step connection_lost m = run_finally m
step opens m = after_open m
step opened m = open_done m
step goes_away m = goaway m
step (open_fails o) m = at_stream o (open_failed o) m
step (closes o) m = at_stream o (close o) m
step (resets o) m = at_stream o (reset o) m
step (reads o) m = at_stream o (after_read o) m
step (ends o) m = at_stream o (send_eof o) m
step (acks n o) m = at_stream o (ack n o) m
step (sends payload o) m = at_stream o (λ s n. (send payload o s n).0) m
step (wakes o) m = at_stream o (λ s n. (wake_sender o s n).0) m
step (credit_stalls o) m = at_stream o (λ s n. (credit_stall o s n).0) m
step (writes o) m = at_stream o (λ s n. (write_done o s n).0) m
step (write_fails now o) m = at_stream o (write_failed now o) m
step (write_drops o) m = at_stream o (write_dropped o) m
step (stalls now sid) m = write_stall now sid m
step (send_once_starts sid) m = send_frame reset_frame sid [] m
step (send_once_ends sid) m = record m { reset_sends = discard sid m.reset_sends }
step (drains deadline now) m = (drain_turn deadline now m).0
step (close_stalls now) m = close_stall now m

unfoldable pub run_events : List Event → Mux → Mux
run_events [] m = m
run_events (e ∷ es) m = run_events es (step e m)
