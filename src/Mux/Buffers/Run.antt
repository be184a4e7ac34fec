-- ===== src/Mux/Buffers/Run.antt =====
-- The buffer accounting of src/chute/mux.py through any run of the event loop.
use chute.Prelude.{
  [], ℕ, ◌≡◌, refl, some, List, arith, Option-cases, inl, inr, ◌∷◌, if_cases, ◌||◌, leb, length,
  ltb, ◌+◌,
}
use chute.Mux.Buffers.{IsCounted, core}
use chute.Mux.Lifecycle.{
  new_mux, goaway, drain_turn, close_stall, open_stream, abort_all, run_finally, Callbacks, Opened,
  open_done, open_failed,
}
use chute.Mux.Events.{
  opened, step, run_events, Event, after_open, message, open_fails, closes, resets, reads, ends,
  acks, opened_mux, sends, wakes, credit_stalls, writes, write_fails, write_drops, stalls,
  send_once_starts, send_once_ends, drains, close_stalls, connection_lost, opens, goes_away,
}
use chute.Mux.State.{Mux, log_mux, send_frame, stream_at, at_stream}
use chute.Mux.Stream.{Stream}
use chute.Mux.Limits.{Limits, max_stream_id}
use chute.Mux.Buffers.Dispatch.{handle_message-IsCounted, add_stream-IsCounted}
use chute.Mux.Buffers.Tools.{CoreIsCounted-same}
use chute.Mux.Buffers.Teardown.{close-IsCounted, reset-IsCounted, abort-IsCounted}
use chute.Mux.Buffers.Receive.{read-IsCounted, ack-IsCounted}
use chute.Mux.Buffers.Transmit.{
  send_eof-IsCounted, send-IsCounted, wake_at-IsCounted, stall_at-IsCounted, resume_at-IsCounted,
  fail_at-IsCounted, drop_at-IsCounted, core-write_stall,
}
use chute.Mux.Teardown.{abort}
use chute.Mux.Transmit.{wake_sender, write_done, write_failed, write_dropped, credit_stall}

new_mux-IsCounted :
    (callbacks : Callbacks) (max_streams : ℕ) (limits : Limits)
    → IsCounted (new_mux callbacks max_streams limits)
unfolding new_mux
new_mux-IsCounted callbacks max_streams limits = record {
  each = tt;
  bytes_sum = refl;
  chunks_sum = refl;
  bytes_within = omega arith;
  chunks_within = omega arith;
}

core-goaway : (m : Mux) → core (goaway m) ≡ core m
unfolding goaway
core-goaway m = refl

core-drain_turn : (deadline now : ℕ) (m : Mux) → core (drain_turn deadline now m).0 ≡ core m
unfolding drain_turn
core-drain_turn deadline now m = ground arith

core-close_stall : (now : ℕ) (m : Mux) → core (close_stall now m) ≡ core m
unfolding close_stall log_mux
core-close_stall now m = refl

at_stream-IsCounted :
    (o : ℕ) (f : Stream → Mux → Mux) (m : Mux)
    → IsCounted m
    → ((s : Stream) → stream_at o m ≡ some s → IsCounted (f s m))
    → IsCounted (at_stream o f m)
unfolding at_stream
at_stream-IsCounted o f m h k = elim (Option-cases (stream_at o m)) [
  | inl e ↦ rw e h
  | inr (s, e) ↦ rw e (k s e)
]

after_open-IsCounted : (m : Mux) → IsCounted m → IsCounted (after_open m)
unfolding open_stream send_frame
after_open-IsCounted m h =
    let kept = λ (r : Opened). IsCounted (opened_mux m r) in
    if_cases kept (m.going_away || m.peer_going_away) _ _ (λ _. h)
      λ _.
        if_cases kept (leb m.max_streams (length m.streams)) _ _ (λ _. h)
          λ _.
            if_cases kept (ltb max_stream_id m.next_id) _ _ (λ _. h)
              (λ _. add_stream-IsCounted (record m { next_id = m.next_id + 1 }) h m.next_id)

abort_all-IsCounted : (l : List (ℕ × ℕ)) (m : Mux) → IsCounted m → IsCounted (abort_all l m)
unfolding abort_all
abort_all-IsCounted [] m h = h
abort_all-IsCounted ((sid, o) ∷ rest) m h =
    abort_all-IsCounted rest (at_stream o (abort o) m)
      (at_stream-IsCounted o (abort o) m h λ s at. abort-IsCounted o s m h at)

run_finally-IsCounted : (m : Mux) → IsCounted m → IsCounted (run_finally m)
unfolding run_finally
run_finally-IsCounted m h = abort_all-IsCounted m.streams m h

-- Every event keeps the counters equal to what the queues hold, and within their caps.
pub step-IsCounted : (e : Event) (m : Mux) → IsCounted m → IsCounted (step e m)
unfolding step open_done open_failed wake_sender credit_stall write_done write_failed write_dropped
    send_frame
step-IsCounted (message now answer msg) m h = handle_message-IsCounted m h now answer msg
step-IsCounted connection_lost m h = run_finally-IsCounted m h
step-IsCounted opens m h = after_open-IsCounted m h
step-IsCounted opened m h = h
step-IsCounted goes_away m h = CoreIsCounted-same (core-goaway m) h
step-IsCounted (open_fails o) m h = at_stream-IsCounted o _ m h λ s at. close-IsCounted o s m h at
step-IsCounted (closes o) m h = at_stream-IsCounted o _ m h λ s at. close-IsCounted o s m h at
step-IsCounted (resets o) m h = at_stream-IsCounted o _ m h λ s at. reset-IsCounted o s m h at
step-IsCounted (reads o) m h = at_stream-IsCounted o _ m h λ s at. read-IsCounted o s m h at
step-IsCounted (ends o) m h = at_stream-IsCounted o _ m h λ s at. send_eof-IsCounted o s m h at
step-IsCounted (acks n o) m h = at_stream-IsCounted o _ m h λ s at. ack-IsCounted o s m h at n
step-IsCounted (sends payload o) m h =
    at_stream-IsCounted o _ m h λ s at. send-IsCounted o s m h at payload
step-IsCounted (wakes o) m h =
    at_stream-IsCounted o _ m h λ s at. wake_at-IsCounted o s m h at s.sender
step-IsCounted (credit_stalls o) m h =
    at_stream-IsCounted o _ m h λ s at. stall_at-IsCounted o s m h at s.sender
step-IsCounted (writes o) m h =
    at_stream-IsCounted o _ m h λ s at. resume_at-IsCounted o s m h at s.sender
step-IsCounted (write_fails now o) m h =
    at_stream-IsCounted o _ m h λ s at. fail_at-IsCounted o s m h at now s.sender
step-IsCounted (write_drops o) m h =
    at_stream-IsCounted o _ m h λ s at. drop_at-IsCounted o s m h at s.sender
step-IsCounted (stalls now sid) m h = CoreIsCounted-same (core-write_stall now sid m) h
step-IsCounted (send_once_starts sid) m h = h
step-IsCounted (send_once_ends sid) m h = h
step-IsCounted (drains deadline now) m h = CoreIsCounted-same (core-drain_turn deadline now m) h
step-IsCounted (close_stalls now) m h = CoreIsCounted-same (core-close_stall now m) h

-- From a new mux, whatever the events and their order: the connection's counters are the sums of
-- the streams', each live stream's counters are the bytes and chunks its queue holds, a closed
-- stream counts nothing, and no counter passes its cap.
pub run_events-IsCounted : (es : List Event) (m : Mux) → IsCounted m → IsCounted (run_events es m)
unfolding run_events
run_events-IsCounted [] m h = h
run_events-IsCounted (e ∷ es) m h = run_events-IsCounted es (step e m) (step-IsCounted e m h)

-- After any list of events from a new mux, the connection's counters are the sums of the streams'
-- counters, a live stream's counters are the bytes and chunks that its queue holds, a closed
-- stream counts nothing and its lane has ended, and every counter is within its cap.
pub run_events-new_mux-IsCounted :
    (es : List Event) (callbacks : Callbacks) (max_streams : ℕ) (limits : Limits)
    → IsCounted (run_events es (new_mux callbacks max_streams limits))
run_events-new_mux-IsCounted es callbacks max_streams limits =
    run_events-IsCounted es _ (new_mux-IsCounted callbacks max_streams limits)
