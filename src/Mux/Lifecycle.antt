-- ===== src/Mux/Lifecycle.antt =====
-- `Mux.__init__`, `open`, `goaway`, the end of `run` and the wait of `drain`, src/chute/mux.py.
use chute.Prelude.{
  ℕ, ◌+◌, ◌-◌, List, [], ◌∷◌, ◌++◌, Bool, true, false, ◌||◌, some, ltb, leb, if◌then◌else◌, length,
  is_empty,
}
use chute.Prelude.Text.{codes}
use chute.Prelude.Dict.{put, nat_eq}
use chute.Protocol.{open_frame, goaway_frame}
use chute.Mux.Limits.{Limits, max_stream_id}
use chute.Mux.Stream.{Stream, new_stream}
use chute.Mux.State.{Mux, no_stats, send_frame, log_mux, at_stream}
use chute.Mux.Teardown.{close, abort}

-- The callbacks that a side passes to its mux.
pub record Callbacks : Type 0 where
  pub on_open : Bool
  pub on_goaway : Bool
  pub buffer_reserve : Bool
  pub buffer_release : Bool

-- `Mux.__init__` after the limits.
unfoldable pub new_mux : Callbacks → ℕ → Limits → Mux
new_mux callbacks max_streams limits = record {
  limits = limits;
  has_on_open = callbacks.on_open;
  has_on_goaway = callbacks.on_goaway;
  has_reserve = callbacks.buffer_reserve;
  has_release = callbacks.buffer_release;
  max_streams = max_streams;
  objects = [];
  streams = [];
  next_id = 1;
  tasks = [];
  reset_sends = [];
  log_state = [];
  buffered = 0;
  frames = 0;
  going_away = false;
  peer_going_away = false;
  idle = false;
  stats = no_stats;
  sent = [];
  hook_calls = [];
  goaway_calls = 0;
  aborted = false;
}

-- A new `Stream`, entered in `_streams`: its place in the store is the next free one.
unfoldable pub add_stream : ℕ → Mux → Mux
unfolding new_stream
add_stream sid m = record m {
  objects = m.objects ++ (new_stream m.limits sid ∷ []);
  streams = put sid (length m.objects) m.streams;
}

pub data OpenError : Type 0 where
  is_draining too_many_streams ids_exhausted : OpenError

pub data Opened : Type 0 where
  -- the mux with the OPEN frame handed over, and the place of the stream
  opening : Mux → ℕ → Opened
  open_refused : OpenError → Opened

-- `open`, to the await of the OPEN frame.
unfoldable pub open_stream : Mux → Opened
open_stream m =
    if m.going_away || m.peer_going_away
    then open_refused is_draining
    else if leb m.max_streams (length m.streams)
    then open_refused too_many_streams
    else if ltb max_stream_id m.next_id
    then open_refused ids_exhausted
    else opening
        (send_frame open_frame m.next_id []
          (add_stream m.next_id (record m { next_id = m.next_id + 1 })))
        (length m.objects)

-- `open` after the await: the frame is out, or `_send` raised.
unfoldable pub open_done : Mux → Mux
open_done m = record m { stats = record m.stats { opened = m.stats.opened + 1 } }

unfoldable pub open_failed : ℕ → Stream → Mux → Mux
open_failed o s m = close o s m

-- `goaway`, to the await of its frame, whose failure is suppressed.
unfoldable pub goaway : Mux → Mux
unfolding send_frame
goaway m = send_frame goaway_frame 0 [] (record m { going_away = true })

-- `for stream in list(self._streams.values()): stream._abort()`
unfoldable pub abort_all : List (ℕ × ℕ) → Mux → Mux
abort_all [] m = m
abort_all ((sid, o) ∷ rest) m = abort_all rest (at_stream o (abort o) m)

-- The `finally` of `run`.
unfoldable pub run_finally : Mux → Mux
run_finally m = record (abort_all m.streams m) { streams = []; tasks = [] }

-- One turn of the loop of `drain`: it ends when no stream is left or the deadline has passed, and
-- else waits on the re-armed event for the time that is left.
pub data DrainTurn : Type 0 where
  drained deadline_passed : DrainTurn
  waits : ℕ → DrainTurn

unfoldable pub drain_turn : ℕ → ℕ → Mux → Mux × DrainTurn
drain_turn deadline now m =
    if is_empty m.streams
    then (m, drained)
    else let armed = record m { idle = false } in
      if leb deadline now then (armed, deadline_passed) else (armed, waits (deadline - now))

-- `aclose` does not finish within `_CLOSE_TIMEOUT`.
unfoldable pub close_stall : ℕ → Mux → Mux
close_stall now m =
    record (log_mux now (codes "close_stall") (some 0)
      (record m { stats = record m.stats { close_stall = m.stats.close_stall + 1 } })) {
        aborted = true;
      }
