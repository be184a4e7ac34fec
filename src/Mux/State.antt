-- ===== src/Mux/State.antt =====
-- `Mux` of src/chute/mux.py: its state. Streams are objects that coroutines keep after the mux has
-- forgotten them, so they live in a store, and `_streams` maps ids to places in the store. What
-- the code does to the outside is recorded: frames handed to the transport, calls of the two
-- buffer callbacks, spawned tasks.
use chute.Prelude.{
  ℕ, ◌+◌, List, ◌∷◌, Bool, true, ◌||◌, Option, some, leb, if◌then◌else◌, length, set, get_elem?,
  is_empty, none,
}
use chute.Prelude.Text.{Text, Bytes, codes}
use chute.Prelude.Dict.{pop, nat_eq}
use chute.Protocol.{Frame}
use chute.Mux.Limits.{Limits}
use chute.Mux.Log.{LogState, log_event}
use chute.Mux.Stream.{Stream}

-- `_stats`
pub record Stats : Type 0 where
  pub opened : ℕ
  pub reset_local : ℕ
  pub reset_peer : ℕ
  pub credit_stall : ℕ
  pub write_stall : ℕ
  pub close_stall : ℕ
  pub goaway_in : ℕ
  pub ignored_frames : ℕ
  pub ignored_frame_limit : ℕ

abbrev pub no_stats : Stats
no_stats = record {
  opened = 0;
  reset_local = 0;
  reset_peer = 0;
  credit_stall = 0;
  write_stall = 0;
  close_stall = 0;
  goaway_in = 0;
  ignored_frames = 0;
  ignored_frame_limit = 0;
}

-- The coroutines that `_spawn` starts: `stream.reset()`, `_send_once()` of `_send_reset`, and
-- `_run_on_open(stream)`. A stream is named by its place in the store.
pub data Task : Type 0 where
  reset_stream send_once run_on_open : ℕ → Task

-- A call of `buffer_reserve` with its answer, or of `buffer_release`.
pub data HookCall : Type 0 where
  reserved refused released : ℕ → HookCall

pub record Mux : Type 0 where
  pub limits : Limits
  -- whether the callbacks were given: `on_open` makes this side the responder
  pub has_on_open : Bool
  pub has_on_goaway : Bool
  pub has_reserve : Bool
  pub has_release : Bool
  pub max_streams : ℕ
  pub objects : List Stream
  -- `_streams`
  pub streams : List (ℕ × ℕ)
  pub next_id : ℕ
  pub tasks : List Task
  pub reset_sends : List ℕ
  pub log_state : LogState
  pub buffered : ℕ
  pub frames : ℕ
  pub going_away : Bool
  pub peer_going_away : Bool
  -- `_idle.is_set()`
  pub idle : Bool
  pub stats : Stats
  -- the frames handed to the transport and the callback calls, newest first
  pub sent : List Frame
  pub hook_calls : List HookCall
  -- calls of `on_goaway`, and whether `transport.abort()` was called
  pub goaway_calls : ℕ
  pub aborted : Bool

unfoldable pub stream_at : ℕ → Mux → Option Stream
stream_at o m = get_elem? m.objects o

-- What is done to a stream, where there is one.
abbrev pub on_stream : (Stream → Mux → Mux) → Mux → Option Stream → Mux
on_stream f m none = m
on_stream f m (some s) = f s m

unfoldable pub at_stream : ℕ → (Stream → Mux → Mux) → Mux → Mux
at_stream o f m = on_stream f m (stream_at o m)

unfoldable pub store : ℕ → Stream → Mux → Mux
store o s m = record m { objects = set m.objects o s }

-- The call of `ws.send` that `_send` makes.
unfoldable pub send_frame : ℕ → ℕ → Bytes → Mux → Mux
send_frame ftype sid payload m = record m {
  sent = record { frame_type = ftype; stream_id = sid; payload = payload } ∷ m.sent;
}

unfoldable pub log_mux : ℕ → Text → Option ℕ → Mux → Mux
log_mux now reason sid m = record m { log_state = (log_event now reason sid m.log_state).0 }

-- `_send` when the transport takes nothing for `_WRITE_STALL_TIMEOUT`: the caller then gets the
-- exception.
unfoldable pub write_stall : ℕ → ℕ → Mux → Mux
unfolding log_mux
write_stall now sid m =
    log_mux now (codes "write_stall") (some sid) (record m {
      stats = record m.stats { write_stall = m.stats.write_stall + 1 };
      aborted = true;
    })

-- `_reserve_buffer`, where `answer` is what the callback returns if it is asked.
unfoldable pub reserve_buffer : Bool → ℕ → Mux → Bool × Mux
reserve_buffer answer n m =
    if leb n 0
    then (true, m)
    else if m.has_reserve
    then (
      answer,
      record m { hook_calls = (if answer then reserved n else refused n) ∷ m.hook_calls },
    )
    else (true, m)

-- `_release_buffer`
unfoldable pub release_buffer : ℕ → Mux → Mux
release_buffer n m =
    if leb n 0
    then m
    else if m.has_release
    then record m { hook_calls = released n ∷ m.hook_calls }
    else m

-- `_remove`
unfoldable pub remove : ℕ → Mux → Mux
remove sid m =
    let left = pop sid m.streams in record m { streams = left; idle = m.idle || is_empty left }

unfoldable pub spawn : Task → Mux → Mux
spawn t m = record m { tasks = t ∷ m.tasks }

-- `active_streams`, `draining`
unfoldable pub active_streams : Mux → ℕ
active_streams m = length m.streams

unfoldable pub draining : Mux → Bool
draining m = m.going_away || m.peer_going_away
