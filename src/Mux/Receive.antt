-- ===== src/Mux/Receive.antt =====
-- The receive direction of `Stream`, src/chute/mux.py.
use chute.Prelude.{
  ℕ, ◌+◌, ◌-◌, List, [], ◌∷◌, Bool, Option, none, some, ltb, if◌then◌else◌, length, is_empty,
}
use chute.Prelude.Text.{Text, Bytes, codes}
use chute.Protocol.{pack_u32, window_update_frame}
use chute.Mux.Limits.{Limits, max_conn_buffered, max_conn_frames}
use chute.Mux.Stream.{
  Stream, lane_reset, Item, chunk, terminal, is_lane_open, end_recv, ack_stream, fed, taken,
}
use chute.Mux.State.{
  Mux, reset_stream, store, log_mux, reserve_buffer, release_buffer, spawn, send_frame,
}

-- The first four backstops of `_feed`, over the counters as they would be with the new chunk.
unfoldable pub breach : Limits → ℕ → ℕ → ℕ → ℕ → Option Text
breach limits stream_bytes stream_frames conn_bytes conn_frames =
    if ltb limits.stream_hard_max stream_bytes
    then some (codes "stream_bytes")
    else if ltb limits.max_queued_frames stream_frames
    then some (codes "stream_frames")
    else if ltb max_conn_buffered conn_bytes
    then some (codes "connection_bytes")
    else if ltb max_conn_frames conn_frames
    then some (codes "connection_frames")
    else none

-- A breach: the lane ends now, and a task finishes the reset.
unfoldable pub overflow : ℕ → ℕ → Stream → Mux → Mux
unfolding store log_mux spawn end_recv
overflow now o s m =
    spawn (reset_stream o)
      (store o (end_recv lane_reset s) (log_mux now (codes "stream_buffer_limit") (some s.id) m))

-- The chunk is queued and counted.
unfoldable pub enqueue : Bytes → ℕ → Stream → Mux → Mux
unfolding store
enqueue payload o s m =
    store o (fed payload s)
      (record m { buffered = m.buffered + length payload; frames = m.frames + 1 })

-- The fifth backstop asks the account's budget.
unfoldable pub reserve_and_enqueue : ℕ → Bool → Bytes → ℕ → Stream → Mux → Mux
reserve_and_enqueue now answer payload o s m =
    let (granted, asked) = reserve_buffer answer (length payload) m in
    if granted then enqueue payload o s asked else overflow now o s asked

-- `_feed`; `answer` is what the account's callback would say.
unfoldable pub feed : ℕ → Bool → Bytes → ℕ → Stream → Mux → Mux
feed now answer payload o s m =
    if is_lane_open s.recv
    then if is_empty payload
      then m
      else (elim (breach m.limits (s.recv_buffered + length payload) (s.recv_frames + 1)
          (m.buffered + length payload) (m.frames + 1)) [
            | some detail ↦ overflow now o s m
            | none ↦ reserve_and_enqueue now answer payload o s m
          ])
    else m

-- `read` once the queue holds an item: the lane's end is `none`. A chunk is taken off the
-- counters only while the stream lives.
unfoldable pub take_item : Item → List Item → ℕ → Stream → Mux → Mux × Option Bytes
unfolding store release_buffer
take_item terminal rest o s m = (store o (record s { incoming = rest }) m, none)
take_item (chunk c) rest o s m =
    if s.closed then (store o (record s { incoming = rest }) m, some c) else (
      release_buffer (length c) (
          store o (taken c rest s)
            (record m { buffered = m.buffered - length c; frames = m.frames - 1 })),
      some c,
    )

-- `read`, over the queue; the outer `none` is a reader that waits on an empty queue.
unfoldable pub read_queue : List Item → ℕ → Stream → Mux → Option (Mux × Option Bytes)
read_queue [] o s m = none
read_queue (item ∷ rest) o s m = some (take_item item rest o s m)

unfoldable pub read : ℕ → Stream → Mux → Option (Mux × Option Bytes)
unfolding read_queue
read o s m = read_queue s.incoming o s m

-- The mux after a `read`, also of one that waits.
abbrev pub settled : Mux → Option (Mux × Option Bytes) → Mux
settled m none = m
settled m (some (n, c)) = n

abbrev pub after_read : ℕ → Stream → Mux → Mux
after_read o s m = settled m (read o s m)

-- `ack`, to the await of the WINDOW_UPDATE frame, whose failure is suppressed.
unfoldable pub ack : ℕ → ℕ → Stream → Mux → Mux
unfolding store send_frame
ack n o s m =
    let (s', credit) = ack_stream m.limits.window_update_threshold n s in
    elim credit [
      | none ↦ store o s' m
      | some delta ↦ send_frame window_update_frame s.id (pack_u32 delta) (store o s' m)
    ]
