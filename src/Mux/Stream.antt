-- ===== src/Mux/Stream.antt =====
-- `Stream` of src/chute/mux.py, as far as it does not touch its `Mux`: the record and the parts of
-- its methods that read and write its own fields.
use chute.Prelude.{
  ℕ, ◌+◌, ◌-◌, min, List, [], ◌∷◌, ◌++◌, Bool, true, false, ◌||◌, Option, none, some, ltb, leb,
  if◌then◌else◌, length, is_empty, take, drop,
}
use chute.Prelude.Text.{Bytes}
use chute.Mux.Limits.{Limits, max_send_window, max_frame_payload}

-- `_RecvState`
pub data RecvState : Type 0 where
  lane_open lane_eof lane_reset : RecvState

-- What the queue holds: a chunk, or the `None` that ends the lane.
pub data Item : Type 0 where
  chunk : Bytes → Item
  terminal : Item

-- The coroutine inside `Stream.send` that holds `_send_lock`: the bytes it has still to send, and
-- where it waits, for credit or for the transport to take a frame.
pub data Sender : Type 0 where
  no_sender : Sender
  awaits_credit awaits_write : Bytes → Sender

pub record Stream : Type 0 where
  pub id : ℕ
  pub incoming : List Item
  pub recv : RecvState
  pub recv_buffered : ℕ
  pub recv_frames : ℕ
  pub unacked : ℕ
  pub send_window : ℕ
  pub send_ended : Bool
  pub sender : Sender
  -- `_window_waiter.is_set()`
  pub waiter_set : Bool
  pub closed : Bool

-- `Stream.__init__`
unfoldable pub new_stream : Limits → ℕ → Stream
new_stream limits sid = record {
  id = sid;
  incoming = [];
  recv = lane_open;
  recv_buffered = 0;
  recv_frames = 0;
  unacked = 0;
  send_window = limits.flow_window;
  send_ended = false;
  sender = no_sender;
  waiter_set = false;
  closed = false;
}

abbrev pub is_lane_open : RecvState → Bool
is_lane_open lane_open = true
is_lane_open lane_eof = false
is_lane_open lane_reset = false

abbrev pub is_lane_reset : RecvState → Bool
is_lane_reset lane_open = false
is_lane_reset lane_eof = false
is_lane_reset lane_reset = true

unfoldable pub reset_by_peer : Stream → Bool
reset_by_peer s = is_lane_reset s.recv

-- `_end_recv`
unfoldable pub end_recv : RecvState → Stream → Stream
end_recv state s =
    if is_lane_open s.recv
    then record s { recv = state; incoming = s.incoming ++ (terminal ∷ []) }
    else s

-- `_feed_eof`
unfoldable pub feed_eof : Stream → Stream
unfolding end_recv
feed_eof s = end_recv lane_eof s

-- The stream's part of an accepted `_feed`, and of a `read` while it lives.
abbrev pub fed : Bytes → Stream → Stream
fed payload s = record s {
  incoming = s.incoming ++ (chunk payload ∷ []);
  recv_buffered = s.recv_buffered + length payload;
  recv_frames = s.recv_frames + 1;
}

abbrev pub taken : Bytes → List Item → Stream → Stream
taken c rest s = record s {
  incoming = rest;
  recv_buffered = s.recv_buffered - length c;
  recv_frames = s.recv_frames - 1;
}

-- `_grant`
unfoldable pub grant : ℕ → Stream → Stream
grant delta s = record s {
  send_window = min (s.send_window + delta) max_send_window;
  waiter_set = true;
}

-- What a run of `Stream.send` between two awaits ends in: it returns, it raises `_StreamClosed`,
-- it waits for credit, or it has handed a DATA payload to the transport.
pub data SendResult : Type 0 where
  finished stream_closed parked : SendResult
  wrote : Bytes → SendResult

abbrev pub is_done : Stream → Bool
is_done s = s.closed || s.send_ended

abbrev pub release_lock : Stream → SendResult → Stream × SendResult
release_lock s r = (record s { sender = no_sender }, r)

-- n = min(len(view), self._send_window, _MAX_FRAME_PAYLOAD)
abbrev pub chunk_size : Bytes → ℕ → ℕ
chunk_size view window = min (length view) (min window max_frame_payload)

-- The lines below the inner loop, up to the await of the DATA frame.
unfoldable pub write_chunk : Bytes → Stream → Stream × SendResult
write_chunk view s =
    if is_done s
    then release_lock s stream_closed
    else let n = chunk_size view s.send_window in
      (
        record s { send_window = s.send_window - n; sender = awaits_write (drop n view) },
        wrote (take n view),
      )

-- The loop of `Stream.send` with the lock held, from `while len(view)` to the next await.
unfoldable pub send_run : Bytes → Stream → Stream × SendResult
unfolding write_chunk
send_run view s =
    if is_empty view
    then release_lock s finished
    else if ltb 0 s.send_window
    then write_chunk view s
    else if is_done s
    then release_lock s stream_closed
    else (record s { waiter_set = false; sender = awaits_credit view }, parked)

-- `Stream.send` once it has the lock.
unfoldable pub send_start : Bytes → Stream → Stream × SendResult
unfolding send_run
send_start view s = if is_done s then (s, stream_closed) else send_run view s

-- `Stream.ack`: the credit to return now, if the batch is full.
unfoldable pub ack_stream : ℕ → ℕ → Stream → Stream × Option ℕ
unfolding reset_by_peer
ack_stream threshold n s =
    if s.closed || reset_by_peer s || leb n 0
    then (s, none)
    else if leb threshold (s.unacked + n)
    then (record s { unacked = 0 }, some (s.unacked + n))
    else (record s { unacked = s.unacked + n }, none)
