-- ===== src/Mux/Buffers/Streams.antt =====
-- The buffer accounting of src/chute/mux.py under the changes of one stream.
use chute.Prelude.{ℕ, ◌+◌, ◌≡◌, List, [], ◌∷◌, ◌++◌, false, arith}
use chute.Prelude.Text.{Bytes}
use chute.Mux.Limits.{Limits}
use chute.Mux.Stream.{
  Stream, RecvState, Item, chunk, terminal, is_lane_open, new_stream, end_recv, grant, send_run,
  ack_stream,
}
use chute.Mux.Teardown.{closed_stream}
use chute.Mux.Buffers.{queued_bytes, queued_chunks, StreamIsCounted}

pub queued_bytes-append :
    (q r : List Item) → queued_bytes (q ++ r) ≡ queued_bytes q + queued_bytes r
queued_bytes-append [] r = omega arith
queued_bytes-append (chunk c ∷ q) r = omega (arith, queued_bytes-append q r)
queued_bytes-append (terminal ∷ q) r = queued_bytes-append q r

pub queued_chunks-append :
    (q r : List Item) → queued_chunks (q ++ r) ≡ queued_chunks q + queued_chunks r
queued_chunks-append [] r = omega arith
queued_chunks-append (chunk c ∷ q) r = omega (arith, queued_chunks-append q r)
queued_chunks-append (terminal ∷ q) r = queued_chunks-append q r

pub new_stream-counted :
    (limits : Limits) (sid : ℕ) → StreamIsCounted limits (new_stream limits sid)
unfolding new_stream
new_stream-counted limits sid = ground arith

module _ {limits : Limits} {s : Stream} (h : StreamIsCounted limits s) where
  pub end_recv-counted :
      (t : RecvState) → is_lane_open t ≡ false → StreamIsCounted limits (end_recv t s)
  unfolding end_recv
  end_recv-counted t e = ground (
    arith,
    queued_bytes-append s.incoming (terminal ∷ []),
    queued_chunks-append s.incoming (terminal ∷ []),
  )

  pub closed_stream-counted :
      (t : RecvState) → is_lane_open t ≡ false → StreamIsCounted limits (closed_stream t s)
  unfolding closed_stream
  closed_stream-counted t e = ground arith

  pub grant-counted : (delta : ℕ) → StreamIsCounted limits (grant delta s)
  unfolding grant
  grant-counted delta = ground arith

  pub send_run-counted : (view : Bytes) → StreamIsCounted limits (send_run view s).0
  unfolding send_run
  send_run-counted view = ground arith

  pub ack_stream-counted : (t n : ℕ) → StreamIsCounted limits (ack_stream t n s).0
  unfolding ack_stream
  ack_stream-counted t n = ground arith
