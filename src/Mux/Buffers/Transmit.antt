-- ===== src/Mux/Buffers/Transmit.antt =====
-- The buffer accounting of src/chute/mux.py under the send direction, which leaves it alone.
use chute.Prelude.{ℕ, ◌≡◌, refl, Bool, true, some, arith, Bool-cases, inl, inr, if_cases, none, []}
use chute.Mux.Buffers.{IsCounted, core, StreamIsCounted}
use chute.Mux.Stream.{
  send_run, send_start, Stream, SendResult, grant, Sender, wrote, is_done, awaits_write,
  awaits_credit, no_sender, feed_eof, lane_eof,
}
use chute.Mux.Transmit.{
  emit, finish_run, send, send_eof, is_unlocked, wake_at, stall_at, resume_at, fail_at, drop_at,
}
use chute.Prelude.Text.{Bytes}
use chute.Mux.Limits.{Limits}
use chute.Mux.State.{store, Mux, stream_at, write_stall, send_frame}
use chute.Mux.Buffers.Tools.{replaced, counted_at, CoreIsCounted-same, CoreIsCounted-touch}
use chute.Mux.Buffers.Streams.{send_run-counted, grant-counted, end_recv-counted}
use chute.Protocol.{eof_frame}

send_run_counts :
    (view : Bytes) (s : Stream)
    → ((send_run view s).0.recv_buffered ≡ s.recv_buffered)
      × ((send_run view s).0.recv_frames ≡ s.recv_frames)
unfolding send_run
send_run_counts view s = ground arith

send_start_counts :
    (view : Bytes) (s : Stream)
    → ((send_start view s).0.recv_buffered ≡ s.recv_buffered)
      × ((send_start view s).0.recv_frames ≡ s.recv_frames)
unfolding send_start
send_start_counts view s = ground arith

send_start-counted :
    {limits : Limits} (view : Bytes) (s : Stream)
    → StreamIsCounted limits s
    → StreamIsCounted limits (send_start view s).0
unfolding send_start
send_start-counted view s h = ground arith

feed_eof_counts :
    (s : Stream)
    → ((feed_eof s).recv_buffered ≡ s.recv_buffered) × ((feed_eof s).recv_frames ≡ s.recv_frames)
unfolding feed_eof
feed_eof_counts s = ground arith

feed_eof-counted :
    {limits : Limits} (s : Stream) → StreamIsCounted limits s → StreamIsCounted limits (feed_eof s)
unfolding feed_eof
feed_eof-counted s h = end_recv-counted h lane_eof refl

grant_counts :
    (delta : ℕ) (s : Stream)
    → ((grant delta s).recv_buffered ≡ s.recv_buffered)
      × ((grant delta s).recv_frames ≡ s.recv_frames)
unfolding grant
grant_counts delta s = (refl, refl)

-- Fields that the counts do not depend on.
abbrev with_sender : Sender → Bool → Stream → Stream
with_sender q ended s = record s { sender = q; send_ended = ended }

with_sender-counted :
    {limits : Limits} (q : Sender) (ended : Bool) (s : Stream)
    → StreamIsCounted limits s
    → StreamIsCounted limits (with_sender q ended s)
with_sender-counted q ended s h = ground (arith, h.ended)

pub core-write_stall : (now sid : ℕ) (m : Mux) → core (write_stall now sid m) ≡ core m
unfolding write_stall
core-write_stall now sid m = refl

core-finish_run :
    (o : ℕ) (m : Mux) (r : Stream × SendResult)
    → core (finish_run o m r).0 ≡ replaced (core m) o r.0 m.buffered m.frames
unfolding emit store
core-finish_run o m (s, SendResult.finished) = refl
core-finish_run o m (s, SendResult.stream_closed) = refl
core-finish_run o m (s, SendResult.parked) = refl
core-finish_run o m (s, wrote p) = refl

module _ (o : ℕ) (s : Stream) (m : Mux) (h : IsCounted m) (at : stream_at o m ≡ some s) where
  -- A stream with new fields that its counters do not see.
  touch-IsCounted :
      (t : Stream) (n : Mux)
      → core n ≡ replaced (core m) o t m.buffered m.frames
      → StreamIsCounted m.limits t
      → t.recv_buffered ≡ s.recv_buffered
      → t.recv_frames ≡ s.recv_frames
      → IsCounted n
  unfolding stream_at
  touch-IsCounted t n e ok b f =
      CoreIsCounted-same e (CoreIsCounted-touch (core m) o s t h at ok b f)

  counted : StreamIsCounted m.limits s
  unfolding stream_at
  counted = counted_at (core m) o s h at

  run-IsCounted : (view : Bytes) → IsCounted (finish_run o m (send_run view s)).0
  run-IsCounted view =
      touch-IsCounted (send_run view s).0 (finish_run o m (send_run view s)).0
        (core-finish_run o m (send_run view s)) (send_run-counted counted view)
        (send_run_counts view s).0 (send_run_counts view s).1

  pub send-IsCounted : (view : Bytes) → IsCounted (send view o s m).0
  unfolding send
  send-IsCounted view = elim (Bool-cases (is_unlocked s.sender)) [
    | inl free ↦ rw free (
        touch-IsCounted (send_start view s).0 (finish_run o m (send_start view s)).0
          (core-finish_run o m (send_start view s)) (send_start-counted view s counted)
          (send_start_counts view s).0 (send_start_counts view s).1)
    | inr held ↦ rw held h
  ]

  resender-IsCounted :
      (q : Sender) (ended : Bool) (n : Mux)
      → core n ≡ replaced (core m) o (with_sender q ended s) m.buffered m.frames
      → IsCounted n
  resender-IsCounted q ended n e =
      touch-IsCounted (with_sender q ended s) n e (with_sender-counted q ended s counted) refl refl

  pub send_eof-IsCounted : IsCounted (send_eof o s m)
  unfolding send_eof
  send_eof-IsCounted =
      if_cases IsCounted (is_unlocked s.sender) _ m
        (λ free.
          if_cases IsCounted (is_done s) m _ (λ done. h)
            (λ more.
              resender-IsCounted s.sender true
                (send_frame eof_frame s.id [] (store o (record s { send_ended = true }) m)) refl))
        (λ held. h)

  pub feed_eof-IsCounted : IsCounted (store o (feed_eof s) m)
  unfolding store
  feed_eof-IsCounted =
      touch-IsCounted (feed_eof s) (store o (feed_eof s) m) refl (feed_eof-counted s counted)
        (feed_eof_counts s).0 (feed_eof_counts s).1

  pub grant-IsCounted : (delta : ℕ) → IsCounted (store o (grant delta s) m)
  unfolding store
  grant-IsCounted delta =
      touch-IsCounted (grant delta s) (store o (grant delta s) m) refl (grant-counted counted delta)
        (grant_counts delta s).0 (grant_counts delta s).1

  pub wake_at-IsCounted : (q : Sender) → IsCounted (wake_at q o s m).0
  unfolding wake_at
  wake_at-IsCounted no_sender = h
  wake_at-IsCounted (awaits_write view) = h
  wake_at-IsCounted (awaits_credit view) =
      if_cases (λ r. IsCounted r.0) s.waiter_set (finish_run o m (send_run view s)) (m, none)
        (λ awake. run-IsCounted view) (λ asleep. h)

  pub stall_at-IsCounted : (q : Sender) → IsCounted (stall_at q o s m).0
  unfolding stall_at
  stall_at-IsCounted no_sender = h
  stall_at-IsCounted (awaits_write view) = h
  stall_at-IsCounted (awaits_credit view) =
      resender-IsCounted no_sender s.send_ended (stall_at (awaits_credit view) o s m).0 refl

  pub resume_at-IsCounted : (q : Sender) → IsCounted (resume_at q o s m).0
  unfolding resume_at
  resume_at-IsCounted no_sender = h
  resume_at-IsCounted (awaits_credit view) = h
  resume_at-IsCounted (awaits_write view) = run-IsCounted view

  pub drop_at-IsCounted : (q : Sender) → IsCounted (drop_at q o s m)
  unfolding drop_at
  drop_at-IsCounted no_sender = h
  drop_at-IsCounted (awaits_credit view) = h
  drop_at-IsCounted (awaits_write view) =
      resender-IsCounted no_sender s.send_ended (drop_at (awaits_write view) o s m) refl

  pub fail_at-IsCounted : (now : ℕ) (q : Sender) → IsCounted (fail_at q now o s m)
  unfolding fail_at
  fail_at-IsCounted now no_sender = h
  fail_at-IsCounted now (awaits_credit view) = h
  fail_at-IsCounted now (awaits_write view) =
      resender-IsCounted no_sender s.send_ended (fail_at (awaits_write view) now o s m)
        (core-write_stall now s.id (store o (record s { sender = no_sender }) m))
