-- ===== src/Mux/Buffers/Teardown.antt =====
-- The buffer accounting of src/chute/mux.py under the teardown methods.
use chute.Prelude.{ℕ, ◌-◌, ◌≡◌, refl, true, false, some, arith, Bool-cases, inl, inr}
use chute.Mux.Stream.{Stream, RecvState, lane_eof, lane_reset, is_lane_open}
use chute.Mux.State.{Mux, stream_at}
use chute.Mux.Teardown.{closed_stream, close_local, abort, close, reset_local_now, reset}
use chute.Mux.Buffers.{IsCounted, core}
use chute.Mux.Buffers.Tools.{
  replaced, CoreIsCounted-same, CoreIsCounted-replace, counted_at, counted_le,
}
use chute.Mux.Buffers.Streams.{closed_stream-counted}

core-close_local_closed :
    (t : RecvState) (o : ℕ) (s : Stream) (m : Mux)
    → s.closed ≡ true
    → core (close_local t o s m) ≡ core m
unfolding close_local
core-close_local_closed t o s m e = ground arith

core-close_local_live :
    (t : RecvState) (o : ℕ) (s : Stream) (m : Mux)
    → s.closed ≡ false
    → core (close_local t o s m)
      ≡ replaced
          (core m)
          o
          (closed_stream t s)
          (m.buffered - s.recv_buffered)
          (m.frames - s.recv_frames)
unfolding close_local
core-close_local_live t o s m e = ground arith

closed_stream_counts :
    (t : RecvState) (s : Stream)
    → ((closed_stream t s).recv_buffered ≡ 0) × ((closed_stream t s).recv_frames ≡ 0)
unfolding closed_stream
closed_stream_counts t s = ground arith

core-reset_local_now :
    (o : ℕ) (s : Stream) (m : Mux)
    → core (reset_local_now o s m).0 ≡ core (close_local lane_reset o s m)
unfolding reset_local_now
core-reset_local_now o s m = ground arith

core-reset : (o : ℕ) (s : Stream) (m : Mux) → core (reset o s m) ≡ core (reset_local_now o s m).0
unfolding reset
core-reset o s m = ground arith

module _ (o : ℕ) (s : Stream) (m : Mux) (h : IsCounted m) (at : stream_at o m ≡ some s) where
  pub close_local-IsCounted :
      (t : RecvState) → is_lane_open t ≡ false → IsCounted (close_local t o s m)
  unfolding stream_at
  close_local-IsCounted t ends = elim (Bool-cases s.closed) [
    | inl e ↦ CoreIsCounted-same (core-close_local_closed t o s m e) h
    | inr e ↦
        let le = counted_le (core m) o s h at in
        CoreIsCounted-same (core-close_local_live t o s m e) (
          CoreIsCounted-replace (core m) o s (closed_stream t s) _ _ h at
            (closed_stream-counted (counted_at (core m) o s h at) t ends)
            (omega (arith, closed_stream_counts t s)) (omega (arith, closed_stream_counts t s))
            (omega (arith, h.bytes_within)) (omega (arith, h.chunks_within)))
  ]

  pub abort-IsCounted : IsCounted (abort o s m)
  unfolding abort
  abort-IsCounted = close_local-IsCounted lane_reset refl

  pub close-IsCounted : IsCounted (close o s m)
  unfolding close
  close-IsCounted = close_local-IsCounted lane_eof refl

  pub reset_local_now-IsCounted : IsCounted (reset_local_now o s m).0
  reset_local_now-IsCounted =
      CoreIsCounted-same (core-reset_local_now o s m) (close_local-IsCounted lane_reset refl)

  pub reset-IsCounted : IsCounted (reset o s m)
  reset-IsCounted = CoreIsCounted-same (core-reset o s m) reset_local_now-IsCounted
