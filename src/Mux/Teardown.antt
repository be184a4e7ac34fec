-- ===== src/Mux/Teardown.antt =====
-- The teardown methods of `Stream`, src/chute/mux.py, which change the stream and its mux.
use chute.Prelude.{ℕ, ◌+◌, ◌-◌, Bool, true, false, [], if◌then◌else◌}
use chute.Protocol.{reset_frame}
use chute.Mux.Stream.{Stream, RecvState, lane_eof, lane_reset, end_recv}
use chute.Mux.State.{Mux, store, send_frame, release_buffer, remove}

-- The stream's own part of `_close_local`.
unfoldable pub closed_stream : RecvState → Stream → Stream
unfolding end_recv
closed_stream terminal s =
    end_recv terminal
      (record s { closed = true; waiter_set = true; recv_buffered = 0; recv_frames = 0 })

-- `_close_local` of the stream `s` at the place `o`.
unfoldable pub close_local : RecvState → ℕ → Stream → Mux → Mux
unfolding closed_stream store release_buffer remove
close_local terminal o s m =
    if s.closed
    then m
    else remove s.id (
        store o (closed_stream terminal s) (
          release_buffer s.recv_buffered (record m {
            buffered = m.buffered - s.recv_buffered;
            frames = m.frames - s.recv_frames;
          })))

-- `_abort` and `close`
unfoldable pub abort : ℕ → Stream → Mux → Mux
abort o s m = close_local lane_reset o s m

unfoldable pub close : ℕ → Stream → Mux → Mux
close o s m = close_local lane_eof o s m

-- `_reset_local_now`: the mux, and whether this call closed the stream.
unfoldable pub reset_local_now : ℕ → Stream → Mux → Mux × Bool
reset_local_now o s m =
    let torn = close_local lane_reset o s m in
    if s.closed then (torn, false) else (
      record torn { stats = record torn.stats { reset_local = torn.stats.reset_local + 1 } },
      true,
    )

-- `reset`, to the await of the RESET frame, whose failure is suppressed.
unfoldable pub reset : ℕ → Stream → Mux → Mux
unfolding send_frame
reset o s m =
    let (torn, first) = reset_local_now o s m in
    if first then send_frame reset_frame s.id [] torn else torn
