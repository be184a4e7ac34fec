-- ===== src/Tests/Buffers.antt =====
-- The event loop of src/chute/mux.py on an agent's side: a stream is opened by the peer, gets two
-- chunks, the first is read, and the peer resets the stream.
use chute.Prelude.{ℕ, List, true, false, [], ◌∷◌}
use chute.Mux.Lifecycle.{Callbacks, new_mux}
use chute.Mux.Limits.{Limits}
use chute.Prelude.Text.{Bytes}
use chute.Mux.Buffers.{IsCounted}
use chute.Mux.Events.{reads, Event, run_events, message}
use chute.Protocol.{open_frame, data_frame, reset_frame}
use chute.Mux.Dispatch.{binary}
use chute.Mux.Buffers.Run.{run_events-new_mux-IsCounted}

abbrev agent : Callbacks
agent = record { on_open = true; on_goaway = true; buffer_reserve = false; buffer_release = false }

abbrev limits : Limits
limits = record {
  flow_window = 4;
  window_update_threshold = 2;
  stream_hard_max = 8;
  max_queued_frames = 4;
}

abbrev frame_in : ℕ → ℕ → Bytes → Event
frame_in ftype sid payload = message 0 true (binary (ftype ∷ 0 ∷ 0 ∷ 0 ∷ sid ∷ payload))

abbrev events : List Event
events =
    frame_in open_frame 1 []
    ∷ frame_in data_frame 1 (7 ∷ 8 ∷ [])
    ∷ frame_in data_frame 1 (9 ∷ [])
    ∷ reads 0
    ∷ frame_in reset_frame 1 []
    ∷ []

run_events-new_mux-IsCounted_example : IsCounted (run_events events (new_mux agent 4 limits))
run_events-new_mux-IsCounted_example = run_events-new_mux-IsCounted events agent 4 limits
