-- ===== src/Mux/Buffers/Dispatch.antt =====
-- The buffer accounting of src/chute/mux.py under one message of the frame loop.
use chute.Prelude.{
  ◌+◌, ◌∷◌, none, ℕ, ◌≡◌, refl, Bool, some, arith, ◌++◌, Option, ◌∙◌, if_cases, ◌==◌, not, is_empty,
  ◌||◌, leb, length, [], Option-cases, inl, inr,
}
use chute.Mux.Buffers.{IsCounted, core, StreamIsCounted}
use chute.Mux.Dispatch.{
  Turn, ignore_frame, send_reset, accept, live, mux_after, handle_open, handle_data, go_on,
  reset_and_tell, handle_eof, update_window, handle_window_update, handle_reset, handle_goaway,
  handle_frame, handle_message, Message, binary, text,
}
use chute.Mux.State.{log_mux, Mux, spawn, stream_at}
use chute.Mux.Lifecycle.{add_stream}
use chute.Prelude.Text.{Text, Bytes, codes}
use chute.Mux.Stream.{Stream, new_stream}
use chute.Mux.Buffers.Tools.{CoreIsCounted-same}
use chute.Prelude.Sums.{All-append, sum_of-append}
use chute.Mux.Receive.{feed}
use chute.Mux.Buffers.Receive.{feed-IsCounted}
use chute.Prelude.Dict.{has, nat_eq}
use chute.Mux.Buffers.Streams.{new_stream-counted}
use chute.Mux.Teardown.{reset_local_now}
use chute.Mux.Buffers.Transmit.{feed_eof-IsCounted, grant-IsCounted}
use chute.Protocol.{
  unpack_u32, Frame, open_frame, data_frame, decode, eof_frame, window_update_frame, reset_frame,
  goaway_frame,
}
use chute.Mux.Buffers.Teardown.{abort-IsCounted, reset_local_now-IsCounted}

abbrev Keeps : Turn → Type 0
Keeps t = IsCounted (mux_after t)

core-ignore_frame :
    (now : ℕ) (reason : Text) (sid : Option ℕ) (m : Mux)
    → core (mux_after (ignore_frame now reason sid m)) ≡ core m
unfolding ignore_frame
core-ignore_frame now reason sid m = ground arith

core-log_mux :
    (now : ℕ) (reason : Text) (sid : Option ℕ) (m : Mux) → core (log_mux now reason sid m) ≡ core m
unfolding log_mux
core-log_mux now reason sid m = refl

core-send_reset : (sid : ℕ) (m : Mux) → core (send_reset sid m) ≡ core m
unfolding send_reset
core-send_reset sid m = ground arith

core-add_stream :
    (sid : ℕ) (m : Mux)
    → core (add_stream sid m) ≡ record {
      limits = m.limits;
      objects = m.objects ++ (new_stream m.limits sid ∷ []);
      buffered = m.buffered;
      frames = m.frames;
    }
unfolding add_stream
core-add_stream sid m = refl

core-accept : (sid : ℕ) (m : Mux) → core (accept sid m) ≡ core (add_stream sid m)
unfolding accept spawn
core-accept sid m = refl

pub live-at :
    (sid : ℕ) (m : Mux) (o : ℕ) (s : Stream) → live sid m ≡ some (o, s) → stream_at o m ≡ some s
unfolding live
live-at sid m o s e = ground arith

module _ (m : Mux) (h : IsCounted m) where
  ignored-IsCounted :
      (now : ℕ) (reason : Text) (sid : Option ℕ) → Keeps (ignore_frame now reason sid m)
  ignored-IsCounted now reason sid = CoreIsCounted-same (core-ignore_frame now reason sid m) h

  pub add_stream-IsCounted : (sid : ℕ) → IsCounted (add_stream sid m)
  unfolding new_stream
  add_stream-IsCounted sid = CoreIsCounted-same (core-add_stream sid m) (record {
    each =
        All-append (StreamIsCounted m.limits) m.objects (new_stream m.limits sid ∷ []) h.each
          (new_stream-counted m.limits sid, tt);
    bytes_sum = omega (
      arith,
      h.bytes_sum,
      sum_of-append (λ (s : Stream). s.recv_buffered) m.objects (new_stream m.limits sid ∷ []),
    );
    chunks_sum = omega (
      arith,
      h.chunks_sum,
      sum_of-append (λ (s : Stream). s.recv_frames) m.objects (new_stream m.limits sid ∷ []),
    );
    bytes_within = h.bytes_within;
    chunks_within = h.chunks_within;
  })

  told-IsCounted :
      (now : ℕ) (reason : Text) (sid : ℕ)
      → IsCounted (send_reset sid (log_mux now reason (some sid) m))
  told-IsCounted now reason sid =
      CoreIsCounted-same (core-send_reset sid _ ∙ core-log_mux now reason (some sid) m) h

  handle_open-IsCounted : (now sid : ℕ) (payload : Bytes) → Keeps (handle_open now sid payload m)
  unfolding handle_open
  handle_open-IsCounted now sid payload =
      if_cases Keeps (sid == 0) _ _ (λ zero_id. ignored-IsCounted now _ _)
        λ _.
          if_cases Keeps (not (is_empty payload)) _ _
            (λ _.
              if_cases Keeps m.has_on_open _ _ (λ _. CoreIsCounted-same (core-send_reset sid m) h)
                (λ _. ignored-IsCounted now _ _))
            λ _.
              if_cases Keeps (not m.has_on_open) _ _ (λ _. ignored-IsCounted now _ _)
                λ _.
                  if_cases Keeps (m.going_away || m.peer_going_away) _ _
                    (λ _. told-IsCounted now _ sid)
                    λ _.
                      if_cases Keeps (has sid m.streams) _ _ (λ _. told-IsCounted now _ sid)
                        λ _.
                          if_cases Keeps (leb m.max_streams (length m.streams)) _ _
                            (λ _. told-IsCounted now _ sid)
                            λ _. CoreIsCounted-same (core-accept sid m) (add_stream-IsCounted sid)

  -- The rule of the branches that look a stream up.
  found_cases :
      (sid : ℕ) (missing : Turn) (found : ℕ → Stream → Turn)
      → Keeps missing
      → ((o : ℕ) (s : Stream) → stream_at o m ≡ some s → Keeps (found o s))
      → Keeps (elim (live sid m) [ none ↦ missing | some (o, s) ↦ found o s ])
  found_cases sid missing found k f = elim (Option-cases (live sid m)) [
    | inl e ↦ rw e k
    | inr ((o, s), e) ↦ rw e (f o s (live-at sid m o s e))
  ]

  handle_data-IsCounted :
      (now : ℕ) (answer : Bool) (sid : ℕ) (payload : Bytes)
      → Keeps (handle_data now answer sid payload m)
  unfolding handle_data
  handle_data-IsCounted now answer sid payload =
      if_cases Keeps (sid == 0) _ _ (λ _. ignored-IsCounted now _ _)
        λ _.
          found_cases sid _ (λ o s. go_on (feed now answer payload o s m))
            (ignored-IsCounted now _ _) λ o s at. feed-IsCounted o s m h at now answer payload

  told_reset-IsCounted :
      (note : Mux → Mux) (sid o : ℕ) (s : Stream)
      → ((n : Mux) → core (note n) ≡ core n)
      → stream_at o m ≡ some s
      → IsCounted (reset_and_tell note sid (reset_local_now o s m))
  told_reset-IsCounted note sid o s same at =
      let torn = reset_local_now-IsCounted o s m h at in
      if_cases IsCounted (reset_local_now o s m).1 _ _
        (λ first. CoreIsCounted-same (core-send_reset sid _ ∙ same (reset_local_now o s m).0) torn)
        (λ again. torn)

  handle_eof-IsCounted : (now sid : ℕ) (payload : Bytes) → Keeps (handle_eof now sid payload m)
  unfolding handle_eof
  handle_eof-IsCounted now sid payload =
      if_cases Keeps (sid == 0) _ _ (λ _. ignored-IsCounted now _ _)
        λ _. found_cases sid _ _ (ignored-IsCounted now _ _) λ o s at.
          if_cases Keeps (is_empty payload) _ _ (λ _. feed_eof-IsCounted o s m h at)
            (λ _. told_reset-IsCounted (λ n. n) sid o s (λ n. refl) at)

  update_window-IsCounted :
      (now sid : ℕ) (payload : Bytes) (o : ℕ) (s : Stream)
      → stream_at o m ≡ some s
      → Keeps (update_window now sid payload o s m)
  unfolding update_window
  update_window-IsCounted now sid (a ∷ b ∷ c ∷ d ∷ []) o s at =
      if_cases Keeps (unpack_u32 a b c d == 0) _ _ (λ _. ignored-IsCounted now _ _)
        (λ _. grant-IsCounted o s m h at (unpack_u32 a b c d))
  update_window-IsCounted now sid _ o s at =
      told_reset-IsCounted (log_mux now (codes "bad_window_update") (some sid)) sid o s
        (core-log_mux now (codes "bad_window_update") (some sid)) at

  handle_window_update-IsCounted :
      (now sid : ℕ) (payload : Bytes) → Keeps (handle_window_update now sid payload m)
  unfolding handle_window_update
  handle_window_update-IsCounted now sid payload =
      if_cases Keeps (sid == 0) _ _ (λ _. ignored-IsCounted now _ _)
        λ _.
          found_cases sid _ _ (ignored-IsCounted now _ _)
            λ o s at. update_window-IsCounted now sid payload o s at

  handle_reset-IsCounted : (now sid : ℕ) → Keeps (handle_reset now sid m)
  unfolding handle_reset stream_at
  handle_reset-IsCounted now sid =
      if_cases Keeps (sid == 0) _ _ (λ _. ignored-IsCounted now _ _)
        λ _. found_cases sid _ _ (ignored-IsCounted now _ _) λ o s at.
          abort-IsCounted o s
            (record m { stats = record m.stats { reset_peer = m.stats.reset_peer + 1 } }) h at

  handle_goaway-IsCounted :
      (now sid : ℕ) (payload : Bytes) → Keeps (handle_goaway now sid payload m)
  unfolding handle_goaway
  handle_goaway-IsCounted now sid payload =
      if_cases Keeps (not (sid == 0) || not (is_empty payload)) _ _ (λ _. ignored-IsCounted now _ _)
        λ _. if_cases Keeps m.peer_going_away _ _ (λ _. ignored-IsCounted now _ _) (λ _. h)

  handle_frame-IsCounted :
      (now : ℕ) (answer : Bool) (f : Frame) → Keeps (handle_frame now answer f m)
  unfolding handle_frame
  handle_frame-IsCounted now answer f =
      let p = f.payload in
      let sid = f.stream_id in
      let t = f.frame_type in
      if_cases Keeps (t == open_frame) _ _ (λ _. handle_open-IsCounted now sid p)
        λ _.
          if_cases Keeps (t == data_frame) _ _ (λ _. handle_data-IsCounted now answer sid p)
            λ _.
              if_cases Keeps (t == eof_frame) _ _ (λ _. handle_eof-IsCounted now sid p)
                λ _.
                  if_cases Keeps (t == window_update_frame) _ _
                    (λ _. handle_window_update-IsCounted now sid p)
                    λ _.
                      if_cases Keeps (t == reset_frame) _ _ (λ _. handle_reset-IsCounted now sid)
                        λ _.
                          if_cases Keeps (t == goaway_frame) _ _
                            (λ _. handle_goaway-IsCounted now sid p)
                            (λ _. ignored-IsCounted now _ _)

  pub handle_message-IsCounted :
      (now : ℕ) (answer : Bool) (msg : Message) → Keeps (handle_message now answer msg m)
  unfolding handle_message
  handle_message-IsCounted now answer text = ignored-IsCounted now _ _
  handle_message-IsCounted now answer (binary bytes) = elim (Option-cases (decode bytes)) [
    | inl e ↦ rw (e, handle_message) (ignored-IsCounted now _ _)
    | inr (f, e) ↦ rw (e, handle_message) (handle_frame-IsCounted now answer f)
  ]
