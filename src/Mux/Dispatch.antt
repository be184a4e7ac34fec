-- ===== src/Mux/Dispatch.antt =====
-- The frame loop of `Mux.run`, src/chute/mux.py: one message, from its arrival to the `continue`,
-- the `break` or the end of the loop's body.
use chute.Prelude.{
  ℕ, ◌+◌, [], ◌∷◌, Bool, true, not, ◌||◌, Option, none, some, ltb, leb, ◌==◌, if◌then◌else◌, length,
  is_empty, any,
}
use chute.Prelude.Text.{Text, Bytes, codes}
use chute.Prelude.Dict.{get, has, nat_eq}
use chute.Protocol.{
  Frame, decode, unpack_u32, open_frame, data_frame, eof_frame, reset_frame, window_update_frame,
  goaway_frame,
}
use chute.Mux.Limits.{max_ignored_frames}
use chute.Mux.Stream.{Stream, feed_eof, grant}
use chute.Mux.State.{Mux, send_once, run_on_open, stream_at, store, log_mux, spawn}
use chute.Mux.Teardown.{abort, reset_local_now}
use chute.Mux.Receive.{feed}
use chute.Mux.Lifecycle.{add_stream}

-- What a WebSocket message is: text, or bytes.
pub data Message : Type 0 where
  text : Message
  binary : Bytes → Message

-- The mux after a message, and whether the loop goes on.
pub data Turn : Type 0 where
  go_on stop : Mux → Turn

abbrev pub mux_after : Turn → Mux
mux_after (go_on m) = m
mux_after (stop m) = m

-- `_ignore_frame`, and the `break` that every call site makes of its answer.
unfoldable pub ignore_frame : ℕ → Text → Option ℕ → Mux → Turn
unfolding log_mux
ignore_frame now reason sid m =
    let n = m.stats.ignored_frames + 1 in
    let counted = record m { stats = record m.stats { ignored_frames = n } } in
    if ltb n max_ignored_frames
    then go_on counted
    else stop
        (record (log_mux now (codes "ignored_frame_limit") sid (record counted {
          stats = record counted.stats {
            ignored_frame_limit = counted.stats.ignored_frame_limit + 1;
          };
        })) { aborted = true })

-- `_send_reset`
unfoldable pub send_reset : ℕ → Mux → Mux
unfolding spawn
send_reset sid m =
    if sid == 0 || any (λ r. r == sid) m.reset_sends
    then m
    else if leb m.max_streams (length m.reset_sends)
    then m
    else spawn (send_once sid) (record m { reset_sends = sid ∷ m.reset_sends })

-- The stream that `_streams` has under an id.
unfoldable pub live : ℕ → Mux → Option (ℕ × Stream)
unfolding stream_at
live sid m = elim (get sid m.streams) [
  | none ↦ none
  | some o ↦ elim (stream_at o m) [ none ↦ none | some s ↦ some (o, s) ]
]

-- The last part of the OPEN branch: the stream is accepted and its handler starts.
unfoldable pub accept : ℕ → Mux → Mux
accept sid m =
    let o = length m.objects in
    let added = add_stream sid m in
    spawn (run_on_open o)
      (record added { stats = record added.stats { opened = added.stats.opened + 1 } })

unfoldable pub handle_open : ℕ → ℕ → Bytes → Mux → Turn
handle_open now sid payload m =
    if sid == 0
    then ignore_frame now (codes "open_sid_zero") (some sid) m
    else if not (is_empty payload)
    then if m.has_on_open
      then go_on (send_reset sid m)
      else ignore_frame now (codes "open_payload") (some sid) m
    else if not m.has_on_open
    then ignore_frame now (codes "open_not_accepted") (some sid) m
    else if m.going_away || m.peer_going_away
    then go_on (send_reset sid (log_mux now (codes "open_after_goaway") (some sid) m))
    else if has sid m.streams
    then go_on (send_reset sid (log_mux now (codes "duplicate_open") (some sid) m))
    else if leb m.max_streams (length m.streams)
    then go_on (send_reset sid (log_mux now (codes "stream_limit") (some sid) m))
    else go_on (accept sid m)

unfoldable pub handle_data : ℕ → Bool → ℕ → Bytes → Mux → Turn
handle_data now answer sid payload m =
    if sid == 0 then ignore_frame now (codes "data_sid_zero") (some sid) m else elim (live sid m) [
      | none ↦ ignore_frame now (codes "data_unknown") (some sid) m
      | some (o, s) ↦ go_on (feed now answer payload o s m)
    ]

-- A local reset of a live stream, and its RESET frame if this call closed the stream.
abbrev pub reset_and_tell : (Mux → Mux) → ℕ → Mux × Bool → Mux
reset_and_tell note sid (m, first) = if first then send_reset sid (note m) else m

unfoldable pub handle_eof : ℕ → ℕ → Bytes → Mux → Turn
handle_eof now sid payload m =
    if sid == 0 then ignore_frame now (codes "eof_sid_zero") (some sid) m else elim (live sid m) [
      | none ↦ ignore_frame now (codes "eof_unknown") (some sid) m
      | some (o, s) ↦
          if is_empty payload
          then go_on (store o (feed_eof s) m)
          else go_on (reset_and_tell (λ n. n) sid (reset_local_now o s m))
    ]

-- A WINDOW_UPDATE for a live stream: four bytes of credit, of which 0 is ignored.
unfoldable pub update_window : ℕ → ℕ → Bytes → ℕ → Stream → Mux → Turn
update_window now sid (a ∷ b ∷ c ∷ d ∷ []) o s m =
    let delta = unpack_u32 a b c d in
    if delta == 0
    then ignore_frame now (codes "window_update_zero") (some sid) m
    else go_on (store o (grant delta s) m)
update_window now sid _ o s m = go_on (
    reset_and_tell (log_mux now (codes "bad_window_update") (some sid)) sid (reset_local_now o s m))

unfoldable pub handle_window_update : ℕ → ℕ → Bytes → Mux → Turn
handle_window_update now sid payload m =
    if sid == 0
    then ignore_frame now (codes "window_update_sid_zero") (some sid) m
    else elim (live sid m) [
      | none ↦ ignore_frame now (codes "window_update_unknown") (some sid) m
      | some (o, s) ↦ update_window now sid payload o s m
    ]

unfoldable pub handle_reset : ℕ → ℕ → Mux → Turn
handle_reset now sid m =
    if sid == 0 then ignore_frame now (codes "reset_sid_zero") (some sid) m else elim (live sid m) [
      | none ↦ ignore_frame now (codes "reset_unknown") (some sid) m
      | some (o, s) ↦
          go_on (
            abort o s (record m { stats = record m.stats { reset_peer = m.stats.reset_peer + 1 } }))
    ]

-- A call of the owner's callback `on_goaway`, where there is one, is counted.
unfoldable pub handle_goaway : ℕ → ℕ → Bytes → Mux → Turn
handle_goaway now sid payload m =
    if not (sid == 0) || not (is_empty payload)
    then ignore_frame now (codes "bad_goaway") (some sid) m
    else if m.peer_going_away
    then ignore_frame now (codes "duplicate_goaway") (some sid) m
    else go_on (record m {
      peer_going_away = true;
      stats = record m.stats { goaway_in = m.stats.goaway_in + 1 };
      goaway_calls = if m.has_on_goaway then m.goaway_calls + 1 else m.goaway_calls;
    })

unfoldable pub handle_frame : ℕ → Bool → Frame → Mux → Turn
handle_frame now answer f m =
    if f.frame_type == open_frame
    then handle_open now f.stream_id f.payload m
    else if f.frame_type == data_frame
    then handle_data now answer f.stream_id f.payload m
    else if f.frame_type == eof_frame
    then handle_eof now f.stream_id f.payload m
    else if f.frame_type == window_update_frame
    then handle_window_update now f.stream_id f.payload m
    else if f.frame_type == reset_frame
    then handle_reset now f.stream_id m
    else if f.frame_type == goaway_frame
    then handle_goaway now f.stream_id f.payload m
    else ignore_frame now (codes "unknown_type") (some f.stream_id) m

unfoldable pub handle_message : ℕ → Bool → Message → Mux → Turn
handle_message now answer text m = ignore_frame now (codes "non_binary") none m
handle_message now answer (binary message) m = elim (decode message) [
  | none ↦ ignore_frame now (codes "malformed") none m
  | some f ↦ handle_frame now answer f m
]
