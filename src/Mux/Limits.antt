-- ===== src/Mux/Limits.antt =====
-- The constants of src/chute/mux.py, and the limits that a connection derives from its window.
use chute.Prelude.{ℕ, ◌-◌, ◌*◌, ◌/◌, ◌^◌, max, Bool, Option, none, some, ltb, if◌then◌else◌}
use chute.Protocol.{prefix_size}

abbrev pub flow_window_default : ℕ
flow_window_default = 256 * 1024

abbrev pub max_flow_window : ℕ
max_flow_window = 16 * 1024 * 1024

abbrev pub max_frame_payload : ℕ
max_frame_payload = 256 * 1024 - prefix_size

abbrev pub max_send_window : ℕ
max_send_window = 2 ^ 31 - 1

abbrev pub window_update_threshold_default : ℕ
window_update_threshold_default = flow_window_default / 2

abbrev pub stream_hard_max_default : ℕ
stream_hard_max_default = 2 * flow_window_default

abbrev pub max_queued_frames_default : ℕ
max_queued_frames_default = flow_window_default

abbrev pub max_streams_default : ℕ
max_streams_default = 4096

abbrev pub max_conn_buffered : ℕ
max_conn_buffered = 64 * 1024 * 1024

abbrev pub max_conn_frames : ℕ
max_conn_frames = 1048576

abbrev pub max_stream_id : ℕ
max_stream_id = 0xFFFFFFFF

-- Seconds.
abbrev pub mux_log_interval : ℕ
mux_log_interval = 60

abbrev pub mux_log_max_keys : ℕ
mux_log_max_keys = 256

abbrev pub max_ignored_frames : ℕ
max_ignored_frames = 65536

-- What a peer or a caller may hand over as a window: a Python value.
pub data WindowValue : Type 0 where
  -- an `int` that is not below 0, one that is (-1 - n), a `bool`, any other type
  integer : ℕ → WindowValue
  negative : ℕ → WindowValue
  boolean : Bool → WindowValue
  other : WindowValue

-- The three `ValueError`s.
pub data WindowError : Type 0 where
  not_an_integer below_one too_large : WindowError

pub data Checked {ℓ} (A : Type ℓ) : Type ℓ where
  valid : A → Checked A
  invalid : WindowError → Checked A

unfoldable pub validate_flow_window : WindowValue → Checked ℕ
validate_flow_window (integer n) =
    if ltb n 1
    then invalid below_one
    else if ltb max_flow_window n
    then invalid too_large
    else valid n
validate_flow_window (negative n) = invalid below_one
validate_flow_window (boolean b) = invalid not_an_integer
validate_flow_window other = invalid not_an_integer

-- The four numbers that `Mux.__init__` derives from `flow_window`.
pub record Limits : Type 0 where
  pub flow_window : ℕ
  pub window_update_threshold : ℕ
  pub stream_hard_max : ℕ
  pub max_queued_frames : ℕ

abbrev pub limits_of_window : Checked ℕ → Checked Limits
limits_of_window (invalid e) = invalid e
limits_of_window (valid w) = valid (record {
  flow_window = w;
  window_update_threshold = max 1 (w / 2);
  stream_hard_max = 2 * w;
  max_queued_frames = w;
})

-- `none` is `flow_window=None`.
unfoldable pub limits_of : Option WindowValue → Checked Limits
unfolding validate_flow_window
limits_of none = valid (record {
  flow_window = flow_window_default;
  window_update_threshold = max 1 window_update_threshold_default;
  stream_hard_max = stream_hard_max_default;
  max_queued_frames = max_queued_frames_default;
})
limits_of (some v) = limits_of_window (validate_flow_window v)
