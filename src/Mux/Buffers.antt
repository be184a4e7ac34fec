-- ===== src/Mux/Buffers.antt =====
-- The buffer accounting of src/chute/mux.py: what `_recv_buffered`, `_recv_frames`, `_buffered`
-- and `_frames` count, and their bounds, as an invariant of a `Mux`.
pub mod Tools
pub mod Streams
pub mod Teardown
pub mod Receive
pub mod Transmit
pub mod Dispatch
pub mod Run
use chute.Prelude.{ℕ, ◌+◌, ◌≤◌, ◌≡◌, List, [], ◌∷◌, Bool, true, false, length, if◌then◌else◌, All}
use chute.Prelude.Sums.{sum_of}
use chute.Mux.Limits.{Limits, max_conn_buffered, max_conn_frames}
use chute.Mux.Stream.{Stream, Item, chunk, terminal, is_lane_open}
use chute.Mux.State.{Mux}

abbrev pub queued_bytes : List Item → ℕ
queued_bytes [] = 0
queued_bytes (chunk c ∷ q) = length c + queued_bytes q
queued_bytes (terminal ∷ q) = queued_bytes q

abbrev pub queued_chunks : List Item → ℕ
queued_chunks [] = 0
queued_chunks (chunk c ∷ q) = 1 + queued_chunks q
queued_chunks (terminal ∷ q) = queued_chunks q

-- A live stream counts the bytes and the chunks that its queue holds; a closed one counts nothing.
-- Neither count passes its cap, and the lane of a closed stream has ended.
pub record StreamIsCounted (limits : Limits) (s : Stream) : Type 0 where
  pub bytes : s.recv_buffered ≡ (if s.closed then 0 else queued_bytes s.incoming)
  pub chunks : s.recv_frames ≡ (if s.closed then 0 else queued_chunks s.incoming)
  pub bytes_cap : s.recv_buffered ≤ limits.stream_hard_max
  pub chunks_cap : s.recv_frames ≤ limits.max_queued_frames
  pub ended : s.closed ≡ true → is_lane_open s.recv ≡ false

abbrev pub bytes_of : List Stream → ℕ
bytes_of = sum_of (λ s. s.recv_buffered)

abbrev pub chunks_of : List Stream → ℕ
chunks_of = sum_of (λ s. s.recv_frames)

-- The part of the state that the accounting is about.
pub record Core : Type 0 where
  pub limits : Limits
  pub objects : List Stream
  pub buffered : ℕ
  pub frames : ℕ

abbrev pub core : Mux → Core
core m = record { limits = m.limits; objects = m.objects; buffered = m.buffered; frames = m.frames }

-- The connection's counters are the sums over all streams ever made, within their caps.
pub record CoreIsCounted (c : Core) : Type 0 where
  pub each : All (StreamIsCounted c.limits) c.objects
  pub bytes_sum : c.buffered ≡ bytes_of c.objects
  pub chunks_sum : c.frames ≡ chunks_of c.objects
  pub bytes_within : c.buffered ≤ max_conn_buffered
  pub chunks_within : c.frames ≤ max_conn_frames

abbrev pub IsCounted : Mux → Type 0
IsCounted m = CoreIsCounted (core m)
