-- ===== src/Mux/Buffers/Tools.antt =====
-- How the buffer accounting of src/chute/mux.py survives a change of the state.
use chute.Prelude.{ℕ, ◌+◌, ◌≤◌, ◌≡◌, sym, subst, some, arith, set, get_elem?}
use chute.Prelude.Sums.{sum_of-set, le-sum_of, All-set, All-get}
use chute.Mux.Limits.{max_conn_buffered, max_conn_frames}
use chute.Mux.Stream.{Stream}
use chute.Mux.Buffers.{StreamIsCounted, Core, CoreIsCounted}

-- A step that leaves the counted part alone keeps the accounting.
pub CoreIsCounted-same : {c d : Core} → d ≡ c → CoreIsCounted c → CoreIsCounted d
CoreIsCounted-same e h = subst CoreIsCounted (sym e) h

abbrev pub replaced : Core → ℕ → Stream → ℕ → ℕ → Core
replaced c o t b f = record {
  limits = c.limits;
  objects = set c.objects o t;
  buffered = b;
  frames = f;
}

-- A step keeps it that puts a well-counted stream in a place and moves the counters by the
-- difference.
pub CoreIsCounted-replace :
    (c : Core) (o : ℕ) (s t : Stream) (b f : ℕ)
    → CoreIsCounted c
    → get_elem? c.objects o ≡ some s
    → StreamIsCounted c.limits t
    → b + s.recv_buffered ≡ c.buffered + t.recv_buffered
    → f + s.recv_frames ≡ c.frames + t.recv_frames
    → b ≤ max_conn_buffered
    → f ≤ max_conn_frames
    → CoreIsCounted (replaced c o t b f)
CoreIsCounted-replace c o s t b f h at ok eb ef bc fc = record {
  each = All-set (StreamIsCounted c.limits) c.objects o h.each ok;
  bytes_sum =
      omega (arith, h.bytes_sum, sum_of-set (λ (s : Stream). s.recv_buffered) c.objects o s t at);
  chunks_sum =
      omega (arith, h.chunks_sum, sum_of-set (λ (s : Stream). s.recv_frames) c.objects o s t at);
  bytes_within = bc;
  chunks_within = fc;
}

-- A change of a stream that its counters do not see.
pub CoreIsCounted-touch :
    (c : Core) (o : ℕ) (s t : Stream)
    → CoreIsCounted c
    → get_elem? c.objects o ≡ some s
    → StreamIsCounted c.limits t
    → t.recv_buffered ≡ s.recv_buffered
    → t.recv_frames ≡ s.recv_frames
    → CoreIsCounted (replaced c o t c.buffered c.frames)
CoreIsCounted-touch c o s t h at ok eb ef =
    CoreIsCounted-replace c o s t c.buffered c.frames h at ok (omega arith) (omega arith)
      h.bytes_within h.chunks_within

pub counted_at :
    (c : Core) (o : ℕ) (s : Stream)
    → CoreIsCounted c
    → get_elem? c.objects o ≡ some s
    → StreamIsCounted c.limits s
counted_at c o s h at = All-get (StreamIsCounted c.limits) c.objects o h.each at

-- A stream's counters are part of the connection's, so taking them off stays exact.
pub counted_le :
    (c : Core) (o : ℕ) (s : Stream)
    → CoreIsCounted c
    → get_elem? c.objects o ≡ some s
    → (s.recv_buffered ≤ c.buffered) × (s.recv_frames ≤ c.frames)
counted_le c o s h at = (
  omega (arith, h.bytes_sum, le-sum_of (λ (s : Stream). s.recv_buffered) c.objects o s at),
  omega (arith, h.chunks_sum, le-sum_of (λ (s : Stream). s.recv_frames) c.objects o s at),
)
