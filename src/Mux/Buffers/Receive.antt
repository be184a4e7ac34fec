-- ===== src/Mux/Buffers/Receive.antt =====
-- The buffer accounting of src/chute/mux.py under `_feed`, `read` and `ack`.
use chute.Prelude.{
  ℕ, ◌+◌, ◌≤◌, ◌≡◌, refl, [], ◌∷◌, Bool, true, false, none, some, arith, length, is_empty,
  Bool-cases, Option-cases, inl, inr, ap, ◌∙◌, List, get_elem?, subst, ◌-◌, sym,
}
use chute.Prelude.Text.{Bytes}
use chute.Mux.Limits.{Limits, max_conn_buffered, max_conn_frames}
use chute.Mux.Stream.{
  Stream, lane_reset, chunk, is_lane_open, end_recv, Item, terminal, ack_stream, fed, taken,
}
use chute.Mux.State.{Mux, stream_at, reserve_buffer}
use chute.Mux.Receive.{
  breach, overflow, enqueue, reserve_and_enqueue, feed, take_item, read, ack, after_read, settled,
  read_queue,
}
use chute.Mux.Buffers.{StreamIsCounted, IsCounted, core, queued_bytes, queued_chunks}
use chute.Mux.Buffers.Tools.{
  replaced, CoreIsCounted-same, CoreIsCounted-replace, CoreIsCounted-touch, counted_at, counted_le,
}
use chute.Mux.Buffers.Streams.{
  queued_bytes-append, queued_chunks-append, end_recv-counted, ack_stream-counted,
}

-- No backstop fires exactly when the counters with the new chunk are all within their caps.
pub breach-none :
    (limits : Limits) (sb sf cb cf : ℕ)
    → breach limits sb sf cb cf ≡ none
    → (sb ≤ limits.stream_hard_max)
      × (sf ≤ limits.max_queued_frames)
      × (cb ≤ max_conn_buffered)
      × (cf ≤ max_conn_frames)
unfolding breach
breach-none limits sb sf cb cf h = ground arith

core-reserve_buffer : (a : Bool) (n : ℕ) (m : Mux) → core (reserve_buffer a n m).1 ≡ core m
unfolding reserve_buffer
core-reserve_buffer a n m = ground arith

end_recv_counts :
    (s : Stream)
    → ((end_recv lane_reset s).recv_buffered ≡ s.recv_buffered)
      × ((end_recv lane_reset s).recv_frames ≡ s.recv_frames)
unfolding end_recv
end_recv_counts s = ground arith

-- The ways out of `_feed`.
pub feed_cases {ℓ} :
    (P : Mux → Type ℓ) (now : ℕ) (answer : Bool) (payload : Bytes) (o : ℕ) (s : Stream) (m : Mux)
    → P m
    → P (overflow now o s m)
    → (is_lane_open s.recv ≡ true
        → is_empty payload ≡ false
        → breach m.limits
            (s.recv_buffered + length payload)
            (s.recv_frames + 1)
            (m.buffered + length payload)
            (m.frames + 1)
          ≡ none
        → P (reserve_and_enqueue now answer payload o s m))
    → P (feed now answer payload o s m)
unfolding feed
feed_cases P now answer payload o s m same over room = elim (Bool-cases (is_lane_open s.recv)) [
  | inr shut ↦ rw shut same
  | inl live ↦ rw live (elim (Bool-cases (is_empty payload)) [
    | inl void ↦ rw void same
    | inr full ↦
        rw full
          (elim (Option-cases (
            breach m.limits (s.recv_buffered + length payload) (s.recv_frames + 1)
              (m.buffered + length payload) (m.frames + 1))) [
                | inl fits ↦ rw fits (room live full fits)
                | inr (detail, e) ↦ rw e over
              ])
  ])
]

core-overflow :
    (now o : ℕ) (s : Stream) (m : Mux)
    → core (overflow now o s m) ≡ replaced (core m) o (end_recv lane_reset s) m.buffered m.frames
unfolding overflow
core-overflow now o s m = refl

fed-counted :
    {limits : Limits} (payload : Bytes) (s : Stream)
    → StreamIsCounted limits s
    → is_lane_open s.recv ≡ true
    → s.recv_buffered + length payload ≤ limits.stream_hard_max
    → s.recv_frames + 1 ≤ limits.max_queued_frames
    → StreamIsCounted limits (fed payload s)
fed-counted payload s h live bytes frames = ground (
  arith,
  h.ended,
  queued_bytes-append s.incoming (chunk payload ∷ []),
  queued_chunks-append s.incoming (chunk payload ∷ []),
)

module _ (o : ℕ) (s : Stream) (m : Mux) (h : IsCounted m) (at : stream_at o m ≡ some s) where
  overflow-IsCounted : (now : ℕ) → IsCounted (overflow now o s m)
  unfolding stream_at
  overflow-IsCounted now = CoreIsCounted-same (core-overflow now o s m) (
      CoreIsCounted-touch (core m) o s (end_recv lane_reset s) h at
        (end_recv-counted (counted_at (core m) o s h at) lane_reset refl) (end_recv_counts s).0
        (end_recv_counts s).1)

  enqueue-IsCounted :
      (payload : Bytes)
      → is_lane_open s.recv ≡ true
      → (s.recv_buffered + length payload ≤ m.limits.stream_hard_max)
        × (s.recv_frames + 1 ≤ m.limits.max_queued_frames)
        × (m.buffered + length payload ≤ max_conn_buffered)
        × (m.frames + 1 ≤ max_conn_frames)
      → IsCounted (enqueue payload o s m)
  unfolding stream_at enqueue
  enqueue-IsCounted payload live fits =
      CoreIsCounted-replace (core m) o s (fed payload s) _ _ h at
        (fed-counted payload s (counted_at (core m) o s h at) live fits.0 fits.1) (omega arith)
        (omega arith) fits.2 fits.3

stream_at-reserve_buffer :
    (a : Bool) (n o : ℕ) (m : Mux) → stream_at o (reserve_buffer a n m).1 ≡ stream_at o m
unfolding stream_at
stream_at-reserve_buffer a n o m = ap (λ c. get_elem? c.objects o) (core-reserve_buffer a n m)

reserve_and_enqueue-IsCounted :
    (now : ℕ) (answer : Bool) (payload : Bytes) (o : ℕ) (s : Stream) (m : Mux)
    → IsCounted m
    → stream_at o m ≡ some s
    → is_lane_open s.recv ≡ true
    → (s.recv_buffered + length payload ≤ m.limits.stream_hard_max)
      × (s.recv_frames + 1 ≤ m.limits.max_queued_frames)
      × (m.buffered + length payload ≤ max_conn_buffered)
      × (m.frames + 1 ≤ max_conn_frames)
    → IsCounted (reserve_and_enqueue now answer payload o s m)
unfolding reserve_and_enqueue
reserve_and_enqueue-IsCounted now answer payload o s m h at live fits =
    let asked = (reserve_buffer answer (length payload) m).1 in
    let e = core-reserve_buffer answer (length payload) m in
    let h' = CoreIsCounted-same {d = core asked} e h in
    let at' = stream_at-reserve_buffer answer (length payload) o m ∙ at in
    elim (Bool-cases (reserve_buffer answer (length payload) m).0) [
      | inl granted ↦ rw granted (
          enqueue-IsCounted o s asked h' at' payload live (
            subst
              (λ c.
                (s.recv_buffered + length payload ≤ c.limits.stream_hard_max)
                × (s.recv_frames + 1 ≤ c.limits.max_queued_frames)
                × (c.buffered + length payload ≤ max_conn_buffered)
                × (c.frames + 1 ≤ max_conn_frames))
              (sym e) fits))
      | inr refused ↦ rw refused (overflow-IsCounted o s asked h' at' now)
    ]

taken_closed-counted :
    {limits : Limits} (s : Stream) (rest : List Item)
    → StreamIsCounted limits s
    → s.closed ≡ true
    → StreamIsCounted limits (record s { incoming = rest })
taken_closed-counted s rest h e = ground (arith, h.ended)

taken_terminal-counted :
    {limits : Limits} (s : Stream) (rest : List Item)
    → StreamIsCounted limits s
    → s.incoming ≡ terminal ∷ rest
    → StreamIsCounted limits (record s { incoming = rest })
taken_terminal-counted s rest h e = ground (arith, h.ended, ap queued_bytes e, ap queued_chunks e)

-- Taking a chunk off the counters of a live stream is exact.
taken-counted :
    {limits : Limits} (c : Bytes) (rest : List Item) (s : Stream)
    → StreamIsCounted limits s
    → s.incoming ≡ chunk c ∷ rest
    → s.closed ≡ false
    → StreamIsCounted limits (taken c rest s) × (length c ≤ s.recv_buffered) × (1 ≤ s.recv_frames)
taken-counted c rest s h e live = ground (arith, h.ended, ap queued_bytes e, ap queued_chunks e)

core-take_terminal :
    (rest : List Item) (o : ℕ) (s : Stream) (m : Mux)
    → core (take_item terminal rest o s m).0
      ≡ replaced (core m) o (record s { incoming = rest }) m.buffered m.frames
unfolding take_item
core-take_terminal rest o s m = refl

core-take_closed :
    (c : Bytes) (rest : List Item) (o : ℕ) (s : Stream) (m : Mux)
    → s.closed ≡ true
    → core (take_item (chunk c) rest o s m).0
      ≡ replaced (core m) o (record s { incoming = rest }) m.buffered m.frames
unfolding take_item
core-take_closed c rest o s m e = ground arith

core-take_live :
    (c : Bytes) (rest : List Item) (o : ℕ) (s : Stream) (m : Mux)
    → s.closed ≡ false
    → core (take_item (chunk c) rest o s m).0
      ≡ replaced (core m) o (taken c rest s) (m.buffered - length c) (m.frames - 1)
unfolding take_item
core-take_live c rest o s m e = ground arith

ack_stream_counts :
    (t k : ℕ) (s : Stream)
    → ((ack_stream t k s).0.recv_buffered ≡ s.recv_buffered)
      × ((ack_stream t k s).0.recv_frames ≡ s.recv_frames)
unfolding ack_stream
ack_stream_counts t k s = ground arith

core-ack :
    (k o : ℕ) (s : Stream) (m : Mux)
    → core (ack k o s m)
      ≡ replaced (core m) o (ack_stream m.limits.window_update_threshold k s).0 m.buffered m.frames
unfolding ack
core-ack k o s m = ground arith

module _ (o : ℕ) (s : Stream) (m : Mux) (h : IsCounted m) (at : stream_at o m ≡ some s) where
  pub feed-IsCounted :
      (now : ℕ) (answer : Bool) (payload : Bytes) → IsCounted (feed now answer payload o s m)
  feed-IsCounted now answer payload =
      feed_cases IsCounted now answer payload o s m h (overflow-IsCounted o s m h at now)
        λ live full fits.
          reserve_and_enqueue-IsCounted now answer payload o s m h at live
            (breach-none m.limits _ _ _ _ fits)

  pub take_item-IsCounted :
      (item : Item) (rest : List Item)
      → s.incoming ≡ item ∷ rest
      → IsCounted (take_item item rest o s m).0
  unfolding stream_at
  take_item-IsCounted terminal rest e = CoreIsCounted-same (core-take_terminal rest o s m) (
      CoreIsCounted-touch (core m) o s _ h at
        (taken_terminal-counted s rest (counted_at (core m) o s h at) e) refl refl)
  take_item-IsCounted (chunk c) rest e = elim (Bool-cases s.closed) [
    | inl shut ↦ CoreIsCounted-same (core-take_closed c rest o s m shut) (
        CoreIsCounted-touch (core m) o s _ h at
          (taken_closed-counted s rest (counted_at (core m) o s h at) shut) refl refl)
    | inr live ↦
        let fit = taken-counted c rest s (counted_at (core m) o s h at) e live in
        let le = counted_le (core m) o s h at in
        CoreIsCounted-same (core-take_live c rest o s m live) (
          CoreIsCounted-replace (core m) o s (taken c rest s) _ _ h at fit.0 (omega arith)
            (omega arith) (omega (arith, h.bytes_within)) (omega (arith, h.chunks_within)))
  ]

  pub read-IsCounted : IsCounted (after_read o s m)
  unfolding read
  read-IsCounted = from_queue s.incoming refl
    where
      from_queue : (q : List Item) → s.incoming ≡ q → IsCounted (settled m (read_queue q o s m))
      from_queue [] e = h
      from_queue (item ∷ rest) e = take_item-IsCounted item rest e

  pub ack-IsCounted : (k : ℕ) → IsCounted (ack k o s m)
  unfolding stream_at
  ack-IsCounted k = CoreIsCounted-same (core-ack k o s m) (
      CoreIsCounted-touch (core m) o s _ h at
        (ack_stream-counted (counted_at (core m) o s h at) _ k) (ack_stream_counts _ k s).0
        (ack_stream_counts _ k s).1)
