-- ===== src/Mux/Flow/Compliance.antt =====
-- What the conservation of credit means for src/chute/mux.py: the backstops of a stream, and a
-- sender without credit.
use chute.Prelude.{ℕ, ◌≡◌, Option, List, ◌∷◌, [], ◌+◌, ◌<◌, length, ◌≤◌, arith, subst, ap}
use chute.Mux.Limits.{WindowValue, Limits, limits_of, valid}
use chute.Mux.Flow.{Link, Reach, new_link}
use chute.Prelude.Text.{Bytes}
use chute.Mux.Flow.Conserved.{
  total_credit, limits_of-IsSound, Reach-IsConserved, new_link-IsConserved, chunks-le-bytes,
}
use chute.Mux.Flow.Sending.{AreFull, total}
use chute.Mux.Buffers.{queued_bytes}

-- In every state that the two ends of a stream can reach, over a connection whose window was
-- accepted, the DATA payload that arrives next keeps the receiver's unread bytes within the window
-- and passes both backstops of its stream, by bytes and by frames.
pub Reach-passes_backstops :
    (v : Option WindowValue) (limits : Limits) (sid : ℕ) (k : Link) (payload : Bytes)
    (rest : List Bytes)
    → limits_of v ≡ valid limits
    → Reach (new_link limits sid) k
    → k.wire ≡ payload ∷ rest
    → (k.receiver.recv_buffered + length payload ≤ limits.flow_window)
      × (k.receiver.recv_buffered + length payload ≤ limits.stream_hard_max)
      × (k.receiver.recv_frames + 1 ≤ limits.max_queued_frames)
Reach-passes_backstops v limits sid k payload rest e r w =
    let sound = limits_of-IsSound v limits e in
    let c = Reach-IsConserved sound (new_link-IsConserved limits sid sound) r in
    let full : AreFull (payload ∷ rest) = subst AreFull w c.0.wire_full in
    let window : k.limits.flow_window ≡ limits.flow_window =
      ap (λ (x : Limits). x.flow_window) c.1 in
    let few = chunks-le-bytes k.receiver.incoming c.0.queue_full in
    (
      omega (arith, c.0.credit, ap total w, window),
      omega (arith, c.0.credit, ap total w, window, sound.bytes_room),
      omega (
        arith,
        c.0.credit,
        ap total w,
        window,
        sound.frames_room,
        c.0.queued,
        c.0.queued_frames,
        few,
        full.0,
      ),
    )

-- In every reachable state of a stream over a connection whose window was accepted, if the sender
-- has no credit and all it sent has arrived, was read and was flushed, then a positive credit is
-- under way to it.
pub Reach-credit_returns :
    (v : Option WindowValue) (limits : Limits) (sid : ℕ) (k : Link)
    → limits_of v ≡ valid limits
    → Reach (new_link limits sid) k
    → k.sender.send_window ≡ 0
    → k.wire ≡ []
    → k.receiver.incoming ≡ []
    → k.unflushed ≡ 0
    → 0 < total_credit k.credits
Reach-credit_returns v limits sid k e r none_left arrived read flushed =
    let sound = limits_of-IsSound v limits e in
    let c = Reach-IsConserved sound (new_link-IsConserved limits sid sound) r in
    let same = c.1 in
    omega (
      arith,
      c.0.credit,
      c.0.batch,
      c.0.queued,
      ap total arrived,
      ap queued_bytes read,
      ap (λ (x : Limits). x.flow_window) c.1,
      ap (λ (x : Limits). x.window_update_threshold) c.1,
      sound.threshold_fits,
    )
