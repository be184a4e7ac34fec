-- ===== src/Mux/Flow/Conserved.antt =====
-- The credit of one direction of a stream, src/chute/mux.py, as an invariant: what the
-- sender may still send, what is under way, queued, read and not flushed, flushed and not yet
-- returned, and returned and under way add up to the window.
use chute.Prelude.{
  ℕ, ◌≡◌, refl, false, List, ◌≤◌, ◌+◌, length, ◌∷◌, ◌<◌, Option, arith, ◌++◌, [], subst, some, ap,
  none, ◌-◌, sym, ◌∙◌,
}
use chute.Mux.Limits.{
  Limits, limits_of, validate_flow_window, max_send_window, WindowValue, valid, integer, negative,
  boolean, other,
}
use chute.Mux.Flow.{
  Link, new_link, Move, Reach, starts, goes_on, next, delivers, reads, flushes, here,
  flushes_and_credits, grants, frames_of,
}
use chute.Mux.Stream.{
  new_stream, Item, Stream, chunk, lane_open, fed, terminal, ack_stream, taken, grant,
}
use chute.Prelude.Text.{Bytes}
use chute.Prelude.Sums.{sum_of, sum_of-append, All-append}
use chute.Mux.Buffers.{queued_chunks, queued_bytes}
use chute.Mux.Flow.Sending.{send_run_lem, send_start-run, total, AreFull}
use chute.Mux.Buffers.Streams.{queued_bytes-append, queued_chunks-append}

abbrev pub total_credit : List ℕ → ℕ
total_credit = sum_of (λ (d : ℕ). d)

abbrev pub ChunksAreFull : List Item → Type 0
ChunksAreFull [] = Unit
ChunksAreFull (chunk c ∷ q) = (0 < length c) × ChunksAreFull q
ChunksAreFull (terminal ∷ q) = ChunksAreFull q

-- The limits of a connection whose window was accepted.
pub record IsSound (limits : Limits) : Type 0 where
  pub window_fits : limits.flow_window ≤ max_send_window
  pub threshold_pos : 0 < limits.window_update_threshold
  pub threshold_fits : limits.window_update_threshold ≤ limits.flow_window
  pub bytes_room : limits.flow_window ≤ limits.stream_hard_max
  pub frames_room : limits.flow_window ≤ limits.max_queued_frames

pub record IsConserved (l : Link) : Type 0 where
  pub credit :
      l.sender.send_window
        + total l.wire
        + l.receiver.recv_buffered
        + l.unflushed
        + l.receiver.unacked
        + total_credit l.credits
      ≡ l.limits.flow_window
  pub batch : l.receiver.unacked < l.limits.window_update_threshold
  pub receiver_open : (l.receiver.closed ≡ false) × (l.receiver.recv ≡ lane_open)
  pub queued : l.receiver.recv_buffered ≡ queued_bytes l.receiver.incoming
  pub queued_frames : l.receiver.recv_frames ≡ queued_chunks l.receiver.incoming
  pub wire_full : AreFull l.wire
  pub queue_full : ChunksAreFull l.receiver.incoming

-- A window that `Mux.__init__` accepts gives sound limits.
pub limits_of-IsSound :
    (v : Option WindowValue) (limits : Limits) → limits_of v ≡ valid limits → IsSound limits
unfolding limits_of validate_flow_window
limits_of-IsSound none limits e = ground arith
limits_of-IsSound (some (integer n)) limits e = ground arith
limits_of-IsSound (some (negative n)) limits e = ground arith
limits_of-IsSound (some (boolean b)) limits e = ground arith
limits_of-IsSound (some other) limits e = ground arith

pub new_link-IsConserved :
    (limits : Limits) (sid : ℕ) → IsSound limits → IsConserved (new_link limits sid)
unfolding new_stream
new_link-IsConserved limits sid sound = record {
  credit = omega arith;
  batch = sound.threshold_pos;
  receiver_open = (refl, refl);
  queued = refl;
  queued_frames = refl;
  wire_full = tt;
  queue_full = tt;
}

pub chunks-le-bytes : (q : List Item) → ChunksAreFull q → queued_chunks q ≤ queued_bytes q
chunks-le-bytes [] f = omega arith
chunks-le-bytes (chunk c ∷ q) f = omega (arith, chunks-le-bytes q f.1)
chunks-le-bytes (terminal ∷ q) f = chunks-le-bytes q f

ChunksAreFull-append :
    (q : List Item) (c : Bytes)
    → ChunksAreFull q
    → 0 < length c
    → ChunksAreFull (q ++ (chunk c ∷ []))
ChunksAreFull-append [] c f p = (p, tt)
ChunksAreFull-append (chunk d ∷ q) c f p = (f.0, ChunksAreFull-append q c f.1 p)
ChunksAreFull-append (terminal ∷ q) c f p = ChunksAreFull-append q c f p

-- `ack` on an open lane: either the batch grows below the threshold, or it is returned whole.
ack_none :
    (t n : ℕ) (s r : Stream)
    → (s.closed ≡ false) × (s.recv ≡ lane_open)
    → ack_stream t n s ≡ (r, none)
    → (r ≡ record s { unacked = s.unacked + n }) × (s.unacked < t → s.unacked + n < t)
unfolding ack_stream
ack_none t n s r live e = ground arith

ack_some :
    (t n delta : ℕ) (s r : Stream)
    → ack_stream t n s ≡ (r, some delta)
    → (r ≡ record s { unacked = 0 }) × (delta ≡ s.unacked + n)
unfolding ack_stream
ack_some t n delta s r e = ground arith

module _ (l : Link) (sound : IsSound l.limits) (h : IsConserved l) where
  sends-IsConserved :
      (t : Stream) (payloads : List Bytes) (written : Bytes)
      → t.send_window + total payloads ≡ l.sender.send_window
      → AreFull payloads
      → IsConserved (record l { sender = t; wire = l.wire ++ payloads; written = written })
  sends-IsConserved t payloads written debit full = record {
    credit =
        omega (arith, h.credit, debit, sum_of-append (λ (b : Bytes). length b) l.wire payloads);
    batch = h.batch;
    receiver_open = h.receiver_open;
    queued = h.queued;
    queued_frames = h.queued_frames;
    wire_full = All-append (λ (p : Bytes). 0 < length p) l.wire payloads h.wire_full full;
    queue_full = h.queue_full;
  }

  delivers-IsConserved :
      (payload : Bytes) (rest : List Bytes)
      → l.wire ≡ payload ∷ rest
      → IsConserved (record l { receiver = fed payload l.receiver; wire = rest })
  delivers-IsConserved payload rest e =
      let full : AreFull (payload ∷ rest) = subst AreFull e h.wire_full in
      record {
        credit = omega (arith, h.credit, ap total e);
        batch = h.batch;
        receiver_open = h.receiver_open;
        queued =
            omega (arith, h.queued, queued_bytes-append l.receiver.incoming (chunk payload ∷ []));
        queued_frames =
            omega (
              arith,
              h.queued_frames,
              queued_chunks-append l.receiver.incoming (chunk payload ∷ []),
            );
        wire_full = full.1;
        queue_full = ChunksAreFull-append l.receiver.incoming payload h.queue_full full.0;
      }

  reads-IsConserved :
      (c : Bytes) (rest : List Item)
      → l.receiver.incoming ≡ chunk c ∷ rest
      → IsConserved (record l {
        receiver = taken c rest l.receiver;
        unflushed = l.unflushed + length c;
        received = l.received ++ c;
      })
  reads-IsConserved c rest e = record {
    credit = omega (arith, h.credit, h.queued, ap queued_bytes e);
    batch = h.batch;
    receiver_open = h.receiver_open;
    queued = omega (arith, h.queued, ap queued_bytes e);
    queued_frames = omega (arith, h.queued_frames, ap queued_chunks e);
    wire_full = h.wire_full;
    queue_full = (subst ChunksAreFull e h.queue_full).1;
  }

  flushes-IsConserved :
      (n : ℕ) (r : Stream)
      → n ≤ l.unflushed
      → ack_stream l.limits.window_update_threshold n l.receiver ≡ (r, none)
      → IsConserved (record l { receiver = r; unflushed = l.unflushed - n })
  flushes-IsConserved n r le e =
      let a = ack_none l.limits.window_update_threshold n l.receiver r h.receiver_open e in
      rw a.0 (record {
        credit = omega (arith, h.credit);
        batch = a.1 h.batch;
        receiver_open = h.receiver_open;
        queued = h.queued;
        queued_frames = h.queued_frames;
        wire_full = h.wire_full;
        queue_full = h.queue_full;
      })

  credits-IsConserved :
      (n delta : ℕ) (r : Stream)
      → n ≤ l.unflushed
      → ack_stream l.limits.window_update_threshold n l.receiver ≡ (r, some delta)
      → IsConserved (record l {
        receiver = r;
        unflushed = l.unflushed - n;
        credits = l.credits ++ (delta ∷ []);
      })
  credits-IsConserved n delta r le e =
      let a = ack_some l.limits.window_update_threshold n delta l.receiver r e in
      rw a.0 (record {
        credit = omega (arith, h.credit, a.1, sum_of-append (λ (d : ℕ). d) l.credits (delta ∷ []));
        batch = sound.threshold_pos;
        receiver_open = h.receiver_open;
        queued = h.queued;
        queued_frames = h.queued_frames;
        wire_full = h.wire_full;
        queue_full = h.queue_full;
      })

  grants-IsConserved :
      (delta : ℕ) (rest : List ℕ)
      → l.credits ≡ delta ∷ rest
      → IsConserved (record l { sender = grant delta l.sender; credits = rest })
  unfolding grant
  grants-IsConserved delta rest e = record {
    credit = omega (arith, h.credit, ap total_credit e, sound.window_fits);
    batch = h.batch;
    receiver_open = h.receiver_open;
    queued = h.queued;
    queued_frames = h.queued_frames;
    wire_full = h.wire_full;
    queue_full = h.queue_full;
  }

-- Every move of the two ends conserves the credit.
Move-IsConserved :
    {l k : Link}
    → IsSound l.limits
    → IsConserved l
    → Move l k
    → IsConserved k × (k.limits ≡ l.limits)
Move-IsConserved {l} sound h (starts bytes t res live free e n k) =
    let s = send_run_lem bytes l.sender t res (send_start-run bytes l.sender t res e n) n in
    rw k (sends-IsConserved l sound h t (frames_of res) (l.written ++ bytes) s.0 s.1, refl)
Move-IsConserved {l} sound h (goes_on view t res live waits e n k) =
    let s = send_run_lem view l.sender t res e n in
    rw k (sends-IsConserved l sound h t (frames_of res) l.written s.0 s.1, refl)
Move-IsConserved {l} sound h (delivers payload rest e k) =
    rw k (delivers-IsConserved l sound h payload rest e, refl)
Move-IsConserved {l} sound h (reads c rest e k) = rw k (reads-IsConserved l sound h c rest e, refl)
Move-IsConserved {l} sound h (flushes n r le e k) =
    rw k (flushes-IsConserved l sound h n r le e, refl)
Move-IsConserved {l} sound h (flushes_and_credits n delta r le e k) =
    rw k (credits-IsConserved l sound h n delta r le e, refl)
Move-IsConserved {l} sound h (grants delta rest e k) =
    rw k (grants-IsConserved l sound h delta rest e, refl)

pub Reach-IsConserved :
    {l k : Link}
    → IsSound l.limits
    → IsConserved l
    → Reach l k
    → IsConserved k × (k.limits ≡ l.limits)
Reach-IsConserved sound h here = (h, refl)
Reach-IsConserved sound h (next r move) =
    let before = Reach-IsConserved sound h r in
    let after = Move-IsConserved (subst IsSound (sym before.1) sound) before.0 move in
    (after.0, after.1 ∙ before.1)
