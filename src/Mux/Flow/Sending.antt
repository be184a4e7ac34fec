-- ===== src/Mux/Flow/Sending.antt =====
-- One run of `Stream.send` of src/chute/mux.py: what it writes, and what it leaves of the window.
use chute.Prelude.{
  ℕ, ◌≡◌, false, length, take, ◌<◌, arith, length-take, ◌+◌, ◌≤◌, ◌*◌, ◌++◌, is_empty, ◌-◌, ap, ◌∷◌,
  drop, ◌∙◌, [], sym, take-append-drop,
}
use chute.Prelude.Text.{Bytes}
use chute.Mux.Stream.{send_run, Stream, wrote, chunk_size, awaits_write}
use chute.Mux.Stream.{SendResult, send_start, stream_closed, finished, parked, write_chunk}
use chute.Mux.Flow.{frames_of, unsent}
use chute.Prelude.Sums.{sum_of}
use chute.Prelude.{◌≢◌, List, All, refl, append-nil}
use chute.Protocol.{prefix_size}

-- The bytes of payloads under way.
abbrev pub total : List Bytes → ℕ
total = sum_of length

abbrev pub AreFull : List Bytes → Type 0
AreFull = All (λ p. 0 < length p)

abbrev pub on_wire : List Bytes → Bytes
on_wire [] = []
on_wire (p ∷ ps) = p ++ on_wire ps

take_chunk_length :
    (view : Bytes) (window : ℕ)
    → length (take (chunk_size view window) view) ≡ chunk_size view window
take_chunk_length view window = omega (arith, length-take (chunk_size view window) view)

pos_of_full : (view : Bytes) → is_empty view ≡ false → 0 < length view
pos_of_full [] h = cc
pos_of_full (b ∷ view) h = omega arith

abbrev after_write : Bytes → Stream → Stream
after_write view s = record s {
  send_window = s.send_window - chunk_size view s.send_window;
  sender = awaits_write (drop (chunk_size view s.send_window) view);
}

wrote_parts :
    (view payload : Bytes) (s t : Stream)
    → send_run view s ≡ (t, wrote payload)
    → (is_empty view ≡ false)
      × (0 < s.send_window)
      × (t ≡ after_write view s)
      × (payload ≡ take (chunk_size view s.send_window) view)
unfolding send_run
wrote_parts view payload s t e = ground arith

-- `send` that gets the lock of an open stream goes straight to its loop.
pub send_start-run :
    (bytes : Bytes) (s t : Stream) (res : SendResult)
    → send_start bytes s ≡ (t, res)
    → res ≢ stream_closed
    → send_run bytes s ≡ (t, res)
unfolding send_start
send_start-run bytes s t res e n = ground (arith, e, n)

-- Where a run of send does not write, it leaves the window and what is unsent.
send_run-finished :
    (view : Bytes) (s t : Stream)
    → send_run view s ≡ (t, finished)
    → (t.send_window ≡ s.send_window) × (view ≡ unsent t.sender)
unfolding send_run write_chunk
send_run-finished [] s t e = ground (arith, e)
send_run-finished (b ∷ view) s t e = ground (arith, e)

send_run-parked :
    (view : Bytes) (s t : Stream)
    → send_run view s ≡ (t, parked)
    → (t.send_window ≡ s.send_window) × (view ≡ unsent t.sender)
unfolding send_run write_chunk
send_run-parked view s t e = ground (arith, e)

-- Where a run of send writes a DATA payload, the payload is not empty, fits with its prefix into
-- 256 KiB, is taken off the window exactly, leaves the stream's closed mark, and is the head of
-- the data whose rest the coroutine keeps.
pub send_run-wrote :
    (view payload : Bytes) (s t : Stream)
    → send_run view s ≡ (t, wrote payload)
    → (0 < length payload)
      × (prefix_size + length payload ≤ 256 * 1024)
      × (t.send_window + length payload ≡ s.send_window)
      × (t.closed ≡ s.closed)
      × ((rest : Bytes) × (view ≡ payload ++ rest) × (t.sender ≡ awaits_write rest))
send_run-wrote view payload s t e =
    let p = wrote_parts view payload s t e in
    let n = chunk_size view s.send_window in
    let size : length payload ≡ n = ap length p.3 ∙ take_chunk_length view s.send_window in
    let some_left = pos_of_full view p.0 in
    (
      omega arith,
      omega arith,
      rw p.2 (omega arith),
      rw p.2,
      (drop n view, rw p.3 (sym (take-append-drop n view)), rw p.2),
    )

-- A run of send on an open stream takes what it writes off the window, and writes the head of its
-- data.
pub send_run_lem :
    (view : Bytes) (s t : Stream) (res : SendResult)
    → send_run view s ≡ (t, res)
    → res ≢ stream_closed
    → (t.send_window + total (frames_of res) ≡ s.send_window)
      × AreFull (frames_of res)
      × (view ≡ on_wire (frames_of res) ++ unsent t.sender)
send_run_lem view s t finished e n =
    let f = send_run-finished view s t e in (omega (arith, f.0), tt, f.1)
send_run_lem view s t stream_closed e n = absurd (n refl)
send_run_lem view s t parked e n =
    let f = send_run-parked view s t e in (omega (arith, f.0), tt, f.1)
send_run_lem view s t (wrote payload) e n =
    let w = send_run-wrote view payload s t e in
    let rest = w.4 in
    (
      omega (arith, w.2),
      (w.0, tt),
      rest.1
          ∙ sym (
              ap (λ q. q ++ unsent t.sender) (append-nil payload)
              ∙ ap (λ x. payload ++ unsent x) rest.2),
    )
