-- ===== src/Tests/Flow.antt =====
-- A stream of src/chute/mux.py over a connection with a window of four bytes: five bytes are sent,
-- four fit, and their credit comes back when they are flushed.
use chute.Prelude.{◌≡◌, refl, ◌<◌, ◌+◌, some, ◌∷◌, [], length, ◌≤◌, false, ◌*◌, ◌++◌, arith}
use chute.Mux.Limits.{Limits, limits_of, integer, valid}
use chute.Prelude.Text.{Bytes}
use chute.Mux.Stream.{
  send_start, Stream, send_run, new_stream, ack_stream, awaits_write, wrote, fed, taken, lane_open,
  no_sender,
}
use chute.Mux.Flow.{Link, Reach, new_link, next, here, delivers, starts, reads, flushes_and_credits}
use chute.Mux.Flow.Conserved.{total_credit}
use chute.Protocol.{prefix_size}
use chute.Mux.Flow.Compliance.{Reach-passes_backstops, Reach-credit_returns}
use chute.Mux.Flow.Sending.{send_run-wrote}

abbrev limits : Limits
limits = record {
  flow_window = 4;
  window_update_threshold = 2;
  stream_hard_max = 8;
  max_queued_frames = 4;
}

limits_run : limits_of (some (integer 4)) ≡ valid limits
unfolding limits_of
limits_run = refl

abbrev five : Bytes
five = 1 ∷ 2 ∷ 3 ∷ 4 ∷ 5 ∷ []

abbrev four : Bytes
four = 1 ∷ 2 ∷ 3 ∷ 4 ∷ []

abbrev fresh : Stream
fresh = record {
  id = 1;
  incoming = [];
  recv = lane_open;
  recv_buffered = 0;
  recv_frames = 0;
  unacked = 0;
  send_window = 4;
  send_ended = false;
  sender = no_sender;
  waiter_set = false;
  closed = false;
}

abbrev blocked : Stream
blocked = record fresh { send_window = 0; sender = awaits_write (5 ∷ []) }

send_run_run : send_run five fresh ≡ (blocked, wrote four)
unfolding send_run
send_run_run = refl

send_run-wrote_example :
    (0 < length four)
    × (prefix_size + length four ≤ 256 * 1024)
    × (blocked.send_window + length four ≡ fresh.send_window)
    × (blocked.closed ≡ fresh.closed)
    × ((rest : Bytes) × (five ≡ four ++ rest) × (blocked.sender ≡ awaits_write rest))
send_run-wrote_example = send_run-wrote five four fresh blocked send_run_run

send_start_run : send_start five fresh ≡ (blocked, wrote four)
unfolding send_start send_run
send_start_run = refl

abbrev sent_link : Link
sent_link = record {
  limits = limits;
  sender = blocked;
  receiver = fresh;
  wire = four ∷ [];
  credits = [];
  unflushed = 0;
  written = five;
  received = [];
}

sent_reached : Reach (new_link limits 1) sent_link
unfolding new_stream
sent_reached = next here (starts five blocked (wrote four) refl refl send_start_run (λ e. cc) refl)

Reach-passes_backstops_example : (0 + 4 ≤ 4) × (0 + 4 ≤ 8) × (0 + 1 ≤ 4)
Reach-passes_backstops_example =
    Reach-passes_backstops (some (integer 4)) limits 1 sent_link four [] limits_run sent_reached
      refl

abbrev arrived_link : Link
arrived_link = record sent_link { receiver = fed four fresh; wire = [] }

abbrev read_link : Link
read_link = record arrived_link {
  receiver = taken four [] (fed four fresh);
  unflushed = 4;
  received = four;
}

abbrev flushed_link : Link
flushed_link = record read_link { receiver = fresh; unflushed = 0; credits = 4 ∷ [] }

ack_run : ack_stream 2 4 (taken four [] (fed four fresh)) ≡ (fresh, some 4)
unfolding ack_stream
ack_run = refl

flushed_reached : Reach (new_link limits 1) flushed_link
flushed_reached =
    next (next (next sent_reached (delivers four [] refl refl)) (reads four [] refl refl))
      (flushes_and_credits 4 4 fresh (omega arith) ack_run refl)

Reach-credit_returns_example : 0 < total_credit flushed_link.credits
Reach-credit_returns_example =
    Reach-credit_returns (some (integer 4)) limits 1 flushed_link limits_run flushed_reached refl
      refl refl refl
