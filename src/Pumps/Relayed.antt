-- ===== src/Pumps/Relayed.antt =====
-- What the pumps of src/chute/_relay.py relay.
use chute.Prelude.{
  ℕ, ◌≡◌, List, ◌∷◌, ◌++◌, [], if_cases, ◌+◌, ◌≢◌, refl, length, ◌≤◌, Bool, arith, if◌then◌else◌,
  ◌∙◌, true, ap, length-append, subst, sym,
}
use chute.Pumps.{
  Pump, pump_stream_to_writer, Action, Chunk, throttling, Bytes, StreamEnd, wrote, acked, aborted,
  Pumped, wrote_eof, throttled, write_turn, closed, raised, returned, end_writer, raise_after,
  drained, actions_then, Fault, observing, throttle_fault, forwarded, drain_fault, ack_fault,
  no_fault, send_fault,
}
use mathlib.Core.Bool.{false}

abbrev pub written : List Action → Bytes
written [] = []
written (wrote payload ∷ actions) = payload ++ written actions
written (_ ∷ actions) = written actions

abbrev pub credit : List Action → ℕ
credit [] = 0
credit (acked n ∷ actions) = n + credit actions
credit (_ ∷ actions) = credit actions

abbrev pub bytes_of : List Chunk → Bytes
bytes_of [] = []
bytes_of (chunk ∷ chunks) = chunk.bytes ++ bytes_of chunks

-- Whether the writer is told of an end, and of which.
abbrev pub endings : List Action → List Action
endings [] = []
endings (aborted ∷ actions) = aborted ∷ endings actions
endings (wrote_eof ∷ actions) = wrote_eof ∷ endings actions
endings (closed ∷ actions) = closed ∷ endings actions
endings (_ ∷ actions) = endings actions

-- What the writer is told: an abort after a reset, and otherwise a half-close where it can take one.
abbrev pub IsTold : (reset_by_peer can_write_eof : Bool) → List Action → Type 0
IsTold true can_write_eof told = told ≡ aborted ∷ []
IsTold false true told = told ≡ wrote_eof ∷ []
IsTold false false told = told ≡ closed ∷ []

pub record IsRelayed (chunks : List Chunk) (stream : StreamEnd) (p : Pumped) : Type 0 where
  pub all_written : p.end ≢ raised → written p.actions ≡ bytes_of chunks
  pub all_credited : p.end ≢ raised → credit p.actions ≡ length (bytes_of chunks)
  pub credit_earned : credit p.actions ≤ length (written p.actions)
  pub ended_as_read :
      p.end ≡ returned → IsTold stream.reset_by_peer stream.can_write_eof (endings p.actions)
  pub ended_once : p.end ≢ returned → endings p.actions ≡ []

-- A turn that raises
raise_after-IsRelayed :
    (chunks : List Chunk) (stream : StreamEnd) (actions : List Action)
    → credit actions ≡ 0
    → endings actions ≡ []
    → IsRelayed chunks stream (raise_after actions)
raise_after-IsRelayed chunks stream actions c e = record {
  all_written = λ n. absurd (n refl);
  all_credited = λ n. absurd (n refl);
  credit_earned = omega (arith, c);
  ended_as_read = λ r. absurd (ground (arith, r));
  ended_once = λ n. e;
}

quiet_throttle :
    (b : Bool) (n : ℕ)
    → (credit (if b then throttled n ∷ [] else []) ≡ 0)
      × (endings (if b then throttled n ∷ [] else []) ≡ [])
quiet_throttle true n = (refl, refl)
quiet_throttle false n = (refl, refl)

quiet_write :
    (b : Bool) (n : ℕ) (payload : Bytes)
    → (credit ((if b then throttled n ∷ [] else []) ++ (wrote payload ∷ [])) ≡ 0)
      × (endings ((if b then throttled n ∷ [] else []) ++ (wrote payload ∷ [])) ≡ [])
quiet_write true n payload = (refl, refl)
quiet_write false n payload = (refl, refl)

quiet_drain :
    (b c : Bool) (n : ℕ) (payload : Bytes)
    → (credit (
          (if b then throttled n ∷ [] else [])
          ++ (wrote payload ∷ drained ∷ (if c then forwarded n ∷ [] else [])))
        ≡ 0)
      × (endings (
            (if b then throttled n ∷ [] else [])
            ++ (wrote payload ∷ drained ∷ (if c then forwarded n ∷ [] else [])))
          ≡ [])
quiet_drain true true n payload = (refl, refl)
quiet_drain true false n payload = (refl, refl)
quiet_drain false true n payload = (refl, refl)
quiet_drain false false n payload = (refl, refl)

-- The actions of a turn that does not raise.
abbrev turn_actions : Pump → Bytes → List Action
turn_actions pump payload =
    throttling pump (length payload)
    ++ (wrote payload
        ∷ drained
        ∷ (observing pump (length payload) ++ (acked (length payload) ∷ [])))

full_turn :
    (b c : Bool) (payload : Bytes) (rest : List Action)
    → (written (turn_actions (record { has_throttle = b; has_observer = c }) payload ++ rest)
        ≡ payload ++ written rest)
      × (credit (turn_actions (record { has_throttle = b; has_observer = c }) payload ++ rest)
          ≡ length payload + credit rest)
      × (endings (turn_actions (record { has_throttle = b; has_observer = c }) payload ++ rest)
          ≡ endings rest)
full_turn true true payload rest = (refl, refl, refl)
full_turn true false payload rest = (refl, refl, refl)
full_turn false true payload rest = (refl, refl, refl)
full_turn false false payload rest = (refl, refl, refl)

full_turn-IsRelayed :
    (pump : Pump) (chunk : Chunk) (chunks : List Chunk) (stream : StreamEnd) (rest : Pumped)
    → IsRelayed chunks stream rest
    → IsRelayed (chunk ∷ chunks) stream (actions_then (turn_actions pump chunk.bytes) rest)
full_turn-IsRelayed pump chunk chunks stream rest h =
    let turn = full_turn pump.has_throttle pump.has_observer chunk.bytes rest.actions in
    record {
      all_written = λ n. turn.0 ∙ ap (λ b. chunk.bytes ++ b) (h.all_written n);
      all_credited =
          λ n. omega (arith, turn.1, h.all_credited n, length-append chunk.bytes (bytes_of chunks));
      credit_earned = omega (
        arith,
        turn.1,
        ap length turn.0,
        h.credit_earned,
        length-append chunk.bytes (written rest.actions),
      );
      ended_as_read = λ e.
          subst (IsTold stream.reset_by_peer stream.can_write_eof) (sym turn.2) (h.ended_as_read e);
      ended_once = λ n. turn.2 ∙ h.ended_once n;
    }

IsRelayed-write_turn :
    (pump : Pump) (fault : Fault) (chunk : Chunk) (chunks : List Chunk) (stream : StreamEnd)
    (rest : Pumped)
    → IsRelayed chunks stream rest
    → IsRelayed (chunk ∷ chunks) stream (write_turn pump fault chunk.bytes rest)
unfolding write_turn
IsRelayed-write_turn pump throttle_fault chunk chunks stream rest h =
    let quiet = quiet_throttle pump.has_throttle (length chunk.bytes) in
    raise_after-IsRelayed (chunk ∷ chunks) stream _ quiet.0 quiet.1
IsRelayed-write_turn pump drain_fault chunk chunks stream rest h =
    let quiet = quiet_write pump.has_throttle (length chunk.bytes) chunk.bytes in
    raise_after-IsRelayed (chunk ∷ chunks) stream _ quiet.0 quiet.1
IsRelayed-write_turn pump ack_fault chunk chunks stream rest h =
    let quiet = quiet_drain pump.has_throttle pump.has_observer (length chunk.bytes) chunk.bytes in
    raise_after-IsRelayed (chunk ∷ chunks) stream _ quiet.0 quiet.1
IsRelayed-write_turn pump no_fault chunk chunks stream rest h =
    full_turn-IsRelayed pump chunk chunks stream rest h
IsRelayed-write_turn pump send_fault chunk chunks stream rest h =
    full_turn-IsRelayed pump chunk chunks stream rest h

end_writer-IsTold : (r c : Bool) → IsTold r c (endings (end_writer r c ∷ []))
unfolding end_writer
end_writer-IsTold true c = refl
end_writer-IsTold false true = refl
end_writer-IsTold false false = refl

end_writer-quiet :
    (r c : Bool) → (written (end_writer r c ∷ []) ≡ []) × (credit (end_writer r c ∷ []) ≡ 0)
unfolding end_writer
end_writer-quiet true c = (refl, refl)
end_writer-quiet false true = (refl, refl)
end_writer-quiet false false = (refl, refl)

-- Whatever a pump from a stream to a writer reads, it returns credit for no more bytes than it has
-- written. Unless it raises, it has written exactly the bytes read, in order, and returned the
-- credit for all of them. When it returns, it has told the writer once of an end, an abort just
-- when the peer reset the stream; before that it tells the writer of none.
pub pump_stream_to_writer-IsRelayed :
    (pump : Pump) (chunks : List Chunk) (stream : StreamEnd)
    → IsRelayed chunks stream (pump_stream_to_writer pump chunks stream)
unfolding pump_stream_to_writer
pump_stream_to_writer-IsRelayed pump [] stream =
    let quiet = end_writer-quiet stream.reset_by_peer stream.can_write_eof in
    if_cases (IsRelayed [] stream) stream.is_ended _ _
      (λ e. record {
        all_written = λ n. quiet.0;
        all_credited = λ n. quiet.1;
        credit_earned = omega (arith, quiet.1);
        ended_as_read = λ r. end_writer-IsTold stream.reset_by_peer stream.can_write_eof;
        ended_once = λ n. absurd (n refl);
      })
      (λ e. record {
        all_written = λ n. refl;
        all_credited = λ n. refl;
        credit_earned = omega arith;
        ended_as_read = λ r. absurd (ground (arith, r));
        ended_once = λ n. refl;
      })
pump_stream_to_writer-IsRelayed pump (chunk ∷ chunks) stream =
    IsRelayed-write_turn pump chunk.fault chunk chunks stream _
      (pump_stream_to_writer-IsRelayed pump chunks stream)
