-- ===== src/Pumps.antt =====
-- src/chute/_relay.py: the two pumps that move bytes between a socket and a mux stream. What the
-- awaits of a turn answer is an argument, with the fault at which one of them raises; what a pump
-- does is a list of actions. `_safe_close` and the like swallow what they raise.
pub mod Relayed
use chute.Prelude.{ℕ, List, Bool, ◌++◌, if◌then◌else◌, length, ◌∷◌, []}
use chute.Prelude.Text.{Bytes}

pub data Action : Type 0 where
  throttled : ℕ → Action
  sent wrote : Bytes → Action
  sent_eof drained aborted wrote_eof closed : Action
  forwarded acked : ℕ → Action

-- Where a turn raises, if it does.
pub data Fault : Type 0 where
  no_fault throttle_fault send_fault drain_fault ack_fault : Fault

-- How a pump stands after what was read: it has returned, it has raised, or it reads on.
pub data PumpEnd : Type 0 where
  returned raised reading : PumpEnd

pub record Pumped : Type 0 where
  pub actions : List Action
  pub end : PumpEnd

-- The optional arguments of a pump
pub record Pump : Type 0 where
  pub has_throttle : Bool
  pub has_observer : Bool

pub record Chunk : Type 0 where
  pub bytes : Bytes
  pub fault : Fault

abbrev pub actions_then : List Action → Pumped → Pumped
actions_then done rest = record rest { actions = done ++ rest.actions }

abbrev pub raise_after : List Action → Pumped
raise_after done = record { actions = done; end = raised }

abbrev pub throttling : Pump → ℕ → List Action
throttling pump n = if pump.has_throttle then throttled n ∷ [] else []

abbrev pub observing : Pump → ℕ → List Action
observing pump n = if pump.has_observer then forwarded n ∷ [] else []

-- One turn of `_pump_reader_to_stream` with data; `rest` is what the turns after it do.
unfoldable pub send_chunk : Pump → Fault → Bytes → Pumped → Pumped
send_chunk pump throttle_fault payload rest = raise_after (throttling pump (length payload))
send_chunk pump send_fault payload rest = raise_after (throttling pump (length payload))
send_chunk pump _ payload rest =
    actions_then
      (throttling pump (length payload) ++ (sent payload ∷ observing pump (length payload))) rest

-- `_pump_reader_to_stream` on the chunks that `read` answers, and the end of the data if it is there;
-- an empty answer is the end, so no chunk is empty.
unfoldable pub pump_reader_to_stream : Pump → List Chunk → (is_ended : Bool) → Pumped
pump_reader_to_stream pump [] is_ended =
    if is_ended
    then record { actions = sent_eof ∷ []; end = returned }
    else record { actions = []; end = reading }
pump_reader_to_stream pump (chunk ∷ chunks) is_ended =
    send_chunk pump chunk.fault chunk.bytes (pump_reader_to_stream pump chunks is_ended)

-- One turn of `_pump_stream_to_writer` with a chunk
unfoldable pub write_turn : Pump → Fault → Bytes → Pumped → Pumped
write_turn pump throttle_fault payload rest = raise_after (throttling pump (length payload))
write_turn pump drain_fault payload rest =
    raise_after (throttling pump (length payload) ++ (wrote payload ∷ []))
write_turn pump ack_fault payload rest = raise_after (
    throttling pump (length payload) ++ (wrote payload ∷ drained ∷ observing pump (length payload)))
write_turn pump _ payload rest =
    actions_then
      (throttling pump (length payload)
        ++ (wrote payload
            ∷ drained
            ∷ (observing pump (length payload) ++ (acked (length payload) ∷ []))))
      rest

-- What the writer is told at the end of the stream.
unfoldable pub end_writer : (reset_by_peer can_write_eof : Bool) → Action
end_writer reset_by_peer can_write_eof =
    if reset_by_peer then aborted else if can_write_eof then wrote_eof else closed

-- The end of a stream as `read` answers it, if it does.
pub record StreamEnd : Type 0 where
  pub is_ended : Bool
  pub reset_by_peer : Bool
  pub can_write_eof : Bool

-- `_pump_stream_to_writer`
unfoldable pub pump_stream_to_writer : Pump → List Chunk → StreamEnd → Pumped
pump_stream_to_writer pump [] stream =
    if stream.is_ended
    then record {
      actions = end_writer stream.reset_by_peer stream.can_write_eof ∷ [];
      end = returned;
    }
    else record { actions = []; end = reading }
pump_stream_to_writer pump (chunk ∷ chunks) stream =
    write_turn pump chunk.fault chunk.bytes (pump_stream_to_writer pump chunks stream)
