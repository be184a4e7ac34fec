-- ===== src/Tests/Pumps.antt =====
-- A pump at concrete inputs, src/chute/_relay.py.
use chute.Prelude.{◌≡◌, List, true, false, ◌∷◌, [], refl}
use chute.Pumps.{
  Pump, StreamEnd, pump_stream_to_writer, pump_reader_to_stream, Chunk, write_turn, send_chunk,
  end_writer, throttled, wrote, sent, no_fault, drained, sent_eof, acked, aborted,
}
use chute.Pumps.Relayed.{IsRelayed, pump_stream_to_writer-IsRelayed}

abbrev throttled_pump : Pump
throttled_pump = record { has_throttle = true; has_observer = false }

abbrev two_chunks : List Chunk
two_chunks =
    record { bytes = 1 ∷ 2 ∷ []; fault = no_fault }
    ∷ record { bytes = 3 ∷ []; fault = no_fault }
    ∷ []

abbrev cut_off : StreamEnd
cut_off = record { is_ended = true; reset_by_peer = true; can_write_eof = true }

cut_off_run :
    (pump_stream_to_writer throttled_pump two_chunks cut_off).actions
    ≡ throttled 2
      ∷ wrote (1 ∷ 2 ∷ [])
      ∷ drained
      ∷ acked 2
      ∷ throttled 1
      ∷ wrote (3 ∷ [])
      ∷ drained
      ∷ acked 1
      ∷ aborted
      ∷ []
unfolding pump_stream_to_writer write_turn end_writer
cut_off_run = refl

upload_run :
    (pump_reader_to_stream throttled_pump two_chunks true).actions
    ≡ throttled 2 ∷ sent (1 ∷ 2 ∷ []) ∷ throttled 1 ∷ sent (3 ∷ []) ∷ sent_eof ∷ []
unfolding pump_reader_to_stream send_chunk
upload_run = refl

pump_stream_to_writer-IsRelayed_example :
    IsRelayed two_chunks cut_off (pump_stream_to_writer throttled_pump two_chunks cut_off)
pump_stream_to_writer-IsRelayed_example =
    pump_stream_to_writer-IsRelayed throttled_pump two_chunks cut_off
