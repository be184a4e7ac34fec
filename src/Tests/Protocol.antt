-- ===== src/Tests/Protocol.antt =====
-- Frames of src/chute/protocol.py.
use chute.Prelude.{◌≡◌, refl, ◌∷◌, some, [], length, arith, ◌+◌}
use chute.Protocol.{Frame, encode, decode, data_frame, prefix_size}
use chute.Prelude.Text.{Bytes}
use chute.Protocol.Codec.{FitsPrefix, encode-decode, decode-encode}

abbrev data_on_258 : Frame
data_on_258 = record { frame_type = data_frame; stream_id = 258; payload = 7 ∷ 8 ∷ [] }

abbrev data_on_258_bytes : Bytes
data_on_258_bytes = 2 ∷ 0 ∷ 0 ∷ 1 ∷ 2 ∷ 7 ∷ 8 ∷ []

encode_run : encode data_on_258 ≡ some data_on_258_bytes
unfolding encode
encode_run = refl

decode_run : decode data_on_258_bytes ≡ some data_on_258
unfolding decode
decode_run = refl

decode-encode_example :
    (m : Bytes) × (encode data_on_258 ≡ some m)
    × (length m ≡ prefix_size + length data_on_258.payload)
    × (decode m ≡ some data_on_258)
decode-encode_example =
    decode-encode data_on_258 (record { type_fits = omega arith; id_fits = omega arith })

encode-decode_example : FitsPrefix data_on_258 × (encode data_on_258 ≡ some data_on_258_bytes)
encode-decode_example = encode-decode data_on_258_bytes data_on_258 (omega arith) decode_run
