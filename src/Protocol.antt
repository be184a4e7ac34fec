-- ===== src/Protocol.antt =====
-- src/chute/protocol.py: the binary frame, a 5-byte prefix (`struct.Struct("!BI")`) and a payload.
pub mod Codec
use chute.Prelude.{
  ℕ, ◌+◌, ◌*◌, ◌/◌, ◌%◌, ◌^◌, List, [], ◌∷◌, ◌++◌, Option, none, some, ltb, ◌&&◌, if◌then◌else◌,
}
use chute.Prelude.Text.{Bytes}

abbrev pub version : ℕ
version = 4

-- The frame types.
abbrev pub open_frame : ℕ
open_frame = 0x01

abbrev pub data_frame : ℕ
data_frame = 0x02

abbrev pub eof_frame : ℕ
eof_frame = 0x03

abbrev pub reset_frame : ℕ
reset_frame = 0x04

abbrev pub window_update_frame : ℕ
window_update_frame = 0x05

abbrev pub goaway_frame : ℕ
goaway_frame = 0x06

abbrev pub prefix_size : ℕ
prefix_size = 5

pub record Frame : Type 0 where
  pub frame_type : ℕ
  pub stream_id : ℕ
  pub payload : Bytes

-- struct "!I": four bytes, the most significant first.
unfoldable pub pack_u32 : ℕ → Bytes
pack_u32 n = (n / 16777216 % 256) ∷ (n / 65536 % 256) ∷ (n / 256 % 256) ∷ (n % 256) ∷ []

unfoldable pub unpack_u32 : ℕ → ℕ → ℕ → ℕ → ℕ
unpack_u32 a b c d = a * 16777216 + b * 65536 + c * 256 + d

-- `none` is the `struct.error` of a field that does not fit.
unfoldable pub encode : Frame → Option Bytes
unfolding pack_u32
encode f =
    if ltb f.frame_type 256 && ltb f.stream_id (2 ^ 32)
    then some (f.frame_type ∷ (pack_u32 f.stream_id ++ f.payload))
    else none

-- `none` is the `ValueError` of a message shorter than the prefix.
unfoldable pub decode : Bytes → Option Frame
unfolding unpack_u32
decode (t ∷ a ∷ b ∷ c ∷ d ∷ rest) =
    some (record { frame_type = t; stream_id = unpack_u32 a b c d; payload = rest })
decode _ = none
