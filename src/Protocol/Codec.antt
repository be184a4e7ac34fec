-- ===== src/Protocol/Codec.antt =====
-- `encode` and `decode` of src/chute/protocol.py are inverse to each other.
use chute.Prelude.{
  ℕ, ◌+◌, ◌<◌, ◌^◌, ◌≡◌, ◌↔◌, [], ◌∷◌, ◌++◌, none, some, arith, ◌/◌, ◌%◌, length, All,
}
use chute.Prelude.Text.{Bytes}
use chute.Protocol.{Frame, prefix_size, pack_u32, unpack_u32, encode, decode}

abbrev pub IsByte : ℕ → Type 0
IsByte b = b < 256

pub record FitsPrefix (f : Frame) : Type 0 where
  pub type_fits : f.frame_type < 256
  pub id_fits : f.stream_id < 2 ^ 32

pub unpack_u32-pack_u32 :
    (n : ℕ)
    → n < 2 ^ 32
    → unpack_u32 (n / 16777216 % 256) (n / 65536 % 256) (n / 256 % 256) (n % 256) ≡ n
unfolding unpack_u32
unpack_u32-pack_u32 n h = omega arith

pack_u32-unpack_u32 :
    (a b c d : ℕ)
    → a < 256
    → b < 256
    → c < 256
    → d < 256
    → pack_u32 (unpack_u32 a b c d) ≡ a ∷ b ∷ c ∷ d ∷ []
unfolding unpack_u32 pack_u32
pack_u32-unpack_u32 a b c d ha hb hc hd = ground arith

unpack_u32-lt : (a b c d : ℕ) → a < 256 → b < 256 → c < 256 → d < 256 → unpack_u32 a b c d < 2 ^ 32
unfolding unpack_u32
unpack_u32-lt a b c d ha hb hc hd = omega arith

-- A frame whose type fits one byte and whose stream id fits four encodes to five bytes more than
-- its payload, and the message decodes to the frame.
pub decode-encode :
    (f : Frame)
    → FitsPrefix f
    → (m : Bytes) × (encode f ≡ some m)
      × (length m ≡ prefix_size + length f.payload)
      × (decode m ≡ some f)
unfolding encode decode pack_u32
decode-encode f h = (
  f.frame_type ∷ (pack_u32 f.stream_id ++ f.payload),
  ground arith,
  omega arith,
  ground (arith, unpack_u32-pack_u32 f.stream_id h.id_fits),
)

-- A message of bytes that decodes to a frame is the encoding of that frame, and the frame's type
-- and stream id fit the prefix.
pub encode-decode :
    (m : Bytes) (f : Frame) → All IsByte m → decode m ≡ some f → FitsPrefix f × (encode f ≡ some m)
unfolding encode decode
encode-decode [] f h e = cc
encode-decode (t ∷ []) f h e = cc
encode-decode (t ∷ a ∷ []) f h e = cc
encode-decode (t ∷ a ∷ b ∷ []) f h e = cc
encode-decode (t ∷ a ∷ b ∷ c ∷ []) f h e = cc
encode-decode (t ∷ a ∷ b ∷ c ∷ d ∷ rest) f (ht, (ha, (hb, (hc, (hd, hr))))) e =
    ground (arith, pack_u32-unpack_u32 a b c d ha hb hc hd, unpack_u32-lt a b c d ha hb hc hd)

-- A message is dropped as malformed exactly when it is shorter than the prefix.
pub decode-none_iff : (m : Bytes) → (decode m ≡ none) ↔ (length m < prefix_size)
unfolding decode
decode-none_iff [] = ground arith
decode-none_iff (a ∷ []) = ground arith
decode-none_iff (a ∷ b ∷ []) = ground arith
decode-none_iff (a ∷ b ∷ c ∷ []) = ground arith
decode-none_iff (a ∷ b ∷ c ∷ d ∷ []) = ground arith
decode-none_iff (a ∷ b ∷ c ∷ d ∷ e ∷ r) = ground arith
