-- ===== src/Channel/Codec.antt =====
-- origin-channel/src/codec.rs: frames with a length prefix of four bytes.
pub mod Laws
mod Tests
use origin_tools.Base.{
  ℕ, zero, suc, ◌+◌, Bool, true, false, Option, none, some, List, [], ◌∷◌, ◌++◌, ltb, if◌then◌else◌,
  length, take, drop, Result, ok, err, ◌>>=◌,
}
use origin_tools.Base.Bytes.{Bytes, be32, from_be32}

-- `ChannelError::Codec`, by the check that raises it.
pub data CodecError : Type 0 where
  payload_too_large frame_too_large : ℕ → CodecError
  empty_body : CodecError

-- 16 MiB.
abbrev pub max_frame_size : ℕ
max_frame_size = 16777216

abbrev pub length_prefix_size : ℕ
length_prefix_size = 4

pub encode_frame : Bytes → Result CodecError Bytes
encode_frame payload =
    if ltb max_frame_size (length payload)
    then err (payload_too_large (length payload))
    else ok (be32 (length payload) ++ payload)

-- The length that the first four bytes state; `none` if there are fewer.
abbrev pub frame_len : Bytes → Option ℕ
frame_len (a ∷ b ∷ c ∷ d ∷ rest) = some (from_be32 a b c d)
frame_len _ = none

-- `ok none` asks for more bytes; `ok (some (payload, consumed))` is a whole frame.
abbrev decode_body : Bytes → ℕ → Result CodecError (Option (Bytes × ℕ))
decode_body buf len =
    if ltb max_frame_size len
    then err (frame_too_large len)
    else if ltb (length buf) (length_prefix_size + len)
    then ok none
    else ok (some (take len (drop length_prefix_size buf), length_prefix_size + len))

pub decode_frame : Bytes → Result CodecError (Option (Bytes × ℕ))
decode_frame buf = elim (frame_len buf) [ none ↦ ok none | some len ↦ decode_body buf len ]

pub encode_typed : ℕ → Bytes → Result CodecError Bytes
encode_typed msg_type payload = encode_frame (msg_type ∷ payload)

abbrev split_tag : Bytes → ℕ → Result CodecError (Option (ℕ × Bytes × ℕ))
split_tag [] consumed = err empty_body
split_tag (tag ∷ payload) consumed = ok (some (tag, payload, consumed))

abbrev typed_of : Option (Bytes × ℕ) → Result CodecError (Option (ℕ × Bytes × ℕ))
typed_of none = ok none
typed_of (some (inner, consumed)) = split_tag inner consumed

pub decode_typed : Bytes → Result CodecError (Option (ℕ × Bytes × ℕ))
decode_typed buf = decode_frame buf >>= typed_of
