-- ===== src/Channel/Codec/Laws.antt =====
-- Frames of codec.rs are read back from a stream, and a reader never waits for a bad length.
use origin_tools.Base.{
  ℕ, zero, suc, ◌+◌, ◌≤◌, ◌<◌, ◌≡◌, ap, refl, none, some, [], ◌∷◌, ◌++◌, arith, length, take,
  length-append, length-take, take-length_append, ok,
}
use origin_tools.Base.Bytes.{Bytes, be32, from_be32, from_be32-be32}
use origin_tools.Channel.Codec.{
  max_frame_size, encode_frame, decode_frame, encode_typed, decode_typed,
}

-- A payload up to the maximum is framed, and a reader that finds the frame at the head of its
-- buffer gets the payload back and consumes the frame of four more bytes, whatever follows it.
pub decode_frame-encode_frame :
    (payload rest : Bytes)
    → length payload ≤ max_frame_size
    → (frame : Bytes) × (encode_frame payload ≡ ok frame)
      × (length frame ≡ 4 + length payload)
      × (decode_frame (frame ++ rest) ≡ ok (some (payload, length frame)))
unfolding encode_frame decode_frame
decode_frame-encode_frame payload rest h =
    let len_eq = from_be32-be32 (length payload) (omega arith) in
    (
      be32 (length payload) ++ payload,
      ground arith,
      omega arith,
      rw len_eq (ground (arith, take-length_append payload rest, length-append payload rest)),
    )

decode_frame-short :
    (payload : Bytes) (n : ℕ)
    → length payload ≤ max_frame_size
    → n < 4 + length payload
    → decode_frame (take n (be32 (length payload) ++ payload)) ≡ ok none
unfolding decode_frame
decode_frame-short payload zero h lt = refl
decode_frame-short payload (suc zero) h lt = refl
decode_frame-short payload (suc (suc zero)) h lt = refl
decode_frame-short payload (suc (suc (suc zero))) h lt = refl
decode_frame-short payload (suc (suc (suc (suc n)))) h lt =
    rw (from_be32-be32 (length payload) (omega arith)) (ground (arith, length-take n payload))

-- A prefix of a frame that is cut short asks for more bytes: it is neither an error nor a payload.
pub decode_frame-partial :
    (payload frame : Bytes) (n : ℕ)
    → encode_frame payload ≡ ok frame
    → n < length frame
    → decode_frame (take n frame) ≡ ok none
unfolding encode_frame
decode_frame-partial payload frame n e h =
    let fits : length payload ≤ max_frame_size = ground arith in
    let whole : be32 (length payload) ++ payload ≡ frame = ground arith in
    rw (← whole) (decode_frame-short payload n fits (omega (arith, ap length whole)))

-- A payload that is handed over is at most the maximum long, lies within the buffer, and is
-- accounted for with its prefix.
pub decode_frame_bounds :
    (buf payload : Bytes) (consumed : ℕ)
    → decode_frame buf ≡ ok (some (payload, consumed))
    → (length payload ≤ max_frame_size) × (consumed ≡ 4 + length payload) × (consumed ≤ length buf)
unfolding decode_frame
decode_frame_bounds [] payload consumed e = cc
decode_frame_bounds (a ∷ []) payload consumed e = cc
decode_frame_bounds (a ∷ b ∷ []) payload consumed e = cc
decode_frame_bounds (a ∷ b ∷ c ∷ []) payload consumed e = cc
decode_frame_bounds (a ∷ b ∷ c ∷ d ∷ rest) payload consumed e =
    ground (arith, length-take (from_be32 a b c d) rest)

-- A typed message of up to the maximum less its tag is read back with its tag.
pub decode_typed-encode_typed :
    (tag : ℕ) (payload rest : Bytes)
    → length payload < max_frame_size
    → (frame : Bytes) × (encode_typed tag payload ≡ ok frame)
      × (decode_typed (frame ++ rest) ≡ ok (some (tag, payload, length frame)))
unfolding encode_typed decode_typed
decode_typed-encode_typed tag payload rest h =
    let (frame, sent, _, read) = decode_frame-encode_frame (tag ∷ payload) rest h in
    (frame, sent, rw read)
