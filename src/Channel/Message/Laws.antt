-- ===== src/Channel/Message/Laws.antt =====
-- Messages of message.rs survive the wire, framed or not.
use origin_tools.Base.{
  ℕ, ◌+◌, ◌/◌, ◌%◌, ◌≤◌, ◌<◌, ◌≡◌, ◌++◌, arith, length, length-append, take_append_of_length,
  drop_append_of_length, some, ok, u64_mod,
}
use origin_tools.Base.Bytes.{Bytes, from_be64, from_be32-be32}
use origin_tools.Channel.Message.{
  ChannelMessage, HandshakeMessage, to_bytes, from_bytes, wire_size, handshake_to_bytes,
  handshake_from_bytes,
}
use origin_tools.Channel.Codec.{encode_frame, decode_frame, max_frame_size}
use origin_tools.Channel.Codec.Laws.{decode_frame-encode_frame}

-- The sizes that the Rust types and the cipher impose.
pub record IsWellFormed (m : ChannelMessage) : Type 0 where
  pub seq_fits : m.seq < u64_mod
  pub nonce_len : length m.nonce ≡ 24
  pub tagged : 16 ≤ length m.ciphertext

from_be64-be64 :
    (n : ℕ)
    → n < u64_mod
    → let hi = n / 4294967296 in
      let lo = n % 4294967296 in
      from_be64
        (hi / 16777216 % 256)
        (hi / 65536 % 256)
        (hi / 256 % 256)
        (hi % 256)
        (lo / 16777216 % 256)
        (lo / 65536 % 256)
        (lo / 256 % 256)
        (lo % 256)
      ≡ n
from_be64-be64 n h =
    rw
      (from_be32-be32 (n / 4294967296) (omega arith), from_be32-be32 (n % 4294967296) (omega arith))
      (omega arith)

-- A message with a sequence number of 64 bits, a nonce of 24 bytes and a ciphertext that holds its
-- tag is parsed back from its bytes.
pub from_bytes-to_bytes : (m : ChannelMessage) → IsWellFormed m → from_bytes (to_bytes m) ≡ ok m
unfolding from_bytes to_bytes
from_bytes-to_bytes m w = ground (
  arith,
  from_be64-be64 m.seq w.seq_fits,
  take_append_of_length 24 m.nonce m.ciphertext w.nonce_len,
  drop_append_of_length 24 m.nonce m.ciphertext w.nonce_len,
  length-append m.nonce m.ciphertext,
)

-- A handshake message with a key of 32 bytes is parsed back from its bytes.
pub handshake_from_bytes-to_bytes :
    (m : HandshakeMessage)
    → length m.ephemeral_pk ≡ 32
    → handshake_from_bytes (handshake_to_bytes m) ≡ ok m
unfolding handshake_from_bytes handshake_to_bytes
handshake_from_bytes-to_bytes m w = ground (
  arith,
  take_append_of_length 32 m.ephemeral_pk m.payload w,
  drop_append_of_length 32 m.ephemeral_pk m.payload w,
  length-append m.ephemeral_pk m.payload,
)

-- A message of at most 16 MiB travels in a frame: the reader takes exactly `wire_size` bytes of its
-- buffer, and parses the message that was sent.
pub decode_frame-to_bytes :
    (m : ChannelMessage) (rest : Bytes)
    → IsWellFormed m
    → length m.ciphertext + 33 ≤ max_frame_size
    → (frame : Bytes) × (encode_frame (to_bytes m) ≡ ok frame)
      × (decode_frame (frame ++ rest) ≡ ok (some (to_bytes m, wire_size m)))
      × (from_bytes (to_bytes m) ≡ ok m)
unfolding to_bytes wire_size
decode_frame-to_bytes m rest w h =
    let len : length (to_bytes m) ≡ 33 + length m.ciphertext =
      omega (arith, length-append m.nonce m.ciphertext, w.nonce_len) in
    let (frame, sent, size, read) =
      decode_frame-encode_frame (to_bytes m) rest (omega (arith, len)) in
    let wire : length frame ≡ wire_size m = omega (arith, len, size) in
    (frame, sent, rw (← wire) read, from_bytes-to_bytes m w)
