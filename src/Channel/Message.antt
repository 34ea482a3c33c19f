-- ===== src/Channel/Message.antt =====
-- origin-channel/src/message.rs: encrypted messages and handshake messages on the wire.
pub mod Laws
mod Tests
use origin_tools.Base.{
  ℕ, zero, suc, ◌+◌, Bool, List, [], ◌∷◌, ◌++◌, ltb, if◌then◌else◌, length, take, drop, Result, ok,
  err,
}
use origin_tools.Base.Bytes.{Bytes, be64, from_be64}

abbrev pub msg_data : ℕ
msg_data = 0x10

abbrev pub header_size : ℕ
header_size = 33

-- `CipherSuite::tag_len`
abbrev pub tag_len : ℕ
tag_len = 16

pub record ChannelMessage : Type 0 where
  pub msg_type : ℕ  -- u8
  pub seq : ℕ  -- u64
  pub nonce : Bytes  -- [u8; 24]
  pub ciphertext : Bytes

pub data MessageError : Type 0 where
  too_short : ℕ → MessageError
  handshake_too_short : MessageError

pub to_bytes : ChannelMessage → Bytes
to_bytes m = m.msg_type ∷ (be64 m.seq ++ (m.nonce ++ m.ciphertext))

-- `data[0]`, `data[1..9]`, `data[9..33]` and `data[33..]`; the length check comes first.
abbrev fields : Bytes → Result MessageError ChannelMessage
fields (t ∷ a ∷ b ∷ c ∷ d ∷ e ∷ f ∷ g ∷ h ∷ rest) = ok (record {
  msg_type = t;
  seq = from_be64 a b c d e f g h;
  nonce = take 24 rest;
  ciphertext = drop 24 rest;
})
fields short = err (too_short (length short))

pub from_bytes : Bytes → Result MessageError ChannelMessage
from_bytes buf =
    if ltb (length buf) (header_size + tag_len) then err (too_short (length buf)) else fields buf

pub wire_size : ChannelMessage → ℕ
wire_size m = 4 + header_size + length m.ciphertext

pub record HandshakeMessage : Type 0 where
  pub msg_type : ℕ
  pub ephemeral_pk : Bytes  -- [u8; 32]
  pub payload : Bytes

pub handshake_to_bytes : HandshakeMessage → Bytes
handshake_to_bytes m = m.msg_type ∷ (m.ephemeral_pk ++ m.payload)

abbrev handshake_fields : Bytes → Result MessageError HandshakeMessage
handshake_fields [] = err handshake_too_short
handshake_fields (t ∷ rest) =
    ok (record { msg_type = t; ephemeral_pk = take 32 rest; payload = drop 32 rest })

pub handshake_from_bytes : Bytes → Result MessageError HandshakeMessage
handshake_from_bytes buf =
    if ltb (length buf) 33 then err handshake_too_short else handshake_fields buf
