-- ===== src/Channel/Message/Tests.antt =====
-- Runs of the message formats.
use origin_tools.Base.{[], ◌∷◌, replicate}
use origin_tools.Channel.Message.{ChannelMessage, HandshakeMessage, msg_data}

abbrev sealed_hi : ChannelMessage
sealed_hi = record {
  msg_type = msg_data;
  seq = 4294967298;
  nonce = replicate 24 7;
  ciphertext = replicate 18 9;
}

abbrev first_flight : HandshakeMessage
first_flight = record { msg_type = 1; ephemeral_pk = replicate 32 5; payload = 4 ∷ [] }
