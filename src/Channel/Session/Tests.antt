-- ===== src/Channel/Session/Tests.antt =====
-- A session over a toy cipher, which appends a tag of 16 zeros.
use origin_tools.Base.{
  ◌+◌, ◌-◌, ◌≡◌, ◌≢◌, refl, ap, some, List, [], ◌∷◌, ◌++◌, arith, length, take, replicate,
  length-append, take_append_of_length, err,
}
use origin_tools.Base.Bytes.{Bytes}
use origin_tools.Channel.Message.{ChannelMessage}
use origin_tools.Channel.Ratchet.{
  Crypto, IsAead, RatchetKeys, init_ratchet, dh_ratchet, derive_message_key, next_nonce,
}
use origin_tools.Channel.Replay
use origin_tools.Channel.Replay.{replay, accept}
use origin_tools.Channel.Replay.Accept.{new-IsValid}
use origin_tools.Channel.Replay.Seen.{IsValid, seen}
use origin_tools.Channel.Usage
use origin_tools.Channel.Usage.{AeadLimits, default_limits, check_send, check_recv}
use origin_tools.Channel.Session.{
  RatchetedSession, new, replayed, encrypt, decrypt, open_next, rotate,
}
use origin_tools.Channel.Session.Order.{InStep}
use origin_tools.Channel.Session.Stream.{
  Receives, encrypt_all, decrypt_all-encrypt_all, init_ratchet-InStep, rotate-InStep, mirrored,
}
use origin_tools.Channel.Session.Safety.{
  Turn, receive, send, turn, turns, decrypt-turns_replay, encrypt-turns_nonce, decrypt_forged,
}

abbrev toy : Crypto
toy = record {
  hkdf = λ key salt label n. some (replicate n 7);
  seal = λ k n p. some (p ++ replicate 16 0);
  unseal = λ k n t. some (take (length t - 16) t);
}

toy_tag : (p t : Bytes) → some (p ++ replicate 16 0) ≡ some t → length t ≡ length p + 16
toy_tag p t e =
    let same : p ++ replicate 16 0 ≡ t = cc in
    omega (arith, ap length same, length-append p (replicate 16 0))

toy_opens :
    (p t : Bytes) → some (p ++ replicate 16 0) ≡ some t → some (take (length t - 16) t) ≡ some p
toy_opens p t e =
    let same : p ++ replicate 16 0 ≡ t = cc in
    let n : length p ≡ length t - 16 = omega (arith, toy_tag p t e) in
    rw (← n, ← same, take_append_of_length (length p) p (replicate 16 0) refl)

toy-IsAead : IsAead toy
toy-IsAead = record { opens = λ k n p t e. toy_opens p t e; tag = λ k n p t e. toy_tag p t e }

abbrev key : Bytes
key = replicate 32 7

abbrev keys : RatchetKeys
keys = record { root = key; send_chain = key; recv_chain = key }

abbrev start : RatchetedSession
unfolding new Replay.new Usage.new
start = new keys default_limits

start-InStep :
    InStep (new keys default_limits) (new keys default_limits)
    × InStep (new keys default_limits) (new keys default_limits)
start-InStep =
    init_ratchet-InStep toy key default_limits keys keys (unfold init_ratchet in refl)
      (unfold init_ratchet in refl)

abbrev texts : List Bytes
texts = (1 ∷ 2 ∷ []) ∷ (3 ∷ []) ∷ []

abbrev first : ChannelMessage
first = record {
  msg_type = 16;
  seq = 0;
  nonce = replicate 24 0;
  ciphertext = 1 ∷ 2 ∷ replicate 16 0;
}

abbrev second : ChannelMessage
second = record {
  msg_type = 16;
  seq = 1;
  nonce = 1 ∷ replicate 23 0;
  ciphertext = 3 ∷ replicate 16 0;
}

abbrev after_two : RatchetedSession
unfolding start
after_two = record start {
  send_nonce = 2;
  send_seq = 2;
  usage = record (start.usage) { send = record { messages = 2; bytes = 3 } };
}

decrypt_all-encrypt_all_example : Receives toy after_two start texts (first ∷ second ∷ [])
unfolding start after_two encrypt_all encrypt check_send derive_message_key next_nonce
decrypt_all-encrypt_all_example =
    decrypt_all-encrypt_all toy start start texts after_two (first ∷ second ∷ []) toy-IsAead
      start-InStep.0 refl

-- One end has sent two messages, the other has received nothing.
rotate-InStep_example :
    (dh_ratchet toy start.keys.root (5 ∷ []) ≡ some keys)
    × InStep (rotate after_two keys) (rotate start (mirrored keys))
    × InStep (rotate start (mirrored keys)) (rotate after_two keys)
unfolding start after_two encrypt_all encrypt check_send derive_message_key next_nonce
rotate-InStep_example =
    rotate-InStep toy after_two start (5 ∷ []) keys refl refl (unfold dh_ratchet in refl)

abbrev middle : List Turn
middle = send (9 ∷ []) ∷ receive second ∷ []

start-IsValid : IsValid start.replay
unfolding start
start-IsValid = new-IsValid 1024 (omega arith) (omega arith)

decrypt-turns_replay_example :
    let s = turns toy (decrypt toy start first).0 middle in
    decrypt toy s first ≡ (s, err (replayed (replay 0)))
decrypt-turns_replay_example = decrypt-turns_replay toy start first first middle start-IsValid refl

encrypt-turns_nonce_example : first.nonce ≢ second.nonce
unfolding start turns turn encrypt decrypt open_next accept Replay.mark Replay.get_bit
    Replay.set_bit Replay.move_to check_send check_recv derive_message_key next_nonce
encrypt-turns_nonce_example =
    encrypt-turns_nonce toy start (1 ∷ 2 ∷ []) (3 ∷ []) (receive first ∷ []) first second
      (omega arith) refl refl

abbrev forged : ChannelMessage
forged = record { msg_type = 16; seq = 5000; nonce = replicate 24 0; ciphertext = replicate 16 1 }

decrypt_forged_example :
    decrypt toy (decrypt toy start forged).0 first
    ≡ ((decrypt toy start forged).0, err (replayed (replay 0)))
unfolding start seen
decrypt_forged_example = decrypt_forged toy start forged first start-IsValid refl (omega arith)
