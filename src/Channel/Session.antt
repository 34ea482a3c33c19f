-- ===== src/Channel/Session.antt =====
-- origin-channel/src/session.rs: the session that puts the ratchet, the nonce counter, the replay
-- window and the usage budgets together. Each call returns the session that it leaves behind, also
-- where it fails: what was changed before the failing step stays changed.
pub mod Order
pub mod Stream
pub mod Safety
mod Tests
use origin_tools.Base.{ℕ, ◌+◌, ◌≡◌, Option, none, some, List, length, Result, ok, err, u64}
use origin_tools.Base.Bytes.{Bytes}
use origin_tools.Channel.Message.{ChannelMessage, msg_data}
use origin_tools.Channel.Ratchet.{Crypto, RatchetKeys, derive_message_key, next_nonce}
use origin_tools.Channel.Replay
use origin_tools.Channel.Replay.{ReplayWindow, ReplayError}
use origin_tools.Channel.Usage
use origin_tools.Channel.Usage.{AeadLimits, AeadUsageTracker, UsageError, check_send, check_recv}

pub record RatchetedSession : Type 0 where
  pub keys : RatchetKeys
  pub send_nonce : ℕ
  pub replay : ReplayWindow
  pub usage : AeadUsageTracker
  pub send_seq : ℕ  -- u64

pub data SessionError : Type 0 where
  over_limit : UsageError → SessionError
  replayed : ReplayError → SessionError
  key_failure nonce_exhausted decryption : SessionError

unfoldable pub new : RatchetKeys → AeadLimits → RatchetedSession
new keys limits = record {
  keys = keys;
  send_nonce = 0;
  replay = Replay.new 1024;
  usage = Usage.new limits;
  send_seq = 0;
}

module _ (c : Crypto) where
  -- The part of `encrypt` after the budget was checked and the send chain has moved on.
  seal_next :
      RatchetedSession → Bytes → Bytes → RatchetedSession × Result SessionError ChannelMessage
  seal_next s msg_key plaintext = elim (next_nonce s.send_nonce) [
    | none ↦ (s, err nonce_exhausted)
    | some (nonce, next) ↦ elim (c.seal msg_key nonce plaintext) [
      | none ↦ (record s { send_nonce = next }, err key_failure)
      | some ciphertext ↦ (
        record s { send_nonce = next; send_seq = u64 (s.send_seq + 1) },
        ok (record {
          msg_type = msg_data;
          seq = s.send_seq;
          nonce = nonce;
          ciphertext = ciphertext;
        }),
      )
    ]
  ]

  pub encrypt : RatchetedSession → Bytes → RatchetedSession × Result SessionError ChannelMessage
  unfolding seal_next
  encrypt s plaintext = elim (check_send s.usage (length plaintext)) [
    | err e ↦ (s, err (over_limit e))
    | ok usage ↦ elim (derive_message_key c s.keys.send_chain) [
      | none ↦ (record s { usage = usage }, err key_failure)
      | some (msg_key, next_chain) ↦
          seal_next (record s { usage = usage; keys = record (s.keys) { send_chain = next_chain } })
            msg_key plaintext
    ]
  ]

  abbrev opened : RatchetedSession → Option Bytes → RatchetedSession × Result SessionError Bytes
  opened s none = (s, err decryption)
  opened s (some plaintext) = (s, ok plaintext)

  -- The part of `decrypt` after the replay window has taken the number.
  open_next : RatchetedSession → ChannelMessage → RatchetedSession × Result SessionError Bytes
  open_next s m = elim (check_recv s.usage (length m.ciphertext)) [
    | err e ↦ (s, err (over_limit e))
    | ok usage ↦ elim (derive_message_key c s.keys.recv_chain) [
      | none ↦ (record s { usage = usage }, err key_failure)
      | some (recv_key, next_chain) ↦
          opened (record s { usage = usage; keys = record (s.keys) { recv_chain = next_chain } })
            (c.unseal recv_key m.nonce m.ciphertext)
    ]
  ]

  pub decrypt : RatchetedSession → ChannelMessage → RatchetedSession × Result SessionError Bytes
  decrypt s m =
      let (window, verdict) = Replay.accept s.replay m.seq in
      elim verdict [
        | err e ↦ (record s { replay = window }, err (replayed e))
        | ok _ ↦ open_next (record s { replay = window }) m
      ]

unfoldable pub rotate : RatchetedSession → RatchetKeys → RatchetedSession
rotate s new_keys = record {
  keys = new_keys;
  send_nonce = 0;
  replay = Replay.new 1024;
  usage = Usage.reset s.usage;
  send_seq = 0;
}
