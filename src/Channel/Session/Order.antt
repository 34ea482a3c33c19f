-- ===== src/Channel/Session/Order.antt =====
-- Messages of session.rs that arrive in order are all decrypted.
use origin_tools.Base.{
  ℕ, ◌+◌, ◌≤◌, ◌<◌, ◌%◌, ◌≡◌, refl, false, some, arith, length, ok, Result-cases, Option-cases, inl,
  inr, u64_mod,
}
use origin_tools.Base.Bytes.{Bytes}
use origin_tools.Channel.Message.{ChannelMessage, msg_data}
use origin_tools.Channel.Ratchet.{Crypto, IsAead, derive_message_key, next_nonce, counter_to_nonce}
use origin_tools.Channel.Usage.{AeadUsageTracker, check_send, check_recv}
use origin_tools.Channel.Usage.Laws.{check_recv-check_send}
use origin_tools.Channel.Replay.{accept}
use origin_tools.Channel.Replay.Seen.{IsValid, seen}
use origin_tools.Channel.Replay.Accept.{accept-unseen, highest-accept}
use origin_tools.Channel.Session.{RatchetedSession, encrypt, decrypt, open_next}

-- What a successful `encrypt` did, step by step.
pub record Sealed (c : Crypto) (s : RatchetedSession) (p : Bytes) (s' : RatchetedSession)
    (m : ChannelMessage) : Type 0 where
  pub usage : AeadUsageTracker
  pub key : Bytes
  pub chain : Bytes
  pub ciphertext : Bytes
  pub counted : check_send s.usage (length p) ≡ ok usage
  pub derived : derive_message_key c s.keys.send_chain ≡ some (key, chain)
  pub counter : s.send_nonce + 1 < u64_mod
  pub sealed : c.seal key (counter_to_nonce s.send_nonce) p ≡ some ciphertext
  pub after : s' ≡ record s {
    usage = usage;
    keys = record (s.keys) { send_chain = chain };
    send_nonce = s.send_nonce + 1;
    send_seq = (s.send_seq + 1) % u64_mod;
  }
  pub message : m ≡ record {
    msg_type = msg_data;
    seq = s.send_seq;
    nonce = counter_to_nonce s.send_nonce;
    ciphertext = ciphertext;
  }

pub encrypt-Sealed :
    (c : Crypto) (s : RatchetedSession) (p : Bytes) (s' : RatchetedSession) (m : ChannelMessage)
    → s.send_nonce < u64_mod
    → encrypt c s p ≡ (s', ok m)
    → Sealed c s p s' m
unfolding encrypt next_nonce
encrypt-Sealed c s p s' m bound e = elim (Result-cases (check_send s.usage (length p))) [
  | inl (x, h) ↦ absurd (ground arith)
  | inr (u, h) ↦ elim (Option-cases (derive_message_key c s.keys.send_chain)) [
    | inl k ↦ absurd (ground arith)
    | inr ((key, chain), k) ↦ elim (Option-cases (c.seal key (counter_to_nonce s.send_nonce) p)) [
      | inl none_sealed ↦ absurd (ground arith)
      | inr (t, sealed) ↦ record {
        usage = u;
        key = key;
        chain = chain;
        ciphertext = t;
        counted = h;
        derived = k;
        counter = ground arith;
        sealed = sealed;
        after = ground arith;
        message = ground arith;
      }
    ]
  ]
]

-- A sender and a receiver of one epoch, with every message so far delivered in order.
pub record InStep (a b : RatchetedSession) : Type 0 where
  pub chain : a.keys.send_chain ≡ b.keys.recv_chain
  pub limits : a.usage.limits ≡ b.usage.limits
  pub budget : a.usage.send ≡ b.usage.recv
  pub counter : a.send_seq ≡ a.send_nonce
  pub bound : a.send_nonce < u64_mod
  pub window : IsValid b.replay
  pub behind : b.replay.highest ≤ a.send_seq
  pub unseen : (q : ℕ) → a.send_seq ≤ q → seen b.replay q ≡ false

-- What the receiver makes of one message.
pub record Opens (c : Crypto) (a' b : RatchetedSession) (p : Bytes) (m : ChannelMessage)
    : Type 0 where
  pub left : RatchetedSession
  pub result : decrypt c b m ≡ (left, ok p)
  pub in_step : InStep a' left

-- A message whose number is fresh, whose budget is there and whose ciphertext opens is decrypted.
decrypt_lem :
    (c : Crypto) (b : RatchetedSession) (m : ChannelMessage) (v : AeadUsageTracker)
    (key chain p : Bytes)
    → (accept b.replay m.seq).1 ≡ ok tt
    → check_recv b.usage (length m.ciphertext) ≡ ok v
    → derive_message_key c b.keys.recv_chain ≡ some (key, chain)
    → c.unseal key m.nonce m.ciphertext ≡ some p
    → decrypt c b m ≡ (
      record b {
        replay = (accept b.replay m.seq).0;
        usage = v;
        keys = record (b.keys) { recv_chain = chain };
      },
      ok p,
    )
unfolding decrypt open_next
decrypt_lem c b m v key chain p fresh counted derived opened = ground arith

-- The next message of a sender is decrypted to the text that was sent, and both sides stay in step.
pub decrypt-encrypt :
    (c : Crypto) (a b : RatchetedSession) (p : Bytes) (a' : RatchetedSession) (m : ChannelMessage)
    → IsAead c
    → InStep a b
    → encrypt c a p ≡ (a', ok m)
    → Opens c a' b p m
decrypt-encrypt c a b p a' m aead st e =
    let s = encrypt-Sealed c a p a' m st.bound e in
    let (taken, accepted) =
      accept-unseen b.replay a.send_seq st.window (st.unseen a.send_seq (omega arith)) in
    let high = highest-accept b.replay a.send_seq st.behind in
    let (v, counted, lim, bud) =
      check_recv-check_send a.usage b.usage s.usage (length p) (length s.ciphertext) st.limits
        st.budget (aead.tag _ _ _ _ s.sealed) s.counted in
    let derived : derive_message_key c b.keys.recv_chain ≡ some (s.key, s.chain) =
      rw (← st.chain) s.derived in
    let opened = aead.opens _ _ _ _ s.sealed in
    record {
      left = record b {
        replay = (accept b.replay a.send_seq).0;
        usage = v;
        keys = record (b.keys) { recv_chain = s.chain };
      };
      result = rw s.message (decrypt_lem c b _ v s.key s.chain p taken counted derived opened);
      in_step = rw s.after (record {
        chain = refl;
        limits = lim;
        budget = bud;
        counter = omega (arith, st.counter, s.counter);
        bound = s.counter;
        window = accepted.valid;
        behind = omega (arith, high, st.counter, s.counter);
        unseen =
            λ q h. ground (arith, accepted.now_seen q, st.unseen q, high, st.counter, s.counter);
      });
    }
