-- ===== src/Channel/Session/Stream.antt =====
-- Whole conversations of session.rs in one direction.
use origin_tools.Base.{
  ◌≡◌, refl, sym, ap, ◌∙◌, true, false, Option, none, some, List, [], ◌∷◌, arith, ok, err,
  Result-cases, Option-cases, inl, inr,
}
use origin_tools.Base.Bytes.{Bytes}
use origin_tools.Channel.Message.{ChannelMessage}
use origin_tools.Channel.Ratchet.{Crypto, IsAead, RatchetKeys, init_ratchet, dh_ratchet}
use origin_tools.Channel.Usage.{AeadLimits}
use origin_tools.Channel.Usage
use origin_tools.Channel.Replay
use origin_tools.Channel.Replay.Seen.{IsValid}
use origin_tools.Channel.Replay.Accept.{new-IsValid, seen-new}
use origin_tools.Channel.Session.{RatchetedSession, new, encrypt, decrypt, rotate}
use origin_tools.Channel.Session.Order.{InStep, decrypt-encrypt}

abbrev add_first {ℓ κ} : {S : Type ℓ} {A : Type κ} → A → Option (S × List A) → Option (S × List A)
add_first a none = none
add_first a (some (s, as')) = some (s, a ∷ as')

-- The messages for a list of texts; `none` if a call fails.
unfoldable pub encrypt_all :
    Crypto → RatchetedSession → List Bytes → Option (RatchetedSession × List ChannelMessage)
encrypt_all c s [] = some (s, [])
encrypt_all c s (p ∷ ps) =
    let (s', r) = encrypt c s p in
    elim r [ err e ↦ none | ok m ↦ add_first m (encrypt_all c s' ps) ]

-- The texts of a list of messages; `none` if a call fails.
pub decrypt_all :
    Crypto → RatchetedSession → List ChannelMessage → Option (RatchetedSession × List Bytes)
decrypt_all c s [] = some (s, [])
decrypt_all c s (m ∷ ms) =
    let (s', r) = decrypt c s m in
    elim r [ err e ↦ none | ok p ↦ add_first p (decrypt_all c s' ms) ]

-- What the receiver makes of the messages of a sender that has reached `a'`.
pub record Receives (c : Crypto) (a' b : RatchetedSession) (ps : List Bytes)
    (ms : List ChannelMessage) : Type 0 where
  pub left : RatchetedSession
  pub result : decrypt_all c b ms ≡ some (left, ps)
  pub in_step : InStep a' left

-- If a sender and a receiver are in step and every text of a list is encrypted, then the receiver
-- that gets the messages in order decrypts each of them, to the texts that were sent, and the two
-- are in step again. No budget, window or counter of the receiver stands in the way.
pub decrypt_all-encrypt_all :
    (c : Crypto) (a b : RatchetedSession) (ps : List Bytes) (a' : RatchetedSession)
    (ms : List ChannelMessage)
    → IsAead c
    → InStep a b
    → encrypt_all c a ps ≡ some (a', ms)
    → Receives c a' b ps ms
unfolding encrypt_all decrypt_all
decrypt_all-encrypt_all c a b [] a' ms aead st e =
    let same : a ≡ a' = ground arith in
    let all : ◌≡◌ {A = List ChannelMessage} [] ms = ground arith in
    record { left = b; result = rw (← all); in_step = rw (← same) st }
decrypt_all-encrypt_all c a b (p ∷ ps) a' ms aead st e = elim (Result-cases (encrypt c a p).1) [
  | inl (x, h) ↦ absurd (ground arith)
  | inr (m, h) ↦ elim (Option-cases (encrypt_all c (encrypt c a p).0 ps)) [
    | inl h' ↦ absurd (ground arith)
    | inr ((a'', ms'), h') ↦
        let first =
          decrypt-encrypt c a b p (encrypt c a p).0 m aead st (λ i. ((encrypt c a p).0, h i)) in
        let rest =
          decrypt_all-encrypt_all c (encrypt c a p).0 first.left ps a'' ms' aead first.in_step h' in
        let same : a'' ≡ a' = ground arith in
        let all : m ∷ ms' ≡ ms = ground arith in
        record {
          left = rest.left;
          result = rw (← all) (ground (arith, first.result, rest.result));
          in_step = rw (← same) rest.in_step;
        }
  ]
]

fresh-InStep :
    (k k' : RatchetKeys) (limits : AeadLimits)
    → k.send_chain ≡ k'.recv_chain
    → IsValid (Replay.new 1024)
    → InStep (new k limits) (new k' limits)
unfolding new Usage.new
fresh-InStep k k' limits h window = record {
  chain = h;
  limits = refl;
  budget = refl;
  counter = refl;
  bound = omega arith;
  window = window;
  behind = omega (arith, (seen-new 1024 0).0);
  unseen = λ q h. (seen-new 1024 q).1;
}

-- Two new sessions with the two ends of one handshake secret are in step, in both directions.
pub init_ratchet-InStep :
    (c : Crypto) (secret : Bytes) (limits : AeadLimits) (k k' : RatchetKeys)
    → init_ratchet c secret true ≡ some k
    → init_ratchet c secret false ≡ some k'
    → InStep (new k limits) (new k' limits) × InStep (new k' limits) (new k limits)
unfolding new init_ratchet
init_ratchet-InStep c secret limits k k' e e' =
    let window = new-IsValid 1024 (omega arith) (omega arith) in
    let there : k.send_chain ≡ k'.recv_chain = ground arith in
    let back : k'.send_chain ≡ k.recv_chain = ground arith in
    (fresh-InStep k k' limits there window, fresh-InStep k' k limits back window)

-- The other end's keys: the callers of `dh_ratchet` exchange the chains at one end.
abbrev pub mirrored : RatchetKeys → RatchetKeys
mirrored k = record { root = k.root; send_chain = k.recv_chain; recv_chain = k.send_chain }

rotated-InStep :
    (a b : RatchetedSession) (k k' : RatchetKeys)
    → a.usage.limits ≡ b.usage.limits
    → k.send_chain ≡ k'.recv_chain
    → IsValid (Replay.new 1024)
    → InStep (rotate a k) (rotate b k')
unfolding rotate Usage.reset
rotated-InStep a b k k' l h window = record {
  chain = h;
  limits = l;
  budget = refl;
  counter = refl;
  bound = omega arith;
  window = window;
  behind = omega (arith, (seen-new 1024 0).0);
  unseen = λ q h. (seen-new 1024 q).1;
}

-- Two sessions with one root key and the same limits, wherever they stand, that take the DH ratchet
-- step with the same secret get the same keys; when they rotate to them, one end with the chains
-- exchanged, they are in step again in both directions.
pub rotate-InStep :
    (c : Crypto) (a b : RatchetedSession) (dh_secret : Bytes) (k : RatchetKeys)
    → a.usage.limits ≡ b.usage.limits
    → a.keys.root ≡ b.keys.root
    → dh_ratchet c a.keys.root dh_secret ≡ some k
    → (dh_ratchet c b.keys.root dh_secret ≡ some k)
      × InStep (rotate a k) (rotate b (mirrored k))
      × InStep (rotate b (mirrored k)) (rotate a k)
rotate-InStep c a b dh_secret k l r e =
    let window = new-IsValid 1024 (omega arith) (omega arith) in
    (
      ap (λ root. dh_ratchet c root dh_secret) (sym r) ∙ e,
      rotated-InStep a b k (mirrored k) l refl window,
      rotated-InStep b a (mirrored k) k (sym l) refl window,
    )
