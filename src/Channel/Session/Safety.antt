-- ===== src/Channel/Session/Safety.antt =====
-- What session.rs prevents: replays, and two messages under one nonce.
use origin_tools.Base.{
  ℕ, ◌+◌, ◌-◌, ◌≤◌, ◌<◌, ◌≡◌, ◌≢◌, refl, sym, ◌∙◌, replicate, true, false, List, [], ◌∷◌, arith, ok,
  err, u64_mod,
}
use origin_tools.Base.Bytes.{Bytes, le64_injective}
use origin_tools.Channel.Message.{ChannelMessage}
use origin_tools.Channel.Ratchet.{Crypto, counter_to_nonce, next_nonce}
use origin_tools.Channel.Replay.{ReplayError, replay, accept}
use origin_tools.Channel.Replay.Seen.{IsValid, seen}
use origin_tools.Channel.Replay.Accept.{
  accept_all, accept-seen, accept-unseen, lowest-accept, accept_all-accept_replay,
}
use origin_tools.Channel.Session.{
  RatchetedSession, replayed, encrypt, decrypt, open_next, seal_next,
}

-- What a receiver does between two rotations: it decrypts, and it encrypts.
pub data Turn : Type 0 where
  receive : ChannelMessage → Turn
  send : Bytes → Turn

unfoldable pub turn : Crypto → RatchetedSession → Turn → RatchetedSession
turn c s (receive m) = (decrypt c s m).0
turn c s (send p) = (encrypt c s p).0

unfoldable pub turns : Crypto → RatchetedSession → List Turn → RatchetedSession
turns c s [] = s
turns c s (t ∷ ts) = turns c (turn c s t) ts

received : List Turn → List ℕ
received [] = []
received (receive m ∷ ts) = m.seq ∷ received ts
received (send p ∷ ts) = received ts

replay-decrypt :
    (c : Crypto) (s : RatchetedSession) (m : ChannelMessage)
    → (decrypt c s m).0.replay ≡ (accept s.replay m.seq).0
unfolding decrypt open_next
replay-decrypt c s m = ground arith

replay-encrypt :
    (c : Crypto) (s : RatchetedSession) (p : Bytes) → (encrypt c s p).0.replay ≡ s.replay
unfolding encrypt seal_next
replay-encrypt c s p = ground arith

replay-turns :
    (c : Crypto) (s : RatchetedSession) (ts : List Turn)
    → (turns c s ts).replay ≡ accept_all s.replay (received ts)
unfolding turns turn received accept_all
replay-turns c s [] = refl
replay-turns c s (receive m ∷ ts) =
    ground (arith, replay-decrypt c s m, replay-turns c (decrypt c s m).0 ts)
replay-turns c s (send p ∷ ts) =
    ground (arith, replay-encrypt c s p, replay-turns c (encrypt c s p).0 ts)

decrypt_refused :
    (c : Crypto) (s : RatchetedSession) (m : ChannelMessage) (e : ReplayError)
    → accept s.replay m.seq ≡ (s.replay, err e)
    → decrypt c s m ≡ (s, err (replayed e))
unfolding decrypt
decrypt_refused c s m e h = ground arith

-- In a session with a valid window, once a message has been handed to `decrypt`, whatever came of
-- it, every later message of the same epoch with its sequence number is refused as a replay, and
-- the refusal changes nothing.
pub decrypt-turns_replay :
    (c : Crypto) (s : RatchetedSession) (m m' : ChannelMessage) (ts : List Turn)
    → IsValid s.replay
    → m'.seq ≡ m.seq
    → let s' = turns c (decrypt c s m).0 ts in decrypt c s' m' ≡ (s', err (replayed (replay m.seq)))
decrypt-turns_replay c s m m' ts v e =
    let s' = turns c (decrypt c s m).0 ts in
    let window : s'.replay ≡ accept_all (accept s.replay m.seq).0 (received ts) =
      cc (replay-turns c (decrypt c s m).0 ts, replay-decrypt c s m) in
    decrypt_refused c s' m' (replay m.seq)
      (rw (window, e) (accept_all-accept_replay s.replay m.seq (received ts) v))

-- The nonce of the message that `encrypt` makes, and how the counter moves.
encrypt_counter :
    (c : Crypto) (s : RatchetedSession) (p : Bytes)
    → s.send_nonce ≤ u64_mod - 1
    → (s.send_nonce ≤ (encrypt c s p).0.send_nonce)
      × ((encrypt c s p).0.send_nonce ≤ u64_mod - 1)
      × ((m : ChannelMessage)
          → (encrypt c s p).1 ≡ ok m
          → (m.nonce ≡ counter_to_nonce s.send_nonce)
            × (s.send_nonce < u64_mod - 1)
            × ((encrypt c s p).0.send_nonce ≡ s.send_nonce + 1))
unfolding encrypt seal_next next_nonce
encrypt_counter c s p h =
    (ground arith, ground arith, λ m e. (ground arith, ground arith, ground arith))

decrypt_counter :
    (c : Crypto) (s : RatchetedSession) (m : ChannelMessage)
    → (decrypt c s m).0.send_nonce ≡ s.send_nonce
unfolding decrypt open_next
decrypt_counter c s m = ground arith

turns_counter :
    (c : Crypto) (s : RatchetedSession) (ts : List Turn)
    → s.send_nonce ≤ u64_mod - 1
    → (s.send_nonce ≤ (turns c s ts).send_nonce) × ((turns c s ts).send_nonce ≤ u64_mod - 1)
unfolding turns turn
turns_counter c s [] h = (omega arith, h)
turns_counter c s (receive m ∷ ts) h =
    let e = decrypt_counter c s m in
    let (lo, hi) = turns_counter c (decrypt c s m).0 ts (omega (arith, e)) in
    (omega (arith, lo, e), hi)
turns_counter c s (send p ∷ ts) h =
    let (up, cap, _) = encrypt_counter c s p h in
    let (lo, hi) = turns_counter c (encrypt c s p).0 ts cap in (omega (arith, lo, up), hi)

-- Two messages that one session encrypts in one epoch never have the same nonce, whatever the
-- session sends and receives in between.
pub encrypt-turns_nonce :
    (c : Crypto) (s : RatchetedSession) (p p' : Bytes) (ts : List Turn) (m m' : ChannelMessage)
    → s.send_nonce ≤ u64_mod - 1
    → (encrypt c s p).1 ≡ ok m
    → (encrypt c (turns c (encrypt c s p).0 ts) p').1 ≡ ok m'
    → m.nonce ≢ m'.nonce
encrypt-turns_nonce c s p p' ts m m' h e e' same =
    let (_, cap, first) = encrypt_counter c s p h in
    let (n, below, after) = first m e in
    let (lo, hi) = turns_counter c (encrypt c s p).0 ts cap in
    let (_, _, second) = encrypt_counter c (turns c (encrypt c s p).0 ts) p' hi in
    let (n', below', _) = second m' e' in
    let equal =
      le64_injective s.send_nonce (turns c (encrypt c s p).0 ts).send_nonce (replicate 16 0)
        (omega arith) (omega (arith, below')) (sym n ∙ same ∙ n') in
    omega (arith, equal, lo, after)

-- A forged message that nobody authenticated still moves the receiver's window. If its number is
-- fresh, then after it every message whose number is a window's size or more below is refused as a
-- replay, though it may never have been received.
pub decrypt_forged :
    (c : Crypto) (s : RatchetedSession) (forged m : ChannelMessage)
    → IsValid s.replay
    → seen s.replay forged.seq ≡ false
    → m.seq + s.replay.window_size ≤ forged.seq
    → decrypt c (decrypt c s forged).0 m ≡ ((decrypt c s forged).0, err (replayed (replay m.seq)))
decrypt_forged c s forged m v fresh far =
    let (_, a) = accept-unseen s.replay forged.seq v fresh in
    let w = (accept s.replay forged.seq).0 in
    let old : seen w m.seq ≡ true =
      a.now_seen m.seq ∙ ground (arith, lowest-accept s.replay forged.seq v fresh) in
    let refused : accept w m.seq ≡ (w, err (replay m.seq)) = accept-seen w m.seq a.valid old in
    decrypt_refused c (decrypt c s forged).0 m (replay m.seq)
      (rw (replay-decrypt c s forged) refused)
