-- ===== src/Channel/Ratchet.antt =====
-- origin-channel/src/ratchet.rs and nonce_tracker.rs: the key schedule, and the nonce counter.
-- HKDF and the AEAD are the operations of `Crypto`, which the crate takes from origin-crypto-sdk.
use Prim.Native.String.{String}
use origin_tools.Base.{
  ℕ, ◌+◌, ◌≡◌, Bool, Option, none, some, ◌++◌, ◌==◌, if◌then◌else◌, length, take, drop, replicate,
  u64_mod, ◌-◌,
}
use origin_tools.Base.Bytes.{Bytes, le64}

pub record Crypto : Type 0 where
  -- Input key, salt, label and the length of the output; `none` is an error.
  pub hkdf : Bytes → Option Bytes → String → ℕ → Option Bytes
  -- Key, nonce and text.
  pub seal : Bytes → Bytes → Bytes → Option Bytes
  pub unseal : Bytes → Bytes → Bytes → Option Bytes

-- What a session relies on: a sealed text opens under its key and nonce, and is a tag longer.
pub record IsAead (c : Crypto) : Type 0 where
  pub opens : (k n p t : Bytes) → c.seal k n p ≡ some t → c.unseal k n t ≡ some p
  pub tag : (k n p t : Bytes) → c.seal k n p ≡ some t → length t ≡ length p + 16

pub record RatchetKeys : Type 0 where
  pub root : Bytes
  pub send_chain : Bytes
  pub recv_chain : Bytes

-- `okm[0..32]`, `okm[32..64]` and `okm[64..96]`.
abbrev split_okm : Bytes → RatchetKeys
split_okm okm = record {
  root = take 32 okm;
  send_chain = take 32 (drop 32 okm);
  recv_chain = take 32 (drop 64 okm);
}

abbrev cross : Bool → RatchetKeys → RatchetKeys
cross is_initiator k =
    if is_initiator
    then k
    else record { root = k.root; send_chain = k.recv_chain; recv_chain = k.send_chain }

unfoldable pub init_ratchet : Crypto → Bytes → Bool → Option RatchetKeys
init_ratchet c shared_secret is_initiator =
    elim (c.hkdf shared_secret none "origin-channel:ratchet:v1" 96) [
      | none ↦ none
      | some okm ↦ some (cross is_initiator (split_okm okm))
    ]

-- The message key and the next chain key.
unfoldable pub derive_message_key : Crypto → Bytes → Option (Bytes × Bytes)
derive_message_key c chain_key = elim (c.hkdf chain_key none "origin-channel:message:v1" 32) [
  | none ↦ none
  | some msg_key ↦ elim (c.hkdf chain_key none "origin-channel:chain:v1" 32) [
    | none ↦ none
    | some next_chain ↦ some (msg_key, next_chain)
  ]
]

unfoldable pub dh_ratchet : Crypto → Bytes → Bytes → Option RatchetKeys
dh_ratchet c root_key dh_shared_secret =
    elim (c.hkdf root_key (some dh_shared_secret) "origin-channel:dh-ratchet:v1" 96) [
      | none ↦ none
      | some okm ↦ some (split_okm okm)
    ]

-- 8 bytes of counter, then 16 zeros.
abbrev pub counter_to_nonce : ℕ → Bytes
counter_to_nonce counter = le64 counter ++ replicate 16 0

-- The nonce and the counter after it; the last value of the counter is never used.
unfoldable pub next_nonce : ℕ → Option (Bytes × ℕ)
next_nonce next = if next == u64_mod - 1 then none else some (counter_to_nonce next, next + 1)
