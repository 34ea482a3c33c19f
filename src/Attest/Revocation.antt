-- ===== src/Attest/Revocation.antt =====
-- origin-attest/src/revocation.rs: the append-only, hash-chained journal of revocations. SHA3-256
-- and Falcon-1024 are the operations of `Signing`, which the crate takes from origin-crypto-sdk.
-- Timestamps are 64-bit patterns; `revoked_by` and `reason` are given by their UTF-8 bytes.
pub mod Chain
pub mod Signed
mod Tests
use origin_tools.Base.{
  ℕ, suc, ◌+◌, Bool, true, false, ◌||◌, not, Option, none, some, List, [], ◌∷◌, ◌++◌, if◌then◌else◌,
  replicate, Result, ok, err,
}
use origin_tools.Base.Bytes.{Bytes, be64}
use origin_tools.Base.Eq.{bytes_eq}

pub record Signing : Type 1 where
  pub Signer : Type 0
  pub sha3_256 : Bytes → Bytes
  pub hex : Bytes → Bytes
  pub public_key : Signer → Bytes
  -- `none` is an error of the signer.
  pub sign : Signer → Bytes → Option Bytes
  -- Key, message, signature.
  pub verify : Bytes → Bytes → Bytes → Bool

pub record RevocationRecord : Type 0 where
  pub target_hash : Bytes  -- [u8; 32]
  pub revoked_by : Bytes
  pub reason : Bytes
  pub timestamp : ℕ  -- i64, as its bit pattern
  pub prev_hash : Bytes  -- [u8; 32]
  pub signature : Bytes
  pub revoker_falcon_pk : Bytes

pub data SignatureStatus : Type 0 where
  valid unsigned invalid : SignatureStatus

abbrev pub RevocationJournal : Type 0
RevocationJournal = List RevocationRecord

-- `ChainBroken(i)`
pub data ChainError : Type 0 where
  chain_broken : ℕ → ChainError

abbrev pub zero_hash : Bytes
zero_hash = replicate 32 0

unfoldable pub signable_bytes : RevocationRecord → Bytes
signable_bytes r =
    r.target_hash ++ (r.revoked_by ++ (r.reason ++ (be64 r.timestamp ++ r.prev_hash)))

abbrev pub is_empty : Bytes → Bool
is_empty [] = true
is_empty (b ∷ bs) = false

module _ (c : Signing) where
  open c use {Signer, sha3_256, hex, public_key, sign, verify}

  unfoldable pub hash : RevocationRecord → Bytes
  unfolding signable_bytes
  hash r = sha3_256 (signable_bytes r)

  abbrev pub revoker_fingerprint_hex : Bytes → Bytes
  revoker_fingerprint_hex falcon_pk = hex (sha3_256 falcon_pk)

  unfoldable pub verify_signature : RevocationRecord → SignatureStatus
  verify_signature r =
      if is_empty r.signature
      then unsigned
      else if is_empty r.revoker_falcon_pk
      then invalid
      else if not (bytes_eq.beq r.revoked_by (revoker_fingerprint_hex r.revoker_falcon_pk))
      then invalid
      else if not (verify r.revoker_falcon_pk (signable_bytes r) r.signature)
      then invalid
      else valid

  -- The hash of the last record, or zeros.
  abbrev tip_from : Bytes → RevocationJournal → Bytes
  tip_from last [] = last
  tip_from last (r ∷ rs) = tip_from (hash r) rs

  unfoldable pub tip_hash : RevocationJournal → Bytes
  tip_hash j = tip_from zero_hash j

  unfoldable pub append : RevocationJournal → RevocationRecord → RevocationJournal
  append j r = j ++ record r { prev_hash = tip_hash j } ∷ []

  abbrev identified : RevocationJournal → RevocationRecord → Signer → RevocationRecord
  identified j r signer = record r {
    prev_hash = tip_hash j;
    revoker_falcon_pk = public_key signer;
    revoked_by = revoker_fingerprint_hex (public_key signer);
  }

  unfoldable pub append_signed :
      RevocationJournal → RevocationRecord → Signer → Option RevocationJournal
  append_signed j r signer = elim (sign signer (signable_bytes (identified j r signer))) [
    | none ↦ none
    | some signature ↦ some (j ++ record (identified j r signer) { signature = signature } ∷ [])
  ]

  abbrev is_invalid : SignatureStatus → Bool
  is_invalid invalid = true
  is_invalid _ = false

  abbrev invalid_from : ℕ → RevocationJournal → List ℕ
  invalid_from i [] = []
  invalid_from i (r ∷ rs) =
      if is_invalid (verify_signature r)
      then i ∷ invalid_from (i + 1) rs
      else invalid_from (i + 1) rs

  -- The indices of the records whose signatures fail.
  unfoldable pub verify_signatures : RevocationJournal → List ℕ
  verify_signatures j = invalid_from 0 j

  unfoldable pub check_from : ℕ → Bytes → RevocationJournal → Result ChainError (Unit {0})
  check_from i expected [] = ok tt
  check_from i expected (r ∷ rs) =
      let rest = check_from (i + 1) (hash r) rs in
      if bytes_eq.beq r.prev_hash expected then rest else err (chain_broken i)

  unfoldable pub verify_integrity : RevocationJournal → Result ChainError (Unit {0})
  unfolding check_from
  verify_integrity j = check_from 0 zero_hash j

unfoldable pub get_revocation : RevocationJournal → Bytes → Option RevocationRecord
get_revocation [] target = none
get_revocation (r ∷ rs) target =
    if bytes_eq.beq r.target_hash target then some r else get_revocation rs target

unfoldable pub is_revoked : RevocationJournal → Bytes → Bool
is_revoked [] target = false
is_revoked (r ∷ rs) target = bytes_eq.beq r.target_hash target || is_revoked rs target
