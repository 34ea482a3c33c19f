-- ===== src/Attest/Revocation/Signed.antt =====
-- Signed records of revocation.rs: what `append_signed` adds passes the check of signatures.
use origin_tools.Base.{
  ℕ, ◌+◌, ◌≡◌, refl, ◌||◌, true, false, Option, none, some, [], ◌∷◌, ◌++◌, arith, ◌⊎◌, inl, inr,
}
use origin_tools.Base.Bytes.{Bytes}
use origin_tools.Base.Eq.{bytes_eq}
use origin_tools.Attest.Revocation.{
  Signing, RevocationRecord, RevocationJournal, valid, is_empty, append_signed, verify_signature,
  verify_signatures, invalid_from, signable_bytes, identified, revoker_fingerprint_hex, is_revoked,
}

beq_refl : (b : Bytes) → bytes_eq.beq b b ≡ true
beq_refl b = (bytes_eq.beq_iff b b).1 refl

is_revoked_snoc :
    (j : RevocationJournal) (r : RevocationRecord) (target : Bytes)
    → is_revoked (j ++ r ∷ []) target ≡ (is_revoked j target || bytes_eq.beq r.target_hash target)
unfolding is_revoked
is_revoked_snoc [] r target = ground arith
is_revoked_snoc (s ∷ j) r target = ground (arith, is_revoked_snoc j r target)

Option-cases : (o : Option Bytes) → (o ≡ none) ⊎ ((b : Bytes) × (o ≡ some b))
Option-cases none = inl refl
Option-cases (some b) = inr (b, refl)

module _ (c : Signing) where
  open c use {Signer, public_key, sign, verify}

  invalid_from_snoc :
      (i : ℕ) (j : RevocationJournal) (r : RevocationRecord)
      → verify_signature c r ≡ valid
      → invalid_from c i (j ++ r ∷ []) ≡ invalid_from c i j
  invalid_from_snoc i [] r e = rw e refl
  invalid_from_snoc i (s ∷ j) r e = rw (invalid_from_snoc (i + 1) j r e) refl

  -- The record that the signer's own signature goes on.
  abbrev signed_record : RevocationJournal → RevocationRecord → Signer → Bytes → RevocationRecord
  signed_record j r s signature = record (identified c j r s) { signature = signature }

  signed_record-valid :
      (j : RevocationJournal) (r : RevocationRecord) (s : Signer) (signature : Bytes)
      → is_empty (public_key s) ≡ false
      → is_empty signature ≡ false
      → verify (public_key s) (signable_bytes (identified c j r s)) signature ≡ true
      → verify_signature c (signed_record j r s signature) ≡ valid
  unfolding verify_signature signable_bytes
  signed_record-valid j r s signature hk hs v =
      rw (hs, hk, beq_refl (revoker_fingerprint_hex c (public_key s)), v) refl

  -- With a signer whose keys and signatures are not empty and whose signatures verify under its
  -- own key, whenever `append_signed` returns a journal: the same indices fail the signature
  -- check as before, and the target now counts as revoked.
  pub verify_signatures-append_signed :
      (s : Signer)
      → is_empty (public_key s) ≡ false
      → ((m signature : Bytes) → sign s m ≡ some signature → is_empty signature ≡ false)
      → ((m signature : Bytes)
          → sign s m ≡ some signature
          → verify (public_key s) m signature ≡ true)
      → (j j' : RevocationJournal) (r : RevocationRecord) → append_signed c j r s ≡ some j'
      → (verify_signatures c j' ≡ verify_signatures c j) × (is_revoked j' r.target_hash ≡ true)
  unfolding append_signed verify_signatures
  verify_signatures-append_signed s hk hs hv j j' r e =
      let m = signable_bytes (identified c j r s) in
      elim (Option-cases (sign s m)) [
        | inl o ↦ absurd (cc)
        | inr (b, o) ↦
            let same : j' ≡ j ++ signed_record j r s b ∷ [] = cc in
            rw same (
              invalid_from_snoc 0 j (signed_record j r s b)
                  (signed_record-valid j r s b hk (hs m b o) (hv m b o)),
              ground (
                arith,
                is_revoked_snoc j (signed_record j r s b) r.target_hash,
                beq_refl r.target_hash,
              ),
            )
      ]
