-- ===== src/Attest/Revocation/Tests.antt =====
-- Runs of the revocation journal, with operations small enough to compute.
use origin_tools.Base.{◌≡◌, refl, true, Option, none, some, [], ◌∷◌, take, replicate, ok, ◌++◌}
use origin_tools.Base.Eq.{bytes_eq}
use origin_tools.Attest.Revocation.{
  Signing, RevocationRecord, RevocationJournal, append, append_signed, verify_integrity,
  verify_signatures, is_revoked, signable_bytes, check_from, tip_hash, hash,
}
use origin_tools.Attest.Revocation.Signed.{verify_signatures-append_signed}

-- A "signature" that is the key before the message.
abbrev toy : Signing
toy = record {
  Signer = Unit;
  sha3_256 = take 32;
  hex = λ b. b;
  public_key = λ s. 7 ∷ [];
  sign = λ s m. some (7 ∷ m);
  verify = λ pk m sig. bytes_eq.beq (pk ++ m) sig;
}

abbrev plain : RevocationRecord
plain = record {
  target_hash = replicate 32 9;
  revoked_by = 65 ∷ [];
  reason = 66 ∷ [];
  timestamp = 1700000000;
  prev_hash = replicate 32 1;
  signature = [];
  revoker_falcon_pk = [];
}

abbrev one : RevocationJournal
unfolding append tip_hash
one = append toy [] plain

one_checks : verify_integrity toy one ≡ ok tt
unfolding verify_integrity check_from one
one_checks = refl

some_injective_of : {A : Type 0} (a b : A) → some a ≡ some b → a ≡ b
some_injective_of a b e = cc

abbrev or_empty : Option RevocationJournal → RevocationJournal
or_empty none = []
or_empty (some j) = j

abbrev two : RevocationJournal
unfolding append_signed tip_hash hash signable_bytes
two = or_empty (append_signed toy one plain tt)

verify_signatures-append_signed_example :
    (verify_signatures toy two ≡ verify_signatures toy one)
    × (is_revoked two plain.target_hash ≡ true)
unfolding append_signed tip_hash hash signable_bytes
verify_signatures-append_signed_example =
    verify_signatures-append_signed toy tt refl (λ m signature e. cc)
      (λ m signature e.
        rw (← some_injective_of (7 ∷ m) signature e) ((bytes_eq.beq_iff (7 ∷ m) (7 ∷ m)).1 refl))
      one two plain refl
