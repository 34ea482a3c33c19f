-- ===== src/Identity/Delegation.antt =====
-- origin-identity/src/delegation.rs: signed delegations, chains of them, and their verification.
-- JSON, hexadecimal and the hybrid signatures are the operations of `Hybrid`, which the crate takes
-- from serde_json, hex and origin-crypto-sdk. The random nonce, or its failure, is an argument.
-- Times are numbers of seconds; texts in hexadecimal are given by their bytes.
pub mod Accepted
pub mod Criteria
pub mod Issue
mod Tests
use Prim.Native.String.{String}
use origin_tools.Base.{
  ℕ, zero, suc, ◌+◌, ◌≡◌, Bool, true, false, ◌&&◌, not, Option, none, some, List, [], ◌∷◌, ◌++◌,
  ltb, leb, ◌==◌, if◌then◌else◌, take, drop, length, Result, ok, err, ◌>>=◌, fail_if, u64_mod,
}
use origin_tools.Base.Bytes.{Bytes}
use origin_tools.Base.Eq.{string_eq, bytes_eq}
use origin_tools.Base.Sets.{contains, lookup}
use origin_tools.Identity.Capability.{CapabilitySet, all, intersect, from_bits_truncate}

abbrev pub max_delegation_depth : ℕ
max_delegation_depth = 3

pub record DelegationAttestation : Type 0 where
  pub kind : String
  pub version : ℕ  -- u8
  pub parent_fingerprint : String
  pub child_fingerprint : String
  pub label : String
  pub capabilities : CapabilitySet  -- u64, by its bits
  pub issued_at : ℕ
  pub expires_at : ℕ
  pub audience : Option String
  pub resource_scope : Option String
  pub nonce : String

pub record SignedDelegation : Type 0 where
  pub attestation : DelegationAttestation
  pub parent_falcon_pk : Bytes  -- hexadecimal
  pub parent_ed25519_pk : Bytes
  pub signature : Bytes

abbrev pub DelegationChain : Type 0
DelegationChain = List SignedDelegation

pub record Hybrid : Type 1 where
  pub encode : Bytes → Bytes
  pub decode : Bytes → Option Bytes
  -- `serde_json::to_vec`
  pub to_vec : DelegationAttestation → Option Bytes
  pub EdSignature : Type 0
  pub FalconSignature : Type 0
  pub EdKey : Type 0
  pub FalconKey : Type 0
  pub ed_signature : Bytes → Option EdSignature
  pub falcon_signature : Bytes → Option FalconSignature
  pub ed_key : Bytes → Option EdKey
  pub falcon_key : Bytes → Option FalconKey
  pub verify_hybrid : EdKey → FalconKey → Bytes → EdSignature → FalconSignature → Bool
  -- A parent's keys, and what it signs with them: the Ed25519 and the Falcon signature.
  pub Bundle : Type 0
  pub falcon_pk : Bundle → Bytes
  pub ed_pk : Bundle → Bytes
  pub sign_ed : Bundle → Bytes → Bytes
  pub sign_falcon : Bundle → Bytes → Bytes

pub data DelegationError : Type 0 where
  ttl_zero expiry_overflow nonce_failure serialize_failure : DelegationError
  ed_pk_hex falcon_pk_hex signature_hex signature_short : DelegationError
  bad_ed_signature bad_falcon_signature ed_pk_length bad_ed_pk bad_falcon_pk : DelegationError
  empty_chain untrusted_root root_pk_hex root_pk_mismatch scope_mismatch nonce_replay :
      DelegationError
  too_deep : ℕ → DelegationError
  chain_break expired signature_invalid : ℕ → DelegationError

unfoldable pub capability_set : DelegationAttestation → CapabilitySet
unfolding from_bits_truncate
capability_set att = from_bits_truncate att.capabilities

unfoldable pub is_expired : DelegationAttestation → ℕ → Bool
is_expired att now_secs = leb att.expires_at now_secs

-- A field that is set has to be the text that the verifier gives.
abbrev pub is_met : Option String → Option String → Bool
is_met none given = true
is_met (some want) none = false
is_met (some want) (some given) = string_eq.beq given want

unfoldable pub is_scoped_to : DelegationAttestation → Option String → Option String → Bool
is_scoped_to att verifier_fp resource =
    is_met att.audience verifier_fp && is_met att.resource_scope resource

abbrev pub or_err {ℓ} : {A : Type ℓ} → Option A → DelegationError → Result DelegationError A
or_err (some a) e = ok a
or_err none e = err e

unfoldable pub leaf_fingerprint : DelegationChain → Option String
leaf_fingerprint [] = none
leaf_fingerprint (l ∷ []) = some l.attestation.child_fingerprint
leaf_fingerprint (l ∷ k ∷ links) = leaf_fingerprint (k ∷ links)

module _ (h : Hybrid) where
  unfoldable pub issue_scoped :
      h.Bundle
      → String
      → String
      → String
      → CapabilitySet
      → ℕ
      → ℕ
      → Option String
      → Option String
      → Option String
      → Result DelegationError SignedDelegation
  issue_scoped bundle parent child label capabilities issued_at ttl_secs audience scope nonce =
      fail_if (ttl_secs == 0) ttl_zero >>= λ _.
      fail_if (leb u64_mod (issued_at + ttl_secs)) expiry_overflow >>= λ _.
      or_err nonce nonce_failure >>= λ random_nonce.
      let attestation : DelegationAttestation = record {
        kind = "origin-delegation-v1";
        version = 1;
        parent_fingerprint = parent;
        child_fingerprint = child;
        label = label;
        capabilities = capabilities;
        issued_at = issued_at;
        expires_at = issued_at + ttl_secs;
        audience = audience;
        resource_scope = scope;
        nonce = random_nonce;
      } in
      or_err (h.to_vec attestation) serialize_failure >>= λ canonical. ok record {
        attestation = attestation;
        parent_falcon_pk = h.encode (h.falcon_pk bundle);
        parent_ed25519_pk = h.encode (h.ed_pk bundle);
        signature = h.encode (h.sign_ed bundle canonical ++ h.sign_falcon bundle canonical);
      }

  unfoldable pub issue :
      h.Bundle
      → String
      → String
      → String
      → CapabilitySet
      → ℕ
      → ℕ
      → Option String
      → Result DelegationError SignedDelegation
  unfolding issue_scoped
  issue bundle parent child label capabilities issued_at ttl_secs nonce =
      issue_scoped bundle parent child label capabilities issued_at ttl_secs none none nonce

  -- The body that the two `verify_signature` share: keys and signature in hexadecimal, and the
  -- canonical bytes that are asked for last.
  unfoldable pub check_signature :
      Bytes → Bytes → Bytes → Option Bytes → Result DelegationError Bool
  check_signature ed_hex falcon_hex sig_hex canonical_bytes =
      or_err (h.decode ed_hex) ed_pk_hex >>= λ ed_bytes.
      or_err (h.decode falcon_hex) falcon_pk_hex >>= λ falcon_bytes.
      or_err (h.decode sig_hex) signature_hex >>= λ sig_bytes.
      fail_if (ltb (length sig_bytes) 64) signature_short >>= λ _.
      or_err (h.ed_signature (take 64 sig_bytes)) bad_ed_signature >>= λ ed_sig.
      or_err (h.falcon_signature (drop 64 sig_bytes)) bad_falcon_signature >>= λ falcon_sig.
      fail_if (not (length ed_bytes == 32)) ed_pk_length >>= λ _.
      or_err (h.ed_key ed_bytes) bad_ed_pk >>= λ ed_pk.
      or_err (h.falcon_key falcon_bytes) bad_falcon_pk >>= λ falcon_pk.
      or_err canonical_bytes serialize_failure >>= λ canonical.
      ok (h.verify_hybrid ed_pk falcon_pk canonical ed_sig falcon_sig)

  unfoldable pub verify_signature : SignedDelegation → Result DelegationError Bool
  unfolding check_signature
  verify_signature d =
      check_signature d.parent_ed25519_pk d.parent_falcon_pk d.signature (h.to_vec d.attestation)

  -- `expected_parent` is `none` at the root.
  abbrev pub connects : Option String → DelegationAttestation → Bool
  connects none att = true
  connects (some parent) att = string_eq.beq att.parent_fingerprint parent

  unfoldable pub verify_links :
      ℕ → CapabilitySet → Option String → ℕ → DelegationChain → Result DelegationError CapabilitySet
  unfolding is_expired intersect
  verify_links i effective expected_parent now_secs [] = ok effective
  verify_links i effective expected_parent now_secs (link ∷ links) =
      let rest =
        verify_links (i + 1) (intersect effective (capability_set link.attestation))
          (some link.attestation.child_fingerprint) now_secs links in
      fail_if (not (connects expected_parent link.attestation)) (chain_break i) >>= λ _.
      fail_if (is_expired link.attestation now_secs) (expired i) >>= λ _.
      verify_signature link >>= λ valid. fail_if (not valid) (signature_invalid i) >>= λ _. rest

  abbrev pub root_is_trusted :
      List (String × Bytes) → SignedDelegation → Result DelegationError (Unit {0})
  root_is_trusted trusted_roots root =
      or_err (lookup root.attestation.parent_fingerprint trusted_roots) untrusted_root
      >>= λ authoritative_pk. or_err (h.decode root.parent_falcon_pk) root_pk_hex >>= λ embedded_pk.
          fail_if (not (bytes_eq.beq embedded_pk authoritative_pk)) root_pk_mismatch

  unfoldable pub verify :
      DelegationChain → List (String × Bytes) → ℕ → Result DelegationError CapabilitySet
  unfolding verify_links
  verify [] trusted_roots now_secs = err empty_chain
  verify (root ∷ links) trusted_roots now_secs =
      fail_if (ltb max_delegation_depth (length (root ∷ links))) (too_deep (length (root ∷ links)))
      >>= λ _. root_is_trusted trusted_roots root >>= λ _.
          verify_links 0 all none now_secs (root ∷ links)

  abbrev pub check_scopes :
      DelegationChain
      → Option String
      → Option String
      → List String
      → Result DelegationError (Unit {0})
  check_scopes [] verifier_fp resource seen_nonces = ok tt
  check_scopes (link ∷ links) verifier_fp resource seen_nonces =
      let rest = check_scopes links verifier_fp resource seen_nonces in
      fail_if (not (is_scoped_to link.attestation verifier_fp resource)) scope_mismatch >>= λ _.
      fail_if (contains seen_nonces link.attestation.nonce) nonce_replay >>= λ _. rest

  unfoldable pub verify_scoped :
      DelegationChain
      → List (String × Bytes)
      → ℕ
      → Option String
      → Option String
      → List String
      → Result DelegationError CapabilitySet
  unfolding verify
  verify_scoped links trusted_roots now_secs verifier_fp resource seen_nonces =
      check_scopes links verifier_fp resource seen_nonces >>= λ _.
      verify links trusted_roots now_secs
