-- ===== src/Identity/Delegation/Tests.antt =====
-- Chains of delegations over toy signatures: a Falcon signature is the key before the message.
use Prim.Native.String.{String}
use native.Mathlib.Omega.{arith}
use origin_tools.Base.{
  ℕ, ◌≡◌, ◌↔◌, refl, true, none, some, List, [], ◌∷◌, ◌++◌, replicate, Result, ok, err,
}
use origin_tools.Base.Bytes.{Bytes}
use origin_tools.Base.Eq.{bytes_eq}
use origin_tools.Identity.Capability.{
  CapabilitySet, all, none as no_capability, intersect, is_subset_of,
}
use origin_tools.Identity.Delegation.{
  SignedDelegation, Hybrid, DelegationError, capability_set, issue_scoped, issue, check_signature,
  verify_signature, verify_links, verify, leaf_fingerprint, verify_scoped, is_expired, is_scoped_to,
  nonce_replay,
}
use origin_tools.Identity.Delegation.Accepted.{
  IsGranted, AllScoped, verify-IsGranted, verify_scoped-AllScoped,
}
use origin_tools.Identity.Delegation.Criteria.{IsAccepted, verify_lem}
use origin_tools.Identity.Delegation.Issue.{IsHybrid, verify_impostor}

abbrev toy : Hybrid
toy = record {
  encode = λ b. b;
  decode = λ b. some b;
  to_vec = λ a. some (a.issued_at ∷ a.expires_at ∷ []);
  EdSignature = Bytes;
  FalconSignature = Bytes;
  EdKey = Bytes;
  FalconKey = Bytes;
  ed_signature = λ b. some b;
  falcon_signature = λ b. some b;
  ed_key = λ b. some b;
  falcon_key = λ b. some b;
  verify_hybrid = λ ek fk m es fs. bytes_eq.beq (fk ++ m) fs;
  Bundle = ℕ;
  falcon_pk = λ b. b ∷ [];
  ed_pk = λ b. replicate 32 b;
  sign_ed = λ b m. replicate 64 b;
  sign_falcon = λ b m. b ∷ m;
}

toy-IsHybrid : IsHybrid toy
toy-IsHybrid = record {
  decodes = λ b. refl;
  ed_length = λ b m. refl;
  ed_pk_length = λ b. refl;
  verifies = λ b m. record {
    ed_sig = replicate 64 b;
    falcon_sig = b ∷ m;
    ed_key = replicate 32 b;
    falcon_key = b ∷ [];
    ed_sig_parsed = refl;
    falcon_sig_parsed = refl;
    ed_key_parsed = refl;
    falcon_key_parsed = refl;
    verified = (bytes_eq.beq_iff (b ∷ m) (b ∷ m)).1 refl;
  };
}

abbrev or_given : SignedDelegation → Result DelegationError SignedDelegation → SignedDelegation
or_given d (ok e) = e
or_given d (err x) = d

abbrev blank : SignedDelegation
blank = record {
  attestation = record {
    kind = "";
    version = 0;
    parent_fingerprint = "";
    child_fingerprint = "";
    label = "";
    capabilities = no_capability;
    issued_at = 0;
    expires_at = 0;
    audience = none;
    resource_scope = none;
    nonce = "";
  };
  parent_falcon_pk = [];
  parent_ed25519_pk = [];
  signature = [];
}

-- The root, with key 5, delegates to "mid".
abbrev root : SignedDelegation
unfolding issue issue_scoped
root = or_given blank (issue toy 5 "root" "mid" "agent" all 1000 3600 (some "n1"))

abbrev roots : List (String × Bytes)
roots = ("root", 5 ∷ []) ∷ []

abbrev root_caps : CapabilitySet
unfolding intersect capability_set
root_caps = intersect all (capability_set root.attestation)

root_accepted : verify toy (root ∷ []) roots 2000 ≡ ok root_caps
unfolding verify verify_links verify_signature check_signature is_expired root root_caps intersect
    capability_set
root_accepted = refl

verify_lem_example :
    (verify toy (root ∷ []) roots 2000 ≡ ok root_caps) ↔ IsAccepted toy roots 2000 root [] root_caps
verify_lem_example = verify_lem toy roots 2000 root [] root_caps

verify-IsGranted_example : (is_subset_of root_caps all ≡ true) × IsGranted toy root_caps (root ∷ [])
verify-IsGranted_example = verify-IsGranted toy roots 2000 root [] root_caps root_accepted

verify_scoped-AllScoped_example :
    (verify toy (root ∷ []) roots 2000 ≡ ok root_caps)
    × AllScoped toy (some "me") none ("n0" ∷ []) (root ∷ [])
verify_scoped-AllScoped_example =
    verify_scoped-AllScoped toy (root ∷ []) roots 2000 (some "me") none ("n0" ∷ []) root_caps
      (unfold verify_scoped is_scoped_to root issue issue_scoped in root_accepted)

seen_nonce_refused :
    verify_scoped toy (root ∷ []) roots 2000 none none ("n1" ∷ []) ≡ err nonce_replay
unfolding verify_scoped is_scoped_to root issue issue_scoped
seen_nonce_refused = refl

-- Key 9 belongs to nobody that the root knows.
abbrev forged : SignedDelegation
unfolding issue_scoped
forged = or_given blank (issue_scoped toy 9 "mid" "mallory" "x" all 1500 3600 none none (some "n2"))

verify_impostor_example :
    (verify toy (root ∷ forged ∷ []) roots 2000
      ≡ ok (intersect root_caps (capability_set forged.attestation)))
    × (leaf_fingerprint (forged ∷ []) ≡ some "mallory")
    × (forged.attestation.capabilities ≡ all)
verify_impostor_example =
    verify_impostor toy toy-IsHybrid roots 2000 root [] root_caps 9 "mid" "mallory" "x" all 1500
      3600 none none (some "n2") forged root_accepted (omega arith)
      (unfold leaf_fingerprint root issue issue_scoped in refl) (unfold issue_scoped forged in refl)
      (omega arith)
