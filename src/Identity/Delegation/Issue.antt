-- ===== src/Identity/Delegation/Issue.antt =====
-- Delegations that delegation.rs issues verify, whoever issues them.
use Prim.Native.String.{String}
use origin_tools.Base.{
  ℕ, ◌+◌, ◌<◌, ◌≡◌, refl, sym, ap, subst, ◌∙◌, true, false, Option, none, some, List, [], ◌∷◌, ◌++◌,
  arith, ltb, leb, ◌==◌, length, length-append, take_append_of_length, drop_append_of_length,
  Result, ok, bind-ok, fail_if-ok, u64_mod,
}
use origin_tools.Base.Bytes.{Bytes}
use origin_tools.Identity.Capability.{CapabilitySet, intersect}
use origin_tools.Identity.Delegation.{
  DelegationAttestation, SignedDelegation, DelegationChain, Hybrid, DelegationError, capability_set,
  is_expired, or_err, issue_scoped, check_signature, verify_signature, verify, leaf_fingerprint,
}
use origin_tools.Identity.Delegation.Accepted.{verify_unbound}

-- What a bundle's signature of `m` has to be parsed to.
pub record Verifies (h : Hybrid) (b : h.Bundle) (m : Bytes) : Type 0 where
  pub ed_sig : h.EdSignature
  pub falcon_sig : h.FalconSignature
  pub ed_key : h.EdKey
  pub falcon_key : h.FalconKey
  pub ed_sig_parsed : h.ed_signature (h.sign_ed b m) ≡ some ed_sig
  pub falcon_sig_parsed : h.falcon_signature (h.sign_falcon b m) ≡ some falcon_sig
  pub ed_key_parsed : h.ed_key (h.ed_pk b) ≡ some ed_key
  pub falcon_key_parsed : h.falcon_key (h.falcon_pk b) ≡ some falcon_key
  pub verified : h.verify_hybrid ed_key falcon_key m ed_sig falcon_sig ≡ true

-- What the libraries document: what hex encodes it decodes, an Ed25519 signature has 64 bytes and a
-- key 32, and a signature verifies under the keys of the bundle that made it.
pub record IsHybrid (h : Hybrid) : Type 0 where
  pub decodes : (b : Bytes) → h.decode (h.encode b) ≡ some b
  pub ed_length : (b : h.Bundle) (m : Bytes) → length (h.sign_ed b m) ≡ 64
  pub ed_pk_length : (b : h.Bundle) → length (h.ed_pk b) ≡ 32
  pub verifies : (b : h.Bundle) (m : Bytes) → Verifies h b m

or_err-ok :
    {A : Type 0} (o : Option A) (x : DelegationError) (a : A) → or_err o x ≡ ok a → o ≡ some a
or_err-ok (some b) x a e = cc
or_err-ok none x a e = cc

ok-injective : {A : Type 0} (a b : A) → ◌≡◌ {A = Result DelegationError A} (ok a) (ok b) → a ≡ b
ok-injective a b e = cc

module _ (h : Hybrid) (lib : IsHybrid h) where
  check_signature-sign :
      (b : h.Bundle) (m : Bytes)
      → check_signature h
          (h.encode (h.ed_pk b))
          (h.encode (h.falcon_pk b))
          (h.encode (h.sign_ed b m ++ h.sign_falcon b m))
          (some m)
        ≡ ok true
  unfolding check_signature
  check_signature-sign b m =
      let v = lib.verifies b m in
      let long : ltb (length (h.sign_ed b m ++ h.sign_falcon b m)) 64 ≡ false =
        grind (arith, length-append (h.sign_ed b m) (h.sign_falcon b m), lib.ed_length b m) in
      let ed_part =
        take_append_of_length 64 (h.sign_ed b m) (h.sign_falcon b m) (lib.ed_length b m) in
      let falcon_part =
        drop_append_of_length 64 (h.sign_ed b m) (h.sign_falcon b m) (lib.ed_length b m) in
      rw
        (
          lib.decodes (h.ed_pk b),
          lib.decodes (h.falcon_pk b),
          lib.decodes (h.sign_ed b m ++ h.sign_falcon b m),
          long,
          ed_part,
          falcon_part,
          v.ed_sig_parsed,
          v.falcon_sig_parsed,
          lib.ed_pk_length b,
          v.ed_key_parsed,
          v.falcon_key_parsed,
          v.verified,
        )
        refl

  abbrev signed_by : h.Bundle → DelegationAttestation → Bytes → SignedDelegation
  signed_by b att m = record {
    attestation = att;
    parent_falcon_pk = h.encode (h.falcon_pk b);
    parent_ed25519_pk = h.encode (h.ed_pk b);
    signature = h.encode (h.sign_ed b m ++ h.sign_falcon b m);
  }

  verify_signature-signed_by :
      (b : h.Bundle) (att : DelegationAttestation) (m : Bytes)
      → h.to_vec att ≡ some m
      → verify_signature h (signed_by b att m) ≡ ok true
  unfolding verify_signature
  verify_signature-signed_by b att m e =
      ap
        (check_signature h (h.encode (h.ed_pk b)) (h.encode (h.falcon_pk b))
          (h.encode (h.sign_ed b m ++ h.sign_falcon b m)))
        e
      ∙ check_signature-sign b m

  not_expired :
      (d : SignedDelegation) (now : ℕ)
      → now < d.attestation.expires_at
      → is_expired d.attestation now ≡ false
  unfolding is_expired
  not_expired d now early = grind arith

  -- What `issue_scoped` returns.
  pub record IsIssued (parent child : String) (capabilities : CapabilitySet) (issued_at ttl : ℕ)
      (d : SignedDelegation) : Type 0 where
    pub signed : verify_signature h d ≡ ok true
    pub from_parent : d.attestation.parent_fingerprint ≡ parent
    pub to_child : d.attestation.child_fingerprint ≡ child
    pub grants : d.attestation.capabilities ≡ capabilities
    pub expires : d.attestation.expires_at ≡ issued_at + ttl
    pub lasts : 0 < ttl
    pub fits : issued_at + ttl < u64_mod

  -- A delegation that `issue_scoped` returns verifies under the keys that it embeds, names the
  -- parent, the child and the capabilities that it was asked for, and expires after a lifetime that is
  -- not zero, at a time that fits in 64 bits.
  pub issue_scoped-IsIssued :
      (b : h.Bundle) (parent child label : String) (capabilities : CapabilitySet)
      (issued_at ttl : ℕ) (audience scope nonce : Option String) (d : SignedDelegation)
      → issue_scoped h b parent child label capabilities issued_at ttl audience scope nonce ≡ ok d
      → IsIssued parent child capabilities issued_at ttl d
  unfolding issue_scoped
  issue_scoped-IsIssued b parent child label capabilities issued_at ttl audience scope nonce d e =
      let (lasts, e1) = fail_if-ok (ttl == 0) _ _ d e in
      let (fits, e2) = fail_if-ok (leb u64_mod (issued_at + ttl)) _ _ d e1 in
      let (random, drawn, e3) = bind-ok (or_err nonce _) _ d e2 in
      let att : DelegationAttestation = record {
        kind = "origin-delegation-v1";
        version = 1;
        parent_fingerprint = parent;
        child_fingerprint = child;
        label = label;
        capabilities = capabilities;
        issued_at = issued_at;
        expires_at = issued_at + ttl;
        audience = audience;
        resource_scope = scope;
        nonce = random;
      } in
      let (m, canonical, e4) = bind-ok (or_err (h.to_vec att) _) _ d e3 in
      let same : signed_by b att m ≡ d = ok-injective (signed_by b att m) d e4 in
      subst (IsIssued parent child capabilities issued_at ttl) same (record {
        signed = verify_signature-signed_by b att m (or_err-ok (h.to_vec att) _ m canonical);
        from_parent = refl;
        to_child = refl;
        grants = refl;
        expires = refl;
        lasts = grind (arith, lasts);
        fits = grind (arith, fits);
      })

  -- A chain of one or two links is no stronger than its leaf's name: with any bundle of keys at all,
  -- somebody who knows the leaf's fingerprint issues a further link in its name to a child of their
  -- own, and until that link expires the longer chain is accepted.
  pub verify_impostor :
      (roots : List (String × Bytes)) (now : ℕ) (root : SignedDelegation) (links : DelegationChain)
      (caps : CapabilitySet) (b : h.Bundle) (leaf child label : String) (wanted : CapabilitySet)
      (issued_at ttl : ℕ) (audience scope nonce : Option String) (d : SignedDelegation)
      → verify h (root ∷ links) roots now ≡ ok caps
      → length (root ∷ links) < 3
      → leaf_fingerprint (root ∷ links) ≡ some leaf
      → issue_scoped h b leaf child label wanted issued_at ttl audience scope nonce ≡ ok d
      → now < issued_at + ttl
      → (verify h (root ∷ (links ++ d ∷ [])) roots now
          ≡ ok (intersect caps (capability_set d.attestation)))
        × (leaf_fingerprint (d ∷ []) ≡ some child)
        × (d.attestation.capabilities ≡ wanted)
  unfolding leaf_fingerprint
  verify_impostor roots now root links caps b leaf child label wanted issued_at ttl audience scope
        nonce d e short named made early =
      let i =
        issue_scoped-IsIssued b leaf child label wanted issued_at ttl audience scope nonce d made in
      (
        verify_unbound h roots now root links caps d e short (named ∙ ap some (sym i.from_parent))
            (not_expired d now (subst (λ t. now < t) (sym i.expires) early)) i.signed,
        ap some i.to_child,
        i.grants,
      )
