-- ===== src/Identity/Delegation/Criteria.antt =====
-- When the verification of delegation.rs accepts a chain, in terms of the chain's own fields.
use Prim.Native.String.{String}
use mathlib.Core.Path.{fun_ext}
use origin_tools.Base.{
  ℕ, ◌≤◌, ◌<◌, ◌≡◌, ◌↔◌, refl, sym, ap, ◌∙◌, Bool, true, false, not, ◌&&◌, Option, none, some, List,
  [], ◌∷◌, arith, ltb, ◌==◌, ==_iff, length, take, drop, Result, ok, bind-ok, fail_if-ok, fail_if,
}
use origin_tools.Base.Bytes.{Bytes}
use origin_tools.Base.Eq.{string_eq, bytes_eq}
use origin_tools.Base.Sets.{lookup}
use origin_tools.Identity.Capability.{CapabilitySet, all, intersect, from_bits_truncate}
use origin_tools.Identity.Delegation.{
  SignedDelegation, DelegationAttestation, DelegationChain, DelegationError, Hybrid, capability_set,
  is_expired, verify_signature, check_signature, connects, root_is_trusted, verify, or_err,
}
use origin_tools.Identity.Delegation.Accepted.{not-false, narrowed, AllSound, verify_checks}

or_err-ok :
    {A : Type 0} (o : Option A) (e : DelegationError) (a : A)
    → ◌≡◌ {A = Result DelegationError A} (or_err o e) (ok a)
    → o ≡ some a
or_err-ok (some b) e a q = cc
or_err-ok none e a q = cc

at_least : (n k : ℕ) → ltb n k ≡ false → k ≤ n
at_least n k e = grind arith

ok_inj : {A : Type 0} (x y : A) → ◌≡◌ {A = Result DelegationError A} (ok x) (ok y) → x ≡ y
ok_inj x y e = cc

is_false :
    (b : Bool) (e : DelegationError)
    → ◌≡◌ {A = Result DelegationError (Unit {0})} (fail_if b e) (ok tt)
    → b ≡ false
is_false b e q = ground arith

-- The bit is in what every link names.
abbrev pub carries : DelegationChain → ℕ → Bool
carries [] i = true
carries (l ∷ links) i = l.attestation.capabilities i && carries links i

-- A link names the child of the link before it as its parent.
abbrev pub Follows : Option String → DelegationAttestation → Type 0
Follows none att = Unit
Follows (some parent) att = att.parent_fingerprint ≡ parent

narrowed_bits :
    (effective : CapabilitySet) (links : DelegationChain) (i : ℕ)
    → (effective i && ltb i 15) ≡ effective i
    → narrowed effective links i ≡ (effective i && carries links i)
unfolding intersect capability_set from_bits_truncate
narrowed_bits effective [] i h = ground arith
narrowed_bits effective (l ∷ links) i h =
    narrowed_bits (intersect effective (capability_set l.attestation)) links i (ground arith)
    ∙ ground arith

narrowed-all :
    (links : DelegationChain) (i : ℕ) → narrowed all links i ≡ (ltb i 15 && carries links i)
narrowed-all links i = narrowed_bits all links i (ground arith)

module _ (h : Hybrid) where
  -- The link's own keys and signature decode, and the signature is of the link's attestation.
  pub record IsSigned (d : SignedDelegation) : Type 0 where
    pub ed_bytes : Bytes
    pub falcon_bytes : Bytes
    pub sig_bytes : Bytes
    pub canonical : Bytes
    pub ed_sig : h.EdSignature
    pub falcon_sig : h.FalconSignature
    pub ed_pk : h.EdKey
    pub falcon_pk : h.FalconKey
    pub ed_hex : h.decode d.parent_ed25519_pk ≡ some ed_bytes
    pub falcon_hex : h.decode d.parent_falcon_pk ≡ some falcon_bytes
    pub sig_hex : h.decode d.signature ≡ some sig_bytes
    pub long : 64 ≤ length sig_bytes
    pub ed_first : h.ed_signature (take 64 sig_bytes) ≡ some ed_sig
    pub falcon_rest : h.falcon_signature (drop 64 sig_bytes) ≡ some falcon_sig
    pub ed_width : length ed_bytes ≡ 32
    pub ed_reads : h.ed_key ed_bytes ≡ some ed_pk
    pub falcon_reads : h.falcon_key falcon_bytes ≡ some falcon_pk
    pub of_attestation : h.to_vec d.attestation ≡ some canonical
    pub valid : h.verify_hybrid ed_pk falcon_pk canonical ed_sig falcon_sig ≡ true

  IsSigned-verify_signature : (d : SignedDelegation) → verify_signature h d ≡ ok true → IsSigned d
  unfolding verify_signature check_signature
  IsSigned-verify_signature d e =
      let (ed_bytes, q1, e1) = bind-ok (or_err (h.decode d.parent_ed25519_pk) _) _ true e in
      let (falcon_bytes, q2, e2) = bind-ok (or_err (h.decode d.parent_falcon_pk) _) _ true e1 in
      let (sig_bytes, q3, e3) = bind-ok (or_err (h.decode d.signature) _) _ true e2 in
      let (long, e4) = fail_if-ok (ltb (length sig_bytes) 64) _ _ true e3 in
      let (ed_sig, q5, e5) = bind-ok (or_err (h.ed_signature (take 64 sig_bytes)) _) _ true e4 in
      let (falcon_sig, q6, e6) =
        bind-ok (or_err (h.falcon_signature (drop 64 sig_bytes)) _) _ true e5 in
      let (width, e7) = fail_if-ok (not (length ed_bytes == 32)) _ _ true e6 in
      let (ed_pk, q8, e8) = bind-ok (or_err (h.ed_key ed_bytes) _) _ true e7 in
      let (falcon_pk, q9, e9) = bind-ok (or_err (h.falcon_key falcon_bytes) _) _ true e8 in
      let (canonical, q10, e10) = bind-ok (or_err (h.to_vec d.attestation) _) _ true e9 in
      record {
        ed_bytes = ed_bytes;
        falcon_bytes = falcon_bytes;
        sig_bytes = sig_bytes;
        canonical = canonical;
        ed_sig = ed_sig;
        falcon_sig = falcon_sig;
        ed_pk = ed_pk;
        falcon_pk = falcon_pk;
        ed_hex = or_err-ok (h.decode d.parent_ed25519_pk) _ ed_bytes q1;
        falcon_hex = or_err-ok (h.decode d.parent_falcon_pk) _ falcon_bytes q2;
        sig_hex = or_err-ok (h.decode d.signature) _ sig_bytes q3;
        long = at_least (length sig_bytes) 64 long;
        ed_first = or_err-ok (h.ed_signature (take 64 sig_bytes)) _ ed_sig q5;
        falcon_rest = or_err-ok (h.falcon_signature (drop 64 sig_bytes)) _ falcon_sig q6;
        ed_width = (==_iff _ _).0 (not-false _ width);
        ed_reads = or_err-ok (h.ed_key ed_bytes) _ ed_pk q8;
        falcon_reads = or_err-ok (h.falcon_key falcon_bytes) _ falcon_pk q9;
        of_attestation = or_err-ok (h.to_vec d.attestation) _ canonical q10;
        valid = ok_inj _ _ e10;
      }

  verify_signature-IsSigned : (d : SignedDelegation) → IsSigned d → verify_signature h d ≡ ok true
  unfolding verify_signature check_signature
  verify_signature-IsSigned d s =
      let long : ltb (length s.sig_bytes) 64 ≡ false = grind (arith, s.long) in
      let width : (length s.ed_bytes == 32) ≡ true = (==_iff _ _).1 s.ed_width in
      rw
        (
          s.ed_hex, s.falcon_hex, s.sig_hex, long, s.ed_first, s.falcon_rest, width, s.ed_reads,
          s.falcon_reads, s.of_attestation, s.valid,
        )
        refl

  -- One link of a chain after a link for `expected`.
  pub record IsValid (now : ℕ) (expected : Option String) (d : SignedDelegation) : Type 0 where
    pub follows : Follows expected d.attestation
    pub unexpired : now < d.attestation.expires_at
    pub signed : IsSigned d

  abbrev pub AllValid : ℕ → Option String → DelegationChain → Type 0
  AllValid now expected [] = Unit
  AllValid now expected (d ∷ links) =
      IsValid now expected d × AllValid now (some d.attestation.child_fingerprint) links

  connects-Follows :
      (expected : Option String) (att : DelegationAttestation)
      → (connects h expected att ≡ true) ↔ Follows expected att
  connects-Follows none att = (λ e. tt, λ f. refl)
  connects-Follows (some parent) att = string_eq.beq_iff att.parent_fingerprint parent

  is_expired-unexpired :
      (att : DelegationAttestation) (now : ℕ)
      → (is_expired att now ≡ false) ↔ (now < att.expires_at)
  unfolding is_expired
  is_expired-unexpired att now = (λ e. grind arith, λ l. grind arith)

  AllSound-AllValid :
      (now : ℕ) (expected : Option String) (links : DelegationChain)
      → AllSound h now expected links ↔ AllValid now expected links
  AllSound-AllValid now expected [] = (λ s. tt, λ s. tt)
  AllSound-AllValid now expected (d ∷ links) =
      let below = AllSound-AllValid now (some d.attestation.child_fingerprint) links in
      (
        λ s. (
          record {
            follows = (connects-Follows expected d.attestation).0 s.0.connected;
            unexpired = (is_expired-unexpired d.attestation now).0 s.0.fresh;
            signed = IsSigned-verify_signature d s.0.signed;
          },
          below.0 s.1,
        ),
        λ v. (
          record {
            connected = (connects-Follows expected d.attestation).1 v.0.follows;
            fresh = (is_expired-unexpired d.attestation now).1 v.0.unexpired;
            signed = verify_signature-IsSigned d v.0.signed;
          },
          below.1 v.1,
        ),
      )

  -- The first key listed for the root's parent is the Falcon key that the root carries.
  pub record IsTrusted (roots : List (String × Bytes)) (root : SignedDelegation) : Type 0 where
    pub pk : Bytes
    pub listed : lookup root.attestation.parent_fingerprint roots ≡ some pk
    pub embedded : h.decode root.parent_falcon_pk ≡ some pk

  root_is_trusted-IsTrusted :
      (roots : List (String × Bytes)) (root : SignedDelegation)
      → (root_is_trusted h roots root ≡ ok tt) ↔ IsTrusted roots root
  root_is_trusted-IsTrusted roots root = (
    λ e.
        let (pk, q1, e1) =
          bind-ok (or_err (lookup root.attestation.parent_fingerprint roots) _) _ tt e in
        let (own, q2, e2) = bind-ok (or_err (h.decode root.parent_falcon_pk) _) _ tt e1 in
        let same = (bytes_eq.beq_iff own pk).0 (not-false _ (is_false _ _ e2)) in
        record {
          pk = pk;
          listed = or_err-ok (lookup root.attestation.parent_fingerprint roots) _ pk q1;
          embedded = or_err-ok (h.decode root.parent_falcon_pk) _ own q2 ∙ ap (λ k. some k) same;
        },
    λ t. rw (t.listed, t.embedded, (bytes_eq.beq_iff t.pk t.pk).1 refl) refl,
  )

  -- A chain that is accepted, and the capabilities it is accepted with.
  pub record IsAccepted (roots : List (String × Bytes)) (now : ℕ) (root : SignedDelegation)
      (links : DelegationChain) (caps : CapabilitySet) : Type 0 where
    pub depth : length (root ∷ links) ≤ 3
    pub trusted : IsTrusted roots root
    pub all_valid : AllValid now none (root ∷ links)
    pub computed : (i : ℕ) → caps i ≡ (ltb i 15 && carries (root ∷ links) i)

  -- `verify` accepts a chain of a root and further links exactly when: the links are three at most; the
  -- key listed for the root's parent is the Falcon key that the root carries; every link names the
  -- child of the link before it as its parent, expires after now, and has a signature that the crypto
  -- library finds valid, of the link's own attestation and by the two keys that the link carries; and
  -- the capabilities are, of the 15 defined ones, those that every link names.
  pub verify_lem :
      (roots : List (String × Bytes)) (now : ℕ) (root : SignedDelegation) (links : DelegationChain)
      (caps : CapabilitySet)
      → (verify h (root ∷ links) roots now ≡ ok caps) ↔ IsAccepted roots now root links caps
  verify_lem roots now root links caps =
      let checks = verify_checks h roots now root links caps in
      let sound = AllSound-AllValid now none (root ∷ links) in
      let root_ok = root_is_trusted-IsTrusted roots root in
      (
        λ e.
            let c = checks.0 e in
            record {
              depth = c.depth;
              trusted = root_ok.0 c.trusted;
              all_valid = sound.0 c.sound;
              computed = λ i. ap (λ k. k i) c.computed ∙ narrowed-all (root ∷ links) i;
            },
        λ a. checks.1 (record {
          depth = a.depth;
          trusted = root_ok.1 a.trusted;
          sound = sound.1 a.all_valid;
          computed = fun_ext λ i. a.computed i ∙ sym (narrowed-all (root ∷ links) i);
        }),
      )
