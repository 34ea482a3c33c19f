-- ===== src/Identity/Delegation/Accepted.antt =====
-- What the verification of delegation.rs lets through, and what it takes a chain to be let through.
use Prim.Native.String.{String}
use origin_tools.Base.{
  ℕ, ◌+◌, ◌≤◌, ◌<◌, ◌≡◌, ◌↔◌, refl, sym, ap, subst, ◌∙◌, Bool, true, false, not, ◌&&◌, Option, none,
  some, List, [], ◌∷◌, ◌++◌, arith, ltb, length, length-append, ok, bind-ok, fail_if-ok,
}
use origin_tools.Base.Bytes.{Bytes}
use origin_tools.Base.Eq.{string_eq, bytes_eq}
use origin_tools.Base.Sets.{contains}
use origin_tools.Identity.Capability.{CapabilitySet, all, intersect, is_subset_of}
use origin_tools.Identity.Capability.Laws.{of-Within, is_subset_of-intersect}
use origin_tools.Identity.Delegation.{
  SignedDelegation, DelegationChain, Hybrid, max_delegation_depth, capability_set, is_expired,
  is_scoped_to, verify_signature, connects, verify_links, root_is_trusted, verify, leaf_fingerprint,
  check_scopes, verify_scoped, is_met,
}

-- The capabilities that the links leave of `effective`.
abbrev pub narrowed : CapabilitySet → DelegationChain → CapabilitySet
narrowed effective [] = effective
narrowed effective (l ∷ links) = narrowed (intersect effective (capability_set l.attestation)) links

pub not-false : (b : Bool) → not b ≡ false → b ≡ true
not-false b e = ground arith

module _ (h : Hybrid) where
  -- One link that the loop passes after a link for `expected`.
  pub record IsSound (now : ℕ) (expected : Option String) (l : SignedDelegation) : Type 0 where
    pub connected : connects h expected l.attestation ≡ true
    pub fresh : is_expired l.attestation now ≡ false
    pub signed : verify_signature h l ≡ ok true

  abbrev pub AllSound : ℕ → Option String → DelegationChain → Type 0
  AllSound now expected [] = Unit
  AllSound now expected (l ∷ links) =
      IsSound now expected l × AllSound now (some l.attestation.child_fingerprint) links

  verify_links-AllSound :
      (i : ℕ) (effective : CapabilitySet) (expected : Option String) (now : ℕ)
      (links : DelegationChain) (caps : CapabilitySet)
      → verify_links h i effective expected now links ≡ ok caps
      → AllSound now expected links × (caps ≡ narrowed effective links)
  unfolding verify_links
  verify_links-AllSound i effective expected now [] caps e = (tt, ground arith)
  verify_links-AllSound i effective expected now (l ∷ links) caps e =
      let rest =
        verify_links h (i + 1) (intersect effective (capability_set l.attestation))
          (some l.attestation.child_fingerprint) now links in
      let (joined, e1) = fail_if-ok (not (connects h expected l.attestation)) _ _ caps e in
      let (fresh, e2) = fail_if-ok (is_expired l.attestation now) _ _ caps e1 in
      let (valid, checked, e3) = bind-ok (verify_signature h l) _ caps e2 in
      let (good, e4) = fail_if-ok (not valid) _ rest caps e3 in
      let below =
        verify_links-AllSound (i + 1) (intersect effective (capability_set l.attestation))
          (some l.attestation.child_fingerprint) now links caps e4 in
      (
        (
          record {
            connected = not-false _ joined;
            fresh = fresh;
            signed = checked ∙ ap ok (not-false valid good);
          },
          below.0,
        ),
        below.1,
      )

  AllSound-verify_links :
      (i : ℕ) (effective : CapabilitySet) (expected : Option String) (now : ℕ)
      (links : DelegationChain)
      → AllSound now expected links
      → verify_links h i effective expected now links ≡ ok (narrowed effective links)
  unfolding verify_links
  AllSound-verify_links i effective expected now [] s = refl
  AllSound-verify_links i effective expected now (l ∷ links) s =
      let (sound, rest) = s in
      rw (sound.connected, sound.fresh, sound.signed)
        (AllSound-verify_links (i + 1) (intersect effective (capability_set l.attestation))
          (some l.attestation.child_fingerprint) now links rest)

  -- Each check that `verify` makes, and what it computes.
  pub record IsChecked (roots : List (String × Bytes)) (now : ℕ) (root : SignedDelegation)
      (links : DelegationChain) (caps : CapabilitySet) : Type 0 where
    pub depth : length (root ∷ links) ≤ 3
    pub trusted : root_is_trusted h roots root ≡ ok tt
    pub sound : AllSound now none (root ∷ links)
    pub computed : caps ≡ narrowed all (root ∷ links)

  -- `verify` accepts a chain exactly when its checks pass.
  pub verify_checks :
      (roots : List (String × Bytes)) (now : ℕ) (root : SignedDelegation) (links : DelegationChain)
      (caps : CapabilitySet)
      → (verify h (root ∷ links) roots now ≡ ok caps) ↔ IsChecked roots now root links caps
  unfolding verify
  verify_checks roots now root links caps = (
    λ e.
        let (depth, e1) =
          fail_if-ok (ltb max_delegation_depth (length (root ∷ links))) _ _ caps e in
        let (u, trusted, e2) = bind-ok (root_is_trusted h roots root) _ caps e1 in
        let walk = verify_links-AllSound 0 all none now (root ∷ links) caps e2 in
        record { depth = grind arith; trusted = trusted; sound = walk.0; computed = walk.1 },
    λ a.
        let shallow : ltb max_delegation_depth (length (root ∷ links)) ≡ false =
          grind (arith, a.depth) in
        rw (shallow, a.trusted)
          (AllSound-verify_links 0 all none now (root ∷ links) a.sound ∙ ap ok (sym a.computed)),
  )

  and_both : (x y : Bool) → true ≡ (x && y) → (x ≡ true) × (y ≡ true)
  and_both x y e = ground arith

  intersect_below :
      (a b c : CapabilitySet)
      → is_subset_of c (intersect a b) ≡ true
      → (is_subset_of c a ≡ true) × (is_subset_of c b ≡ true)
  intersect_below a b c e = and_both _ _ (sym e ∙ (is_subset_of-intersect a b c).0)

  -- A set that is within what every link grants.
  abbrev pub IsGranted : CapabilitySet → DelegationChain → Type 0
  IsGranted caps [] = Unit
  IsGranted caps (l ∷ links) =
      (is_subset_of caps (capability_set l.attestation) ≡ true) × IsGranted caps links

  narrowed-IsGranted :
      (effective : CapabilitySet) (links : DelegationChain)
      → (is_subset_of (narrowed effective links) effective ≡ true)
        × IsGranted (narrowed effective links) links
  narrowed-IsGranted effective [] = (of-Within effective effective (λ i l e. e), tt)
  narrowed-IsGranted effective (l ∷ links) =
      let below = narrowed-IsGranted (intersect effective (capability_set l.attestation)) links in
      let parts = intersect_below effective (capability_set l.attestation) _ below.0 in
      (parts.0, (parts.1, below.1))

  -- The capabilities of an accepted chain are within what each of its links grants and within the
  -- defined ones: no link can widen what another one delegated.
  pub verify-IsGranted :
      (roots : List (String × Bytes)) (now : ℕ) (root : SignedDelegation) (links : DelegationChain)
      (caps : CapabilitySet)
      → verify h (root ∷ links) roots now ≡ ok caps
      → (is_subset_of caps all ≡ true) × IsGranted caps (root ∷ links)
  verify-IsGranted roots now root links caps e =
      let a = (verify_checks roots now root links caps).0 e in
      subst (λ k. (is_subset_of k all ≡ true) × IsGranted k (root ∷ links)) (sym a.computed)
        (narrowed-IsGranted all (root ∷ links))

  abbrev next_expected : Option String → DelegationChain → Option String
  next_expected expected [] = expected
  next_expected expected (l ∷ links) = next_expected (some l.attestation.child_fingerprint) links

  next_expected-leaf_fingerprint :
      (expected : Option String) (root : SignedDelegation) (links : DelegationChain)
      → next_expected expected (root ∷ links) ≡ leaf_fingerprint (root ∷ links)
  unfolding leaf_fingerprint
  next_expected-leaf_fingerprint expected root [] = refl
  next_expected-leaf_fingerprint expected root (l ∷ links) =
      next_expected-leaf_fingerprint none l links

  AllSound-snoc :
      (now : ℕ) (expected : Option String) (links : DelegationChain) (l : SignedDelegation)
      → AllSound now expected links
      → IsSound now (next_expected expected links) l
      → AllSound now expected (links ++ l ∷ [])
  AllSound-snoc now expected [] l s t = (t, tt)
  AllSound-snoc now expected (k ∷ links) l s t = (s.0, AllSound-snoc now _ links l s.1 t)

  narrowed-snoc :
      (effective : CapabilitySet) (links : DelegationChain) (l : SignedDelegation)
      → narrowed effective (links ++ l ∷ [])
        ≡ intersect (narrowed effective links) (capability_set l.attestation)
  narrowed-snoc effective [] l = refl
  narrowed-snoc effective (k ∷ links) l =
      narrowed-snoc (intersect effective (capability_set k.attestation)) links l

  -- To an accepted chain of one or two links anyone can add a link that names the leaf as its parent,
  -- whatever keys it is signed with: if it is not expired and signed by the keys that it names itself,
  -- the longer chain is accepted, with the leaf's capabilities that the new link asks for.
  pub verify_unbound :
      (roots : List (String × Bytes)) (now : ℕ) (root : SignedDelegation) (links : DelegationChain)
      (caps : CapabilitySet) (l : SignedDelegation)
      → verify h (root ∷ links) roots now ≡ ok caps
      → length (root ∷ links) < 3
      → leaf_fingerprint (root ∷ links) ≡ some l.attestation.parent_fingerprint
      → is_expired l.attestation now ≡ false
      → verify_signature h l ≡ ok true
      → verify h (root ∷ (links ++ l ∷ [])) roots now
        ≡ ok (intersect caps (capability_set l.attestation))
  verify_unbound roots now root links caps l e short leaf fresh signed =
      let a = (verify_checks roots now root links caps).0 e in
      let joins = next_expected-leaf_fingerprint none root links ∙ leaf in
      let sound : IsSound now (next_expected none (root ∷ links)) l = record {
        connected = rw joins (
            (string_eq.beq_iff l.attestation.parent_fingerprint l.attestation.parent_fingerprint).1
              refl);
        fresh = fresh;
        signed = signed;
      } in
      (verify_checks roots now root (links ++ l ∷ []) _).1 (record {
        depth = omega (arith, length-append links (l ∷ []));
        trusted = a.trusted;
        sound = AllSound-snoc now none (root ∷ links) l a.sound sound;
        computed =
            ap (λ k. intersect k (capability_set l.attestation)) a.computed
            ∙ sym (narrowed-snoc all (root ∷ links) l);
      })

  -- A field that is not set allows any verifier or resource; one that is set, only the same text.
  abbrev pub IsMeant : Option String → Option String → Type 0
  IsMeant none given = Unit
  IsMeant (some want) given = given ≡ some want

  IsMeant-is_met : (field given : Option String) → is_met field given ≡ true → IsMeant field given
  IsMeant-is_met none given e = tt
  IsMeant-is_met (some want) none e = cc
  IsMeant-is_met (some want) (some given) e = ap some ((string_eq.beq_iff given want).0 e)

  both_true : (a b : Bool) → (a && b) ≡ true → (a ≡ true) × (b ≡ true)
  both_true a b e = ground arith

  -- Every link is meant for this verifier and this resource, and none has a nonce that was seen.
  abbrev pub AllScoped : Option String → Option String → List String → DelegationChain → Type 0
  AllScoped verifier_fp resource seen_nonces [] = Unit
  AllScoped verifier_fp resource seen_nonces (l ∷ links) =
      IsMeant l.attestation.audience verifier_fp
      × IsMeant l.attestation.resource_scope resource
      × (contains seen_nonces l.attestation.nonce ≡ false)
      × AllScoped verifier_fp resource seen_nonces links

  check_scopes-AllScoped :
      (links : DelegationChain) (verifier_fp resource : Option String) (seen_nonces : List String)
      → check_scopes h links verifier_fp resource seen_nonces ≡ ok tt
      → AllScoped verifier_fp resource seen_nonces links
  unfolding is_scoped_to
  check_scopes-AllScoped [] verifier_fp resource seen_nonces e = tt
  check_scopes-AllScoped (l ∷ links) verifier_fp resource seen_nonces e =
      let (scoped, e1) =
        fail_if-ok (not (is_scoped_to l.attestation verifier_fp resource)) _ _ tt e in
      let (unseen, e2) = fail_if-ok (contains seen_nonces l.attestation.nonce) _ _ tt e1 in
      let (reader, thing) =
        both_true (is_met l.attestation.audience verifier_fp)
          (is_met l.attestation.resource_scope resource) (not-false _ scoped) in
      (
        IsMeant-is_met l.attestation.audience verifier_fp reader,
        IsMeant-is_met l.attestation.resource_scope resource thing,
        unseen,
        check_scopes-AllScoped links verifier_fp resource seen_nonces e2,
      )

  -- What `verify_scoped` accepts `verify` accepts with the same capabilities, every link of it is
  -- meant for the given verifier and resource where it names them, and no nonce of it was seen before.
  pub verify_scoped-AllScoped :
      (links : DelegationChain) (roots : List (String × Bytes)) (now : ℕ)
      (verifier_fp resource : Option String) (seen_nonces : List String) (caps : CapabilitySet)
      → verify_scoped h links roots now verifier_fp resource seen_nonces ≡ ok caps
      → (verify h links roots now ≡ ok caps) × AllScoped verifier_fp resource seen_nonces links
  unfolding verify_scoped
  verify_scoped-AllScoped links roots now verifier_fp resource seen_nonces caps e =
      let (u, scoped, e1) =
        bind-ok (check_scopes h links verifier_fp resource seen_nonces) _ caps e in
      (e1, check_scopes-AllScoped links verifier_fp resource seen_nonces scoped)
