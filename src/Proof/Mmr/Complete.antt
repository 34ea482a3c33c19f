-- ===== src/Proof/Mmr/Complete.antt =====
-- Proofs of membership of mmr.rs: what `prove` gives, `verify_proof` accepts against the root.
use origin_tools.Base.{
  ℕ, ◌+◌, ◌≡◌, refl, sym, ap, ◌∙◌, Bool, true, false, some, List, [], map, arith, leb, length,
  get_elem?, bind_some, ok,
}
use origin_tools.Base.Bytes.{Bytes}
use origin_tools.Base.Eq.{bytes_eq}
use origin_tools.Canary.Merkle.{Hashing}
use origin_tools.Proof.Mmr.{
  Mountain, MmrState, MembershipProof, proof_of, locate_from, locate_leaf, auth_path, get_node,
  path_from, prove, prove_at, verify_proof, walk, auth_steps, peaks_of, fold_peaks, root,
}
use origin_tools.Proof.Mmr.Levels.{get_elem?-lt, length-map}
use origin_tools.Proof.Mmr.Mountains.{
  IsHashing, All32, get_elem?-All32, decode_hash-encode, get_node-level, top_of, peak-top,
}
use origin_tools.Proof.Mmr.Append.{IsRange, empty, empty-IsRange, append_all, append_all-IsRange}
use origin_tools.Proof.Mmr.Paths.{
  locate_from-Located, peaks_of-ArePeaks, path_from-walk, decode_all-map, set_same,
}

module _ (h : Hashing) (lib : IsHashing h) (version : ℕ) where
  -- A proof of the leaf `x` is made and accepted.
  pub record Proves (s : MmrState) (i : ℕ) (x r : Bytes) : Type 0 where
    pub proof : MembershipProof
    pub makes : prove h s i ≡ some (ok proof)
    pub names : proof.leaf_hash ≡ h.encode x
    pub accepts : verify_proof h proof r ≡ some true

  verify_proof-proof_of :
      (s : MmrState) (i mi : ℕ) (x top : Bytes) (ps : List Bytes) (path : List (Bytes × Bool))
      → s.version ≡ version
      → length x ≡ 32
      → All32 ps
      → walk h version x (auth_steps h path) ≡ some top
      → get_elem? ps mi ≡ some top
      → verify_proof h (proof_of h s i mi ps (x, path)) (fold_peaks h s.version ps) ≡ some true
  unfolding verify_proof
  verify_proof-proof_of s i mi x top ps path v k a leads at_top =
      let walked : walk h s.version x (auth_steps h path) ≡ some top =
        ap (λ u. walk h u x (auth_steps h path)) v ∙ leads in
      let below : leb (length (map h.encode ps)) mi ≡ false =
        ground (arith, length-map h.encode ps, get_elem?-lt ps mi top at_top) in
      rw
        (
          decode_hash-encode h lib version x k,
          walked,
          below,
          decode_all-map h lib version ps a,
          set_same ps mi top at_top,
        )
        (ap some
          ((bytes_eq.beq_iff (fold_peaks h s.version ps) (fold_peaks h s.version ps)).1 refl))

  makes_at :
      (s : MmrState) (i mi j : ℕ) (m : Mountain) (x : Bytes) (ps : List Bytes)
      (path : List (Bytes × Bool))
      → get_elem? s.mountains mi ≡ some m
      → get_node h m 0 j ≡ some x
      → path_from h m.height 0 j m ≡ some path
      → peaks_of h s.mountains ≡ some ps
      → prove_at h s i mi j ≡ some (proof_of h s i mi ps (x, path))
  unfolding prove_at auth_path
  makes_at s i mi j m x ps path a b c d = rw (a, b, c, d) refl

  located :
      (s : MmrState) (leaves : List Bytes) (i mi j : ℕ) (x : Bytes)
      → IsRange h lib version s leaves
      → get_elem? leaves i ≡ some x
      → locate_from 0 i s.mountains ≡ ok (0 + mi, j)
      → locate_leaf s i ≡ ok (mi, j)
  unfolding locate_leaf
  located s leaves i mi j x w e f =
      let inside : leb s.leaf_count i ≡ false =
        ground (arith, w.count, get_elem?-lt leaves i x e) in
      rw inside (f ∙ ap (λ k. ok (k, j)) (omega arith))

  pub prove-Proves :
      (s : MmrState) (leaves : List Bytes) (i : ℕ) (x r : Bytes)
      → IsRange h lib version s leaves
      → All32 leaves
      → get_elem? leaves i ≡ some x
      → root h s ≡ some r
      → Proves s i x r
  unfolding prove root
  prove-Proves s leaves i x r w a e g =
      let l =
        locate_from-Located h lib version 0 i s.mountains w.chunks x w.represents
          (ap (λ t. get_elem? t i) w.order ∙ e) in
      let p = peaks_of-ArePeaks h lib version s.mountains w.chunks w.represents in
      let way =
        path_from-walk h lib version l.mountain.height 0 l.index l.mountain l.leaves x l.holds
          (omega arith) l.leaf in
      let top = top_of h lib version l.mountain l.leaves l.holds in
      let found = located s leaves i l.mountain_idx l.index x w e l.locates in
      let made =
        makes_at s i l.mountain_idx l.index l.mountain x p.hashes way.path l.found
          (get_node-level h lib version l.mountain l.leaves 0 l.index x l.holds (omega arith)
            l.leaf)
          way.finds p.finds in
      let at_top : get_elem? p.hashes l.mountain_idx ≡ some top.top =
        p.stand l.mountain_idx l.mountain l.found
        ∙ peak-top h lib version l.mountain l.leaves l.holds in
      let rooted : some (fold_peaks h s.version p.hashes) ≡ some r =
        sym (ap (λ o. bind_some o (λ ps. some (fold_peaks h s.version ps))) p.finds) ∙ g in
      let same : fold_peaks h s.version p.hashes ≡ r = cc in
      record {
        proof = proof_of h s i l.mountain_idx p.hashes (x, way.path);
        makes = rw (found, made) refl;
        names = refl;
        accepts =
            ap (verify_proof h (proof_of h s i l.mountain_idx p.hashes (x, way.path))) (sym same)
            ∙ verify_proof-proof_of s i l.mountain_idx x top.top p.hashes way.path w.of_version
                (get_elem?-All32 leaves i x a e) p.sound way.leads at_top;
      }

  -- The range over `leaves`, its root, and the proofs of all its leaves.
  pub record Complete (leaves : List Bytes) : Type 0 where
    pub state : MmrState
    pub appends : append_all h (empty version) leaves ≡ some state
    pub counts : state.leaf_count ≡ length leaves
    pub root_hash : Bytes
    pub roots : root h state ≡ some root_hash
    pub proves : (i : ℕ) (x : Bytes) → get_elem? leaves i ≡ some x → Proves state i x root_hash

  -- Where hex decodes what it encodes and the hash has 32 bytes: appending any hashes of 32 bytes to an
  -- empty range of any version succeeds and counts them, the range has a root, and for each of the
  -- hashes `prove` gives a proof that names it and that `verify_proof` accepts against the root.
  pub prove_lem : (leaves : List Bytes) → All32 leaves → Complete leaves
  unfolding root
  prove_lem leaves a =
      let done =
        append_all-IsRange h lib version (empty version) [] leaves (empty-IsRange h lib version)
          a in
      let p =
        peaks_of-ArePeaks h lib version done.state.mountains done.holds.chunks
          done.holds.represents in
      let roots : root h done.state ≡ some (fold_peaks h done.state.version p.hashes) =
        rw (p.finds) refl in
      record {
        state = done.state;
        appends = done.appends;
        counts = done.holds.count;
        root_hash = fold_peaks h done.state.version p.hashes;
        roots = roots;
        proves = λ i x e. prove-Proves done.state leaves i x _ done.holds a e roots;
      }
