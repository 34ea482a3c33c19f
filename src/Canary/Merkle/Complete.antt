-- ===== src/Canary/Merkle/Complete.antt =====
-- Every leaf of a tree of merkle.rs has a proof that is accepted.
use origin_tools.Base.{
  ℕ, zero, suc, ◌/◌, ◌≤◌, ◌≡◌, refl, sym, ◌∙◌, ap, true, Option, none, some, List, [], ◌∷◌, arith,
  ltb, if◌then◌else◌, length, get_elem?, Bool-cases, inl, inr,
}
use origin_tools.Base.Bytes.{Bytes}
use origin_tools.Base.Eq.{bytes_eq}
use origin_tools.Canary.Merkle.{
  Hashing, MerkleTree, sibling_idx, sibling_of, proof_from, get_merkle_proof, levels_from, root_of,
  tree_of, build_merkle_tree, walk, verify_proof,
}
use origin_tools.Canary.Merkle.Pairs.{
  AllHex, pairs, next_level-pairs, DecodesEncoded, pairs-AllHex, length-pairs, or_self, parent,
  get_elem?-pairs,
}

module _ (h : Hashing) where
  -- The levels where every text is hexadecimal.
  abbrev levels_of : ℕ → List Bytes → List (List Bytes)
  levels_of zero level = level ∷ []
  levels_of (suc n) level =
      let rest = levels_of n (pairs h level) in
      if ltb 1 (length level) then level ∷ rest else level ∷ []

  levels_from-levels_of :
      DecodesEncoded h
      → (n : ℕ) (level : List Bytes) → AllHex h level
      → levels_from h n level ≡ some (levels_of n level)
  unfolding levels_from
  levels_from-levels_of d zero level v = refl
  levels_from-levels_of d (suc n) level v = elim (Bool-cases (ltb 1 (length level))) [
    | inl more ↦
        rw
          (
            more,
            next_level-pairs h level v,
            levels_from-levels_of d n (pairs h level) (pairs-AllHex h d level),
          )
          refl
    | inr one ↦ rw one refl
  ]

  some-or_self : (x : Bytes) (o : Option Bytes) → sibling_of o (some x) ≡ or_self h x o ∷ []
  some-or_self x none = refl
  some-or_self x (some y) = refl

  sibling_of_self :
      (level : List Bytes) (i : ℕ) (x : Bytes)
      → get_elem? level i ≡ some x
      → sibling_of (get_elem? level (sibling_idx i)) (get_elem? level i)
        ≡ or_self h x (get_elem? level (sibling_idx i)) ∷ []
  sibling_of_self level i x e = rw e (some-or_self x (get_elem? level (sibling_idx i)))

  lone-root_of :
      (level : List Bytes) (i : ℕ) (x : Bytes)
      → length level ≤ 1
      → get_elem? level i ≡ some x
      → x ≡ root_of h (level ∷ [])
  lone-root_of [] i x l e = cc
  lone-root_of (a ∷ []) zero x l e = cc
  lone-root_of (a ∷ []) (suc i) x l e = cc
  lone-root_of (a ∷ b ∷ rest) i x l e = absurd (omega arith)

  alone :
      (level : List Bytes) (i : ℕ) (x : Bytes)
      → length level ≤ 1
      → get_elem? level i ≡ some x
      → walk h x (proof_from (level ∷ []) i) i ≡ root_of h (level ∷ [])
  unfolding walk proof_from
  alone level i x l e = lone-root_of level i x l e

  -- A walk through a level goes on from the parent.
  walk-parent :
      (level next : List Bytes) (rest levels : List (List Bytes)) (i : ℕ) (x : Bytes)
      → levels ≡ next ∷ rest
      → get_elem? level i ≡ some x
      → walk h x (proof_from (level ∷ levels) i) i
        ≡ walk h
            (parent h i x (or_self h x (get_elem? level (sibling_idx i))))
            (proof_from levels (i / 2))
            (i / 2)
  unfolding walk proof_from
  walk-parent level next rest levels i x c e = rw (c, sibling_of_self level i x e) refl

  levels_of_cons :
      (n : ℕ) (level : List Bytes) → (rest : List (List Bytes)) × (levels_of n level ≡ level ∷ rest)
  levels_of_cons zero level = ([], refl)
  levels_of_cons (suc n) level = elim (Bool-cases (ltb 1 (length level))) [
    | inl more ↦ (levels_of n (pairs h level), rw more refl)
    | inr one ↦ ([], rw one refl)
  ]

  root_of_cons :
      (level next : List Bytes) (rest levels : List (List Bytes))
      → levels ≡ next ∷ rest
      → root_of h (level ∷ levels) ≡ root_of h levels
  root_of_cons [] next rest levels c = rw c refl
  root_of_cons (a ∷ level) next rest levels c = rw c refl

  -- The root of one level on is the root of that level.
  walk-levels_of :
      (n : ℕ) (level : List Bytes) (i : ℕ) (x : Bytes)
      → length level ≤ suc n
      → get_elem? level i ≡ some x
      → walk h x (proof_from (levels_of n level) i) i ≡ root_of h (levels_of n level)
  walk-levels_of zero level i x l e = alone level i x l e
  walk-levels_of (suc n) level i x l e =
      let up = levels_of_cons n (pairs h level) in
      elim (Bool-cases (ltb 1 (length level))) [
        | inl more ↦ rw more (
            walk-parent level (pairs h level) up.0 (levels_of n (pairs h level)) i x up.1 e
            ∙ walk-levels_of n (pairs h level) (i / 2) _ (grind (arith, length-pairs h level))
                (get_elem?-pairs h level i x e)
            ∙ sym (root_of_cons level (pairs h level) up.0 (levels_of n (pairs h level)) up.1))
        | inr one ↦ rw one (alone level i x (grind arith) e)
      ]

  -- A tree over leaves that are all hexadecimal can be built, one leaf or many, and each leaf's
  -- proof is accepted for the tree's root at that leaf's index. What `hex` encodes it has to decode.
  pub verify_proof-get_merkle_proof :
      DecodesEncoded h
      → (leaf : Bytes) (others : List Bytes) → AllHex h (leaf ∷ others)
      → (tree : MerkleTree) × (build_merkle_tree h (leaf ∷ others) ≡ some tree)
        × ((i : ℕ) (x : Bytes)
            → get_elem? (leaf ∷ others) i ≡ some x
            → verify_proof h x (get_merkle_proof tree i) i tree.root ≡ true)
  unfolding build_merkle_tree get_merkle_proof verify_proof
  verify_proof-get_merkle_proof d leaf others v =
      let leaves = leaf ∷ others in
      let levels = levels_of (length leaves) leaves in
      (
        record { leaves = leaves; root = root_of h levels; levels = levels },
        ap (tree_of h leaves) (levels_from-levels_of d (length leaves) leaves v),
        λ i x e.
            (bytes_eq.beq_iff _ _).1 (walk-levels_of (length leaves) leaves i x (omega arith) e),
      )
