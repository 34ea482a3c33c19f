-- ===== src/Canary/Merkle/Tests.antt =====
-- A tree of three leaves, with operations small enough to compute: texts are their own bytes, and the
-- hash keeps what it is given.
use origin_tools.Base.{ℕ, ◌≡◌, refl, true, false, Option, none, some, List, [], ◌∷◌, get_elem?}
use origin_tools.Base.Bytes.{Bytes}
use origin_tools.Canary.Merkle.{
  Hashing, MerkleTree, build_merkle_tree, get_merkle_proof, verify_proof, levels_from, next_level,
  blake3_hash_format, walk,
}
use origin_tools.Canary.Merkle.Complete.{verify_proof-get_merkle_proof}

abbrev toy : Hashing
toy = record { blake3 = λ b. b; encode = λ b. b; decode = λ b. some b }

abbrev leaves : List Bytes
leaves = (1 ∷ []) ∷ (2 ∷ []) ∷ (3 ∷ []) ∷ []

verify_proof-get_merkle_proof_example :
    (tree : MerkleTree) × (build_merkle_tree toy leaves ≡ some tree)
    × ((i : ℕ) (x : Bytes)
        → get_elem? leaves i ≡ some x
        → verify_proof toy x (get_merkle_proof tree i) i tree.root ≡ true)
verify_proof-get_merkle_proof_example =
    verify_proof-get_merkle_proof toy (λ b. refl) (1 ∷ []) ((2 ∷ []) ∷ (3 ∷ []) ∷ [])
      ((_, refl), ((_, refl), ((_, refl), tt)))

abbrev tree_bytes : Option MerkleTree → Bytes
tree_bytes none = []
tree_bytes (some t) = t.root

-- The third leaf, alone at the end of its level, is paired with itself.
root_of_three : tree_bytes (build_merkle_tree toy leaves) ≡ 1 ∷ 2 ∷ 3 ∷ 3 ∷ []
unfolding build_merkle_tree levels_from next_level blake3_hash_format
root_of_three = refl

-- A leaf at another index is refused.
wrong_index :
    verify_proof toy (1 ∷ []) ((2 ∷ []) ∷ (3 ∷ 3 ∷ []) ∷ []) 1 (1 ∷ 2 ∷ 3 ∷ 3 ∷ []) ≡ false
unfolding verify_proof walk
wrong_index = refl
