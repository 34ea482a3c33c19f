-- ===== src/Canary/Merkle.antt =====
-- origin-canary/src/merkle.rs: the Merkle tree over hashes in hexadecimal. The crate `hex` and
-- BLAKE3 are the operations of `Hashing`; texts are given by their bytes.
pub mod Pairs
pub mod Complete
mod Tests
use origin_tools.Base.{
  ℕ, zero, suc, ◌+◌, ◌-◌, ◌/◌, ◌%◌, Bool, true, false, Option, none, some, List, [], ◌∷◌, ◌++◌, ltb,
  ◌==◌, if◌then◌else◌, length, get_elem?,
}
use origin_tools.Base.Bytes.{Bytes}
use origin_tools.Base.Eq.{bytes_eq}

pub record Hashing : Type 0 where
  pub blake3 : Bytes → Bytes
  pub encode : Bytes → Bytes
  pub decode : Bytes → Option Bytes

pub record MerkleTree : Type 0 where
  pub leaves : List Bytes
  pub root : Bytes
  pub levels : List (List Bytes)

unfoldable pub sibling_idx : ℕ → ℕ
sibling_idx index = if index % 2 == 0 then index + 1 else index - 1

-- One level's part of a proof: the sibling, or the node itself where the level ends with it.
abbrev sibling_of : Option Bytes → Option Bytes → List Bytes
sibling_of (some s) own = s ∷ []
sibling_of none (some n) = n ∷ []
sibling_of none none = []

unfoldable pub proof_from : List (List Bytes) → ℕ → List Bytes
unfolding sibling_idx
proof_from [] index = []
proof_from (level ∷ []) index = []
proof_from (level ∷ next ∷ levels) index =
    sibling_of (get_elem? level (sibling_idx index)) (get_elem? level index)
    ++ proof_from (next ∷ levels) (index / 2)

unfoldable pub get_merkle_proof : MerkleTree → ℕ → List Bytes
unfolding proof_from
get_merkle_proof tree leaf_index = proof_from tree.levels leaf_index

module _ (h : Hashing) where
  open h use {blake3, encode, decode}

  -- `none` is the panic on a text that is not hexadecimal.
  abbrev joined : Option Bytes → Option Bytes → Option Bytes
  joined (some l) (some r) = some (encode (blake3 (l ++ r)))
  joined (some l) none = none
  joined none r = none

  unfoldable pub blake3_hash_format : Bytes → Bytes → Option Bytes
  blake3_hash_format left right = joined (decode left) (decode right)

  abbrev cons_some : Option Bytes → Option (List Bytes) → Option (List Bytes)
  cons_some (some b) (some bs) = some (b ∷ bs)
  cons_some (some b) none = none
  cons_some none bs = none

  -- The inner loop: one level up.
  unfoldable pub next_level : List Bytes → Option (List Bytes)
  unfolding blake3_hash_format
  next_level [] = some []
  next_level (a ∷ []) = cons_some (blake3_hash_format a a) (some [])
  next_level (a ∷ b ∷ rest) = cons_some (blake3_hash_format a b) (next_level rest)

  abbrev pub cons_level : List Bytes → Option (List (List Bytes)) → Option (List (List Bytes))
  cons_level level (some levels) = some (level ∷ levels)
  cons_level level none = none

  -- The outer loop, from a level on; the rounds are bounded by the number of leaves.
  unfoldable pub levels_from : ℕ → List Bytes → Option (List (List Bytes))
  unfolding next_level
  levels_from zero level = some (level ∷ [])
  levels_from (suc n) level =
      if ltb 1 (length level)
      then (elim (next_level level) [
        | none ↦ none
        | some next ↦ cons_level level (levels_from n next)
      ])
      else some (level ∷ [])

  -- The first node of the last level.
  abbrev root_of : List (List Bytes) → Bytes
  root_of [] = []
  root_of ([] ∷ []) = []
  root_of ((r ∷ rest) ∷ []) = r
  root_of (level ∷ next ∷ levels) = root_of (next ∷ levels)

  abbrev tree_of : List Bytes → Option (List (List Bytes)) → Option MerkleTree
  tree_of leaves none = none
  tree_of leaves (some levels) =
      some (record { leaves = leaves; root = root_of levels; levels = levels })

  -- `none` is a panic: no leaf, or one that is not hexadecimal.
  unfoldable pub build_merkle_tree : List Bytes → Option MerkleTree
  unfolding levels_from
  build_merkle_tree [] = none
  build_merkle_tree (l ∷ ls) = tree_of (l ∷ ls) (levels_from (length (l ∷ ls)) (l ∷ ls))

  -- `filter_map(decode.ok()).concat()`
  abbrev pub or_nothing : Option Bytes → Bytes
  or_nothing none = []
  or_nothing (some b) = b

  abbrev pub combine : Bytes → Bytes → Bytes
  combine left right = encode (blake3 (or_nothing (decode left) ++ or_nothing (decode right)))

  unfoldable pub walk : Bytes → List Bytes → ℕ → Bytes
  walk current [] idx = current
  walk current (sibling ∷ proof) idx =
      walk (if idx % 2 == 0 then combine current sibling else combine sibling current) proof
        (idx / 2)

  unfoldable pub verify_proof : Bytes → List Bytes → ℕ → Bytes → Bool
  unfolding walk
  verify_proof leaf proof leaf_index root = bytes_eq.beq (walk leaf proof leaf_index) root
