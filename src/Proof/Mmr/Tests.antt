-- ===== src/Proof/Mmr/Tests.antt =====
-- A range of three leaves, with operations small enough to compute: texts are their own bytes, and the
-- hash is a sum in which the order of the bytes counts.
use origin_tools.Base.{
  ℕ, ◌+◌, ◌*◌, ◌%◌, ◌≡◌, refl, Option, none, some, List, [], ◌∷◌, replicate, Result, err,
}
use origin_tools.Base.Bytes.{Bytes}
use origin_tools.Canary.Merkle.{Hashing}
use origin_tools.Proof.Mmr.{
  MmrState, MembershipProof, LocateError, out_of_range, leaf, merge_with, append_hash, prove,
  locate_leaf, decode_hash, peak, node_hash_for, push_carry, merge_levels, slice,
}
use origin_tools.Proof.Mmr.Mountains.{IsHashing, leaf-IsMountain}
use origin_tools.Proof.Mmr.Merge.{Merged, merge_with-IsMountain}
use origin_tools.Proof.Mmr.Append.{empty, empty-IsRange, Appended, append_hash-IsRange, append_all}
use origin_tools.Proof.Mmr.Complete.{Complete, prove_lem}

abbrev sum : Bytes → ℕ
sum [] = 0
sum (b ∷ bs) = (b + 3 * sum bs) % 256

abbrev toy : Hashing
toy = record { blake3 = λ b. sum b ∷ replicate 31 0; encode = λ b. b; decode = λ b. some b }

toy-IsHashing : IsHashing toy
toy-IsHashing = record { decodes = λ b. refl; length_32 = λ b. refl }

abbrev entry : ℕ → Bytes
entry n = n ∷ replicate 31 0

abbrev entries : List Bytes
entries = entry 5 ∷ entry 6 ∷ entry 7 ∷ []

merge_with-IsMountain_example :
    Merged toy toy-IsHashing 3
      (leaf toy (entry 5))
      (leaf toy (entry 6))
      (entry 5 ∷ [])
      (entry 6 ∷ [])
merge_with-IsMountain_example =
    merge_with-IsMountain toy toy-IsHashing 3 (leaf toy (entry 5)) (leaf toy (entry 6))
      (entry 5 ∷ []) (entry 6 ∷ []) (leaf-IsMountain toy toy-IsHashing 3 (entry 5) refl)
      (leaf-IsMountain toy toy-IsHashing 3 (entry 6) refl) refl

append_hash-IsRange_example :
    Appended toy toy-IsHashing 3 (append_hash toy (empty 3) (entry 5)) (entry 5 ∷ [])
append_hash-IsRange_example =
    append_hash-IsRange toy toy-IsHashing 3 (empty 3) [] (entry 5)
      (empty-IsRange toy toy-IsHashing 3) refl

prove_lem_example : Complete toy toy-IsHashing 3 entries
prove_lem_example = prove_lem toy toy-IsHashing 3 entries (refl, (refl, (refl, tt)))

abbrev proof_at : Option MmrState → ℕ → Option (Result LocateError MembershipProof)
proof_at none i = none
proof_at (some s) i = prove toy s i

-- Three leaves are a mountain of two and one of one, and there is no fourth leaf.
beyond_the_end : proof_at (append_all toy (empty 3) entries) 3 ≡ some (err out_of_range)
unfolding append_all append_hash push_carry merge_with merge_levels slice peak decode_hash
    node_hash_for prove locate_leaf
beyond_the_end = refl
