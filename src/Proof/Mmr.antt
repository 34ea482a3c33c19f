-- ===== src/Proof/Mmr.antt =====
-- origin-proof/src/mmr.rs: the Merkle mountain range. The crate `hex` and BLAKE3 are the operations of
-- `Hashing`; texts are given by their bytes. `none` is a panic: a text that is not the hexadecimal of
-- 32 bytes, or an index or a slice out of range.
pub mod Levels
pub mod Mountains
pub mod Merge
pub mod Append
pub mod Paths
pub mod Complete
mod Tests
use origin_tools.Base.{
  ℕ, zero, suc, ◌+◌, ◌-◌, ◌*◌, ◌/◌, ◌%◌, Bool, true, false, Option, none, some, List, [], ◌∷◌, ◌++◌,
  map, ltb, leb, ◌==◌, if◌then◌else◌, length, get_elem?, set, take, drop, replicate, Result, ok,
  err, bind_some,
}
use origin_tools.Base.Bytes.{Bytes}
use origin_tools.Base.Eq.{bytes_eq}
use origin_tools.Canary.Merkle.{Hashing}

pub record Mountain : Type 0 where
  pub height : ℕ  -- u32
  pub nodes : List Bytes

pub record MmrState : Type 0 where
  pub version : ℕ  -- u32
  pub mountains : List Mountain  -- tallest first
  pub leaf_count : ℕ  -- u64

pub record AuthStep : Type 0 where
  pub hash : Bytes
  pub is_left : Bool

pub record MembershipProof : Type 0 where
  pub leaf_index : ℕ
  pub leaf_count : ℕ
  pub leaf_hash : Bytes
  pub auth_path : List AuthStep
  pub peak_index : ℕ
  pub peaks : List Bytes
  pub version : ℕ

pub data LocateError : Type 0 where
  out_of_range not_found : LocateError

-- `1 << n`
abbrev pub bit : ℕ → ℕ
bit zero = 1
bit (suc n) = 2 * bit n

abbrev pub level_offset : ℕ → ℕ → ℕ
level_offset height l = bit (suc height) - bit (suc (height - l))

abbrev pub level_count : ℕ → ℕ → ℕ
level_count height l = bit (height - l)

-- `xs[lo..lo + n]`
unfoldable pub slice : ℕ → ℕ → List Bytes → Option (List Bytes)
slice lo n xs = if leb (lo + n) (length xs) then some (take n (drop lo xs)) else none

abbrev pub last : List Bytes → Option Bytes
last [] = none
last (x ∷ []) = some x
last (x ∷ y ∷ xs) = last (y ∷ xs)

-- `idx ^ 1`
abbrev pub xor_one : ℕ → ℕ
xor_one idx = if idx % 2 == 0 then idx + 1 else idx - 1

-- `ORGN-MMR-NODE`
abbrev pub node_domain : Bytes
node_domain =
    b'O' ∷ b'R' ∷ b'G' ∷ b'N' ∷ b'-' ∷ b'M' ∷ b'M' ∷ b'R' ∷ b'-' ∷ b'N' ∷ b'O' ∷ b'D' ∷ b'E' ∷ []

abbrev pub new : MmrState
new = record { version = 3; mountains = []; leaf_count = 0 }

unfoldable pub locate_from : ℕ → ℕ → List Mountain → Result LocateError (ℕ × ℕ)
locate_from mi remaining [] = err not_found
locate_from mi remaining (m ∷ ms) =
    let rest = locate_from (mi + 1) (remaining - bit m.height) ms in
    if ltb remaining (bit m.height) then ok (mi, remaining) else rest

unfoldable pub locate_leaf : MmrState → ℕ → Result LocateError (ℕ × ℕ)
unfolding locate_from
locate_leaf s leaf_index =
    if leb s.leaf_count leaf_index then err out_of_range else locate_from 0 leaf_index s.mountains

module _ (h : Hashing) where
  abbrev pub parent_hash : Bytes → Bytes → Bytes
  parent_hash a b = h.blake3 (a ++ b)

  abbrev pub parent_hash_v3 : Bytes → Bytes → Bytes
  parent_hash_v3 a b = h.blake3 (node_domain ++ (a ++ b))

  unfoldable pub node_hash_for : ℕ → Bytes → Bytes → Bytes
  node_hash_for version a b = if leb 3 version then parent_hash_v3 a b else parent_hash a b

  abbrev pub if_32 : Bytes → Option Bytes
  if_32 b = if length b == 32 then some b else none

  unfoldable pub decode_hash : Bytes → Option Bytes
  decode_hash s = bind_some (h.decode s) if_32

  abbrev pub leaf : Bytes → Mountain
  leaf hash = record { height = 0; nodes = h.encode hash ∷ [] }

  unfoldable pub peak : Mountain → Option Bytes
  unfolding decode_hash
  peak m = bind_some (last m.nodes) decode_hash

  unfoldable pub get_node : Mountain → ℕ → ℕ → Option Bytes
  unfolding decode_hash
  get_node m level index =
      bind_some (get_elem? m.nodes (level_offset m.height level + index)) decode_hash

  -- `n` levels from `l` on, of the left mountain and then of the right one.
  unfoldable pub merge_levels : ℕ → ℕ → Mountain → Mountain → Option (List Bytes)
  unfolding slice
  merge_levels zero l left right = some []
  merge_levels (suc n) l left right =
      bind_some (slice (level_offset left.height l) (level_count left.height l) left.nodes) λ ls.
        bind_some (slice (level_offset right.height l) (level_count right.height l) right.nodes)
          λ rs. bind_some (merge_levels n (l + 1) left right) λ rest. some (ls ++ (rs ++ rest))

  unfoldable pub merge_with : Mountain → Mountain → ℕ → Option Mountain
  unfolding merge_levels peak slice
  merge_with left right version =
      if left.height == right.height
      then (bind_some (slice 0 (level_count left.height 0) left.nodes) λ left_leaves.
          bind_some (slice 0 (level_count right.height 0) right.nodes) λ right_leaves.
            bind_some (merge_levels left.height 1 left right) λ inner.
              bind_some (peak left) λ left_peak. bind_some (peak right) λ right_peak. some (record {
                height = suc left.height;
                nodes =
                    left_leaves
                    ++ (right_leaves
                        ++ (inner ++ h.encode (node_hash_for version left_peak right_peak) ∷ []));
              }))
      else none

  -- The levels of a path, `n` of them from `level` on.
  unfoldable pub path_from : ℕ → ℕ → ℕ → Mountain → Option (List (Bytes × Bool))
  unfolding get_node
  path_from zero level idx m = some []
  path_from (suc n) level idx m = bind_some (get_node m level (xor_one idx)) λ sibling.
      bind_some (path_from n (level + 1) (idx / 2) m) λ rest. some ((sibling, idx % 2 == 0) ∷ rest)

  unfoldable pub auth_path : Mountain → ℕ → Option (Bytes × List (Bytes × Bool))
  unfolding path_from
  auth_path m leaf_index =
      bind_some (get_node m 0 leaf_index)
        λ leaf_hash. bind_some (path_from m.height 0 leaf_index m) λ path. some (leaf_hash, path)

  -- What the last mountains and the new one `m` have become goes after `x`: while it is one mountain
  -- of the height of `x`, the two merge.
  abbrev pub carry : ℕ → Mountain → List Mountain → Option (List Mountain)
  carry version x (y ∷ []) =
      if x.height == y.height
      then (bind_some (merge_with x y version) λ m. some (m ∷ []))
      else some (x ∷ y ∷ [])
  carry version x ys = some (x ∷ ys)

  -- The loop of `append_hash`, from the last mountain to the first.
  unfoldable pub push_carry : ℕ → List Mountain → Mountain → Option (List Mountain)
  unfolding merge_with
  push_carry version [] m = some (m ∷ [])
  push_carry version (x ∷ xs) m = bind_some (push_carry version xs m) (carry version x)

  unfoldable pub append_hash : MmrState → Bytes → Option MmrState
  unfolding push_carry
  append_hash s leaf_hash =
      bind_some (push_carry s.version s.mountains (leaf leaf_hash))
        λ mountains. some (record s { mountains = mountains; leaf_count = s.leaf_count + 1 })

  unfoldable pub peaks_of : List Mountain → Option (List Bytes)
  unfolding peak
  peaks_of [] = some []
  peaks_of (m ∷ ms) = bind_some (peak m) λ p. bind_some (peaks_of ms) λ ps. some (p ∷ ps)

  abbrev pub fold_from : ℕ → Bytes → List Bytes → Bytes
  fold_from version acc [] = acc
  fold_from version acc (p ∷ ps) = fold_from version (node_hash_for version acc p) ps

  abbrev pub fold_peaks : ℕ → List Bytes → Bytes
  fold_peaks version [] = replicate 32 0
  fold_peaks version (p ∷ ps) = fold_from version p ps

  unfoldable pub root : MmrState → Option Bytes
  unfolding peaks_of
  root s = bind_some (peaks_of s.mountains) λ ps. some (fold_peaks s.version ps)

  abbrev pub auth_steps : List (Bytes × Bool) → List AuthStep
  auth_steps [] = []
  auth_steps ((hash, is_left) ∷ path) =
      record { hash = h.encode hash; is_left = is_left } ∷ auth_steps path

  abbrev pub proof_of :
      MmrState → ℕ → ℕ → List Bytes → Bytes × List (Bytes × Bool) → MembershipProof
  proof_of s leaf_index mountain_idx ps (leaf_hash, path) = record {
    leaf_index = leaf_index;
    leaf_count = s.leaf_count;
    leaf_hash = h.encode leaf_hash;
    auth_path = auth_steps path;
    peak_index = mountain_idx;
    peaks = map h.encode ps;
    version = s.version;
  }

  -- `prove` after the leaf was located.
  unfoldable pub prove_at : MmrState → ℕ → ℕ → ℕ → Option MembershipProof
  unfolding auth_path peaks_of
  prove_at s leaf_index mountain_idx leaf_in_mountain =
      bind_some (get_elem? s.mountains mountain_idx) λ mountain.
        bind_some (auth_path mountain leaf_in_mountain) λ path.
          bind_some (peaks_of s.mountains) λ ps. some (proof_of s leaf_index mountain_idx ps path)

  abbrev pub prove_located :
      MmrState → ℕ → Result LocateError (ℕ × ℕ) → Option (Result LocateError MembershipProof)
  unfolding prove_at
  prove_located s leaf_index (err e) = some (err e)
  prove_located s leaf_index (ok (mi, i)) = bind_some (prove_at s leaf_index mi i) λ p. some (ok p)

  unfoldable pub prove : MmrState → ℕ → Option (Result LocateError MembershipProof)
  unfolding prove_at locate_leaf
  prove s leaf_index = prove_located s leaf_index (locate_leaf s leaf_index)

  unfoldable pub walk : ℕ → Bytes → List AuthStep → Option Bytes
  unfolding decode_hash
  walk version current [] = some current
  walk version current (step ∷ steps) = bind_some (decode_hash step.hash) λ sibling.
      walk version
        (if step.is_left
          then node_hash_for version current sibling
          else node_hash_for version sibling current)
        steps

  abbrev pub decode_all : List Bytes → Option (List Bytes)
  decode_all [] = some []
  decode_all (s ∷ ss) = bind_some (decode_hash s) λ p. bind_some (decode_all ss) λ ps. some (p ∷ ps)

  unfoldable pub verify_proof : MembershipProof → Bytes → Option Bool
  unfolding walk decode_hash
  verify_proof proof expected_root = bind_some (decode_hash proof.leaf_hash) λ leaf_hash.
      bind_some (walk proof.version leaf_hash proof.auth_path) λ current.
        if leb (length proof.peaks) proof.peak_index
        then some false
        else bind_some (decode_all proof.peaks) λ ps.
          some (
            bytes_eq.beq (fold_peaks proof.version (set ps proof.peak_index current)) expected_root)
