-- ===== src/Canary/Merkle/Pairs.antt =====
-- One level of the tree of merkle.rs: when it can be built, and where its nodes go.
use origin_tools.Base.{
  ℕ, zero, suc, ◌+◌, ◌/◌, ◌%◌, ◌≡◌, refl, Option, none, some, List, [], ◌∷◌, ◌++◌, arith, ◌==◌,
  if◌then◌else◌, length, get_elem?,
}
use origin_tools.Base.Bytes.{Bytes}
use origin_tools.Canary.Merkle.{
  Hashing, sibling_idx, blake3_hash_format, next_level, combine, or_nothing, joined,
}

module _ (h : Hashing) where
  abbrev pub IsHex : Bytes → Type 0
  IsHex t = (b : Bytes) × (h.decode t ≡ some b)

  abbrev pub AllHex : List Bytes → Type 0
  AllHex [] = Unit
  AllHex (t ∷ ts) = IsHex t × AllHex ts

  -- The next level, where every text is hexadecimal.
  abbrev pub pairs : List Bytes → List Bytes
  pairs [] = []
  pairs (a ∷ []) = combine h a a ∷ []
  pairs (a ∷ b ∷ rest) = combine h a b ∷ pairs rest

  joined-some :
      (o p : Option Bytes) (x y : Bytes)
      → o ≡ some x
      → p ≡ some y
      → joined h o p ≡ some (h.encode (h.blake3 (or_nothing h o ++ or_nothing h p)))
  joined-some (some l) (some r) x y e f = refl
  joined-some (some l) none x y e f = cc
  joined-some none p x y e f = cc

  blake3_hash_format-combine :
      (a b : Bytes) → IsHex a → IsHex b → blake3_hash_format h a b ≡ some (combine h a b)
  unfolding blake3_hash_format
  blake3_hash_format-combine a b (x, p) (y, q) = joined-some _ _ x y p q

  pub next_level-pairs :
      (level : List Bytes) → AllHex level → next_level h level ≡ some (pairs level)
  unfolding next_level
  next_level-pairs [] v = refl
  next_level-pairs (a ∷ []) v = rw (blake3_hash_format-combine a a v.0 v.0) refl
  next_level-pairs (a ∷ b ∷ rest) v =
      rw (blake3_hash_format-combine a b v.0 v.1.0, next_level-pairs rest v.1.1) refl

  -- What `hex` promises: what it encodes it decodes.
  abbrev pub DecodesEncoded : Type 0
  DecodesEncoded = (b : Bytes) → h.decode (h.encode b) ≡ some b

  pub pairs-AllHex : DecodesEncoded → (level : List Bytes) → AllHex (pairs level)
  pairs-AllHex d [] = tt
  pairs-AllHex d (a ∷ []) = ((_, d _), tt)
  pairs-AllHex d (a ∷ b ∷ rest) = ((_, d _), pairs-AllHex d rest)

  pub length-pairs : (level : List Bytes) → length (pairs level) ≡ (length level + 1) / 2
  length-pairs [] = refl
  length-pairs (a ∷ []) = refl
  length-pairs (a ∷ b ∷ rest) = omega (arith, length-pairs rest)

  abbrev pub or_self : Bytes → Option Bytes → Bytes
  or_self x none = x
  or_self x (some s) = s

  abbrev pub parent : ℕ → Bytes → Bytes → Bytes
  parent i x s = if i % 2 == 0 then combine h x s else combine h s x

  sibling_idx_step : (j : ℕ) → sibling_idx (suc (suc j)) ≡ suc (suc (sibling_idx j))
  unfolding sibling_idx
  sibling_idx_step j = ground arith

  get_elem?-pairs_step :
      (a b : Bytes) (rest : List Bytes) (j : ℕ) (x : Bytes)
      → get_elem? (pairs rest) (j / 2)
        ≡ some (parent j x (or_self x (get_elem? rest (sibling_idx j))))
      → get_elem? (pairs (a ∷ b ∷ rest)) (suc (suc j) / 2)
        ≡ some (
            parent
              (suc (suc j))
              x
              (or_self x (get_elem? (a ∷ b ∷ rest) (sibling_idx (suc (suc j))))))
  get_elem?-pairs_step a b rest j x e =
      let half : suc (suc j) / 2 ≡ suc (j / 2) = omega arith in
      let parity : suc (suc j) % 2 ≡ j % 2 = omega arith in rw (half, parity, sibling_idx_step j) e

  -- A node's parent stands at half its index.
  pub get_elem?-pairs :
      (level : List Bytes) (i : ℕ) (x : Bytes)
      → get_elem? level i ≡ some x
      → get_elem? (pairs level) (i / 2)
        ≡ some (parent i x (or_self x (get_elem? level (sibling_idx i))))
  unfolding sibling_idx
  get_elem?-pairs [] i x e = cc
  get_elem?-pairs (a ∷ []) zero x e = ground arith
  get_elem?-pairs (a ∷ []) (suc i) x e = cc
  get_elem?-pairs (a ∷ b ∷ rest) zero x e = ground arith
  get_elem?-pairs (a ∷ b ∷ rest) (suc zero) x e = ground arith
  get_elem?-pairs (a ∷ b ∷ rest) (suc (suc j)) x e =
      get_elem?-pairs_step a b rest j x (get_elem?-pairs rest j x e)
