-- ===== src/Proof/Mmr/Mountains.antt =====
-- Mountains of mmr.rs: the nodes of a mountain are the levels over its leaves, and merging two
-- mountains keeps that.
use origin_tools.Base.{
  ℕ, zero, suc, ◌+◌, ◌≤◌, ◌≡◌, refl, sym, ap, ◌∙◌, some, List, [], ◌∷◌, ◌++◌, map, arith, length,
  get_elem?, bind_some,
}
use origin_tools.Base.Bytes.{Bytes}
use origin_tools.Canary.Merkle.{Hashing}
use origin_tools.Proof.Mmr.{
  Mountain, bit, level_offset, last, node_domain, node_hash_for, decode_hash, leaf, peak, get_node,
}
use origin_tools.Proof.Mmr.Levels.{
  pairs, level, stack, length-pairs, get_elem?-stack, get_elem?-map,
}

-- What the libraries document: what hex encodes it decodes, and a BLAKE3 hash has 32 bytes.
pub record IsHashing (h : Hashing) : Type 0 where
  pub decodes : (b : Bytes) → h.decode (h.encode b) ≡ some b
  pub length_32 : (b : Bytes) → length (h.blake3 b) ≡ 32

abbrev pub All32 : List Bytes → Type 0
All32 [] = Unit
All32 (x ∷ xs) = (length x ≡ 32) × All32 xs

pub All32-append : (xs ys : List Bytes) → All32 xs → All32 ys → All32 (xs ++ ys)
All32-append [] ys a b = b
All32-append (x ∷ xs) ys a b = (a.0, All32-append xs ys a.1 b)

pub get_elem?-All32 :
    (xs : List Bytes) (i : ℕ) (x : Bytes) → All32 xs → get_elem? xs i ≡ some x → length x ≡ 32
get_elem?-All32 [] i x a e = cc
get_elem?-All32 (y ∷ xs) zero x a e = cc
get_elem?-All32 (y ∷ xs) (suc i) x a e = get_elem?-All32 xs i x a.1 e

append_assoc : (xs ys zs : List Bytes) → (xs ++ ys) ++ zs ≡ xs ++ (ys ++ zs)
append_assoc [] ys zs = refl
append_assoc (x ∷ xs) ys zs = ap (λ t. x ∷ t) (append_assoc xs ys zs)

last-snoc :
    (f : Bytes → Bytes) (xs : List Bytes) (x : Bytes) → last (map f (xs ++ x ∷ [])) ≡ some (f x)
last-snoc f [] x = refl
last-snoc f (y ∷ []) x = refl
last-snoc f (y ∷ z ∷ xs) x = last-snoc f (z ∷ xs) x

module _ (h : Hashing) (lib : IsHashing h) (version : ℕ) where
  abbrev pub nh : Bytes → Bytes → Bytes
  nh a b = node_hash_for h version a b

  length-nh : (a b : Bytes) → length (nh a b) ≡ 32
  unfolding node_hash_for
  length-nh a b = ground (arith, lib.length_32 (a ++ b), lib.length_32 (node_domain ++ (a ++ b)))

  pub decode_hash-encode : (x : Bytes) → length x ≡ 32 → decode_hash h (h.encode x) ≡ some x
  unfolding decode_hash
  decode_hash-encode x e = rw (lib.decodes x, e) refl

  pairs-All32 : (xs : List Bytes) → All32 (pairs nh xs)
  pairs-All32 [] = tt
  pairs-All32 (a ∷ []) = tt
  pairs-All32 (a ∷ b ∷ rest) = (length-nh a b, pairs-All32 rest)

  pub level-All32 : (l : ℕ) (xs : List Bytes) → All32 xs → All32 (level nh l xs)
  level-All32 zero xs a = a
  level-All32 (suc l) xs a = level-All32 l (pairs nh xs) (pairs-All32 xs)

  -- The mountain over the leaves `xs`.
  pub record IsMountain (m : Mountain) (xs : List Bytes) : Type 0 where
    pub count : length xs ≡ bit m.height
    pub nodes : m.nodes ≡ map h.encode (stack nh m.height xs)
    pub hashes : All32 xs

  pub leaf-IsMountain : (x : Bytes) → length x ≡ 32 → IsMountain (leaf h x) (x ∷ [])
  leaf-IsMountain x e = record { count = refl; nodes = refl; hashes = (e, tt) }

  pub get_node-level :
      (m : Mountain) (xs : List Bytes) (l i : ℕ) (x : Bytes)
      → IsMountain m xs
      → l ≤ m.height
      → get_elem? (level nh l xs) i ≡ some x
      → get_node h m l i ≡ some x
  unfolding get_node
  get_node-level m xs l i x w k g =
      let at_node : get_elem? m.nodes (level_offset m.height l + i) ≡ some (h.encode x) =
        ap (λ ns. get_elem? ns (level_offset m.height l + i)) w.nodes
        ∙ get_elem?-map h.encode (stack nh m.height xs) _ x
            (get_elem?-stack nh m.height l xs i x k w.count g) in
      ap (λ o. bind_some o (decode_hash h)) at_node
      ∙ decode_hash-encode x (get_elem?-All32 (level nh l xs) i x (level-All32 l xs w.hashes) g)

  -- The one hash of the highest level, which stands last in the stack.
  pub record Top (n : ℕ) (xs : List Bytes) : Type 0 where
    pub top : Bytes
    pub below : List Bytes
    pub stands : stack nh n xs ≡ below ++ top ∷ []
    pub alone : level nh n xs ≡ top ∷ []

  pub stack-Top : (n : ℕ) (xs : List Bytes) → length xs ≡ bit n → Top n xs
  stack-Top zero [] e = absurd (omega arith)
  stack-Top zero (x ∷ []) e = record { top = x; below = []; stands = refl; alone = refl }
  stack-Top zero (x ∷ y ∷ xs) e = absurd (omega arith)
  stack-Top (suc n) xs e =
      let t = stack-Top n (pairs nh xs) (length-pairs nh (bit n) xs e) in
      record {
        top = t.top;
        below = xs ++ t.below;
        stands = ap (λ s. xs ++ s) t.stands ∙ sym (append_assoc xs t.below (t.top ∷ []));
        alone = t.alone;
      }

  pub top_of : (m : Mountain) (xs : List Bytes) → IsMountain m xs → Top m.height xs
  top_of m xs w = stack-Top m.height xs w.count

  pub peak-top :
      (m : Mountain) (xs : List Bytes) (w : IsMountain m xs) → peak h m ≡ some (top_of m xs w).top
  unfolding peak
  peak-top m xs w =
      let t = top_of m xs w in
      let at_top : last m.nodes ≡ some (h.encode t.top) =
        ap last (w.nodes ∙ ap (map h.encode) t.stands) ∙ last-snoc h.encode t.below t.top in
      let hash : length t.top ≡ 32 =
        get_elem?-All32 (level nh m.height xs) 0 t.top (level-All32 m.height xs w.hashes)
          (ap (λ s. get_elem? s 0) t.alone) in
      ap (λ o. bind_some o (decode_hash h)) at_top ∙ decode_hash-encode t.top hash
