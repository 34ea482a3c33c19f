-- ===== src/Proof/Mmr/Merge.antt =====
-- Merging two mountains of mmr.rs of one height gives the mountain over both their leaves.
use origin_tools.Base.{
  ℕ, zero, suc, ◌+◌, ◌≤◌, ◌≡◌, refl, sym, ap, ap₂, subst, ◌∙◌, true, Option, some, List, [], ◌∷◌,
  ◌++◌, map, arith, ◌==◌, ==_iff, length-append,
}
use origin_tools.Base.Bytes.{Bytes}
use origin_tools.Canary.Merkle.{Hashing}
use origin_tools.Proof.Mmr.{
  Mountain, bit, level_offset, level_count, slice, merge_levels, merge_with,
}
use origin_tools.Proof.Mmr.Levels.{
  level_offset_zero, pairs, level, stack, pairs-level, level-append, slice-stack, map-append,
}
use origin_tools.Proof.Mmr.Mountains.{IsHashing, All32-append, nh, IsMountain, top_of, peak-top}

module _ (h : Hashing) (lib : IsHashing h) (version : ℕ) where
  abbrev hash : Bytes → Bytes → Bytes
  hash = nh h lib version

  append_assoc : (xs ys zs : List Bytes) → (xs ++ ys) ++ zs ≡ xs ++ (ys ++ zs)
  append_assoc [] ys zs = refl
  append_assoc (x ∷ xs) ys zs = ap (λ t. x ∷ t) (append_assoc xs ys zs)

  -- `n` levels over `ws`, one after the other.
  abbrev run : ℕ → List Bytes → List Bytes
  run zero ws = []
  run (suc n) ws = ws ++ run n (pairs hash ws)

  stack-run : (n : ℕ) (ws : List Bytes) → stack hash n ws ≡ run n ws ++ level hash n ws
  stack-run zero ws = refl
  stack-run (suc n) ws =
      ap (λ t. ws ++ t) (stack-run n (pairs hash ws))
      ∙ sym (append_assoc ws (run n (pairs hash ws)) (level hash n (pairs hash ws)))

  -- Two mountains of one height.
  record ArePeers (left right : Mountain) (xs ys : List Bytes) : Type 0 where
    lefts : IsMountain h lib version left xs
    rights : IsMountain h lib version right ys
    same : left.height ≡ right.height

  slices :
      (left right : Mountain) (xs ys : List Bytes) (l : ℕ)
      → ArePeers left right xs ys
      → l ≤ left.height
      → (slice (level_offset left.height l) (level_count left.height l) left.nodes
          ≡ some (map h.encode (level hash l xs)))
        × (slice (level_offset right.height l) (level_count right.height l) right.nodes
            ≡ some (map h.encode (level hash l ys)))
  slices left right xs ys l p k = (
    ap (slice (level_offset left.height l) (level_count left.height l)) p.lefts.nodes
        ∙ slice-stack hash h.encode left.height l xs k p.lefts.count,
    ap (slice (level_offset right.height l) (level_count right.height l)) p.rights.nodes
        ∙ slice-stack hash h.encode right.height l ys (subst (λ n. l ≤ n) p.same k) p.rights.count,
  )

  joined :
      (left right : Mountain) (xs ys : List Bytes) (l : ℕ) (rest : List Bytes)
      → ArePeers left right xs ys
      → l ≤ left.height
      → map h.encode (level hash l xs) ++ (map h.encode (level hash l ys) ++ rest)
        ≡ map h.encode (level hash l (xs ++ ys)) ++ rest
  joined left right xs ys l rest p k =
      sym (append_assoc _ _ rest)
      ∙ ap (λ t. t ++ rest)
          (sym (map-append h.encode (level hash l xs) (level hash l ys))
            ∙ ap (map h.encode) (sym (level-append hash left.height l xs ys k p.lefts.count)))

  merge_levels-run :
      (n l : ℕ) (left right : Mountain) (xs ys : List Bytes)
      → ArePeers left right xs ys
      → l + n ≤ suc left.height
      → merge_levels h n l left right ≡ some (map h.encode (run n (level hash l (xs ++ ys))))
  unfolding merge_levels
  merge_levels-run zero l left right xs ys p k = refl
  merge_levels-run (suc n) l left right xs ys p k =
      let (ls, rs) = slices left right xs ys l p (omega arith) in
      let next : l + 1 ≡ suc l = omega arith in
      let rest : merge_levels h n (l + 1) left right
          ≡ some (map h.encode (run n (pairs hash (level hash l (xs ++ ys))))) =
        merge_levels-run n (l + 1) left right xs ys p (omega arith)
        ∙ ap (λ k. some (map h.encode (run n (level hash k (xs ++ ys))))) next
        ∙ ap (λ t. some (map h.encode (run n t))) (sym (pairs-level hash l (xs ++ ys))) in
      rw (ls, rs, rest)
        (ap some (
          joined left right xs ys l _ p (omega arith)
          ∙ sym (map-append h.encode (level hash l (xs ++ ys)) _)))

  tops :
      (left right : Mountain) (xs ys : List Bytes) (p : ArePeers left right xs ys)
      → level hash left.height (pairs hash (xs ++ ys))
        ≡ hash
            (top_of h lib version left xs p.lefts).top
            (top_of h lib version right ys p.rights).top
          ∷ []
  tops left right xs ys p =
      let l = top_of h lib version left xs p.lefts in
      let r = top_of h lib version right ys p.rights in
      let right_top : level hash left.height ys ≡ r.top ∷ [] =
        subst (λ n. level hash n ys ≡ r.top ∷ []) (sym p.same) r.alone in
      sym (pairs-level hash left.height (xs ++ ys))
      ∙ ap (pairs hash) (
          level-append hash left.height left.height xs ys (omega arith) p.lefts.count
          ∙ ap₂ ◌++◌ l.alone right_top)

  leaf_slice :
      (m : Mountain) (o : Option (List Bytes))
      → slice (level_offset m.height 0) (level_count m.height 0) m.nodes ≡ o
      → slice 0 (level_count m.height 0) m.nodes ≡ o
  leaf_slice m o e =
      subst (λ k. slice k (level_count m.height 0) m.nodes ≡ o) (level_offset_zero m.height) e

  -- What the merge of two mountains has to be.
  pub record Merged (left right : Mountain) (xs ys : List Bytes) : Type 0 where
    pub result : Mountain
    pub merges : merge_with h left right version ≡ some result
    pub taller : result.height ≡ suc left.height
    pub holds : IsMountain h lib version result (xs ++ ys)

  -- Two mountains of one height merge, without a panic, into the mountain one higher over the leaves
  -- of the first and then those of the second.
  pub merge_with-IsMountain :
      (left right : Mountain) (xs ys : List Bytes)
      → IsMountain h lib version left xs
      → IsMountain h lib version right ys
      → left.height ≡ right.height
      → Merged left right xs ys
  unfolding merge_with
  merge_with-IsMountain left right xs ys a b e =
      let p : ArePeers left right xs ys = record { lefts = a; rights = b; same = e } in
      let ws : List Bytes = xs ++ ys in
      let l = top_of h lib version left xs a in
      let r = top_of h lib version right ys b in
      let equal : (left.height == right.height) ≡ true = (==_iff left.height right.height).1 e in
      let (ls, rs) = slices left right xs ys 0 p (omega arith) in
      let inner = merge_levels-run left.height 1 left right xs ys p (omega arith) in
      let nodes : map h.encode xs
            ++ (map h.encode ys
                ++ (map h.encode (run left.height (pairs hash ws))
                    ++ h.encode (hash l.top r.top) ∷ []))
          ≡ map h.encode (stack hash (suc left.height) ws) =
        joined left right xs ys 0 _ p (omega arith)
        ∙ ap (λ t. map h.encode ws ++ t)
            (sym (map-append h.encode (run left.height (pairs hash ws)) (hash l.top r.top ∷ [])))
        ∙ sym (map-append h.encode ws _)
        ∙ ap (λ t. map h.encode (ws ++ (run left.height (pairs hash ws) ++ t)))
            (sym (tops left right xs ys p))
        ∙ ap (λ t. map h.encode (ws ++ t)) (sym (stack-run left.height (pairs hash ws))) in
      record {
        result = record {
          height = suc left.height;
          nodes = map h.encode (stack hash (suc left.height) ws);
        };
        merges =
            rw
              (
                equal,
                leaf_slice left _ ls,
                leaf_slice right _ rs,
                inner,
                peak-top h lib version left xs a,
                peak-top h lib version right ys b,
              )
              (ap (λ ns. some (record { height = suc left.height; nodes = ns })) nodes);
        taller = refl;
        holds = record {
          count = omega (arith, length-append xs ys, a.count, b.count, ap bit e);
          nodes = refl;
          hashes = All32-append xs ys a.hashes b.hashes;
        };
      }
