-- ===== src/Vcs/Textmerge/Fold.antt =====
-- The merge of textmerge.rs does not depend on which side is called ours, and the lines of a text are
-- the text.
use origin_tools.Base.{
  ◌≡◌, refl, sym, ap, ap₂, ◌∙◌, Bool, true, false, ◌||◌, List, [], ◌∷◌, ◌++◌, arith, ◌==◌,
  Bool-cases, inl, inr,
}
use origin_tools.Base.Bytes.{Bytes}
use origin_tools.Base.Eq.{bytes_eq}
use origin_tools.Vcs.Textmerge.{
  Edit, keep, replace, same_lines, concat, merge_line, edit_at, edits_after, fold, merge_lines,
  split_from, split_lines,
}

append_assoc : (xs ys zs : Bytes) → (xs ++ ys) ++ zs ≡ xs ++ (ys ++ zs)
append_assoc [] ys zs = refl
append_assoc (x ∷ xs) ys zs = ap (λ t. x ∷ t) (append_assoc xs ys zs)

concat-split_from : (line bytes : Bytes) → concat (split_from line bytes) ≡ line ++ bytes
unfolding split_from
concat-split_from [] [] = refl
concat-split_from (c ∷ line) [] = refl
concat-split_from line (b ∷ bytes) = elim (Bool-cases (b == 10)) [
  | inl e ↦ rw e (
      ap (λ t. (line ++ b ∷ []) ++ t) (concat-split_from [] bytes)
      ∙ append_assoc line (b ∷ []) bytes)
  | inr e ↦ rw e (concat-split_from (line ++ b ∷ []) bytes ∙ append_assoc line (b ∷ []) bytes)
]

-- The lines of a text, put together, are the text.
pub concat-split_lines : (bytes : Bytes) → concat (split_lines bytes) ≡ bytes
unfolding split_lines
concat-split_lines [] = refl
concat-split_lines (b ∷ bytes) = concat-split_from [] (b ∷ bytes)

same_lines_sym : (ls ks : List Bytes) → same_lines ls ks ≡ same_lines ks ls
same_lines_sym [] [] = refl
same_lines_sym [] (k ∷ ks) = refl
same_lines_sym (l ∷ ls) [] = refl
same_lines_sym (l ∷ ls) (k ∷ ks) =
    ground (arith, same_lines_sym ls ks, bytes_eq.beq_iff l k, bytes_eq.beq_iff k l)

same_lines_to : (ls ks : List Bytes) → same_lines ls ks ≡ true → ls ≡ ks
same_lines_to [] [] e = refl
same_lines_to [] (k ∷ ks) e = cc
same_lines_to (l ∷ ls) [] e = cc
same_lines_to (l ∷ ls) (k ∷ ks) e = ground (arith, same_lines_to ls ks, bytes_eq.beq_iff l k)

-- Two merges with one verdict, and with one text unless they conflict.
abbrev pub Agree : Bytes × Bool → Bytes × Bool → Type 0
Agree m n = (m.1 ≡ n.1) × (m.1 ≡ false → m.0 ≡ n.0)

merge_line_sym : (line : Bytes) (o t : Edit) → Agree (merge_line line o t) (merge_line line t o)
unfolding merge_line
merge_line_sym line keep keep = (refl, λ _. refl)
merge_line_sym line keep (replace tv) = (refl, λ _. refl)
merge_line_sym line (replace ov) keep = (refl, λ _. refl)
merge_line_sym line (replace ov) (replace tv) = elim (Bool-cases (same_lines ov tv)) [
  | inl e ↦ rw (← same_lines_sym ov tv, e) (refl, λ _. ap concat (same_lines_to ov tv e))
  | inr e ↦ rw (← same_lines_sym ov tv, e) (refl, λ k. cc)
]

fold_sym :
    (base : List Bytes) (ours theirs : List Edit)
    → Agree (fold base ours theirs) (fold base theirs ours)
unfolding fold
fold_sym [] ours theirs = (refl, λ _. refl)
fold_sym (line ∷ base) ours theirs =
    let here = merge_line_sym line (edit_at ours) (edit_at theirs) in
    let rest = fold_sym base (edits_after ours) (edits_after theirs) in
    (ap₂ ◌||◌ here.0 rest.0, λ k. ap₂ ◌++◌ (here.1 (ground arith)) (rest.1 (ground arith)))

beq_sym : (x y : Bytes) → bytes_eq.beq x y ≡ bytes_eq.beq y x
beq_sym x y = ground (arith, bytes_eq.beq_iff x y, bytes_eq.beq_iff y x)

-- Exchanging the two sides changes neither whether a merge conflicts nor, if it does not, its text.
pub merge_lines_sym :
    (base ours theirs : Bytes) → Agree (merge_lines base ours theirs) (merge_lines base theirs ours)
unfolding merge_lines
merge_lines_sym base ours theirs =
    let eq = bytes_eq.beq_iff in
    elim (Bool-cases (bytes_eq.beq base ours)) [
      | inl e1 ↦ elim (Bool-cases (bytes_eq.beq base theirs)) [
        | inl e2 ↦ rw (e1, e2) (refl, λ _. sym ((eq base theirs).0 e2) ∙ (eq base ours).0 e1)
        | inr e2 ↦ rw (e1, e2) (refl, λ _. refl)
      ]
      | inr e1 ↦ elim (Bool-cases (bytes_eq.beq base theirs)) [
        | inl e2 ↦ rw (e1, e2) (refl, λ _. refl)
        | inr e2 ↦ elim (Bool-cases (bytes_eq.beq ours theirs)) [
          | inl e3 ↦ rw (e1, e2, ← beq_sym ours theirs, e3) (refl, λ _. (eq ours theirs).0 e3)
          | inr e3 ↦ rw (e1, e2, ← beq_sym ours theirs, e3) (fold_sym (split_lines base) _ _)
        ]
      ]
    ]
