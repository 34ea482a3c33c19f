-- ===== src/Vcs/Textmerge/Lost.antt =====
-- Lines that the merge of textmerge.rs loses: what one side appends, and the line before which one
-- side inserts.
use origin_tools.Base.{
  ℕ, zero, suc, ◌+◌, ◌≤◌, ◌≡◌, refl, sym, ap, subst, ◌∙◌, true, false, Option, some, List, [], ◌∷◌,
  ◌++◌, arith, leb, ◌==◌, length, get_elem?, drop, replicate, Bool-cases, inl, inr,
}
use origin_tools.Base.Bytes.{Bytes}
use origin_tools.Base.Eq.{bytes_eq}
use origin_tools.Vcs.Textmerge.{
  Edit, keep, replace, move, matched, inserted, add_edit, at, first_row, dp_table, flush, is_match,
  backtrace, attach, myers, split_from, split_lines, fold, edits_after, merge_line, merge_lines,
  concat,
}
use origin_tools.Vcs.Textmerge.Table.{lcs, lcs_le, lcs_self, at-dp_table}

get_elem?-drop :
    {A : Type 0} (j : ℕ) (xs : List A) (x : A) (rest : List A)
    → drop j xs ≡ x ∷ rest
    → (get_elem? xs j ≡ some x) × (drop (suc j) xs ≡ rest)
get_elem?-drop zero [] x rest e = cc
get_elem?-drop zero (y ∷ xs) x rest e = (cc, cc)
get_elem?-drop (suc j) [] x rest e = cc
get_elem?-drop (suc j) (y ∷ xs) x rest e = get_elem?-drop j xs x rest e

beq_refl : (b : Bytes) → bytes_eq.beq b b ≡ true
beq_refl b = (bytes_eq.beq_iff b b).1 refl

lcs-cons : (b : Bytes) (base rest : List Bytes) → lcs (b ∷ base) (b ∷ rest) ≡ suc (lcs base rest)
unfolding lcs
lcs-cons b base rest = ground (arith, beq_refl b)

move-is_match :
    (b : Bytes) (o : Option Bytes) (row below : List ℕ) (j : ℕ)
    → is_match b o row below j ≡ true
    → move b o row below j ≡ matched
unfolding move
move-is_match b o row below j m = rw m refl

is_match_self :
    (b : Bytes) (row below : List ℕ) (j : ℕ)
    → at row j ≡ suc (at below (j + 1))
    → is_match b (some b) row below j ≡ true
is_match_self b row below j e = ground (arith, beq_refl b)

-- Where the next target line is the base line, the loop takes the match.
move-matched :
    (b : Bytes) (base target rest : List Bytes) (j : ℕ)
    → drop j target ≡ b ∷ rest
    → move b
        (get_elem? target j)
        (first_row (dp_table (b ∷ base) target))
        (first_row (dp_table base target))
        j
      ≡ matched
move-matched b base target rest j e =
    let (here, next) = get_elem?-drop j target b rest e in
    let one_more : suc j ≡ j + 1 = omega arith in
    let above : at (first_row (dp_table (b ∷ base) target)) j ≡ suc (lcs base rest) =
      at-dp_table (b ∷ base) target j ∙ ap (lcs (b ∷ base)) e ∙ lcs-cons b base rest in
    let below : at (first_row (dp_table base target)) (j + 1) ≡ lcs base rest =
      at-dp_table base target (j + 1)
      ∙ ap (lcs base) (subst (λ k. drop k target ≡ rest) one_more next) in
    move-is_match b _ _ _ j (rw here (is_match_self b _ _ j (above ∙ ap suc (sym below))))

backtrace-matched :
    (fuel : ℕ) (b : Bytes) (base : List Bytes) (row : List ℕ) (rows : List (List ℕ))
    (target : List Bytes) (j : ℕ) (held : List Bytes)
    → move b (get_elem? target j) row (first_row rows) j ≡ matched
    → backtrace (suc fuel) (b ∷ base) (row ∷ rows) target j held
      ≡ add_edit (flush held) (backtrace fuel base rows target (j + 1) [])
unfolding backtrace
backtrace-matched fuel b base row rows target j held m = ground (arith, m)

backtrace-inserted :
    (fuel : ℕ) (b t : Bytes) (base : List Bytes) (row : List ℕ) (rows : List (List ℕ))
    (target : List Bytes) (j : ℕ) (held : List Bytes)
    → move b (get_elem? target j) row (first_row rows) j ≡ inserted t
    → backtrace (suc fuel) (b ∷ base) (row ∷ rows) target j held
      ≡ backtrace fuel (b ∷ base) (row ∷ rows) target (j + 1) (held ++ t ∷ [])
unfolding backtrace
backtrace-inserted fuel b t base row rows target j held m = ground (arith, m)

dp_table-cons :
    (b : Bytes) (base target : List Bytes)
    → dp_table (b ∷ base) target ≡ first_row (dp_table (b ∷ base) target) ∷ dp_table base target
unfolding dp_table
dp_table-cons b base target = refl

-- A match at the head of the base takes one edit, whatever was held back.
backtrace-same :
    (fuel : ℕ) (b : Bytes) (base target rest held : List Bytes) (j : ℕ)
    → drop j target ≡ b ∷ rest
    → backtrace (suc fuel) (b ∷ base) (dp_table (b ∷ base) target) target j held
      ≡ add_edit (flush held) (backtrace fuel base (dp_table base target) target (j + 1) [])
backtrace-same fuel b base target rest held j e =
    ap (λ rows. backtrace (suc fuel) (b ∷ base) rows target j held) (dp_table-cons b base target)
    ∙ backtrace-matched fuel b base _ (dp_table base target) target j held
        (move-matched b base target rest j e)

-- A target that goes on with the whole base keeps every line of it, and nothing after it.
backtrace-keep :
    (fuel : ℕ) (base target extra : List Bytes) (j : ℕ)
    → length base ≤ fuel
    → drop j target ≡ base ++ extra
    → backtrace fuel base (dp_table base target) target j [] ≡ (replicate (length base) keep, [])
backtrace-keep zero [] target extra j f e = unfold backtrace in refl
backtrace-keep zero (b ∷ base) target extra j f e = absurd (omega arith)
backtrace-keep (suc fuel) [] target extra j f e = unfold backtrace in refl
backtrace-keep (suc fuel) (b ∷ base) target extra j f e =
    let one_more : suc j ≡ j + 1 = omega arith in
    let next = (get_elem?-drop j target b (base ++ extra) e).1 in
    backtrace-same fuel b base target (base ++ extra) [] j e
    ∙ ap (add_edit keep) (
        backtrace-keep fuel base target extra (j + 1) (omega arith)
          (subst (λ k. drop k target ≡ base ++ extra) one_more next))

-- Lines that are appended at the end of the base leave no edit.
pub myers-append :
    (base extra : List Bytes) → myers base (base ++ extra) ≡ replicate (length base) keep
unfolding myers
myers-append [] extra = refl
myers-append (b ∷ base) extra =
    ap (λ r. attach r.0 r.1)
      (backtrace-keep (length (b ∷ base) + length ((b ∷ base) ++ extra)) (b ∷ base)
        ((b ∷ base) ++ extra) extra 0 (omega arith) refl)

move-inserted :
    (b x : Bytes) (row below : List ℕ) (j : ℕ)
    → bytes_eq.beq b x ≡ false
    → at below j ≤ at row (j + 1)
    → move b (some x) row below j ≡ inserted x
unfolding move
move-inserted b x row below j e h =
    let fits : leb (at below j) (at row (j + 1)) ≡ true = grind arith in rw e (rw fits refl)

append_nil {ℓ} : {A : Type ℓ} (xs : List A) → xs ++ [] ≡ xs
append_nil [] = refl
append_nil (x ∷ xs) = ap (λ t. x ∷ t) (append_nil xs)

backtrace-prepend :
    (fuel : ℕ) (b x : Bytes) (base : List Bytes)
    → bytes_eq.beq b x ≡ false
    → length base ≤ fuel
    → backtrace (suc (suc fuel)) (b ∷ base) (dp_table (b ∷ base) (x ∷ b ∷ base)) (x ∷ b ∷ base) 0 []
      ≡ (replace (x ∷ []) ∷ replicate (length base) keep, [])
backtrace-prepend fuel b x base e f =
    let target : List Bytes = x ∷ b ∷ base in
    let row : List ℕ = first_row (dp_table (b ∷ base) target) in
    let below : at (first_row (dp_table base target)) 0 ≤ at row 1 = omega (
      arith,
      at-dp_table base target 0,
      at-dp_table (b ∷ base) target 1,
      lcs_le base target,
      lcs_self (b ∷ base),
    ) in
    ap (λ rows. backtrace (suc (suc fuel)) (b ∷ base) rows target 0 [])
      (dp_table-cons b base target)
    ∙ backtrace-inserted (suc fuel) b x base row (dp_table base target) target 0 []
        (move-inserted b x row _ 0 e below)
    ∙ ap (λ rows. backtrace (suc fuel) (b ∷ base) rows target 1 (x ∷ []))
        (sym (dp_table-cons b base target))
    ∙ backtrace-same fuel b base target base (x ∷ []) 1 refl
    ∙ ap (add_edit (replace (x ∷ [])))
        (backtrace-keep fuel base target [] 2 f (sym (append_nil base)))

-- A line that is inserted before the first line of the base takes that line's place: the script
-- replaces the base line by the new one, and keeps the rest.
pub myers-prepend :
    (b x : Bytes) (base : List Bytes)
    → bytes_eq.beq b x ≡ false
    → myers (b ∷ base) (x ∷ b ∷ base) ≡ replace (x ∷ []) ∷ replicate (length base) keep
unfolding myers
myers-prepend b x base e =
    let rounds : length (b ∷ base) + length (x ∷ b ∷ base)
        ≡ suc (suc (length base + suc (length base))) =
      omega arith in
    ap
      (λ n.
        attach (backtrace n (b ∷ base) (dp_table (b ∷ base) (x ∷ b ∷ base)) (x ∷ b ∷ base) 0 []).0
          (backtrace n (b ∷ base) (dp_table (b ∷ base) (x ∷ b ∷ base)) (x ∷ b ∷ base) 0 []).1)
      rounds
    ∙ ap (λ r. attach r.0 r.1)
        (backtrace-prepend (length base + suc (length base)) b x base e (omega arith))

fold-keep :
    (base : List Bytes) (theirs : List Edit)
    → fold base (replicate (length base) keep) theirs ≡ fold base [] theirs
unfolding fold
fold-keep [] theirs = refl
fold-keep (b ∷ base) theirs = ground (arith, fold-keep base (edits_after theirs))

fold_replaced :
    (b x : Bytes) (base : List Bytes) (theirs : List Edit)
    → fold (b ∷ base) (replace (x ∷ []) ∷ replicate (length base) keep) (keep ∷ theirs)
      ≡ (x ++ (fold base [] theirs).0, (fold base [] theirs).1)
unfolding fold merge_line
fold_replaced b x base theirs = rw (fold-keep base theirs, append_nil x) refl

-- Where one side inserts a line before the first line of the base and the other leaves that line
-- alone, the merge has the inserted line in the place of the base line: a line that neither side
-- removed is gone, and the merge is not marked as a conflict on its account.
pub fold-prepend :
    (b x : Bytes) (base : List Bytes) (theirs : List Edit)
    → bytes_eq.beq b x ≡ false
    → fold (b ∷ base) (myers (b ∷ base) (x ∷ b ∷ base)) (keep ∷ theirs)
      ≡ (x ++ (fold base [] theirs).0, (fold base [] theirs).1)
fold-prepend b x base theirs e =
    ap (λ ours. fold (b ∷ base) ours (keep ∷ theirs)) (myers-prepend b x base e)
    ∙ fold_replaced b x base theirs

split_from-append :
    (line z y : Bytes)
    → split_from line (z ++ 10 ∷ y) ≡ split_from line (z ++ 10 ∷ []) ++ split_from [] y
unfolding split_from
split_from-append line [] y = refl
split_from-append line (b ∷ z) y = elim (Bool-cases (b == 10)) [
  | inl e ↦ rw e (ap (λ t. (line ++ b ∷ []) ∷ t) (split_from-append [] z y))
  | inr e ↦ rw e (split_from-append (line ++ b ∷ []) z y)
]

split_lines-append :
    (z y : Bytes) → split_lines (z ++ 10 ∷ y) ≡ split_lines (z ++ 10 ∷ []) ++ split_from [] y
unfolding split_lines
split_lines-append [] y = split_from-append [] [] y
split_lines-append (b ∷ z) y = split_from-append [] (b ∷ z) y

-- What a script makes of the base: each line is kept or replaced, and lines without an edit are kept.
abbrev pub applied : List Bytes → List Edit → Bytes
applied [] edits = []
applied (line ∷ base) [] = line ++ applied base []
applied (line ∷ base) (keep ∷ edits) = line ++ applied base edits
applied (line ∷ base) (replace lines ∷ edits) = concat lines ++ applied base edits

fold_one_side :
    (base : List Bytes) (theirs : List Edit) → fold base [] theirs ≡ (applied base theirs, false)
unfolding fold merge_line
fold_one_side [] theirs = refl
fold_one_side (line ∷ base) [] = rw (fold_one_side base []) refl
fold_one_side (line ∷ base) (keep ∷ edits) = rw (fold_one_side base edits) refl
fold_one_side (line ∷ base) (replace lines ∷ edits) = rw (fold_one_side base edits) refl

-- Where ours is the base, which ends with a newline, with anything more at its end, and theirs is
-- neither of the two, the merge is what the script of theirs makes of the base, each of its lines kept
-- or replaced by that script, and it is no conflict: nothing of what ours appended is in it, whatever
-- that was.
pub merge_lines-append :
    (z y theirs : Bytes)
    → bytes_eq.beq (z ++ 10 ∷ []) (z ++ 10 ∷ y) ≡ false
    → bytes_eq.beq (z ++ 10 ∷ []) theirs ≡ false
    → bytes_eq.beq (z ++ 10 ∷ y) theirs ≡ false
    → merge_lines (z ++ 10 ∷ []) (z ++ 10 ∷ y) theirs ≡ (
      applied
          (split_lines (z ++ 10 ∷ []))
          (myers (split_lines (z ++ 10 ∷ [])) (split_lines theirs)),
      false,
    )
unfolding merge_lines
merge_lines-append z y theirs e1 e2 e3 =
    let base : List Bytes = split_lines (z ++ 10 ∷ []) in
    let script : myers base (split_lines (z ++ 10 ∷ y)) ≡ replicate (length base) keep =
      ap (myers base) (split_lines-append z y) ∙ myers-append base (split_from [] y) in
    rw (e1, e2, e3)
      (ap (λ ours. fold base ours (myers base (split_lines theirs))) script
        ∙ fold-keep base _
        ∙ fold_one_side base _)
