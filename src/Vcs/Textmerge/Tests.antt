-- ===== src/Vcs/Textmerge/Tests.antt =====
-- Runs of the merge.
use origin_tools.Base.{◌≤◌, ◌≡◌, refl, false, [], ◌∷◌, ◌++◌, arith, length, drop}
use origin_tools.Base.Bytes.{Bytes}
use origin_tools.Vcs.Textmerge.{
  merge_lines, fold, merge_line, myers, backtrace, move, dp_table, next_row, split_lines,
  split_from, keep, replace, at, first_row,
}
use origin_tools.Vcs.Textmerge.Table.{lcs, dp_table_lem}
use origin_tools.Vcs.Textmerge.Script.{length-myers}
use origin_tools.Vcs.Textmerge.Lost.{applied, fold-prepend, merge_lines-append}

abbrev a : Bytes
a = b'a' ∷ 10 ∷ []

abbrev b : Bytes
b = b'b' ∷ 10 ∷ []

abbrev c : Bytes
c = b'c' ∷ 10 ∷ []

abbrev text : Bytes
text = b'a' ∷ 10 ∷ b'b' ∷ 10 ∷ b'c' ∷ []

-- One line changed, one line after it untouched.
changed : myers (a ∷ b ∷ []) (c ∷ b ∷ []) ≡ replace (c ∷ []) ∷ keep ∷ []
unfolding myers backtrace move dp_table next_row
changed = refl

prepended : myers (a ∷ b ∷ []) (c ∷ a ∷ b ∷ []) ≡ replace (c ∷ []) ∷ keep ∷ []
unfolding myers backtrace move dp_table next_row
prepended = refl

appended : myers (a ∷ b ∷ []) (a ∷ b ∷ c ∷ []) ≡ keep ∷ keep ∷ []
unfolding myers backtrace move dp_table next_row
appended = refl

dp_table_lem_example :
    (at (first_row (drop 1 (dp_table (a ∷ b ∷ []) (c ∷ b ∷ [])))) 1 ≡ lcs (b ∷ []) (b ∷ []))
    × (lcs (b ∷ []) (b ∷ []) ≤ 1)
    × (lcs (b ∷ []) (b ∷ []) ≤ 1)
dp_table_lem_example = dp_table_lem (a ∷ b ∷ []) (c ∷ b ∷ []) 1 1 (omega arith)

length-myers_example : length (myers (a ∷ b ∷ []) (c ∷ [])) ≡ 2
length-myers_example = length-myers (a ∷ b ∷ []) (c ∷ [])

split_text : split_lines text ≡ a ∷ b ∷ (b'c' ∷ []) ∷ []
unfolding split_lines split_from
split_text = refl

merged : merge_lines (a ++ b) (c ++ b) (a ++ c) ≡ (c ++ c, false)
unfolding merge_lines split_lines split_from myers backtrace move dp_table next_row fold merge_line
merged = refl

fold-prepend_example :
    fold (a ∷ b ∷ []) (myers (a ∷ b ∷ []) (c ∷ a ∷ b ∷ [])) (keep ∷ replace [] ∷ [])
    ≡ (c ++ (fold (b ∷ []) [] (replace [] ∷ [])).0, (fold (b ∷ []) [] (replace [] ∷ [])).1)
fold-prepend_example = fold-prepend a c (b ∷ []) (replace [] ∷ []) refl

merge_lines-append_example :
    merge_lines (a ++ b) (a ++ (b ++ c)) (c ++ b)
    ≡ (applied (split_lines (a ++ b)) (myers (split_lines (a ++ b)) (split_lines (c ++ b))), false)
merge_lines-append_example = merge_lines-append (b'a' ∷ 10 ∷ b'b' ∷ []) c (c ++ b) refl refl refl

-- Ours appends the line `c`, theirs changes the first line: the appended line is gone.
append_lost : merge_lines (a ++ b) (a ++ (b ++ c)) (c ++ b) ≡ (c ++ b, false)
unfolding merge_lines split_lines split_from myers backtrace move dp_table next_row fold merge_line
append_lost = refl
