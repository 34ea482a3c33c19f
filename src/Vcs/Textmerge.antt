-- ===== src/Vcs/Textmerge.antt =====
-- origin-vcs/src/textmerge.rs: the three-way merge of texts by lines. The counters of the table are
-- `u32`; they stay within the number of lines, so that no text of less than 2^32 lines makes them
-- wrap, and they are plain numbers here.
pub mod Table
pub mod Script
pub mod Fold
pub mod Lost
mod Tests
use origin_tools.Base.{
  ℕ, zero, suc, ◌+◌, Bool, true, false, ◌&&◌, ◌||◌, Option, none, some, List, [], ◌∷◌, ◌++◌, ltb,
  leb, ◌==◌, if◌then◌else◌, length, get_elem?, replicate,
}
use origin_tools.Base.Bytes.{Bytes}
use origin_tools.Base.Eq.{bytes_eq}

pub data Edit : Type 0 where
  keep : Edit
  replace : List Bytes → Edit

-- A last line without a newline.
abbrev pub last_line : Bytes → List Bytes
last_line [] = []
last_line (c ∷ line) = (c ∷ line) ∷ []

-- The lines of `bytes`, after the part `line` of the line that is being read.
unfoldable pub split_from : Bytes → Bytes → List Bytes
split_from line [] = last_line line
split_from line (b ∷ bytes) =
    if b == 10 then (line ++ b ∷ []) ∷ split_from [] bytes else split_from (line ++ b ∷ []) bytes

unfoldable pub split_lines : Bytes → List Bytes
unfolding split_from
split_lines [] = [] ∷ []
split_lines (b ∷ bytes) = split_from [] (b ∷ bytes)

abbrev pub at : List ℕ → ℕ → ℕ
at [] j = 0
at (d ∷ row) zero = d
at (d ∷ row) (suc j) = at row j

abbrev pub tail_row : List ℕ → List ℕ
tail_row [] = []
tail_row (d ∷ row) = row

-- `dp[i]` from `dp[i + 1]`, column by column from the right.
unfoldable pub next_row : Bytes → List Bytes → List ℕ → List ℕ
next_row line [] below = 0 ∷ []
next_row line (t ∷ target) below =
    let rest = next_row line target (tail_row below) in
    (if bytes_eq.beq line t
      then at below 1 + 1
      else if ltb (at below 0) (at rest 0)
      then at rest 0
      else at below 0)
    ∷ rest

abbrev pub first_row : List (List ℕ) → List ℕ
first_row [] = []
first_row (row ∷ rows) = row

unfoldable pub dp_table : List Bytes → List Bytes → List (List ℕ)
unfolding next_row
dp_table [] target = replicate (length target + 1) 0 ∷ []
dp_table (b ∷ base) target =
    let rows = dp_table base target in next_row b target (first_row rows) ∷ rows

abbrev pub flush : List Bytes → Edit
flush [] = keep
flush (l ∷ held) = replace (l ∷ held)

-- Whether the base line `b` is matched with the target line at column `j`.
abbrev pub is_match : Bytes → Option Bytes → List ℕ → List ℕ → ℕ → Bool
is_match b none row below j = false
is_match b (some t) row below j = bytes_eq.beq b t && at row j == at below (j + 1) + 1

-- A round of the backtrace loop takes the match, takes a target line as an insert, or deletes.
pub data Move : Type 0 where
  matched deleted : Move
  inserted : Bytes → Move

abbrev pub unmatched : Option Bytes → Bool → Move
unmatched none fits = deleted
unmatched (some t) fits = if fits then inserted t else deleted

unfoldable pub move : Bytes → Option Bytes → List ℕ → List ℕ → ℕ → Move
move b o row below j =
    if is_match b o row below j then matched else unmatched o (leb (at below j) (at row (j + 1)))

abbrev pub add_edit : Edit → List Edit × List Bytes → List Edit × List Bytes
add_edit e r = (e ∷ r.0, r.1)

-- The loop: the base lines and table rows that are left, the column, the inserts that are held back;
-- the edits that it adds, and the inserts that are held at its end.
unfoldable pub backtrace :
    ℕ → List Bytes → List (List ℕ) → List Bytes → ℕ → List Bytes → List Edit × List Bytes
unfolding move
backtrace zero base rows target j held = ([], held)
backtrace (suc fuel) [] rows target j held = ([], held)
backtrace (suc fuel) (b ∷ base) [] target j held = ([], held)
backtrace (suc fuel) (b ∷ base) (row ∷ rows) target j held =
    elim (move b (get_elem? target j) row (first_row rows) j) [
      | matched ↦ add_edit (flush held) (backtrace fuel base rows target (j + 1) [])
      | inserted t ↦ backtrace fuel (b ∷ base) (row ∷ rows) target (j + 1) (held ++ t ∷ [])
      | deleted ↦ add_edit (replace held) (backtrace fuel base rows target j [])
    ]

-- Inserts that are left over at the end go to the last edit.
abbrev pub attach : List Edit → List Bytes → List Edit
attach edits [] = edits
attach [] (l ∷ held) = replace (l ∷ held) ∷ []
attach (keep ∷ []) (l ∷ held) = keep ∷ replace (l ∷ held) ∷ []
attach (replace lines ∷ []) (l ∷ held) = replace (lines ++ l ∷ held) ∷ []
attach (e ∷ f ∷ edits) (l ∷ held) = e ∷ attach (f ∷ edits) (l ∷ held)

unfoldable pub myers : List Bytes → List Bytes → List Edit
unfolding backtrace dp_table
myers [] target = []
myers (b ∷ base) target =
    let (edits, left) =
      backtrace (length (b ∷ base) + length target) (b ∷ base) (dp_table (b ∷ base) target) target 0
        [] in
    attach edits left

abbrev pub concat : List Bytes → Bytes
concat [] = []
concat (l ∷ lines) = l ++ concat lines

abbrev pub same_lines : List Bytes → List Bytes → Bool
same_lines [] [] = true
same_lines [] (l ∷ ls) = false
same_lines (l ∷ ls) [] = false
same_lines (l ∷ ls) (k ∷ ks) = bytes_eq.beq l k && same_lines ls ks

abbrev pub ours_marker : Bytes
ours_marker =
    b'<' ∷ b'<' ∷ b'<' ∷ b'<' ∷ b'<' ∷ b'<' ∷ b'<' ∷ b' ' ∷ b'o' ∷ b'u' ∷ b'r' ∷ b's' ∷ 10 ∷ []

abbrev pub middle_marker : Bytes
middle_marker = b'=' ∷ b'=' ∷ b'=' ∷ b'=' ∷ b'=' ∷ b'=' ∷ b'=' ∷ 10 ∷ []

abbrev pub theirs_marker : Bytes
theirs_marker =
    b'>' ∷ b'>' ∷ b'>' ∷ b'>' ∷ b'>' ∷ b'>' ∷ b'>' ∷ b' ' ∷ b't' ∷ b'h' ∷ b'e' ∷ b'i' ∷ b'r' ∷ b's'
    ∷ 10 ∷ []

abbrev pub conflict : List Bytes → List Bytes → Bytes
conflict ov tv = ours_marker ++ (concat ov ++ (middle_marker ++ (concat tv ++ theirs_marker)))

-- One base line under the two sides' edits, and whether they conflict.
unfoldable pub merge_line : Bytes → Edit → Edit → Bytes × Bool
merge_line line keep keep = (line, false)
merge_line line (replace ov) keep = (concat ov, false)
merge_line line keep (replace tv) = (concat tv, false)
merge_line line (replace ov) (replace tv) =
    if same_lines ov tv then (concat ov, false) else (conflict ov tv, true)

-- `get(bi).unwrap_or(Keep)`, and what follows.
abbrev pub edit_at : List Edit → Edit
edit_at [] = keep
edit_at (e ∷ edits) = e

abbrev pub edits_after : List Edit → List Edit
edits_after [] = []
edits_after (e ∷ edits) = edits

unfoldable pub fold : List Bytes → List Edit → List Edit → Bytes × Bool
unfolding merge_line
fold [] ours theirs = ([], false)
fold (line ∷ base) ours theirs =
    let (out, conflicted) = merge_line line (edit_at ours) (edit_at theirs) in
    let (rest, more) = fold base (edits_after ours) (edits_after theirs) in
    (out ++ rest, conflicted || more)

unfoldable pub merge_lines : Bytes → Bytes → Bytes → Bytes × Bool
unfolding split_lines myers fold
merge_lines base ours theirs =
    if bytes_eq.beq base ours
    then (theirs, false)
    else if bytes_eq.beq base theirs
    then (ours, false)
    else if bytes_eq.beq ours theirs
    then (ours, false)
    else let b = split_lines base in
      fold b (myers b (split_lines ours)) (myers b (split_lines theirs))
