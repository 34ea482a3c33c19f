-- ===== src/Vcs/Textmerge/Table.antt =====
-- The table of textmerge.rs against the length of a longest common subsequence.
use origin_tools.Base.{
  ℕ, zero, suc, ◌+◌, ◌≤◌, ◌≡◌, refl, ◌∙◌, true, false, List, [], ◌∷◌, arith, max, length, drop,
  replicate,
}
use origin_tools.Base.Bytes.{Bytes}
use origin_tools.Base.Eq.{bytes_eq}
use origin_tools.Vcs.Textmerge.{at, tail_row, next_row, first_row, dp_table}

-- The length of a longest common subsequence of two lists of lines.
unfoldable pub lcs : List Bytes → List Bytes → ℕ
lcs [] target = 0
lcs (b ∷ base) [] = 0
lcs (b ∷ base) (t ∷ target) = elim (bytes_eq.beq b t) [
  | true ↦ suc (lcs base target)
  | false ↦ max (lcs base (t ∷ target)) (lcs (b ∷ base) target)
]

pub lcs_le :
    (base target : List Bytes) → (lcs base target ≤ length base) × (lcs base target ≤ length target)
unfolding lcs
lcs_le [] target = omega arith
lcs_le (b ∷ base) [] = omega arith
lcs_le (b ∷ base) (t ∷ target) =
    ground (arith, lcs_le base target, lcs_le base (t ∷ target), lcs_le (b ∷ base) target)

pub lcs_self : (base : List Bytes) → lcs base base ≡ length base
unfolding lcs
lcs_self [] = refl
lcs_self (b ∷ base) = ground (arith, lcs_self base, bytes_eq.beq_iff b b)

at-tail_row : (row : List ℕ) (j : ℕ) → at (tail_row row) j ≡ at row (suc j)
at-tail_row [] j = refl
at-tail_row (d ∷ row) j = refl

at-replicate : (n j : ℕ) → at (replicate n 0) j ≡ 0
at-replicate zero j = refl
at-replicate (suc n) zero = refl
at-replicate (suc n) (suc j) = at-replicate n j

drop_nil : {A : Type 0} (j : ℕ) → drop {A = A} j [] ≡ []
drop_nil zero = refl
drop_nil (suc j) = refl

lcs_nil : (base : List Bytes) → lcs base [] ≡ 0
unfolding lcs
lcs_nil [] = refl
lcs_nil (b ∷ base) = refl

at-next_row :
    (b : Bytes) (base target : List Bytes) (below : List ℕ)
    → ((j : ℕ) → at below j ≡ lcs base (drop j target))
    → (j : ℕ) → at (next_row b target below) j ≡ lcs (b ∷ base) (drop j target)
unfolding next_row lcs
at-next_row b base [] below h zero = refl
at-next_row b base [] below h (suc j) = refl
at-next_row b base (t ∷ target) below h zero =
    let rest =
      at-next_row b base target (tail_row below) (λ k. at-tail_row below k ∙ h (suc k)) zero in
    ground (arith, h zero, h 1, rest)
at-next_row b base (t ∷ target) below h (suc j) =
    at-next_row b base target (tail_row below) (λ k. at-tail_row below k ∙ h (suc k)) j

pub at-dp_table :
    (base target : List Bytes) (j : ℕ)
    → at (first_row (dp_table base target)) j ≡ lcs base (drop j target)
unfolding dp_table lcs
at-dp_table [] target j = at-replicate (length target + 1) j
at-dp_table (b ∷ base) target j =
    at-next_row b base target (first_row (dp_table base target)) (at-dp_table base target) j

pub length-dp_table : (base target : List Bytes) → length (dp_table base target) ≡ length base + 1
unfolding dp_table
length-dp_table [] target = refl
length-dp_table (b ∷ base) target = omega (arith, length-dp_table base target)

-- The entry in row `i` and column `j` of the table is the length of a longest common subsequence of
-- the base lines from `i` on and the target lines from `j` on, and it is at most the number of each.
pub dp_table_lem :
    (base target : List Bytes) (i j : ℕ)
    → i ≤ length base
    → (at (first_row (drop i (dp_table base target))) j ≡ lcs (drop i base) (drop j target))
      × (lcs (drop i base) (drop j target) ≤ length (drop i base))
      × (lcs (drop i base) (drop j target) ≤ length (drop j target))
unfolding dp_table
dp_table_lem base target zero j h =
    let bound = lcs_le base (drop j target) in (at-dp_table base target j, bound.0, bound.1)
dp_table_lem [] target (suc i) j h = absurd (omega arith)
dp_table_lem (b ∷ base) target (suc i) j h = dp_table_lem base target i j (omega arith)
