-- ===== src/Vcs/Textmerge/Script.antt =====
-- The backtrace of textmerge.rs ends, with one edit for each base line.
use origin_tools.Base.{
  ℕ, zero, suc, ◌+◌, ◌-◌, ◌≤◌, ◌<◌, ◌≡◌, ◌⊎◌, refl, ap, ◌∙◌, Option, none, some, List, [], ◌∷◌,
  ◌++◌, arith, leb, length, get_elem?, Bool-cases, inl, inr,
}
use origin_tools.Base.Bytes.{Bytes}
use origin_tools.Vcs.Textmerge.{
  move, matched, inserted, deleted, at, first_row, dp_table, is_match, backtrace, attach, myers,
}
use origin_tools.Vcs.Textmerge.Table.{length-dp_table}

-- What the loop has held back when it ends: only a loop without base lines leaves anything.
abbrev left_over : List Bytes → List Bytes → List Bytes
left_over [] held = held
left_over (b ∷ base) held = []

get_elem?-lt : {A : Type 0} (xs : List A) (j : ℕ) (x : A) → get_elem? xs j ≡ some x → j < length xs
get_elem?-lt [] j x e = cc
get_elem?-lt (y ∷ xs) zero x e = omega arith
get_elem?-lt (y ∷ xs) (suc j) x e = omega (arith, get_elem?-lt xs j x e)

pub move-cases :
    (b : Bytes) (o : Option Bytes) (row below : List ℕ) (j : ℕ)
    → ((move b o row below j ≡ matched)
        ⊎ ((t : Bytes) × (move b o row below j ≡ inserted t) × (o ≡ some t)))
      ⊎ (move b o row below j ≡ deleted)
unfolding move
move-cases b none row below j = inr refl
move-cases b (some t) row below j = elim (Bool-cases (is_match b (some t) row below j)) [
  | inl m ↦ rw m (inl (inl refl))
  | inr m ↦ elim (Bool-cases (leb (at below j) (at row (j + 1)))) [
    | inl k ↦ rw (m, k) (inl (inr (t, refl, refl)))
    | inr k ↦ rw (m, k) (inr refl)
  ]
]

pub length-backtrace :
    (fuel : ℕ) (base : List Bytes) (rows : List (List ℕ)) (target : List Bytes) (j : ℕ)
    (held : List Bytes)
    → length base ≤ length rows
    → length base + (length target - j) ≤ fuel
    → (length (backtrace fuel base rows target j held).0 ≡ length base)
      × ((backtrace fuel base rows target j held).1 ≡ left_over base held)
unfolding backtrace
length-backtrace zero [] rows target j held r f = (refl, refl)
length-backtrace zero (b ∷ base) rows target j held r f = absurd (omega arith)
length-backtrace (suc fuel) [] rows target j held r f = (refl, refl)
length-backtrace (suc fuel) (b ∷ base) [] target j held r f = absurd (omega arith)
length-backtrace (suc fuel) (b ∷ base) (row ∷ rows) target j held r f =
    elim (move-cases b (get_elem? target j) row (first_row rows) j) [
      | inl (inl m) ↦ ground (arith, m, length-backtrace fuel base rows target (j + 1) [])
      | inl (inr (t, m, e)) ↦ ground (
        arith,
        m,
        get_elem?-lt target j t e,
        length-backtrace fuel (b ∷ base) (row ∷ rows) target (j + 1) (held ++ t ∷ []),
      )
      | inr m ↦ ground (arith, m, length-backtrace fuel base rows target j [])
    ]

-- The rounds that the backtrace is given, as many as the lines of both texts, are enough for it to
-- reach the end of the base: the script of a base has exactly one edit for each of its lines.
pub length-myers : (base target : List Bytes) → length (myers base target) ≡ length base
unfolding myers
length-myers [] target = refl
length-myers (b ∷ base) target =
    let r =
      length-backtrace (length (b ∷ base) + length target) (b ∷ base) (dp_table (b ∷ base) target)
        target 0 [] (omega (arith, length-dp_table (b ∷ base) target)) (omega arith) in
    ap
      (λ left. length (
        attach
          (backtrace (length (b ∷ base) + length target) (b ∷ base) (dp_table (b ∷ base) target)
            target 0 []).0
          left))
      r.1
    ∙ r.0
