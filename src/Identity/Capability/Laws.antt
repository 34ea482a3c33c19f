-- ===== src/Identity/Capability/Laws.antt =====
-- The tests of capabilities.rs are those of sets of bits, so delegations can only narrow.
use origin_tools.Base.{
  ℕ, zero, suc, ◌<◌, ◌≤◌, ◌⊎◌, ◌≡◌, ◌↔◌, refl, Bool, true, false, ◌&&◌, arith, ltb, Bool-cases, inl,
  inr,
}
use origin_tools.Base.Word.{Word, word_bits, word_zero, word_and, word_not}
use origin_tools.Identity.Capability.{
  CapabilitySet, same_bits, same_bool, union, intersect, has, is_subset_of, from_bits_truncate, all,
}

same_bool_iff : (a b : Bool) → (same_bool a b ≡ true) ↔ (a ≡ b)
same_bool_iff true true = ground arith
same_bool_iff true false = ground arith
same_bool_iff false true = ground arith
same_bool_iff false false = ground arith

nat_cases : (i n : ℕ) → i ≤ n → (i ≡ n) ⊎ (i < n)
nat_cases i n h = elim (Bool-cases (ltb i n)) [
  | inl e ↦ inr (grind arith)
  | inr e ↦ inl (grind arith)
]

same_bits_to : (n : ℕ) (v w : Word) → same_bits n v w ≡ true → (i : ℕ) → i < n → v i ≡ w i
unfolding same_bits
same_bits_to zero v w e i h = absurd (omega arith)
same_bits_to (suc n) v w e i h = elim (nat_cases i n (omega arith)) [
  | inl last ↦ rw last (ground (arith, same_bool_iff (v n) (w n)))
  | inr below ↦ same_bits_to n v w (ground arith) i below
]

same_bits_of : (n : ℕ) (v w : Word) → ((i : ℕ) → i < n → v i ≡ w i) → same_bits n v w ≡ true
unfolding same_bits
same_bits_of zero v w h = refl
same_bits_of (suc n) v w h = ground (
  arith,
  same_bits_of n v w (λ i k. h i (omega arith)),
  same_bool_iff (v n) (w n),
  h n (omega arith),
)

-- Every one of the 64 bits of the first is a bit of the second.
abbrev pub Within : CapabilitySet → CapabilitySet → Type 0
Within a b = (i : ℕ) → i < word_bits → a i ≡ true → b i ≡ true

pub to-Within : (a b : CapabilitySet) → is_subset_of a b ≡ true → Within a b
unfolding is_subset_of
to-Within a b e i h k =
    ground (arith, same_bits_to word_bits (word_and a (word_not b)) word_zero e i h)

pub of-Within : (a b : CapabilitySet) → Within a b → is_subset_of a b ≡ true
unfolding is_subset_of
of-Within a b f =
    same_bits_of word_bits (word_and a (word_not b)) word_zero (λ i h. ground (arith, f i h))

has_to : (a b : CapabilitySet) → has b a ≡ true → Within a b
unfolding has
has_to a b e i h k = ground (arith, same_bits_to word_bits (word_and b a) a e i h)

has_of : (a b : CapabilitySet) → Within a b → has b a ≡ true
unfolding has
has_of a b f = same_bits_of word_bits (word_and b a) a (λ i h. ground (arith, f i h))

eq_of_iff : (x y : Bool) → (x ≡ true → y ≡ true) → (y ≡ true → x ≡ true) → x ≡ y
eq_of_iff true y f g = ground arith
eq_of_iff false y f g = ground arith

-- `is_subset_of` holds exactly when every bit of the first set is a bit of the second, and `has` is
-- the same test with the sets exchanged.
pub is_subset_of_lem :
    (a b : CapabilitySet) → ((is_subset_of a b ≡ true) ↔ Within a b) × (has b a ≡ is_subset_of a b)
is_subset_of_lem a b = (
  (to-Within a b, of-Within a b),
  eq_of_iff _ _ (λ h. of-Within a b (has_to a b h)) (λ h. has_of a b (to-Within a b h)),
)

-- A chain of narrowings is a narrowing: a set within a set within a third is within the third.
pub is_subset_of_trans :
    (a b c : CapabilitySet)
    → is_subset_of a b ≡ true
    → is_subset_of b c ≡ true
    → is_subset_of a c ≡ true
is_subset_of_trans a b c h k = of-Within a c (λ i l e. to-Within b c k i l (to-Within a b h i l e))

and_intro : (x y : Bool) → x ≡ true → y ≡ true → (x && y) ≡ true
and_intro x y h k = ground arith

and_parts : (x y : Bool) → (x && y) ≡ true → (x ≡ true) × (y ≡ true)
and_parts true y h = (refl, h)
and_parts false y h = cc

below_intersect :
    (a b c : CapabilitySet)
    → is_subset_of c (intersect a b) ≡ (is_subset_of c a && is_subset_of c b)
unfolding intersect
below_intersect a b c =
    eq_of_iff _ _
      (λ h.
        and_intro _ _
          (of-Within c a (λ i l e. (and_parts _ _ (to-Within c (intersect a b) h i l e)).0))
          (of-Within c b (λ i l e. (and_parts _ _ (to-Within c (intersect a b) h i l e)).1)))
      (λ h.
        let both : (is_subset_of c a ≡ true) × (is_subset_of c b ≡ true) = and_parts _ _ h in
        of-Within c (intersect a b)
          (λ i l e. and_intro _ _ (to-Within c a both.0 i l e) (to-Within c b both.1 i l e)))

union_below :
    (a b c : CapabilitySet) → is_subset_of (union a b) c ≡ (is_subset_of a c && is_subset_of b c)
unfolding union
union_below a b c =
    eq_of_iff _ _
      (λ h.
        and_intro _ _ (of-Within a c (λ i l e. to-Within (union a b) c h i l (ground arith)))
          (of-Within b c (λ i l e. to-Within (union a b) c h i l (ground arith))))
      (λ h.
        let both : (is_subset_of a c ≡ true) × (is_subset_of b c ≡ true) = and_parts _ _ h in
        of-Within (union a b) c
          (λ i l e. ground (arith, to-Within a c both.0 i l, to-Within b c both.1 i l)))

truncate_below : (a : CapabilitySet) → is_subset_of (from_bits_truncate a) all ≡ true
unfolding from_bits_truncate
truncate_below a = of-Within (from_bits_truncate a) all (λ i l e. (and_parts _ _ e).1)

-- A set is within an intersection exactly when it is within both sets, a union is within a set
-- exactly when both its parts are, and truncating raw bits leaves only defined capabilities.
pub is_subset_of-intersect :
    (a b c : CapabilitySet)
    → (is_subset_of c (intersect a b) ≡ (is_subset_of c a && is_subset_of c b))
      × (is_subset_of (union a b) c ≡ (is_subset_of a c && is_subset_of b c))
      × (is_subset_of (from_bits_truncate a) all ≡ true)
is_subset_of-intersect a b c = (below_intersect a b c, union_below a b c, truncate_below a)
