-- ===== src/Proof/Mmr/Levels.antt =====
-- The levels of one mountain of mmr.rs, as lists of hashes, and where they stand among its nodes.
use origin_tools.Base.{
  ℕ, zero, suc, ◌+◌, ◌-◌, ◌*◌, ◌/◌, ◌%◌, ◌≤◌, ◌<◌, ◌≡◌, refl, sym, ap, ap₂, ◌∙◌, true, some, List,
  [], ◌∷◌, ◌++◌, map, leb, arith, ◌==◌, if◌then◌else◌, length, get_elem?, length-append,
  take_append_of_length, drop_append_of_length,
}
use origin_tools.Base.Bytes.{Bytes}
use origin_tools.Proof.Mmr.{slice, level_offset, level_count, bit, xor_one}

pub bit_pos : (n : ℕ) → 0 < bit n
bit_pos zero = omega arith
bit_pos (suc n) = omega (arith, bit_pos n)

pub bit_mono : (m n : ℕ) → m ≤ n → bit m ≤ bit n
bit_mono zero n h = omega (arith, bit_pos n)
bit_mono (suc m) zero h = absurd (omega arith)
bit_mono (suc m) (suc n) h = omega (arith, bit_mono m n (omega arith))

suc_sub : (n l : ℕ) → suc n - suc l ≡ n - l
suc_sub n l = omega arith

sub_zero : (n : ℕ) → n - 0 ≡ n
sub_zero n = omega arith

pub level_offset_zero : (n : ℕ) → level_offset n 0 ≡ 0
level_offset_zero n = rw (sub_zero n) (omega arith)

level_offset-suc : (n l : ℕ) → l ≤ n → level_offset (suc n) (suc l) ≡ bit (suc n) + level_offset n l
level_offset-suc n l h = rw (suc_sub n l) (omega (arith, bit_mono (n - l) n (omega arith)))

some-injective : (a b : Bytes) → some a ≡ some b → a ≡ b
some-injective a b e = cc

suc_add : (n i : ℕ) → suc n + i ≡ suc (n + i)
suc_add n i = omega arith

pub get_elem?-append_right :
    (as' bs : List Bytes) (i : ℕ) → get_elem? (as' ++ bs) (length as' + i) ≡ get_elem? bs i
get_elem?-append_right [] bs i = ap (get_elem? bs) (omega arith)
get_elem?-append_right (a ∷ as') bs i =
    ap (get_elem? (a ∷ (as' ++ bs))) (suc_add (length as') i) ∙ get_elem?-append_right as' bs i

pub get_elem?-lt : (xs : List Bytes) (i : ℕ) (x : Bytes) → get_elem? xs i ≡ some x → i < length xs
get_elem?-lt [] i x e = cc
get_elem?-lt (y ∷ xs) zero x e = omega arith
get_elem?-lt (y ∷ xs) (suc i) x e = omega (arith, get_elem?-lt xs i x e)

pub get_elem?-append_left :
    (as' bs : List Bytes) (i : ℕ) → i < length as' → get_elem? (as' ++ bs) i ≡ get_elem? as' i
get_elem?-append_left [] bs i h = absurd (omega arith)
get_elem?-append_left (a ∷ as') bs zero h = refl
get_elem?-append_left (a ∷ as') bs (suc i) h = get_elem?-append_left as' bs i (omega arith)

pub map-append : (f : Bytes → Bytes) (xs ys : List Bytes) → map f (xs ++ ys) ≡ map f xs ++ map f ys
map-append f [] ys = refl
map-append f (x ∷ xs) ys = ap (λ t. f x ∷ t) (map-append f xs ys)

pub length-map : (f : Bytes → Bytes) (xs : List Bytes) → length (map f xs) ≡ length xs
length-map f [] = refl
length-map f (x ∷ xs) = ap suc (length-map f xs)

pub get_elem?-map :
    (f : Bytes → Bytes) (xs : List Bytes) (i : ℕ) (x : Bytes)
    → get_elem? xs i ≡ some x
    → get_elem? (map f xs) i ≡ some (f x)
get_elem?-map f [] i x e = cc
get_elem?-map f (y ∷ xs) zero x e = ap (λ t. some (f t)) (some-injective y x e)
get_elem?-map f (y ∷ xs) (suc i) x e = get_elem?-map f xs i x e

pub slice_middle :
    (before middle after : List Bytes) (lo n : ℕ)
    → length before ≡ lo
    → length middle ≡ n
    → slice lo n (before ++ (middle ++ after)) ≡ some middle
unfolding slice
slice_middle before middle after lo n e f =
    let fits : leb (lo + n) (length (before ++ (middle ++ after))) ≡ true =
      grind (arith, length-append before (middle ++ after), length-append middle after) in
    rw
      (
        fits,
        drop_append_of_length lo before (middle ++ after) e,
        take_append_of_length n middle after f,
      )
      refl

module _ (nh : Bytes → Bytes → Bytes) where
  -- One level up.
  abbrev pub pairs : List Bytes → List Bytes
  pairs [] = []
  pairs (a ∷ []) = []
  pairs (a ∷ b ∷ rest) = nh a b ∷ pairs rest

  abbrev pub level : ℕ → List Bytes → List Bytes
  level zero xs = xs
  level (suc l) xs = level l (pairs xs)

  -- The `n + 1` levels over `xs`, one after the other.
  abbrev pub stack : ℕ → List Bytes → List Bytes
  stack zero xs = xs
  stack (suc n) xs = xs ++ stack n (pairs xs)

  pub length-pairs : (n : ℕ) (xs : List Bytes) → length xs ≡ 2 * n → length (pairs xs) ≡ n
  length-pairs zero [] e = refl
  length-pairs (suc n) [] e = absurd (omega arith)
  length-pairs n (a ∷ []) e = absurd (omega arith)
  length-pairs zero (a ∷ b ∷ rest) e = absurd (omega arith)
  length-pairs (suc n) (a ∷ b ∷ rest) e = ap suc (length-pairs n rest (omega arith))

  pub pairs-append :
      (n : ℕ) (xs ys : List Bytes) → length xs ≡ 2 * n → pairs (xs ++ ys) ≡ pairs xs ++ pairs ys
  pairs-append n [] ys e = refl
  pairs-append n (a ∷ []) ys e = absurd (omega arith)
  pairs-append zero (a ∷ b ∷ rest) ys e = absurd (omega arith)
  pairs-append (suc n) (a ∷ b ∷ rest) ys e =
      ap (λ t. nh a b ∷ t) (pairs-append n rest ys (omega arith))

  pub pairs-level : (l : ℕ) (xs : List Bytes) → pairs (level l xs) ≡ level (suc l) xs
  pairs-level zero xs = refl
  pairs-level (suc l) xs = pairs-level l (pairs xs)

  -- A level stands in the stack after the levels below it.
  pub record Stands (n l : ℕ) (xs : List Bytes) : Type 0 where
    pub before : List Bytes
    pub after : List Bytes
    pub split : stack n xs ≡ before ++ (level l xs ++ after)
    pub offset : length before ≡ level_offset n l
    pub count : length (level l xs) ≡ level_count n l

  append_assoc : (xs ys zs : List Bytes) → (xs ++ ys) ++ zs ≡ xs ++ (ys ++ zs)
  append_assoc [] ys zs = refl
  append_assoc (x ∷ xs) ys zs = ap (λ t. x ∷ t) (append_assoc xs ys zs)

  append_nil : (xs : List Bytes) → xs ++ [] ≡ xs
  append_nil [] = refl
  append_nil (x ∷ xs) = ap (λ t. x ∷ t) (append_nil xs)

  pub level-Stands : (n l : ℕ) (xs : List Bytes) → l ≤ n → length xs ≡ bit n → Stands n l xs
  level-Stands zero zero xs h e = record {
    before = [];
    after = [];
    split = sym (append_nil xs);
    offset = sym (level_offset_zero 0);
    count = e;
  }
  level-Stands zero (suc l) xs h e = absurd (omega arith)
  level-Stands (suc n) zero xs h e = record {
    before = [];
    after = stack n (pairs xs);
    split = refl;
    offset = sym (level_offset_zero (suc n));
    count = e ∙ ap bit (sym (sub_zero (suc n)));
  }
  level-Stands (suc n) (suc l) xs h e =
      let half = length-pairs (bit n) xs e in
      let below = level-Stands n l (pairs xs) (omega arith) half in
      record {
        before = xs ++ below.before;
        after = below.after;
        split = ap (λ t. xs ++ t) below.split ∙ sym (append_assoc xs below.before _);
        offset =
            length-append xs below.before
            ∙ ap₂ ◌+◌ e below.offset
            ∙ sym (level_offset-suc n l (omega arith));
        count = below.count ∙ ap bit (sym (suc_sub n l));
      }

  pub level-append :
      (n l : ℕ) (xs ys : List Bytes)
      → l ≤ n
      → length xs ≡ bit n
      → level l (xs ++ ys) ≡ level l xs ++ level l ys
  level-append n zero xs ys h e = refl
  level-append zero (suc l) xs ys h e = absurd (omega arith)
  level-append (suc n) (suc l) xs ys h e =
      ap (level l) (pairs-append (bit n) xs ys e)
      ∙ level-append n l (pairs xs) (pairs ys) (omega arith) (length-pairs (bit n) xs e)

  -- The node next to one in a level of even length, and the node above the two.
  pub get_elem?-pairs :
      (n : ℕ) (xs : List Bytes) (i : ℕ) (x : Bytes)
      → length xs ≡ 2 * n
      → get_elem? xs i ≡ some x
      → (y : Bytes) × (get_elem? xs (xor_one i) ≡ some y)
        × (get_elem? (pairs xs) (i / 2) ≡ some (if i % 2 == 0 then nh x y else nh y x))
  get_elem?-pairs n [] i x e g = cc
  get_elem?-pairs n (a ∷ []) i x e g = absurd (omega arith)
  get_elem?-pairs n (a ∷ b ∷ rest) zero x e g =
      (b, refl, ap (λ t. some (nh t b)) (some-injective a x g))
  get_elem?-pairs n (a ∷ b ∷ rest) (suc zero) x e g =
      (a, refl, ap (λ t. some (nh a t)) (some-injective b x g))
  get_elem?-pairs zero (a ∷ b ∷ rest) (suc (suc i)) x e g = absurd (omega arith)
  get_elem?-pairs (suc n) (a ∷ b ∷ rest) (suc (suc i)) x e g =
      let (y, sibling, above) = get_elem?-pairs n rest i x (omega arith) g in
      let half : suc (suc i) / 2 ≡ suc (i / 2) = omega arith in
      let parity : suc (suc i) % 2 ≡ i % 2 = omega arith in
      let beside : xor_one (suc (suc i)) ≡ suc (suc (xor_one i)) = ground arith in
      (y, rw beside sibling, rw (half, parity) above)

  pub get_elem?-stack :
      (n l : ℕ) (xs : List Bytes) (i : ℕ) (x : Bytes)
      → l ≤ n
      → length xs ≡ bit n
      → get_elem? (level l xs) i ≡ some x
      → get_elem? (stack n xs) (level_offset n l + i) ≡ some x
  get_elem?-stack n l xs i x h e g =
      let s = level-Stands n l xs h e in
      let inside = get_elem?-lt (level l xs) i x g in
      rw (s.split, ← s.offset)
        (get_elem?-append_right s.before (level l xs ++ s.after) i
          ∙ get_elem?-append_left (level l xs) s.after i inside
          ∙ g)

  pub slice-stack :
      (f : Bytes → Bytes) (n l : ℕ) (xs : List Bytes)
      → l ≤ n
      → length xs ≡ bit n
      → slice (level_offset n l) (level_count n l) (map f (stack n xs)) ≡ some (map f (level l xs))
  slice-stack f n l xs h e =
      let s = level-Stands n l xs h e in
      ap (slice (level_offset n l) (level_count n l)) (
        ap (map f) s.split
        ∙ map-append f s.before (level l xs ++ s.after)
        ∙ ap (λ t. map f s.before ++ t) (map-append f (level l xs) s.after))
      ∙ slice_middle (map f s.before) (map f (level l xs)) (map f s.after) _ _
          (length-map f s.before ∙ s.offset) (length-map f (level l xs) ∙ s.count)
