-- ===== src/Base/Decimal.antt =====
-- Texts as lists of code points, decimal numbers as the standard library prints and parses them,
-- and `trim` and `split`.
use Prim.Native.Nat.{ℕ, zero, suc, ◌+◌, ◌-◌, ◌*◌, ◌/◌, ◌%◌, ◌≤◌, ◌<◌}
use Prim.Native.Char.{code}
use Prim.Native.String.{String}
use mathlib.Core.Path.{◌≡◌, refl, ◌∙◌}
use mathlib.Core.Bool.{Bool, true, false, ◌&&◌, ◌||◌, not}
use mathlib.Core.Option.{Option, none, some}
use mathlib.Core.List.{List, [], ◌∷◌, ◌++◌}
use mathlib.Core.Logic.{◌≢◌, inl, inr}
use native.Mathlib.Omega.{arith}
use origin_tools.Base.Tests.{ltb, leb, ◌==◌, if◌then◌else◌, Bool-cases}
use origin_tools.Base.Outcome.{bind_some}

abbrev pub Text : Type 0
Text = List ℕ

-- The code points of a text: its bytes, if it is ASCII. Literals in the models are ASCII.
abbrev pub codes : String → Text
codes String.[] = []
codes (String.◌∷◌ c s) = code c ∷ codes s

-- `u8::is_ascii_digit`
abbrev pub is_digit : ℕ → Bool
is_digit c = leb 48 c && leb c 57

-- `bytes().all(|b| b.is_ascii_digit())`
abbrev pub all_digits : Text → Bool
all_digits [] = true
all_digits (c ∷ cs) = is_digit c && all_digits cs

-- The number that decimal digits state, after those already read.
unfoldable pub value : ℕ → Text → Option ℕ
value acc [] = some acc
value acc (c ∷ cs) = let rest = value (acc * 10 + (c - 48)) cs in if is_digit c then rest else none

abbrev pub below : ℕ → Option ℕ → Option ℕ
below bound none = none
below bound (some n) = if ltb n bound then some n else none

-- `parse` into an unsigned type whose values are below the bound. A leading plus is accepted.
unfoldable pub from_text : ℕ → Text → Option ℕ
unfolding value
from_text bound [] = none
from_text bound (c ∷ []) = below bound (value 0 (c ∷ []))
from_text bound (c ∷ d ∷ cs) = below bound (value 0 (if c == 43 then d ∷ cs else c ∷ d ∷ cs))

-- `to_string` of an unsigned number, with as many rounds as the number and one.
digits : ℕ → ℕ → Text
digits zero n = []
digits (suc f) n =
    let more = digits f (n / 10) ++ (48 + n % 10) ∷ [] in if ltb n 10 then (48 + n) ∷ [] else more

unfoldable pub to_text : ℕ → Text
unfolding digits
to_text n = digits (suc n) n

-- `char::is_whitespace`
abbrev pub is_whitespace : ℕ → Bool
is_whitespace c =
    (leb 9 c && leb c 13)
    || c == 32
    || c == 133
    || c == 160
    || c == 5760
    || (leb 8192 c && leb c 8202)
    || c == 8232
    || c == 8233
    || c == 8239
    || c == 8287
    || c == 12288

abbrev trim_start : Text → Text
trim_start [] = []
trim_start (c ∷ cs) = if is_whitespace c then trim_start cs else c ∷ cs

abbrev keep_visible : ℕ → Text → Text
keep_visible c [] = if is_whitespace c then [] else c ∷ []
keep_visible c (d ∷ ds) = c ∷ d ∷ ds

abbrev trim_end : Text → Text
trim_end [] = []
trim_end (c ∷ cs) = keep_visible c (trim_end cs)

unfoldable pub trim : Text → Text
trim s = trim_end (trim_start s)

abbrev add_char : ℕ → List Text → List Text
add_char c [] = (c ∷ []) ∷ []
add_char c (p ∷ ps) = (c ∷ p) ∷ ps

-- `split` at a character: one part more than there are separators.
unfoldable pub split : ℕ → Text → List Text
split sep [] = [] ∷ []
split sep (c ∷ cs) = if c == sep then [] ∷ split sep cs else add_char c (split sep cs)

-- Laws of the above.
and_both : (a b : Bool) → (a && b) ≡ true → (a ≡ true) × (b ≡ true)
and_both a b h = ground arith

value-append :
    (acc : ℕ) (xs ys : Text) → value acc (xs ++ ys) ≡ bind_some (value acc xs) (λ v. value v ys)
unfolding value
value-append acc [] ys = refl
value-append acc (x ∷ xs) ys = ground (arith, value-append (acc * 10 + (x - 48)) xs ys)

value-digits : (f n : ℕ) → n < f → value 0 (digits f n) ≡ some n
unfolding value digits
value-digits zero n h = elim h [ ]
value-digits (suc f) n h = elim (Bool-cases (ltb n 10)) [
  | inl small ↦ rw small (ground arith)
  | inr big ↦
      ground
        (arith, value-append 0 (digits f (n / 10)) ((48 + n % 10) ∷ []), value-digits f (n / 10))
]

all_digits-append : (xs ys : Text) → all_digits (xs ++ ys) ≡ (all_digits xs && all_digits ys)
all_digits-append [] ys = refl
all_digits-append (x ∷ xs) ys = ground (arith, all_digits-append xs ys)

all_digits-digits : (f n : ℕ) → all_digits (digits f n) ≡ true
unfolding digits
all_digits-digits zero n = refl
all_digits-digits (suc f) n = ground (
  arith,
  all_digits-append (digits f (n / 10)) ((48 + n % 10) ∷ []),
  all_digits-digits f (n / 10),
)

snoc-ne-nil : (xs : Text) (c : ℕ) → xs ++ c ∷ [] ≢ []
snoc-ne-nil [] c e = cc
snoc-ne-nil (x ∷ xs) c e = cc

digits-ne-nil : (f n : ℕ) → digits (suc f) n ≢ []
unfolding digits
digits-ne-nil f n = ground (arith, snoc-ne-nil (digits f (n / 10)) (48 + n % 10))

from_text_of_digits :
    (bound : ℕ) (xs : Text)
    → all_digits xs ≡ true
    → xs ≢ []
    → from_text bound xs ≡ below bound (value 0 xs)
unfolding from_text
from_text_of_digits bound [] h e = absurd (e refl)
from_text_of_digits bound (c ∷ []) h e = refl
from_text_of_digits bound (c ∷ d ∷ cs) h e = ground arith

pub to_text-digits : (n : ℕ) → all_digits (to_text n) ≡ true
unfolding to_text
to_text-digits n = all_digits-digits (suc n) n

pub to_text-ne-nil : (n : ℕ) → to_text n ≢ []
unfolding to_text
to_text-ne-nil n = digits-ne-nil n n

-- What is printed is read back, by every type that holds it.
pub from_text-to_text : (bound n : ℕ) → n < bound → from_text bound (to_text n) ≡ some n
unfolding to_text
from_text-to_text bound n h =
    from_text_of_digits bound (digits (suc n) n) (all_digits-digits (suc n) n) (digits-ne-nil n n)
    ∙ (rw (value-digits (suc n) n (omega arith)) (ground arith))

-- Of a number that is printed in full the bound is all that can fail.
pub from_text-to_text_over : (bound n : ℕ) → bound ≤ n → from_text bound (to_text n) ≡ none
unfolding to_text
from_text-to_text_over bound n h =
    from_text_of_digits bound (digits (suc n) n) (all_digits-digits (suc n) n) (digits-ne-nil n n)
    ∙ (rw (value-digits (suc n) n (omega arith)) (ground arith))

pub split-digits :
    (sep : ℕ) (xs : Text) → is_digit sep ≡ false → all_digits xs ≡ true → split sep xs ≡ xs ∷ []
unfolding split
split-digits sep [] s h = refl
split-digits sep (x ∷ xs) s h = ground (arith, split-digits sep xs s)

-- The first part ends at the first separator.
pub split-append :
    (sep : ℕ) (xs ys : Text)
    → is_digit sep ≡ false
    → all_digits xs ≡ true
    → split sep (xs ++ sep ∷ ys) ≡ xs ∷ split sep ys
unfolding split
split-append sep [] ys s h = ground arith
split-append sep (x ∷ xs) ys s h = ground (arith, split-append sep xs ys s)

abbrev pub no_whitespace : Text → Bool
no_whitespace [] = true
no_whitespace (c ∷ cs) = not (is_whitespace c) && no_whitespace cs

pub no_whitespace-append :
    (xs ys : Text) → no_whitespace (xs ++ ys) ≡ (no_whitespace xs && no_whitespace ys)
no_whitespace-append [] ys = refl
no_whitespace-append (x ∷ xs) ys = ground (arith, no_whitespace-append xs ys)

digit-visible : (c : ℕ) → is_digit c ≡ true → is_whitespace c ≡ false
digit-visible c h = ground arith

pub no_whitespace-digits : (xs : Text) → all_digits xs ≡ true → no_whitespace xs ≡ true
no_whitespace-digits [] h = refl
no_whitespace-digits (x ∷ xs) h =
    let (d, ds) = and_both (is_digit x) (all_digits xs) h in
    rw (digit-visible x d, no_whitespace-digits xs ds)

visible_of_not : (b : Bool) → not b ≡ true → b ≡ false
visible_of_not b h = ground arith

kept : (c : ℕ) (cs : Text) → is_whitespace c ≡ false → keep_visible c cs ≡ c ∷ cs
kept c [] h = rw h
kept c (d ∷ ds) h = refl

trim_start_visible : (s : Text) → no_whitespace s ≡ true → trim_start s ≡ s
trim_start_visible [] h = refl
trim_start_visible (c ∷ cs) h =
    let (v, vs) = and_both (not (is_whitespace c)) (no_whitespace cs) h in
    rw (visible_of_not (is_whitespace c) v)

trim_end_visible : (s : Text) → no_whitespace s ≡ true → trim_end s ≡ s
trim_end_visible [] h = refl
trim_end_visible (c ∷ cs) h =
    let (v, vs) = and_both (not (is_whitespace c)) (no_whitespace cs) h in
    rw (trim_end_visible cs vs) (kept c cs (visible_of_not (is_whitespace c) v))

pub trim_visible : (s : Text) → no_whitespace s ≡ true → trim s ≡ s
unfolding trim
trim_visible s h = rw (trim_start_visible s h) (trim_end_visible s h)
