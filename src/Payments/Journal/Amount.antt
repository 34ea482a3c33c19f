-- ===== src/Payments/Journal/Amount.antt =====
-- Amounts of journal.rs as texts: what is printed is read back.
use origin_tools.Base.{
  ℕ, ◌-◌, ◌/◌, ◌%◌, ◌<◌, ◌≤◌, ◌≡◌, ◌≢◌, refl, ◌∙◌, ap, Bool, true, false, some, [], ◌∷◌, ◌++◌,
  arith, ◌==◌, if◌then◌else◌, length, Bool-cases, inl, inr, ok,
}
use origin_tools.Base.Decimal.{
  Text, all_digits, no_whitespace, from_text, to_text, value, trim, split, from_text-to_text,
  to_text-digits, to_text-ne-nil, split-append, split-digits, trim_visible, no_whitespace-append,
  no_whitespace-digits,
}
use origin_tools.Payments.Journal.{
  parse_amount, fmt_amount, parse_parts, parse_trimmed, strip_minus, two_digits, minor_units,
  amount_scale, is_negative, negate, i128_mod, i128_half,
}

two_digits-digits : (n : ℕ) → n < 100 → all_digits (two_digits n) ≡ true
two_digits-digits n h = ground arith

from_text-two_digits : (n : ℕ) → n < 100 → from_text i128_half (two_digits n) ≡ some n
unfolding from_text value
from_text-two_digits n h = ground arith

length-ne-zero : (s : Text) → s ≢ [] → (length s == 0) ≡ false
length-ne-zero [] h = absurd (h refl)
length-ne-zero (c ∷ cs) h = ground arith

abbrev body : ℕ → Text
body a = to_text (a / 100) ++ b'.' ∷ two_digits (a % 100)

minor_units-body :
    (s : Text) (neg : Bool) (a : ℕ)
    → a ≤ i128_half
    → minor_units s amount_scale neg (to_text (a / 100)) (two_digits (a % 100))
      ≡ ok (if neg then negate a else a)
minor_units-body s neg a h =
    rw
      (
        from_text-to_text i128_half (a / 100) (omega arith),
        from_text-two_digits (a % 100) (omega arith),
      )
      (ap (λ (n : ℕ). ok (if neg then negate n else n)) (omega arith))

parse_parts-body :
    (s : Text) (neg : Bool) (a : ℕ)
    → a ≤ i128_half
    → parse_parts s amount_scale neg (split b'.' (body a)) ≡ ok (if neg then negate a else a)
parse_parts-body s neg a h =
    rw
      (
        split-append b'.' (to_text (a / 100)) (two_digits (a % 100)) refl
            (to_text-digits (a / 100)),
        split-digits b'.' (two_digits (a % 100)) refl (two_digits-digits (a % 100) (omega arith)),
        length-ne-zero (to_text (a / 100)) (to_text-ne-nil (a / 100)),
        to_text-digits (a / 100),
        two_digits-digits (a % 100) (omega arith),
      )
      (minor_units-body s neg a h)

strip_minus_digits :
    (xs ys : Text) → all_digits xs ≡ true → xs ≢ [] → strip_minus (xs ++ ys) ≡ (false, xs ++ ys)
strip_minus_digits [] ys h e = absurd (e refl)
strip_minus_digits (x ∷ xs) ys h e = ground arith

body-visible : (a : ℕ) → no_whitespace (body a) ≡ true
body-visible a =
    no_whitespace-append (to_text (a / 100)) (b'.' ∷ two_digits (a % 100))
    ∙ rw (no_whitespace-digits (to_text (a / 100)) (to_text-digits (a / 100)))
        (no_whitespace-digits (two_digits (a % 100)) (two_digits-digits (a % 100) (omega arith)))

append-ne-nil : (xs ys : Text) → xs ≢ [] → xs ++ ys ≢ []
append-ne-nil [] ys h e = h refl
append-ne-nil (x ∷ xs) ys h e = cc

parse_trimmed_lem :
    (s ds : Text) (neg : Bool)
    → s ≢ []
    → strip_minus s ≡ (neg, ds)
    → parse_trimmed amount_scale s ≡ parse_parts s amount_scale neg (split b'.' ds)
parse_trimmed_lem s ds neg h e = rw (length-ne-zero s h, e)

parse_positive : (a : ℕ) → a ≤ i128_half → parse_trimmed amount_scale (trim (body a)) ≡ ok a
parse_positive a h = rw (trim_visible (body a) (body-visible a)) (
    parse_trimmed_lem (body a) (body a) false
      (append-ne-nil (to_text (a / 100)) _ (to_text-ne-nil (a / 100)))
      (strip_minus_digits (to_text (a / 100)) _ (to_text-digits (a / 100))
        (to_text-ne-nil (a / 100)))
    ∙ parse_parts-body (body a) false a h)

parse_negative :
    (a : ℕ) → a ≤ i128_half → parse_trimmed amount_scale (trim (b'-' ∷ body a)) ≡ ok (negate a)
parse_negative a h = rw (trim_visible (b'-' ∷ body a) (body-visible a)) (
    parse_trimmed_lem (b'-' ∷ body a) (body a) true (λ e. cc) refl
    ∙ parse_parts-body (b'-' ∷ body a) true a h)

-- A printed amount is read back, for every 128-bit amount, the least one included.
pub parse_amount-fmt_amount :
    (minor : ℕ) → minor < i128_mod → parse_amount (fmt_amount minor) ≡ ok minor
unfolding parse_amount fmt_amount
parse_amount-fmt_amount minor h = elim (Bool-cases (is_negative minor)) [
  | inl below ↦ rw below (parse_negative (i128_mod - minor) (ground arith) ∙ ap ok (ground arith))
  | inr above ↦ rw above (parse_positive minor (ground arith))
]
