-- ===== src/Payments/Retry/Hint.antt =====
-- The retry hint that executor.rs writes into a reason, and looks for in it.
use origin_tools.Base.{
  ℕ, ◌≡◌, refl, ap, ◌∙◌, true, none, List, [], ◌∷◌, ◌++◌, arith, Bool-cases, inl, inr,
}
use origin_tools.Base.Decimal.{
  Text, codes, is_whitespace, to_text, no_whitespace, no_whitespace-append, no_whitespace-digits,
  to_text-digits,
}
use origin_tools.Payments.Retry.{
  extract_retry_after_ms, split_whitespace, words_from, close_word, find_hint, hint_or,
  strip_prefix, read_hint, hint_prefix,
}

words_from_word : (w : Text) → no_whitespace w ≡ true → words_from w ≡ (w, [])
words_from_word [] h = refl
words_from_word (c ∷ cs) h = elim (Bool-cases (is_whitespace c)) [
  | inl space ↦ ground arith
  | inr visible ↦ rw (words_from_word cs (ground arith), visible)
]

close_word-append : (v : Text) (ws xs : List Text) → close_word v (ws ++ xs) ≡ close_word v ws ++ xs
close_word-append [] ws xs = refl
close_word-append (c ∷ cs) ws xs = refl

-- A word after a space is one more word.
words_from-append :
    (s w : Text) (c : ℕ)
    → no_whitespace (c ∷ w) ≡ true
    → words_from (s ++ 32 ∷ c ∷ w) ≡ ((words_from s).0, (words_from s).1 ++ (c ∷ w) ∷ [])
words_from-append [] w c h = rw (words_from_word (c ∷ w) h)
words_from-append (d ∷ ds) w c h = elim (Bool-cases (is_whitespace d)) [
  | inl space ↦
      rw (words_from-append ds w c h, space)
        (ap (λ (ws : List Text). ([], ws))
          (close_word-append (words_from ds).0 (words_from ds).1 ((c ∷ w) ∷ [])))
  | inr visible ↦ rw (words_from-append ds w c h, visible)
]

find_hint-append :
    (ws : List Text) (w : Text)
    → strip_prefix hint_prefix w ≡ none
    → find_hint (ws ++ w ∷ []) ≡ find_hint ws
find_hint-append [] w h = rw h
find_hint-append (v ∷ ws) w h = ap (hint_or (strip_prefix hint_prefix v)) (find_hint-append ws w h)

split_whitespace-append :
    (s w : Text) (c : ℕ)
    → no_whitespace (c ∷ w) ≡ true
    → split_whitespace (s ++ 32 ∷ c ∷ w) ≡ split_whitespace s ++ (c ∷ w) ∷ []
split_whitespace-append s w c h =
    rw (words_from-append s w c h) (close_word-append (words_from s).0 (words_from s).1 _)

hint_visible :
    (secs : ℕ) → no_whitespace (codes "(retry-after=" ++ (to_text secs ++ codes "s)")) ≡ true
hint_visible secs =
    no_whitespace-append (to_text secs) (codes "s)")
    ∙ rw (no_whitespace-digits (to_text secs) (to_text-digits secs))

-- What a facilitator's rejection is reported with: the hint in parentheses.
abbrev pub reported : Text → ℕ → Text
reported reason secs = reason ++ (codes " (retry-after=" ++ (to_text secs ++ codes "s)"))

-- The hint that a rejection is reported with is never found: the reason with it gives the waiting
-- time that the reason without it gives.
pub extract_retry_after_ms-reported :
    (reason : Text) (secs : ℕ)
    → extract_retry_after_ms (reported reason secs) ≡ extract_retry_after_ms reason
unfolding extract_retry_after_ms
extract_retry_after_ms-reported reason secs = ap read_hint (
    ap find_hint (split_whitespace-append reason _ b'(' (hint_visible secs))
    ∙ find_hint-append (split_whitespace reason) _ refl)
