-- ===== src/Payments/Retry.antt =====
-- origin-payments/src/retry.rs and the retry hint of executor.rs: how long a failed order waits. A
-- 64-bit number is its bit pattern; the random bytes and the clock are arguments.
pub mod Backoff
pub mod Hint
mod Tests
use Prim.Native.String.{String}
use origin_tools.Base.{
  ℕ, zero, suc, ◌+◌, ◌-◌, ◌*◌, ◌/◌, ◌%◌, ◌^◌, min, Bool, true, false, ◌&&◌, ◌||◌, not, Option, none,
  some, List, [], ◌∷◌, ◌++◌, ltb, leb, ◌==◌, if◌then◌else◌, length, drop, Result, ok, err, u64_mod,
  bind_some,
}
use origin_tools.Base.Decimal.{Text, codes, is_whitespace, from_text}

pub record RetryPolicy : Type 0 where
  pub base_ms : ℕ
  pub factor : ℕ
  pub cap_ms : ℕ
  pub max_attempts : ℕ  -- u32

-- `RetryPolicy::default`
abbrev pub default_policy : RetryPolicy
default_policy = record { base_ms = 1000; factor = 2; cap_ms = 300000; max_attempts = 5 }

abbrev saturate : ℕ → ℕ
saturate n = min n (u64_mod - 1)

-- `saturating_pow`, one factor after the other.
pub saturating_pow : ℕ → ℕ → ℕ
saturating_pow factor zero = 1
saturating_pow factor (suc n) = saturate (saturating_pow factor n * factor)

-- 2^63
abbrev pub i64_half : ℕ
i64_half = 9223372036854775808

abbrev pub i64_negate : ℕ → ℕ
i64_negate n = (u64_mod - n) % u64_mod

-- `as i64 * … / 100`: division rounds towards zero.
abbrev div_hundred : ℕ → ℕ
div_hundred n = if leb i64_half n then i64_negate ((u64_mod - n) / 100) else n / 100

-- The order of `i64` on bit patterns.
abbrev i64_lt : ℕ → ℕ → Bool
i64_lt a b = ltb ((a + i64_half) % u64_mod) ((b + i64_half) % u64_mod)

-- `clamp(1, hi)`, which panics (`none`) where `hi` is below 1.
abbrev clamp_one : ℕ → ℕ → Option ℕ
clamp_one n hi =
    if i64_lt hi 1 then none else some (if i64_lt n 1 then 1 else if i64_lt hi n then hi else n)

abbrev or_default : Option ℕ → ℕ → ℕ
or_default none n = n
or_default (some m) n = m

abbrev pub jittered : ℕ → ℕ → ℕ → Option ℕ
jittered base cap_ms raw =
    let fraction = (raw % 51 + i64_negate 25) % u64_mod in
    let delta = div_hundred (base * fraction % u64_mod) in
    clamp_one ((base + delta) % u64_mod) cap_ms

-- The exponential back-off, before cap and jitter.
pub backoff_ms : RetryPolicy → ℕ → ℕ
unfolding saturating_pow
backoff_ms policy attempt = saturate (policy.base_ms * saturating_pow policy.factor (attempt - 1))

-- `next_backoff_ms` with the eight random bytes as a number; `none` is a panic.
pub next_backoff_ms : RetryPolicy → ℕ → Option ℕ → ℕ → Option ℕ
unfolding backoff_ms
next_backoff_ms policy attempt retry_after_ms raw =
    jittered (min (or_default retry_after_ms (backoff_ms policy attempt)) policy.cap_ms)
      policy.cap_ms raw

-- `split_whitespace`: the runs of other characters.
abbrev close_word : Text → List Text → List Text
close_word [] words = words
close_word (c ∷ cs) words = (c ∷ cs) ∷ words

-- The word under way, and the words after it.
abbrev words_from : Text → Text × List Text
words_from [] = ([], [])
words_from (c ∷ cs) =
    let (word, rest) = words_from cs in
    if is_whitespace c then ([], close_word word rest) else (c ∷ word, rest)

abbrev pub split_whitespace : Text → List Text
split_whitespace s = let (word, rest) = words_from s in close_word word rest

-- `strip_prefix` and `strip_suffix` of one character.
abbrev pub strip_prefix : Text → Text → Option Text
strip_prefix [] s = some s
strip_prefix (p ∷ ps) [] = none
strip_prefix (p ∷ ps) (c ∷ cs) = if p == c then strip_prefix ps cs else none

abbrev keep_first : ℕ → Option Text → Option Text
keep_first c none = none
keep_first c (some s) = some (c ∷ s)

abbrev strip_last : ℕ → Text → Option Text
strip_last l [] = none
strip_last l (c ∷ []) = if c == l then some [] else none
strip_last l (c ∷ d ∷ cs) = keep_first c (strip_last l (d ∷ cs))

abbrev hint_prefix : Text
hint_prefix = codes "retry-after="

abbrev hint_or : Option Text → Option Text → Option Text
hint_or none later = later
hint_or (some hint) later = some hint

-- `find(|s| s.starts_with("retry-after="))`, with the prefix taken off.
abbrev find_hint : List Text → Option Text
find_hint [] = none
find_hint (w ∷ ws) = hint_or (strip_prefix hint_prefix w) (find_hint ws)

abbrev pub read_hint : Option Text → Option ℕ
read_hint found = bind_some found λ hint.
    bind_some (strip_last b's' hint)
      λ digits. bind_some (from_text u64_mod digits) λ secs. some (secs * 1000 % u64_mod)

pub extract_retry_after_ms : Text → Option ℕ
extract_retry_after_ms reason = read_hint (find_hint (split_whitespace reason))
