-- ===== src/Payments/Retry/Backoff.antt =====
-- The waiting times of retry.rs are within their bounds.
use native.Mathlib.Decide.{dec_lt}
use origin_tools.Base.{
  ℕ, ◌+◌, ◌-◌, ◌*◌, ◌%◌, ◌≤◌, ◌<◌, ◌≡◌, ap, min, true, false, Option, some, arith, u64_mod, leb,
}
use origin_tools.Payments.Retry.{
  RetryPolicy, next_backoff_ms, i64_half, i64_negate, or_default, backoff_ms, div_hundred,
  clamp_one,
}

-- What the jitter makes of a base below 2^58 with a fraction of `k - 25` percent.
abbrev with_jitter : ℕ → ℕ → ℕ
with_jitter base k =
    (base + div_hundred (base * ((k + i64_negate 25) % u64_mod) % u64_mod)) % u64_mod

abbrev Least : ℕ → ℕ → Type 0
Least base v = (3 * base ≤ 4 * v) × (v < i64_half)

lower_up :
    (base q : ℕ)
    → base < 288230376151711744
    → q ≤ 25 * base
    → Least base ((base + div_hundred q) % u64_mod)
lower_up base q b h = let e : leb i64_half q ≡ false = ground arith in rw e (omega arith)

lower_down :
    (base p : ℕ)
    → base < 288230376151711744
    → p ≤ 25 * base
    → 0 < p
    → Least base ((base + div_hundred (u64_mod - p)) % u64_mod)
lower_down base p b h pos =
    let e : leb i64_half (u64_mod - p) ≡ true = ground arith in rw e (omega arith)

times_le : (base d : ℕ) → d ≤ 25 → base * d ≤ 25 * base
times_le base d h = grind arith

up_product : (base d : ℕ) → base < 288230376151711744 → d ≤ 25 → base * d % u64_mod ≡ base * d
up_product base d b h = omega (arith, times_le base d h)

down_product :
    (base d f : ℕ)
    → base < 288230376151711744
    → d ≤ 25
    → 0 < base * d
    → f + d ≡ u64_mod
    → base * f % u64_mod ≡ u64_mod - base * d
down_product base d f b h pos e = omega (arith, ap (λ (t : ℕ). base * t) e, times_le base d h)

base_zero : (base d : ℕ) → 0 < d → base * d ≡ 0 → base ≡ 0
base_zero base d h e = grind arith

zero_times : (f : ℕ) → 0 * f % u64_mod ≡ 0
zero_times f = omega arith

jitter_lower : (base k : ℕ) → k < 51 → base < 288230376151711744 → Least base (with_jitter base k)
jitter_lower base k h b = elim (dec_lt k 25) [
  | no above ↦
      let e : (k + i64_negate 25) % u64_mod ≡ k - 25 = omega arith in
      rw (e, up_product base (k - 25) b (omega arith))
        (lower_up base (base * (k - 25)) b (times_le base (k - 25) (omega arith)))
  | yes below ↦ elim (dec_lt 0 (base * (25 - k))) [
    | yes pos ↦
        rw
          (down_product base (25 - k) ((k + i64_negate 25) % u64_mod) b (omega arith) pos
            (omega arith))
          (lower_down base (base * (25 - k)) b (times_le base (25 - k) (omega arith)) pos)
    | no zero_product ↦
        let nothing : base ≡ 0 = base_zero base (25 - k) (omega arith) (omega arith) in
        rw (nothing, zero_times ((k + i64_negate 25) % u64_mod)) (omega arith)
  ]
]

clamp_bounds :
    (base v cap : ℕ)
    → base ≤ cap
    → 0 < cap
    → cap < 288230376151711744
    → 3 * base ≤ 4 * v
    → v < i64_half
    → (ms : ℕ) × (clamp_one v cap ≡ some ms) × (0 < ms) × (ms ≤ cap) × (3 * base ≤ 4 * ms)
clamp_bounds base v cap h p b l u = elim (dec_lt v 1) [
  | yes small ↦ (1, ground arith, omega arith, omega arith, omega arith)
  | no big ↦ elim (dec_lt cap v) [
    | yes over ↦ (cap, ground arith, omega arith, omega arith, omega arith)
    | no under ↦ (v, ground arith, omega arith, omega arith, omega arith)
  ]
]

-- With a cap that is not zero and below 2^58, a waiting time is at least a millisecond and three
-- quarters of the time that the hint or the back-off asks for within the cap, and at most the cap,
-- whatever the random bytes; and the clamp does not panic.
pub next_backoff_ms_bounds :
    (policy : RetryPolicy) (attempt : ℕ) (retry_after_ms : Option ℕ) (raw : ℕ)
    → 0 < policy.cap_ms
    → policy.cap_ms < 288230376151711744
    → (ms : ℕ) × (next_backoff_ms policy attempt retry_after_ms raw ≡ some ms)
      × (0 < ms)
      × (ms ≤ policy.cap_ms)
      × (3 * min (or_default retry_after_ms (backoff_ms policy attempt)) policy.cap_ms ≤ 4 * ms)
unfolding next_backoff_ms
next_backoff_ms_bounds policy attempt retry_after_ms raw p b =
    let base = min (or_default retry_after_ms (backoff_ms policy attempt)) policy.cap_ms in
    let j = jitter_lower base (raw % 51) (omega arith) (omega arith) in
    clamp_bounds base (with_jitter base (raw % 51)) policy.cap_ms (omega arith) p b j.0 j.1
