-- ===== src/Network/Bucket/Bound.antt =====
-- How many handshakes of one source the token bucket of gate.rs lets through.
use Prim.Native.String.{String}
use origin_tools.Base.{
  ℕ, zero, suc, ◌+◌, ◌-◌, ◌*◌, ◌≤◌, ◌<◌, ◌≡◌, min, ap, ◌≢◌, Bool, true, false, none, some, List, [],
  ◌∷◌, arith, ltb, if◌then◌else◌,
}
use origin_tools.Base.Eq.{string_eq}
use origin_tools.Base.Sets.{lookup, lookup-put}
use origin_tools.Network.Bucket.{TokenBucket, allow, entry_of, refilled_entry}

-- The tokens that a source can spend at an instant without a refill, and when it was last refilled.
abbrev pub entry : TokenBucket → String → ℕ → ℕ × ℕ
entry b source now = entry_of (lookup source b.buckets) b.capacity now

-- The instants of a list ascend from a first one, and the last of them.
abbrev pub Ascending : ℕ → List ℕ → Type 0
Ascending start [] = Unit
Ascending start (now ∷ later) = (start ≤ now) × Ascending now later

abbrev pub latest : ℕ → List ℕ → ℕ
latest start [] = start
latest start (now ∷ later) = latest now later

latest-ge : (start : ℕ) (times : List ℕ) → Ascending start times → start ≤ latest start times
latest-ge start [] h = omega arith
latest-ge start (now ∷ later) h = omega (arith, latest-ge now later h.1, h.0)

abbrev pub one_if : Bool → ℕ
one_if true = 1
one_if false = 0

mul_pred : (t r : ℕ) → 0 < t → (t - 1) * r + r ≡ t * r
mul_pred zero r h = elim h [ ]
mul_pred (suc t) r h = let e : suc t - 1 ≡ t = omega arith in rw e (omega arith)

mul_mono : (a b r : ℕ) → a ≤ b → a * r ≤ b * r
mul_mono a b r h = grind arith

mul-min : (c t k r : ℕ) → min c (t + k) * r ≤ t * r + k * r
mul-min c t k r = omega (arith, mul_mono (min c (t + k)) (t + k) r (omega arith))

-- Requests of one source at given instants, and how many of them are allowed.
unfoldable pub serve : (ℕ → ℕ → ℕ) → TokenBucket → String → List ℕ → ℕ
serve periods b source [] = 0
serve periods b source (now ∷ later) =
    let (b', admitted) = allow periods b source now in
    one_if admitted + serve periods b' source later

-- What a request leaves of an entry.
abbrev left : (ℕ → ℕ → ℕ) → TokenBucket → ℕ → ℕ × ℕ → ℕ × ℕ
left periods b now e =
    let (tokens, last) = refilled_entry periods b now e in
    (if ltb 0 tokens then tokens - 1 else tokens, last)

module _ (periods : ℕ → ℕ → ℕ) (rounds_down : (e r : ℕ) → periods e r * r ≤ e) where
  lookup-allow :
      (b : TokenBucket) (source : String) (now : ℕ)
      → lookup source (allow periods b source now).0.buckets
        ≡ some (left periods b now (entry b source now))
  unfolding allow
  lookup-allow b source now = ground (
    arith,
    lookup-put source source (left periods b now (entry b source now)) b.buckets,
    string_eq.beq_iff source source,
  )

  -- Tokens are worth the time that they took to come.
  left_worth :
      (b : TokenBucket) (source : String) (now : ℕ)
      → (entry b source now).1 ≤ now
      → let (tokens, last) = entry b source now in
        let (tokens', last') = left periods b now (entry b source now) in
        (tokens' * b.refill + one_if (allow periods b source now).1 * b.refill + last
          ≤ tokens * b.refill + last')
        × (last ≤ last')
        × (last' ≤ now)
  unfolding allow
  left_worth b source now h =
      let (tokens, last) = entry b source now in
      let k = periods (now - last) b.refill in
      ground (
        arith,
        rounds_down (now - last) b.refill,
        mul-min b.capacity tokens k b.refill,
        mul_pred (min b.capacity (tokens + k)) b.refill,
        mul_pred tokens b.refill,
      )

  refill-allow :
      (b : TokenBucket) (source : String) (now : ℕ)
      → (allow periods b source now).0.refill ≡ b.refill
  unfolding allow
  refill-allow b source now = ground arith

  serve_known :
      (b : TokenBucket) (source : String) (tokens last start : ℕ) (times : List ℕ)
      → lookup source b.buckets ≡ some (tokens, last)
      → last ≤ start
      → Ascending start times
      → serve periods b source times * b.refill + last ≤ tokens * b.refill + latest start times
  unfolding serve
  serve_known b source tokens last start [] known h asc = omega arith
  serve_known b source tokens last start (now ∷ later) known h asc =
      let e : entry b source now ≡ (tokens, last) = rw known in
      let (worth, up, fits) = left_worth b source now (rw e (omega (arith, asc.0, h))) in
      let rest =
        serve_known (allow periods b source now).0 source
          (left periods b now (entry b source now)).0 (left periods b now (entry b source now)).1
          now later (lookup-allow b source now) fits asc.1 in
      let rest' = rw (refill-allow b source now) at rest in
      let tokens_eq : (entry b source now).0 * b.refill ≡ tokens * b.refill =
        ap (λ (x : ℕ × ℕ). x.0 * b.refill) e in
      let last_eq : (entry b source now).1 ≡ last = ap (λ (x : ℕ × ℕ). x.1) e in
      omega (arith, rest', worth, tokens_eq, last_eq)

  -- From the first request of a source on, the handshakes that are let through cost no more time
  -- than a full bucket and the time that has passed: their number times the refill time is at most
  -- the capacity times the refill time and the time from the first request to the last. The quotient
  -- of durations may be any function that rounds down.
  pub serve_rate :
      (b : TokenBucket) (source : String) (start : ℕ) (times : List ℕ)
      → lookup source b.buckets ≡ none
      → Ascending start times
      → serve periods b source (start ∷ times) * b.refill + start
        ≤ b.capacity * b.refill + latest start times
  unfolding serve
  serve_rate b source start times fresh asc =
      let e : entry b source start ≡ (b.capacity, start) = rw fresh in
      let (worth, up, fits) = left_worth b source start (rw fresh (omega arith)) in
      let rest =
        serve_known (allow periods b source start).0 source
          (left periods b start (entry b source start)).0
          (left periods b start (entry b source start)).1 start times (lookup-allow b source start)
          fits asc in
      let rest' = rw (refill-allow b source start) at rest in
      let tokens_eq : (entry b source start).0 * b.refill ≡ b.capacity * b.refill =
        ap (λ (x : ℕ × ℕ). x.0 * b.refill) e in
      let last_eq : (entry b source start).1 ≡ start = ap (λ (x : ℕ × ℕ). x.1) e in
      omega (arith, rest', worth, tokens_eq, last_eq)

-- A call touches the bucket of no other source.
pub allow_others :
    (periods : ℕ → ℕ → ℕ) (b : TokenBucket) (source other : String) (now : ℕ)
    → other ≢ source
    → lookup other (allow periods b source now).0.buckets ≡ lookup other b.buckets
unfolding allow
allow_others periods b source other now ne = ground (
  arith,
  lookup-put source other (left periods b now (entry b source now)) b.buckets,
  string_eq.beq_iff source other,
)
