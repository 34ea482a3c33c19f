-- ===== src/Network/Bucket/Tests.antt =====
-- Runs of the token bucket, with whole nanoseconds divided exactly.
use native.Mathlib.Omega.{arith}
use origin_tools.Base.{ℕ, ◌+◌, ◌*◌, ◌/◌, ◌≤◌, ◌≡◌, refl, List, [], ◌∷◌}
use origin_tools.Base.Eq.{string_eq}
use origin_tools.Network.Bucket.{TokenBucket, new, allow}
use origin_tools.Network.Bucket.Bound.{serve, serve_rate, latest}

abbrev div : ℕ → ℕ → ℕ
div e r = e / r

div_rounds_down : (e r : ℕ) → div e r * r ≤ e
div_rounds_down e r = grind arith

abbrev five : TokenBucket
unfolding new
five = new 2 12

abbrev later : List ℕ
later = 1 ∷ 2 ∷ 12000000003 ∷ []

serve_rate_example :
    serve div five "10.0.0.1" (0 ∷ later) * five.refill + 0
    ≤ five.capacity * five.refill + latest 0 later
unfolding five
serve_rate_example = serve_rate div div_rounds_down five "10.0.0.1" 0 later refl (omega arith)

-- Two at once, then one after twelve seconds.
serve_counts : serve div five "10.0.0.1" (0 ∷ later) ≡ 3
unfolding five serve allow
serve_counts = refl
