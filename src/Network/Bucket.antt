-- ===== src/Network/Bucket.antt =====
-- origin-network/src/gate.rs: the token bucket that limits handshakes per source. Instants and
-- durations are numbers of nanoseconds; the clock is an argument of each call.
pub mod Bound
mod Tests
use Prim.Native.String.{String}
use origin_tools.Base.{
  ℕ, zero, suc, ◌+◌, ◌-◌, ◌*◌, Bool, true, false, Option, none, some, List, [], ◌∷◌, ltb,
  if◌then◌else◌, length, min, max,
}
use origin_tools.Base.Eq.{string_eq}
use origin_tools.Base.Sets.{lookup, put}

pub record TokenBucket : Type 0 where
  pub capacity : ℕ  -- u32
  pub refill : ℕ  -- the time for one token
  pub buckets : List (String × (ℕ × ℕ))  -- tokens, and the instant of the last refill

pub new : ℕ → ℕ → TokenBucket
new capacity refill_secs = record {
  capacity = capacity;
  refill = max refill_secs 1 * 1000000000;
  buckets = [];
}

-- `entry(source).or_insert((capacity, now))`
abbrev entry_of : Option (ℕ × ℕ) → ℕ → ℕ → ℕ × ℕ
entry_of none capacity now = (capacity, now)
entry_of (some e) capacity now = e

-- The program divides seconds as floats and rounds down: `periods elapsed refill` stands for
-- that quotient.
module _ (periods : ℕ → ℕ → ℕ) where
  abbrev refilled_entry : TokenBucket → ℕ → ℕ × ℕ → ℕ × ℕ
  refilled_entry b now (tokens, last) =
      let refilled = periods (now - last) b.refill in
      if ltb 0 refilled then (min b.capacity (tokens + refilled), now) else (tokens, last)

  abbrev spend : TokenBucket → String → ℕ × ℕ → TokenBucket × Bool
  spend b source (tokens, last) =
      if ltb 0 tokens
      then (record b { buckets = put source (tokens - 1, last) b.buckets }, true)
      else (record b { buckets = put source (tokens, last) b.buckets }, false)

  unfoldable pub allow : TokenBucket → String → ℕ → TokenBucket × Bool
  allow b source now =
      spend b source (refilled_entry b now (entry_of (lookup source b.buckets) b.capacity now))

-- `retain` the sources that were refilled less than `idle` ago.
abbrev retain : ℕ → ℕ → List (String × (ℕ × ℕ)) → List (String × (ℕ × ℕ))
retain now idle [] = []
retain now idle ((s, (tokens, last)) ∷ m) =
    if ltb (now - last) idle then (s, (tokens, last)) ∷ retain now idle m else retain now idle m

pub prune : TokenBucket → ℕ → ℕ → TokenBucket
prune b now idle = record b { buckets = retain now idle b.buckets }
