-- ===== src/Crawler/Frontier.antt =====
-- origin-crawler/src/frontier.rs: the queue of URLs, the set of URLs seen, and the tables that keep
-- a host from being asked too often. The crate `url` parses: a URL is given by its text without
-- fragment and by its host. Instants and durations are numbers of nanoseconds; the clock is an
-- argument. The heap is a list whose least entry is taken out.
pub mod Order
pub mod Polite
mod Tests
use Prim.Native.String.{String}
use origin_tools.Base.{
  ℕ, zero, suc, ◌+◌, Bool, true, false, ◌&&◌, ◌||◌, not, Option, none, some, List, [], ◌∷◌, ltb,
  leb, ◌==◌, if◌then◌else◌, max,
}
use origin_tools.Base.Eq.{string_eq}
use origin_tools.Base.Sets.{contains, insert, lookup, put}

pub record Url : Type 0 where
  pub as_str : String
  pub len : ℕ  -- of the text, in bytes
  pub host_str : Option String

pub record QueuedUrl : Type 0 where
  pub url : Url
  pub depth : ℕ

pub record Entry : Type 0 where
  pub foreign : Bool
  pub seq : ℕ  -- u64
  pub item : QueuedUrl

pub record Frontier : Type 0 where
  pub heap : List Entry
  pub seq : ℕ
  pub seen : List String
  pub seed_hosts : List String
  pub host_next_ok : List (String × ℕ)
  pub host_pages : List (String × ℕ)
  pub max_url_len : ℕ

unfoldable pub new : ℕ → List String → Frontier
new max_url_len seed_hosts = record {
  heap = [];
  seq = 0;
  seen = [];
  seed_hosts = seed_hosts;
  host_next_ok = [];
  host_pages = [];
  max_url_len = max_url_len;
}

abbrev rank : Bool → ℕ
rank false = 0
rank true = 1

-- The order of the keys `(depth, foreign, seq)`.
unfoldable pub before : Entry → Entry → Bool
before a b =
    ltb a.item.depth b.item.depth
    || a.item.depth == b.item.depth
      && (ltb (rank a.foreign) (rank b.foreign)
          || rank a.foreign == rank b.foreign && ltb a.seq b.seq)

abbrev is_seed : Option String → List String → Bool
is_seed none hosts = false
is_seed (some h) hosts = contains hosts h

-- `push` after the fragment is gone.
unfoldable pub push : Frontier → Url → ℕ → Frontier × Bool
push f url depth =
    if ltb f.max_url_len url.len
    then (f, false)
    else if contains f.seen url.as_str
    then (f, false)
    else (
      record f {
        seen = insert url.as_str f.seen;
        seq = f.seq + 1;
        heap =
            record {
              foreign = not (is_seed url.host_str f.seed_hosts);
              seq = f.seq;
              item = record { url = url; depth = depth };
            }
            ∷ f.heap;
      },
      true,
    )

-- The least entry of `e ∷ es`, and the others.
abbrev extract : Entry → List Entry → Entry × List Entry
extract e [] = (e, [])
extract e (d ∷ es) =
    let rest = extract d es in if before rest.0 e then (rest.0, e ∷ rest.1) else (e, d ∷ es)

unfoldable pub pop_heap : List Entry → Option (Entry × List Entry)
pop_heap [] = none
pop_heap (e ∷ es) = some (extract e es)

abbrev pub pop_from : Frontier → Option (Entry × List Entry) → Frontier × Option QueuedUrl
pop_from f none = (f, none)
pop_from f (some (e, es)) = (record f { heap = es }, some e.item)

unfoldable pub pop : Frontier → Frontier × Option QueuedUrl
unfolding pop_heap
pop f = pop_from f (pop_heap f.heap)

abbrev pub or_now : Option ℕ → ℕ → ℕ
or_now none now = now
or_now (some t) now = t

unfoldable pub reserve_slot : Frontier → String → ℕ → ℕ → Frontier × ℕ
reserve_slot f host delay now =
    let start = or_now (lookup host f.host_next_ok) now in
    (record f { host_next_ok = put host (max start now + delay) f.host_next_ok }, start)

abbrev pub or_zero : Option ℕ → ℕ
or_zero none = 0
or_zero (some n) = n

unfoldable pub host_quota_exhausted : Frontier → String → ℕ → Frontier × Bool
host_quota_exhausted f host max_pages_per_host =
    let count = or_zero (lookup host f.host_pages) in
    if leb max_pages_per_host count
    then (record f { host_pages = put host count f.host_pages }, true)
    else (record f { host_pages = put host (count + 1) f.host_pages }, false)
