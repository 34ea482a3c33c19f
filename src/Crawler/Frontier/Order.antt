-- ===== src/Crawler/Frontier/Order.antt =====
-- The order in which frontier.rs hands URLs out, and the set that keeps one from coming twice.
use Prim.Native.String.{String}
use origin_tools.Base.{
  ℕ, ◌+◌, ◌≤◌, ◌<◌, ◌≡◌, Bool, true, false, Option, none, some, List, [], ◌∷◌, arith, if◌then◌else◌,
}
use origin_tools.Base.Eq.{string_eq}
use origin_tools.Base.Sets.{contains}
use origin_tools.Crawler.Frontier.{Url, QueuedUrl, Entry, Frontier, push, before}

-- No entry of the list comes before `e`.
abbrev pub IsLeast : Entry → List Entry → Type 0
IsLeast e [] = Unit
IsLeast e (d ∷ ds) = (before d e ≡ false) × IsLeast e ds

-- How many entries pass a test.
abbrev pub count : (Entry → Bool) → List Entry → ℕ
count p [] = 0
count p (e ∷ es) = if p e then 1 + count p es else count p es

before_irrefl : (a : Entry) → before a a ≡ false
unfolding before
before_irrefl a = ground arith

-- The key of the first is not above that of the second: the depths decide, then whether the host is
-- one of the seeds', then the order of the pushes.
pub data NotAbove (a b : Entry) : Type 0 where
  shallower : a.item.depth < b.item.depth → NotAbove a b
  own_host : a.item.depth ≡ b.item.depth → a.foreign ≡ false → b.foreign ≡ true → NotAbove a b
  earlier : a.item.depth ≡ b.item.depth → a.foreign ≡ b.foreign → a.seq ≤ b.seq → NotAbove a b

abbrev pub AllAbove : Entry → List Entry → Type 0
AllAbove e [] = Unit
AllAbove e (d ∷ ds) = NotAbove e d × AllAbove e ds

-- What a call of `pop` may leave of a frontier, and return.
abbrev pub Popped : Frontier → Frontier × Option QueuedUrl → Type 0
Popped f (f', none) = f.heap ≡ []
Popped f (f', some q) =
    (e : Entry) × (e.item ≡ q)
    × AllAbove e f'.heap
    × ((p : Entry → Bool) → count p f.heap ≡ count p (e ∷ f'.heap))

-- How often a run of pushes adds the URL with the text `s`.
unfoldable pub added : String → Frontier → List (Url × ℕ) → ℕ
added s f [] = 0
added s f ((url, depth) ∷ us) =
    let next = push f url depth in
    let rest = added s next.0 us in
    if string_eq.beq url.as_str s then if next.1 then rest + 1 else rest else rest

-- Over any run of pushes a URL is added once at most, and never if it has been seen before.
pub added_bounds :
    (s : String) (f : Frontier) (us : List (Url × ℕ))
    → added s f us ≤ (if contains f.seen s then 0 else 1)
unfolding added push
added_bounds s f [] = ground arith
added_bounds s f ((url, depth) ∷ us) =
    ground (arith, added_bounds s (push f url depth).0 us, string_eq.beq_iff url.as_str s)
