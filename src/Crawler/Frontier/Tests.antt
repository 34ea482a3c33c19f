-- ===== src/Crawler/Frontier/Tests.antt =====
-- Runs of the crawler's frontier.
use origin_tools.Base.{ℕ, ◌+◌, ◌≡◌, refl, some, List, [], ◌∷◌}
use origin_tools.Base.Eq.{string_eq}
use origin_tools.Crawler.Frontier.{
  Url, Frontier, new, push, pop, before, reserve_slot, host_quota_exhausted,
}
use origin_tools.Crawler.Frontier.Order.{added}
use origin_tools.Crawler.Frontier.Polite.{
  Reservation, AllFrom, starts, starts-reserve_slot, granted,
}

abbrev seed : Url
seed = record { as_str = "https://a/"; len = 10; host_str = some "a" }

abbrev deep : Url
deep = record { as_str = "https://b/x"; len = 11; host_str = some "b" }

abbrev empty : Frontier
unfolding new
empty = new 11 ("a" ∷ [])

abbrev two : Frontier
unfolding push
two = (push (push empty deep 1).0 seed 1).0

-- The seed host goes first, although it came later.
pop-two : (pop two).1 ≡ some (record { url = seed; depth = 1 })
unfolding pop before two empty
pop-two = refl

abbrev pushes : List (Url × ℕ)
pushes = (seed, 0) ∷ (deep, 1) ∷ (seed, 2) ∷ []

added_once : added "https://a/" empty pushes ≡ 1
unfolding added push empty
added_once = refl

abbrev reservations : List Reservation
reservations =
    record { host = "a"; delay = 5; now = 1 } ∷ record { host = "a"; delay = 5; now = 30 } ∷ []

starts-reserve_slot_example :
    AllFrom
      ((reserve_slot empty "a" 5 0).1 + 5)
      (starts "a" (reserve_slot empty "a" 5 0).0 reservations)
starts-reserve_slot_example = starts-reserve_slot empty "a" 5 0 reservations

starts_run : starts "a" (reserve_slot empty "a" 5 0).0 reservations ≡ 5 ∷ 10 ∷ []
unfolding starts reserve_slot empty
starts_run = refl

granted_run : granted "a" 2 empty ("a" ∷ "a" ∷ "b" ∷ "a" ∷ []) ≡ 2
unfolding granted host_quota_exhausted empty
granted_run = refl
