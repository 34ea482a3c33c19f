-- ===== src/Crawler/Robots/Tests.antt =====
-- Runs of the robots.txt rules.
use origin_tools.Base.{◌≡◌, refl, true, false, not, [], ◌∷◌, ◌++◌}
use origin_tools.Base.Decimal.{Text, codes, trim, split}
use origin_tools.Crawler.Robots.{Robots, parse, allows, directive}
use origin_tools.Crawler.Robots.Match.{outranked, allows_lem}

abbrev rules : Robots
rules = record {
  allow = codes "/private/open" ∷ [];
  disallow = codes "/private" ∷ codes "" ∷ [];
  sitemaps = [];
}

allows_lem_example :
    allows rules (codes "/private/open/x")
    ≡ not (outranked (codes "/private/open/x") rules.allow rules.disallow)
allows_lem_example = allows_lem rules (codes "/private/open/x")

longer_allow_wins : allows rules (codes "/private/open/x") ≡ true
unfolding allows
longer_allow_wins = refl

disallowed : allows rules (codes "/private/x") ≡ false
unfolding allows
disallowed = refl

-- Two groups with no blank line between them are one: the second agent gets the rule of the first.
abbrev two_groups : Text
two_groups =
    codes "User-agent: origin"
    ++ 10 ∷ (codes "Allow: /" ++ 10 ∷ (codes "User-agent: other" ++ 10 ∷ codes "Disallow: /x"))

groups_merged : allows (parse two_groups (codes "origin")) (codes "/x") ≡ false
unfolding parse allows split trim directive
groups_merged = refl
