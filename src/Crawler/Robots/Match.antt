-- ===== src/Crawler/Robots/Match.antt =====
-- `allows` of robots.rs: the longest rule decides.
use origin_tools.Base.{
  ℕ, ◌<◌, ◌≡◌, refl, ◌∙◌, Bool, true, false, ◌&&◌, ◌||◌, not, List, [], ◌∷◌, arith, leb, length,
}
use origin_tools.Base.Decimal.{Text}
use origin_tools.Base.Eq.{bytes_eq}
use origin_tools.Crawler.Robots.{
  Robots, starts_with, longer, longest_allow, longest_disallow, allows,
}

-- Some rule of the list matches the path and has so many bytes or more.
abbrev pub some_match : Text → ℕ → List Text → Bool
some_match path n [] = false
some_match path n (p ∷ ps) = (starts_with path p && leb n (length p)) || some_match path n ps

abbrev has_text : Text → Bool
has_text [] = false
has_text (c ∷ cs) = true

-- Some rule of the second list that is not empty matches the path, and no rule of the first list as
-- long as it does.
abbrev pub outranked : Text → List Text → List Text → Bool
outranked path allow [] = false
outranked path allow (d ∷ ds) =
    (has_text d && starts_with path d && not (some_match path (length d) allow))
    || outranked path allow ds

longer-leb :
    (path : Text) (n best : ℕ) (p : Text)
    → leb n (longer path best p) ≡ (leb n best || (starts_with path p && leb n (length p)))
longer-leb path n best p = ground arith

longest_allow-leb :
    (path : Text) (n best : ℕ) (ps : List Text)
    → leb n (longest_allow path best ps) ≡ (leb n best || some_match path n ps)
longest_allow-leb path n best [] = ground arith
longest_allow-leb path n best (p ∷ ps) =
    ground (arith, longest_allow-leb path n (longer path best p) ps, longer-leb path n best p)

longest_allow_match :
    (path : Text) (n : ℕ) (ps : List Text)
    → 0 < n
    → leb n (longest_allow path 0 ps) ≡ some_match path n ps
longest_allow_match path n ps h = ground (arith, longest_allow-leb path n 0 ps)

longer-under :
    (path : Text) (best most : ℕ) (p : Text)
    → leb (longer path best p) most
      ≡ (leb best most && (not (starts_with path p) || leb (length p) most))
longer-under path best most p = ground arith

-- A rule is outranked or not, and so are the rules after it.
one_more :
    (low low' hit allowed later : Bool)
    → low' ≡ (low && (not hit || allowed))
    → (low' && not later) ≡ (low && not ((hit && not allowed) || later))
one_more low low' hit allowed later e = rw e (ground arith)

longest_disallow-leb :
    (path : Text) (allow ds : List Text) (best : ℕ)
    → leb (longest_disallow path best ds) (longest_allow path 0 allow)
      ≡ (leb best (longest_allow path 0 allow) && not (outranked path allow ds))
longest_disallow-leb path allow [] best = ground arith
longest_disallow-leb path allow ([] ∷ ds) best = longest_disallow-leb path allow ds best
longest_disallow-leb path allow ((c ∷ cs) ∷ ds) best =
    let most = longest_allow path 0 allow in
    let matched = longest_allow_match path (length (c ∷ cs)) allow (omega arith) in
    longest_disallow-leb path allow ds (longer path best (c ∷ cs))
    ∙ one_more (leb best most) (leb (longer path best (c ∷ cs)) most) (starts_with path (c ∷ cs))
        (some_match path (length (c ∷ cs)) allow) (outranked path allow ds)
        (longer-under path best most (c ∷ cs) ∙ rw matched refl)

-- A path is refused exactly if a rule against it that is not empty matches, and no rule for it that
-- matches is as long.
pub allows_lem :
    (robots : Robots) (path : Text)
    → allows robots path ≡ not (outranked path robots.allow robots.disallow)
unfolding allows
allows_lem robots path = longest_disallow-leb path robots.allow robots.disallow 0 ∙ ground arith
