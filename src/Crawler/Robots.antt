-- ===== src/Crawler/Robots.antt =====
-- origin-crawler/src/robots.rs: the rules of a robots.txt. Texts are code points of ASCII, so that the
-- length of a text is the number of its bytes.
pub mod Match
pub mod Groups
mod Tests
use origin_tools.Base.{
  ℕ, ◌+◌, ◌≤◌, Bool, true, false, ◌&&◌, ◌||◌, not, Option, none, some, List, [], ◌∷◌, ◌++◌, ltb,
  leb, ◌==◌, if◌then◌else◌, length,
}
use origin_tools.Base.Decimal.{Text, codes, trim, split}
use origin_tools.Base.Eq.{bytes_eq}

pub record Robots : Type 0 where
  pub allow : List Text
  pub disallow : List Text
  pub sitemaps : List Text

-- `starts_with`
abbrev pub starts_with : Text → Text → Bool
starts_with s [] = true
starts_with [] (p ∷ ps) = false
starts_with (c ∷ cs) (p ∷ ps) = c == p && starts_with cs ps

-- `contains`
abbrev pub contains_text : Text → Text → Bool
contains_text [] p = starts_with [] p
contains_text (c ∷ cs) p = starts_with (c ∷ cs) p || contains_text cs p

-- `to_ascii_lowercase`
abbrev pub lower : Text → Text
lower [] = []
lower (c ∷ cs) = (if leb 65 c && leb c 90 then c + 32 else c) ∷ lower cs

-- `lines`: the parts between line feeds, without a last empty one, and without a carriage return at
-- the end of a line.
abbrev drop_last_empty : List Text → List Text
drop_last_empty [] = []
drop_last_empty ([] ∷ []) = []
drop_last_empty ([] ∷ p ∷ ps) = [] ∷ drop_last_empty (p ∷ ps)
drop_last_empty ((c ∷ cs) ∷ ps) = (c ∷ cs) ∷ drop_last_empty ps

abbrev strip_return : Text → Text
strip_return [] = []
strip_return (c ∷ []) = if c == 13 then [] else c ∷ []
strip_return (c ∷ d ∷ cs) = c ∷ strip_return (d ∷ cs)

abbrev strip_returns : List Text → List Text
strip_returns [] = []
strip_returns (l ∷ ls) = strip_return l ∷ strip_returns ls

abbrev pub lines : Text → List Text
lines txt = strip_returns (drop_last_empty (split 10 txt))

abbrev first_part : List Text → Text
first_part [] = []
first_part (p ∷ ps) = p

-- The line without its comment.
abbrev pub without_comment : Text → Text
without_comment raw = trim (first_part (split 35 raw))

abbrev to_front : ℕ → Option (Text × Text) → Option (Text × Text)
to_front c none = none
to_front c (some (key, val)) = some (c ∷ key, val)

-- `split_once`
abbrev pub split_once : ℕ → Text → Option (Text × Text)
split_once sep [] = none
split_once sep (c ∷ cs) = if c == sep then some ([], cs) else to_front c (split_once sep cs)

-- The locals of `parse`.
pub record ParseState : Type 0 where
  pub robots : Robots
  pub group_applies : Bool
  pub in_agent_block : Bool

-- Whether a group with the token is for the agent.
abbrev pub names_agent : Text → Text → Bool
names_agent ua token =
    bytes_eq.beq token (codes "*") || (not (bytes_eq.beq token []) && contains_text ua token)

-- The arms of the match on the key.
pub directive : Text → ParseState → Text → Text → ParseState
directive ua s key val =
    if bytes_eq.beq key (codes "user-agent")
    then record s {
      group_applies = (s.in_agent_block && s.group_applies) || names_agent ua (lower val);
      in_agent_block = true;
    }
    else if bytes_eq.beq key (codes "disallow") && s.group_applies
    then record s { robots = record s.robots { disallow = s.robots.disallow ++ val ∷ [] } }
    else if bytes_eq.beq key (codes "allow") && s.group_applies
    then record s { robots = record s.robots { allow = s.robots.allow ++ val ∷ [] } }
    else if bytes_eq.beq key (codes "sitemap") && not (bytes_eq.beq val [])
    then record s { robots = record s.robots { sitemaps = s.robots.sitemaps ++ val ∷ [] } }
    else s

abbrev pub directed : Text → ParseState → Option (Text × Text) → ParseState
directed ua s none = s
directed ua s (some (key, val)) = directive ua s (lower (trim key)) (trim val)

-- The body of the loop, on a line without its comment.
abbrev pub read_line : Text → ParseState → Text → ParseState
read_line ua s [] = record s { group_applies = false; in_agent_block = false }
read_line ua s (c ∷ cs) = directed ua s (split_once 58 (c ∷ cs))

abbrev pub read_lines : Text → ParseState → List Text → ParseState
read_lines ua s [] = s
read_lines ua s (raw ∷ raws) = read_lines ua (read_line ua s (without_comment raw)) raws

abbrev pub no_rules : ParseState
no_rules = record {
  robots = record { allow = []; disallow = []; sitemaps = [] };
  group_applies = false;
  in_agent_block = false;
}

pub parse : Text → Text → Robots
parse txt user_agent = (read_lines (lower user_agent) no_rules (lines txt)).robots

-- One rule of the loop over `allow`, and one of that over `disallow`.
abbrev pub longer : Text → ℕ → Text → ℕ
longer path best p = if starts_with path p && ltb best (length p) then length p else best

abbrev pub longest_allow : Text → ℕ → List Text → ℕ
longest_allow path best [] = best
longest_allow path best (p ∷ ps) = longest_allow path (longer path best p) ps

abbrev pub longest_disallow : Text → ℕ → List Text → ℕ
longest_disallow path best [] = best
longest_disallow path best (p ∷ ps) =
    longest_disallow path (if bytes_eq.beq p [] then best else longer path best p) ps

pub allows : Robots → Text → Bool
allows robots path =
    leb (longest_disallow path 0 robots.disallow) (longest_allow path 0 robots.allow)

pub is_empty : Robots → Bool
is_empty robots = length robots.allow == 0 && length robots.disallow == 0
