-- ===== src/Crawler/Robots/Groups.antt =====
-- `parse` of robots.rs: whose rules are kept.
use origin_tools.Base.{
  ◌≡◌, refl, Bool, true, false, ◌&&◌, ◌||◌, not, Option, none, some, List, [], ◌∷◌, ◌++◌, arith,
  if◌then◌else◌, Bool-cases, inl, inr,
}
use origin_tools.Base.Decimal.{Text, codes, trim}
use origin_tools.Base.Eq.{bytes_eq}
use origin_tools.Crawler.Robots.{
  ParseState, parse, lines, lower, without_comment, split_once, directive, directed, read_line,
  read_lines, no_rules, names_agent, allows, is_empty,
}

abbrev is_agent_line : Text → Option (Text × Text) → Bool
is_agent_line ua none = false
is_agent_line ua (some (key, val)) =
    bytes_eq.beq (lower (trim key)) (codes "user-agent") && names_agent ua (lower (trim val))

-- Some line of the text begins a group for the agent.
abbrev pub names_in : Text → List Text → Bool
names_in ua [] = false
names_in ua (raw ∷ raws) =
    is_agent_line ua (split_once 58 (without_comment raw)) || names_in ua raws

-- No group applies, and no rule is kept so far.
record IsBare (s : ParseState) : Type 0 where
  pub idle : s.group_applies ≡ false
  pub no_allow : s.robots.allow ≡ []
  pub no_disallow : s.robots.disallow ≡ []

-- An arm that asks for the group is not taken.
arm :
    (hit : Bool) (s t rest : ParseState)
    → s.group_applies ≡ false
    → IsBare rest
    → IsBare (if hit && s.group_applies then t else rest)
arm true s t rest idle b = rw idle b
arm false s t rest idle b = b

either : (c : Bool) (t rest : ParseState) → IsBare t → IsBare rest → IsBare (if c then t else rest)
either true t rest b b' = b
either false t rest b b' = b'

agent_line :
    (s : ParseState) (names : Bool)
    → IsBare s
    → names ≡ false
    → IsBare (record s {
      group_applies = (s.in_agent_block && s.group_applies) || names;
      in_agent_block = true;
    })
agent_line s names b e = record {
  idle = ground (arith, b.idle, e);
  no_allow = b.no_allow;
  no_disallow = b.no_disallow;
}

directive-IsBare :
    (ua : Text) (s : ParseState) (key val : Text)
    → IsBare s
    → (bytes_eq.beq key (codes "user-agent") && names_agent ua (lower val)) ≡ false
    → IsBare (directive ua s key val)
unfolding directive
directive-IsBare ua s key val b e = elim (Bool-cases (bytes_eq.beq key (codes "user-agent"))) [
  | inl agent ↦ rw agent (agent_line s (names_agent ua (lower val)) b (rw agent at e))
  | inr other ↦
      let with_sitemap = record s {
        robots = record s.robots { sitemaps = s.robots.sitemaps ++ val ∷ [] };
      } in
      let mapped =
        if bytes_eq.beq key (codes "sitemap") && not (bytes_eq.beq val [])
        then with_sitemap
        else s in
      let with_allow = record s {
        robots = record s.robots { allow = s.robots.allow ++ val ∷ [] };
      } in
      let allowed =
        if bytes_eq.beq key (codes "allow") && s.group_applies then with_allow else mapped in
      rw other (
        arm (bytes_eq.beq key (codes "disallow")) s
          (record s { robots = record s.robots { disallow = s.robots.disallow ++ val ∷ [] } })
          allowed b.idle
          (arm (bytes_eq.beq key (codes "allow")) s with_allow mapped b.idle (
            either (bytes_eq.beq key (codes "sitemap") && not (bytes_eq.beq val [])) with_sitemap s
              (record { idle = b.idle; no_allow = b.no_allow; no_disallow = b.no_disallow }) b)))
]

directed-IsBare :
    (ua : Text) (s : ParseState) (parts : Option (Text × Text))
    → IsBare s
    → is_agent_line ua parts ≡ false
    → IsBare (directed ua s parts)
directed-IsBare ua s none b e = b
directed-IsBare ua s (some (key, val)) b e = directive-IsBare ua s (lower (trim key)) (trim val) b e

read_line-IsBare :
    (ua : Text) (s : ParseState) (line : Text)
    → IsBare s
    → is_agent_line ua (split_once 58 line) ≡ false
    → IsBare (read_line ua s line)
read_line-IsBare ua s [] b e = record {
  idle = refl;
  no_allow = b.no_allow;
  no_disallow = b.no_disallow;
}
read_line-IsBare ua s (c ∷ cs) b e = directed-IsBare ua s (split_once 58 (c ∷ cs)) b e

or_both : (a b : Bool) → (a || b) ≡ false → (a ≡ false) × (b ≡ false)
or_both a b h = ground arith

read_lines-IsBare :
    (ua : Text) (s : ParseState) (raws : List Text)
    → IsBare s
    → names_in ua raws ≡ false
    → IsBare (read_lines ua s raws)
read_lines-IsBare ua s [] b e = b
read_lines-IsBare ua s (raw ∷ raws) b e =
    let (here, later) =
      or_both (is_agent_line ua (split_once 58 (without_comment raw))) (names_in ua raws) e in
    read_lines-IsBare ua (read_line ua s (without_comment raw)) raws
      (read_line-IsBare ua s (without_comment raw) b here) later

-- A text in which no line names the agent, by its token or by `*`, has no rules for it, wherever its
-- rules stand, and lets it fetch every path.
pub parse-unnamed :
    (txt user_agent path : Text)
    → names_in (lower user_agent) (lines txt) ≡ false
    → (is_empty (parse txt user_agent) ≡ true) × (allows (parse txt user_agent) path ≡ true)
unfolding parse is_empty allows
parse-unnamed txt user_agent path e =
    let bare =
      read_lines-IsBare (lower user_agent) no_rules (lines txt)
        (record { idle = refl; no_allow = refl; no_disallow = refl }) e in
    rw (bare.no_allow, bare.no_disallow) (refl, refl)
