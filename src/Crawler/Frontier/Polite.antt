-- ===== src/Crawler/Frontier/Polite.antt =====
-- The tables of frontier.rs that bound what one host is asked: the slots and the page quota.
use Prim.Native.String.{String}
use origin_tools.Base.{
  ℕ, ◌+◌, ◌≤◌, Option, none, some, List, [], ◌∷◌, arith, if◌then◌else◌, max, Bool-cases, inl, inr,
}
use origin_tools.Base.Eq.{string_eq}
use origin_tools.Base.Sets.{lookup, lookup-put}
use origin_tools.Crawler.Frontier.{Frontier, reserve_slot, host_quota_exhausted, or_now, or_zero}

-- A call of `reserve_slot`: the host, the delay and the clock.
pub record Reservation : Type 0 where
  pub host : String
  pub delay : ℕ
  pub now : ℕ

-- The starts that a run of reservations, by any workers in any order, gives to `host`.
unfoldable pub starts : String → Frontier → List Reservation → List ℕ
starts host f [] = []
starts host f (r ∷ rs) =
    let next = reserve_slot f r.host r.delay r.now in
    let rest = starts host next.0 rs in if string_eq.beq r.host host then next.1 ∷ rest else rest

abbrev pub AllFrom : ℕ → List ℕ → Type 0
AllFrom t [] = Unit
AllFrom t (s ∷ ss) = (t ≤ s) × AllFrom t ss

AllFrom-mono : (t u : ℕ) (ss : List ℕ) → t ≤ u → AllFrom u ss → AllFrom t ss
AllFrom-mono t u [] h a = tt
AllFrom-mono t u (s ∷ ss) h a = ground (arith, AllFrom-mono t u ss h)

-- The next slot of `host`.
abbrev next_of : String → Frontier → ℕ
next_of host f = or_zero (lookup host f.host_next_ok)

start-next_of : (o : Option ℕ) (now t : ℕ) → t ≤ or_zero o → t ≤ or_now o now
start-next_of none now t h = omega arith
start-next_of (some u) now t h = h

next_of-reserve_slot :
    (host : String) (f : Frontier) (r : Reservation) (t : ℕ)
    → t ≤ next_of host f
    → t ≤ next_of host (reserve_slot f r.host r.delay r.now).0
unfolding reserve_slot
next_of-reserve_slot host f r t h =
    let ext = start-next_of (lookup r.host f.host_next_ok) r.now t in
    ground (
      arith,
      string_eq.beq_iff r.host host,
      ext,
      lookup-put r.host host (max (or_now (lookup r.host f.host_next_ok) r.now) r.now + r.delay)
          f.host_next_ok,
    )

starts-AllFrom :
    (host : String) (f : Frontier) (t : ℕ) (rs : List Reservation)
    → t ≤ next_of host f
    → AllFrom t (starts host f rs)
unfolding starts reserve_slot
starts-AllFrom host f t [] h = tt
starts-AllFrom host f t (r ∷ rs) h =
    let next = next_of-reserve_slot host f r t h in
    let rest = starts-AllFrom host (reserve_slot f r.host r.delay r.now).0 t rs next in
    elim (Bool-cases (string_eq.beq r.host host)) [
      | inl e ↦ rw e (
        start-next_of (lookup r.host f.host_next_ok) r.now t
            (rw ((string_eq.beq_iff r.host host).0 e) h),
        rest,
      )
      | inr e ↦ rw e rest
    ]

-- However many workers reserve, and whatever their clocks say: after a reservation of a host that
-- starts at `start`, every later reservation of that host starts at `start + delay` or after.
pub starts-reserve_slot :
    (f : Frontier) (host : String) (delay now : ℕ) (rs : List Reservation)
    → AllFrom
        ((reserve_slot f host delay now).1 + delay)
        (starts host (reserve_slot f host delay now).0 rs)
unfolding reserve_slot
starts-reserve_slot f host delay now rs =
    starts-AllFrom host (reserve_slot f host delay now).0 _ rs (
      ground (
        arith,
        string_eq.beq_iff host host,
        lookup-put host host (max (or_now (lookup host f.host_next_ok) now) now + delay)
            f.host_next_ok,
      ))

-- The pages of `host` that a run of quota checks lets through.
unfoldable pub granted : String → ℕ → Frontier → List String → ℕ
granted host quota f [] = 0
granted host quota f (h ∷ hs) =
    let next = host_quota_exhausted f h quota in
    let rest = granted host quota next.0 hs in
    if string_eq.beq h host then if next.1 then rest else rest + 1 else rest

-- Over any run of checks, a host with `n` pages counted is let through at most `quota - n` times:
-- the pages counted before and those let through stay within the larger of the quota and `n`.
pub granted_bounds :
    (host : String) (quota : ℕ) (f : Frontier) (hs : List String)
    → or_zero (lookup host f.host_pages) + granted host quota f hs
      ≤ max quota (or_zero (lookup host f.host_pages))
unfolding granted host_quota_exhausted
granted_bounds host quota f [] = omega arith
granted_bounds host quota f (h ∷ hs) =
    let count = or_zero (lookup h f.host_pages) in
    ground (
      arith,
      granted_bounds host quota (host_quota_exhausted f h quota).0 hs,
      string_eq.beq_iff h host,
      lookup-put h host count f.host_pages,
      lookup-put h host (count + 1) f.host_pages,
    )
