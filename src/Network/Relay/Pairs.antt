-- ===== src/Network/Relay/Pairs.antt =====
-- The forwarding pairs of relay.rs: their ids are distinct and their ends are online.
use origin_tools.Base.{
  ℕ, ◌+◌, ◌≤◌, ◌<◌, ◌≡◌, refl, true, none, List, [], ◌∷◌, ◌++◌, arith, ◌==◌, Bool-cases, inl, inr,
}
use origin_tools.Base.Eq.{bytes_eq}
use origin_tools.Base.Sets.{contains, insert, remove, contains-remove, contains-insert}
use origin_tools.Network.Relay.{
  ForwardPair, Fingerprint, find_pair, remove_pair, retain_pairs, is_end,
}

-- Every pair has an id below `next` that no later pair has, and both its ends are online.
abbrev pub PairsIn : List Fingerprint → ℕ → List ForwardPair → Type 0
PairsIn online next [] = Unit
PairsIn online next (p ∷ ps) =
    (p.id < next)
    × (contains online p.sender ≡ true)
    × (contains online p.target ≡ true)
    × (find_pair p.id ps ≡ none)
    × PairsIn online next ps

pub PairsIn-insert :
    (fp : Fingerprint) (online : List Fingerprint) (next : ℕ) (ps : List ForwardPair)
    → PairsIn online next ps
    → PairsIn (insert fp online) next ps
PairsIn-insert fp online next [] h = tt
PairsIn-insert fp online next (p ∷ ps) h = (
  h.0,
  ground (arith, contains-insert fp p.sender online, h.1),
  ground (arith, contains-insert fp p.target online, h.2),
  h.3,
  PairsIn-insert fp online next ps h.4,
)

find_pair-snoc :
    (id : ℕ) (ps : List ForwardPair) (q : ForwardPair)
    → find_pair id ps ≡ none
    → id < q.id
    → find_pair id (ps ++ q ∷ []) ≡ none
find_pair-snoc id [] q h d = ground arith
find_pair-snoc id (p ∷ ps) q h d = ground (arith, find_pair-snoc id ps q)

pub PairsIn-snoc :
    (online : List Fingerprint) (sender target : Fingerprint) (next : ℕ) (ps : List ForwardPair)
    → PairsIn online next ps
    → contains online sender ≡ true
    → contains online target ≡ true
    → PairsIn online (next + 1) (ps ++ record { id = next; sender = sender; target = target } ∷ [])
PairsIn-snoc online sender target next [] h s t = (omega arith, s, t, refl, tt)
PairsIn-snoc online sender target next (p ∷ ps) h s t = (
  omega (arith, h.0),
  h.1,
  h.2,
  find_pair-snoc p.id ps record { id = next; sender = sender; target = target } h.3 h.0,
  PairsIn-snoc online sender target next ps h.4 s t,
)

find_pair-remove_pair :
    (id gone : ℕ) (ps : List ForwardPair)
    → find_pair id ps ≡ none
    → find_pair id (remove_pair gone ps) ≡ none
unfolding remove_pair
find_pair-remove_pair id gone [] h = refl
find_pair-remove_pair id gone (p ∷ ps) h = ground (arith, find_pair-remove_pair id gone ps)

pub PairsIn-remove_pair :
    (online : List Fingerprint) (next id : ℕ) (ps : List ForwardPair)
    → PairsIn online next ps
    → PairsIn online next (remove_pair id ps)
unfolding remove_pair
PairsIn-remove_pair online next id [] h = tt
PairsIn-remove_pair online next id (p ∷ ps) h = elim (Bool-cases (p.id == id)) [
  | inl e ↦ rw e h.4
  | inr e ↦ rw e (
    h.0,
    h.1,
    h.2,
    find_pair-remove_pair p.id id ps h.3,
    PairsIn-remove_pair online next id ps h.4,
  )
]

find_pair-retain_pairs :
    (id : ℕ) (fp : Fingerprint) (ps : List ForwardPair)
    → find_pair id ps ≡ none
    → find_pair id (retain_pairs fp ps) ≡ none
unfolding retain_pairs
find_pair-retain_pairs id fp [] h = refl
find_pair-retain_pairs id fp (p ∷ ps) h = elim (Bool-cases (is_end fp p)) [
  | inl e ↦ rw e (find_pair-retain_pairs id fp ps (ground arith))
  | inr e ↦ rw e (ground (arith, find_pair-retain_pairs id fp ps))
]

pub PairsIn-retain_pairs :
    (fp : Fingerprint) (online : List Fingerprint) (next : ℕ) (ps : List ForwardPair)
    → PairsIn online next ps
    → PairsIn (remove fp online) next (retain_pairs fp ps)
unfolding retain_pairs
PairsIn-retain_pairs fp online next [] h = tt
PairsIn-retain_pairs fp online next (p ∷ ps) h = elim (Bool-cases (is_end fp p)) [
  | inl e ↦ rw e (PairsIn-retain_pairs fp online next ps h.4)
  | inr e ↦ rw e (
    h.0,
    ground (
      arith,
      contains-remove fp p.sender online,
      h.1,
      bytes_eq.beq_iff fp p.sender,
      bytes_eq.beq_iff p.sender fp,
    ),
    ground (
      arith,
      contains-remove fp p.target online,
      h.2,
      bytes_eq.beq_iff fp p.target,
      bytes_eq.beq_iff p.target fp,
    ),
    find_pair-retain_pairs p.id fp ps h.3,
    PairsIn-retain_pairs fp online next ps h.4,
  )
]

pub find_pair-below :
    (online : List Fingerprint) (next id : ℕ) (ps : List ForwardPair)
    → PairsIn online next ps
    → next ≤ id
    → find_pair id ps ≡ none
find_pair-below online next id [] h le = refl
find_pair-below online next id (p ∷ ps) h le =
    ground (arith, find_pair-below online next id ps h.4 le, h.0)

pub find_pair-remove_pair_same :
    (online : List Fingerprint) (next id : ℕ) (ps : List ForwardPair)
    → PairsIn online next ps
    → find_pair id (remove_pair id ps) ≡ none
unfolding remove_pair
find_pair-remove_pair_same online next id [] h = refl
find_pair-remove_pair_same online next id (p ∷ ps) h =
    ground (arith, find_pair-remove_pair_same online next id ps h.4, h.3)
