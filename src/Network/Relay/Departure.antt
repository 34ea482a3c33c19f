-- ===== src/Network/Relay/Departure.antt =====
-- What `deregister` of relay.rs leaves of a client: no session, no token, no pair.
use origin_tools.Base.{
  ℕ, ◌≡◌, refl, ◌==◌, ltb, length, Bool, false, Option, none, some, List, [], ◌∷◌, arith,
  Bool-cases, inl, inr,
}
use origin_tools.Base.Bytes.{Bytes}
use origin_tools.Base.Eq.{bytes_eq}
use origin_tools.Base.Sets.{contains, remove, lookup, contains-remove}
use origin_tools.Network.Relay.{
  RelayState, ForwardPair, Fingerprint, EvictionSet, find_pair, retain_pairs, retain_tokens, is_end,
  deregister, resolve_token, lookup_pair, inbox_push, is_online, is_evicted,
}

lookup-retain_tokens :
    (fp token : Bytes) (ts : List (Bytes × Fingerprint))
    → ¬ (lookup token (retain_tokens fp ts) ≡ some fp)
unfolding retain_tokens
lookup-retain_tokens fp token [] e = cc
lookup-retain_tokens fp token ((t, owner) ∷ ts) e =
    ground (arith, lookup-retain_tokens fp token ts, bytes_eq.beq_iff owner fp)

inbox_push_offline :
    (evictions : EvictionSet) (s : RelayState) (now : ℕ) (sender target : Fingerprint)
    (frame : Bytes)
    → contains s.online target ≡ false
    → (inbox_push evictions s now sender target frame).0 ≡ s
unfolding inbox_push
inbox_push_offline evictions s now sender target frame e =
    elim (Bool-cases (is_evicted evictions sender)) [
      | inl evicted ↦ rw evicted refl
      | inr trusted ↦ elim (Bool-cases (ltb s.max_frame_size (length frame))) [
        | inl large ↦ rw (trusted, large) refl
        | inr small ↦ rw (trusted, small, e) refl
      ]
    ]

-- Whether the pair, if there is one, has the client as an end.
abbrev pub ends_at : Fingerprint → Option ForwardPair → Bool
ends_at fp none = false
ends_at fp (some p) = is_end fp p

find_pair-retain_pairs :
    (fp : Fingerprint) (id : ℕ) (ps : List ForwardPair)
    → ends_at fp (find_pair id (retain_pairs fp ps)) ≡ false
unfolding retain_pairs
find_pair-retain_pairs fp id [] = refl
find_pair-retain_pairs fp id (p ∷ ps) = elim (Bool-cases (is_end fp p)) [
  | inl e ↦ rw e (find_pair-retain_pairs fp id ps)
  | inr e ↦ elim (Bool-cases (p.id == id)) [
    | inl same ↦ rw (e, same, e) refl
    | inr other ↦ rw (e, other) (find_pair-retain_pairs fp id ps)
  ]
]

contains-remove_same :
    (fp : Fingerprint) (online : List Fingerprint) → contains (remove fp online) fp ≡ false
contains-remove_same fp online =
    ground (arith, contains-remove fp fp online, bytes_eq.beq_iff fp fp)

-- After `deregister` the client is not online, no token resolves to it, no pair that can be looked up
-- has it as an end, and pushing a frame to it changes nothing.
pub deregister-gone :
    (s : RelayState) (fp : Fingerprint) (token : Bytes) (id : ℕ) (evictions : EvictionSet) (now : ℕ)
    (sender : Fingerprint) (frame : Bytes)
    → (is_online (deregister s fp) fp ≡ false)
      × (¬ (resolve_token (deregister s fp) token ≡ some fp))
      × (ends_at fp (lookup_pair (deregister s fp) id) ≡ false)
      × ((inbox_push evictions (deregister s fp) now sender fp frame).0 ≡ deregister s fp)
unfolding deregister is_online resolve_token lookup_pair
deregister-gone s fp token id evictions now sender frame = (
  contains-remove_same fp s.online,
  lookup-retain_tokens fp token s.tokens,
  find_pair-retain_pairs fp id s.forwarding,
  inbox_push_offline evictions (deregister s fp) now sender fp frame
      (contains-remove_same fp s.online),
)
