-- ===== src/Network/Relay/Runs.antt =====
-- Sequences of calls of relay.rs by any clients, as the lock on the state orders them.
use origin_tools.Base.{
  ℕ, ◌+◌, ◌-◌, ◌≤◌, ◌<◌, Option, none, some, List, [], ◌∷◌, arith, ltb, leb, length, Bool-cases,
  inl, inr, u64_mod,
}
use origin_tools.Base.Bytes.{Bytes}
use origin_tools.Base.Eq.{bytes_eq}
use origin_tools.Base.Sets.{contains, lookup, put}
use origin_tools.Network.Relay.{
  RelayState, Fingerprint, EvictionSet, Advert, register, deregister, issue_token, revoke_token,
  open_pair, close_pair, inbox_push, inbox_pull, remove_key, purge_all, cleanup_expired,
  advert_publish, advert_fetch, fetched, is_evicted,
}
use origin_tools.Network.Relay.Held.{removed_key, purged}
use origin_tools.Network.Relay.Limits.{
  IsRelay, register-IsRelay, deregister-IsRelay, close_pair-IsRelay, open_pair-IsRelay,
  inbox_push-IsRelay, with_inboxes, with_adverts, fetched-IsRelay, advert_publish-IsRelay,
}

-- A call of one method that changes the state, with the clock it reads and the token it draws.
pub data Call : Type 0 where
  registers deregisters fetches : Fingerprint → Call
  issues : Bytes → Fingerprint → Call
  revokes : Bytes → Call
  opens : Fingerprint → Fingerprint → Call
  closes : ℕ → Call
  pushes : Fingerprint → Fingerprint → Bytes → Call
  pulls : Fingerprint → Call
  cleans : Call
  publishes : Fingerprint → Advert → Call

pub call : EvictionSet → RelayState → ℕ → Call → RelayState
call evictions s now (registers fp) = (register evictions s fp).0
call evictions s now (deregisters fp) = deregister s fp
call evictions s now (fetches fp) = (advert_fetch s now fp).0
call evictions s now (issues token fp) = issue_token s token fp
call evictions s now (revokes token) = revoke_token s token
call evictions s now (opens sender target) = (open_pair evictions s sender target).0
call evictions s now (closes id) = (close_pair s id).0
call evictions s now (pushes sender target frame) =
    (inbox_push evictions s now sender target frame).0
call evictions s now (pulls fp) = (inbox_pull s now fp).0
call evictions s now cleans = (cleanup_expired s now).0
call evictions s now (publishes fp advert) = (advert_publish s now fp advert).0

-- Every method, on every branch, keeps the state in order, as long as the next pair's id has a
-- successor in 64 bits.
call-IsRelay :
    (evictions : EvictionSet) (s : RelayState) (now : ℕ) (c : Call)
    → IsRelay s
    → s.next_pair_id + 1 < u64_mod
    → IsRelay (call evictions s now c)
unfolding call issue_token revoke_token inbox_pull cleanup_expired advert_fetch
call-IsRelay evictions s now (registers fp) v w = register-IsRelay evictions s fp v
call-IsRelay evictions s now (deregisters fp) v w = deregister-IsRelay s fp v
call-IsRelay evictions s now (fetches fp) v w = fetched-IsRelay s now fp (lookup fp s.adverts) v
call-IsRelay evictions s now (issues token fp) v w =
    with_adverts s (put token fp s.tokens) s.adverts v
call-IsRelay evictions s now (revokes token) v w =
    with_adverts s (remove_key token s.tokens) s.adverts v
call-IsRelay evictions s now (opens sender target) v w =
    open_pair-IsRelay evictions s sender target v w
call-IsRelay evictions s now (closes id) v w = close_pair-IsRelay s id v
call-IsRelay evictions s now (pushes sender target frame) v w =
    inbox_push-IsRelay evictions s now sender target frame v
call-IsRelay evictions s now (pulls fp) v w =
    with_inboxes s (remove_key fp s.inboxes) v
      (removed_key s.max_inbox_messages s.max_inbox_bytes fp s.inboxes v.held)
call-IsRelay evictions s now cleans v w =
    with_inboxes s (purge_all now s.inbox_ttl s.inboxes).0 v
      (purged s.max_inbox_messages s.max_inbox_bytes now s.inbox_ttl s.inboxes v.held)
call-IsRelay evictions s now (publishes fp advert) v w = advert_publish-IsRelay s now fp advert v

fetched-next_pair_id :
    (s : RelayState) (now : ℕ) (fp : Fingerprint) (o : Option (Advert × ℕ))
    → (fetched s now fp o).0.next_pair_id ≤ s.next_pair_id + 1
fetched-next_pair_id s now fp none = omega arith
fetched-next_pair_id s now fp (some (advert, published)) =
    elim (Bool-cases (ltb (now - published) advert.ttl_secs)) [
      | inl e ↦ rw e (omega arith)
      | inr e ↦ rw e (omega arith)
    ]

open_pair-next_pair_id :
    (evictions : EvictionSet) (s : RelayState) (sender target : Fingerprint)
    → (open_pair evictions s sender target).0.next_pair_id ≤ s.next_pair_id + 1
unfolding open_pair
open_pair-next_pair_id evictions s sender target = elim (Bool-cases (is_evicted evictions sender)) [
  | inl e ↦ rw e (omega arith)
  | inr trusted ↦ elim (Bool-cases (contains s.online sender)) [
    | inr e ↦ rw (trusted, e) (omega arith)
    | inl here ↦ elim (Bool-cases (contains s.online target)) [
      | inr e ↦ rw (trusted, here, e) (omega arith)
      | inl there ↦ elim (Bool-cases (leb s.max_forwardings (length s.forwarding))) [
        | inl e ↦ rw (trusted, here, there, e) (omega arith)
        | inr few ↦ rw (trusted, here, there, few) (omega arith)
      ]
    ]
  ]
]

inbox_push-next_pair_id :
    (evictions : EvictionSet) (s : RelayState) (now : ℕ) (sender target : Fingerprint)
    (frame : Bytes)
    → (inbox_push evictions s now sender target frame).0.next_pair_id ≤ s.next_pair_id + 1
unfolding inbox_push
inbox_push-next_pair_id evictions s now sender target frame =
    elim (Bool-cases (is_evicted evictions sender)) [
      | inl e ↦ rw e (omega arith)
      | inr trusted ↦ elim (Bool-cases (ltb s.max_frame_size (length frame))) [
        | inl e ↦ rw (trusted, e) (omega arith)
        | inr small ↦ elim (Bool-cases (contains s.online target)) [
          | inl e ↦ rw (trusted, small, e) (omega arith)
          | inr e ↦ rw (trusted, small, e) (omega arith)
        ]
      ]
    ]

register-next_pair_id :
    (evictions : EvictionSet) (s : RelayState) (fp : Fingerprint)
    → (register evictions s fp).0.next_pair_id ≤ s.next_pair_id + 1
unfolding register
register-next_pair_id evictions s fp = elim (Bool-cases (is_evicted evictions fp)) [
  | inl e ↦ rw e (omega arith)
  | inr e ↦ rw e (omega arith)
]

advert_publish-next_pair_id :
    (s : RelayState) (now : ℕ) (fp : Fingerprint) (advert : Advert)
    → (advert_publish s now fp advert).0.next_pair_id ≤ s.next_pair_id + 1
unfolding advert_publish
advert_publish-next_pair_id s now fp advert = elim (Bool-cases (contains s.online fp)) [
  | inl e ↦ rw e (omega arith)
  | inr e ↦ rw e (omega arith)
]

-- A call gives out one id at most.
call-next_pair_id :
    (evictions : EvictionSet) (s : RelayState) (now : ℕ) (c : Call)
    → (call evictions s now c).next_pair_id ≤ s.next_pair_id + 1
unfolding call deregister issue_token revoke_token close_pair inbox_pull cleanup_expired
    advert_fetch
call-next_pair_id evictions s now (registers fp) = register-next_pair_id evictions s fp
call-next_pair_id evictions s now (deregisters fp) = omega arith
call-next_pair_id evictions s now (fetches fp) = fetched-next_pair_id s now fp (lookup fp s.adverts)
call-next_pair_id evictions s now (issues token fp) = omega arith
call-next_pair_id evictions s now (revokes token) = omega arith
call-next_pair_id evictions s now (opens sender target) =
    open_pair-next_pair_id evictions s sender target
call-next_pair_id evictions s now (closes id) = omega arith
call-next_pair_id evictions s now (pushes sender target frame) =
    inbox_push-next_pair_id evictions s now sender target frame
call-next_pair_id evictions s now (pulls fp) = omega arith
call-next_pair_id evictions s now cleans = omega arith
call-next_pair_id evictions s now (publishes fp advert) =
    advert_publish-next_pair_id s now fp advert

-- The calls in the order of the lock, each with the evictions in force and the clock's time.
pub calls : RelayState → List (EvictionSet × ℕ × Call) → RelayState
unfolding call
calls s [] = s
calls s ((evictions, now, c) ∷ cs) = calls (call evictions s now c) cs

-- From a state in order, after any calls of the methods that change the state, by whatever clients,
-- times and evictions: nobody is online twice, each pair has an id of its own and two ends that are
-- online, the pairs are within their cap, and each inbox counts its bytes rightly and is within both
-- its caps; provided an inbox may hold a message, and the ids given out stay within 64 bits.
pub calls-IsRelay :
    (s : RelayState) (cs : List (EvictionSet × ℕ × Call))
    → IsRelay s
    → s.next_pair_id + length cs < u64_mod
    → IsRelay (calls s cs)
unfolding calls
calls-IsRelay s [] v w = v
calls-IsRelay s ((evictions, now, c) ∷ cs) v w =
    calls-IsRelay (call evictions s now c) cs (call-IsRelay evictions s now c v (omega arith))
      (omega (arith, call-next_pair_id evictions s now c))
