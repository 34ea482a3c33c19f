-- ===== src/Network/Relay/Limits.antt =====
-- The limits of relay.rs: what holds of the state after any sequence of its methods.
use origin_tools.Base.{
  ℕ, ◌+◌, ◌-◌, ◌≤◌, ◌<◌, ◌≡◌, refl, Bool, true, false, Option, none, some, List, [], ◌∷◌, ◌++◌,
  arith, ltb, leb, if◌then◌else◌, length, length-append, Bool-cases, inl, inr, ok, err, u64,
  u64_mod,
}
use origin_tools.Base.Bytes.{Bytes}
use origin_tools.Base.Eq.{bytes_eq}
use origin_tools.Base.Sets.{
  contains, insert, Distinct, insert-Distinct, remove-Distinct, lookup, put,
}
use origin_tools.Network.Inbox.{Inbox, enqueue, inbox_or_default}
use origin_tools.Network.Relay.{
  RelayState, Fingerprint, EvictionSet, Advert, ForwardPair, register, deregister, open_pair,
  close_pair, remove_pair, retain_pairs, is_end, inbox_push, remove_key, advert_publish, fetched,
  is_evicted, evicted,
}
use origin_tools.Network.Inbox.Caps.{enqueue-IsInbox}
use origin_tools.Network.Relay.Pairs.{
  PairsIn, PairsIn-insert, PairsIn-snoc, PairsIn-remove_pair, PairsIn-retain_pairs,
}
use origin_tools.Network.Relay.Held.{AllInboxes, looked_up, put_in}

-- Nobody is online twice; the pairs are within their cap, with distinct ids and online ends; and each
-- inbox counts its bytes rightly and is within both caps.
pub record IsRelay (s : RelayState) : Type 0 where
  pub no_twice : Distinct s.online
  pub pairs : PairsIn s.online s.next_pair_id s.forwarding
  pub capacity : length s.forwarding ≤ s.max_forwardings
  pub held : AllInboxes s.max_inbox_messages s.max_inbox_bytes s.inboxes
  pub some_room : 1 ≤ s.max_inbox_messages

length-remove_pair : (id : ℕ) (ps : List ForwardPair) → length (remove_pair id ps) ≤ length ps
unfolding remove_pair
length-remove_pair id [] = omega arith
length-remove_pair id (p ∷ ps) = ground (arith, length-remove_pair id ps)

length-retain_pairs :
    (fp : Fingerprint) (ps : List ForwardPair) → length (retain_pairs fp ps) ≤ length ps
unfolding retain_pairs
length-retain_pairs fp [] = omega arith
length-retain_pairs fp (p ∷ ps) = elim (Bool-cases (is_end fp p)) [
  | inl e ↦ rw e (omega (arith, length-retain_pairs fp ps))
  | inr e ↦ rw e (omega (arith, length-retain_pairs fp ps))
]

-- A refused request leaves the state as it was.
unless :
    {R : Type 0} (c : Bool) (s : RelayState) (refused : R) (rest : RelayState × R)
    → IsRelay s
    → (c ≡ false → IsRelay rest.0)
    → IsRelay (if c then (s, refused) else rest).0
unless true s refused rest v h = v
unless false s refused rest v h = h refl

pub register-IsRelay :
    (evictions : EvictionSet) (s : RelayState) (fp : Fingerprint)
    → IsRelay s
    → IsRelay (register evictions s fp).0
unfolding register
register-IsRelay evictions s fp v =
    unless (is_evicted evictions fp) s (err (evicted fp))
      (record s { online = insert fp s.online }, ok tt) v
      (λ e. record {
        no_twice = insert-Distinct fp s.online v.no_twice;
        pairs = PairsIn-insert fp s.online s.next_pair_id s.forwarding v.pairs;
        capacity = v.capacity;
        held = v.held;
        some_room = v.some_room;
      })

pub deregister-IsRelay : (s : RelayState) (fp : Fingerprint) → IsRelay s → IsRelay (deregister s fp)
unfolding deregister
deregister-IsRelay s fp v = record {
  no_twice = remove-Distinct fp s.online v.no_twice;
  pairs = PairsIn-retain_pairs fp s.online s.next_pair_id s.forwarding v.pairs;
  capacity = omega (arith, length-retain_pairs fp s.forwarding, v.capacity);
  held = v.held;
  some_room = v.some_room;
}

pub close_pair-IsRelay : (s : RelayState) (id : ℕ) → IsRelay s → IsRelay (close_pair s id).0
unfolding close_pair
close_pair-IsRelay s id v = record {
  no_twice = v.no_twice;
  pairs = PairsIn-remove_pair s.online s.next_pair_id id s.forwarding v.pairs;
  capacity = omega (arith, length-remove_pair id s.forwarding, v.capacity);
  held = v.held;
  some_room = v.some_room;
}

u64_small : (n : ℕ) → n < u64_mod → u64 n ≡ n
u64_small n h = omega arith

opened :
    (s : RelayState) (sender target : Fingerprint)
    → IsRelay s
    → s.next_pair_id + 1 < u64_mod
    → contains s.online sender ≡ true
    → contains s.online target ≡ true
    → length s.forwarding < s.max_forwardings
    → IsRelay (record s {
      next_pair_id = u64 (s.next_pair_id + 1);
      forwarding =
          s.forwarding ++ record { id = s.next_pair_id; sender = sender; target = target } ∷ [];
    })
opened s sender target v w a b few = rw (u64_small (s.next_pair_id + 1) w) (record {
  no_twice = v.no_twice;
  pairs = PairsIn-snoc s.online sender target s.next_pair_id s.forwarding v.pairs a b;
  capacity = omega (
    arith,
    few,
    length-append s.forwarding
        (record { id = s.next_pair_id; sender = sender; target = target } ∷ []),
  );
  held = v.held;
  some_room = v.some_room;
})

pub open_pair-IsRelay :
    (evictions : EvictionSet) (s : RelayState) (sender target : Fingerprint)
    → IsRelay s
    → s.next_pair_id + 1 < u64_mod
    → IsRelay (open_pair evictions s sender target).0
unfolding open_pair
open_pair-IsRelay evictions s sender target v w = elim (Bool-cases (is_evicted evictions sender)) [
  | inl e ↦ rw e v
  | inr trusted ↦ elim (Bool-cases (contains s.online sender)) [
    | inr e ↦ rw (trusted, e) v
    | inl here ↦ elim (Bool-cases (contains s.online target)) [
      | inr e ↦ rw (trusted, here, e) v
      | inl there ↦ elim (Bool-cases (leb s.max_forwardings (length s.forwarding))) [
        | inl e ↦ rw (trusted, here, there, e) v
        | inr few ↦
            rw (trusted, here, there, few) (opened s sender target v w here there (ground arith))
      ]
    ]
  ]
]

pub inbox_push-IsRelay :
    (evictions : EvictionSet) (s : RelayState) (now : ℕ) (sender target : Fingerprint)
    (frame : Bytes)
    → IsRelay s
    → IsRelay (inbox_push evictions s now sender target frame).0
unfolding inbox_push
inbox_push-IsRelay evictions s now sender target frame v =
    let inbox = inbox_or_default (lookup target s.inboxes) in
    let new =
      enqueue-IsInbox s.max_inbox_messages s.max_inbox_bytes now frame inbox v.some_room
        (looked_up s.max_inbox_messages s.max_inbox_bytes target s.inboxes v.held) in
    elim (Bool-cases (is_evicted evictions sender)) [
      | inl e ↦ rw e v
      | inr trusted ↦ elim (Bool-cases (ltb s.max_frame_size (length frame))) [
        | inl e ↦ rw (trusted, e) v
        | inr small ↦ elim (Bool-cases (contains s.online target)) [
          | inr e ↦ rw (trusted, small, e) v
          | inl there ↦
              rw (trusted, small, there)
                record {
                  no_twice = v.no_twice;
                  pairs = v.pairs;
                  capacity = v.capacity;
                  held =
                      put_in s.max_inbox_messages s.max_inbox_bytes target
                        (enqueue s.max_inbox_messages s.max_inbox_bytes now frame inbox).0 s.inboxes
                        v.held new;
                  some_room = v.some_room;
                }
        ]
      ]
    ]

pub with_inboxes :
    (s : RelayState) (m : List (Fingerprint × Inbox))
    → IsRelay s
    → AllInboxes s.max_inbox_messages s.max_inbox_bytes m
    → IsRelay (record s { inboxes = m })
with_inboxes s m v h = record {
  no_twice = v.no_twice;
  pairs = v.pairs;
  capacity = v.capacity;
  held = h;
  some_room = v.some_room;
}

-- Tokens and adverts are outside the invariant.
pub with_adverts :
    (s : RelayState) (tokens : List (Bytes × Fingerprint))
    (adverts : List (Fingerprint × (Advert × ℕ)))
    → IsRelay s
    → IsRelay (record s { tokens = tokens; adverts = adverts })
with_adverts s tokens adverts v = record {
  no_twice = v.no_twice;
  pairs = v.pairs;
  capacity = v.capacity;
  held = v.held;
  some_room = v.some_room;
}

pub fetched-IsRelay :
    (s : RelayState) (now : ℕ) (fp : Fingerprint) (o : Option (Advert × ℕ))
    → IsRelay s
    → IsRelay (fetched s now fp o).0
fetched-IsRelay s now fp none v = v
fetched-IsRelay s now fp (some (advert, published)) v =
    elim (Bool-cases (ltb (now - published) advert.ttl_secs)) [
      | inl e ↦ rw e v
      | inr e ↦ rw e (with_adverts s s.tokens (remove_key fp s.adverts) v)
    ]

pub advert_publish-IsRelay :
    (s : RelayState) (now : ℕ) (fp : Fingerprint) (advert : Advert)
    → IsRelay s
    → IsRelay (advert_publish s now fp advert).0
unfolding advert_publish
advert_publish-IsRelay s now fp advert v = elim (Bool-cases (contains s.online fp)) [
  | inl e ↦ rw e (with_adverts s s.tokens (put fp (advert, now) s.adverts) v)
  | inr e ↦ rw e v
]
