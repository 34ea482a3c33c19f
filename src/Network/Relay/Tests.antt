-- ===== src/Network/Relay/Tests.antt =====
-- Runs of relay.rs on a small relay.
use origin_tools.Base.{ℕ, ◌≡◌, refl, false, some, List, [], ◌∷◌, arith, ok}
use origin_tools.Base.Eq.{bytes_eq}
use origin_tools.Network.Inbox.{enqueue, live_bytes, drop_oldest, make_room}
use origin_tools.Network.Relay.{
  RelayState, Fingerprint, EvictionSet, with_caps, lookup_pair, inbox_push, inbox_pull, deregister,
  is_online, resolve_token, is_evicted, target_is_offline,
}
use origin_tools.Network.Relay.Departure.{ends_at, deregister-gone}
use origin_tools.Network.Relay.Limits.{IsRelay}
use origin_tools.Network.Relay.Runs.{Call, calls, calls-IsRelay, opens, pushes, cleans}
use origin_tools.Network.Relay.Delivery.{Timed, push_all, frames_of, inbox_pull-push_all}

abbrev alice : Fingerprint
alice = 1 ∷ []

abbrev bob : Fingerprint
bob = 2 ∷ []

-- One pair, two messages of eight bytes in all, for 10 seconds.
abbrev small : RelayState
small = record (with_caps 1 2 8 10) { online = alice ∷ bob ∷ [] }

small-IsRelay : IsRelay small
small-IsRelay = record {
  no_twice = (refl, (refl, tt));
  pairs = tt;
  capacity = omega arith;
  held = tt;
  some_room = omega arith;
}

abbrev two_frames : Timed
two_frames = (3, (alice, 7 ∷ 8 ∷ [])) ∷ (4, (bob, 9 ∷ [])) ∷ []

-- `bob` has no inbox, and the frames are within the caps.
inbox_pull-push_all_example :
    let pulled = inbox_pull (push_all [] bob small two_frames) 12 bob in
    (pulled.1 ≡ frames_of two_frames) × ((inbox_pull pulled.0 13 bob).1 ≡ [])
unfolding is_evicted
inbox_pull-push_all_example =
    inbox_pull-push_all [] bob small 12 13 two_frames refl refl (omega arith) (omega arith)
      (refl, omega arith, omega arith, (refl, omega arith, omega arith, tt))

abbrev some_calls : List (EvictionSet × ℕ × Call)
some_calls =
    ([], 1, opens alice bob)
    ∷ ([], 2, pushes alice bob (1 ∷ 2 ∷ 3 ∷ []))
    ∷ (alice ∷ [], 3, pushes alice bob (4 ∷ []))
    ∷ ([], 20, cleans)
    ∷ []

calls-IsRelay_example : IsRelay (calls small some_calls)
calls-IsRelay_example = calls-IsRelay small some_calls small-IsRelay (omega arith)

-- A client with a token, and with a pair to another.
abbrev joined : RelayState
joined = record small {
  tokens = (5 ∷ [], alice) ∷ [];
  forwarding = record { id = 1; sender = bob; target = alice } ∷ [];
}

deregister-gone_example :
    (is_online (deregister joined alice) alice ≡ false)
    × (¬ (resolve_token (deregister joined alice) (5 ∷ []) ≡ some alice))
    × (ends_at alice (lookup_pair (deregister joined alice) 1) ≡ false)
    × ((inbox_push [] (deregister joined alice) 9 bob alice (1 ∷ [])).0 ≡ deregister joined alice)
deregister-gone_example = deregister-gone joined alice (5 ∷ []) 1 [] 9 bob (1 ∷ [])

-- The inbox of two messages drops the oldest of three.
oldest_dropped :
    (inbox_pull
      (push_all [] bob small
        ((1, (alice, 1 ∷ [])) ∷ (2, (alice, 2 ∷ [])) ∷ (3, (alice, 3 ∷ [])) ∷ []))
      4
      bob).1
    ≡ (2 ∷ []) ∷ (3 ∷ []) ∷ []
unfolding inbox_push inbox_pull is_evicted enqueue live_bytes drop_oldest make_room
oldest_dropped = refl

-- A target that is not online is refused, whatever the caps.
offline_refused : inbox_push [] small 1 alice (3 ∷ []) (1 ∷ []) ≡ (small, ok target_is_offline)
unfolding inbox_push is_evicted
offline_refused = refl
