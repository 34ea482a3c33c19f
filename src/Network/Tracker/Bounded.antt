-- ===== src/Network/Tracker/Bounded.antt =====
-- The tracker of replay.rs is a window: bounded, and sure to refuse what is in it.
use origin_tools.Base.{
  ℕ, ◌≤◌, ◌≡◌, refl, sym, ◌∙◌, not, false, ◌||◌, List, [], ◌∷◌, ◌++◌, arith, ltb, length,
  length-append, take, Bool-cases, inl, inr,
}
use origin_tools.Base.Bytes.{Bytes}
use origin_tools.Base.Eq.{bytes_eq}
use origin_tools.Base.Sets.{
  contains, remove, Distinct, contains-remove, remove-Distinct, length-remove, contains-append,
}
use origin_tools.Network.Tracker.{
  HandshakeReplayTracker, evict, track, check_and_track, replay_nonce_len,
}

-- The set and the queue hold the same nonces, each once, and no more than the cap.
pub record IsTracking (t : HandshakeReplayTracker) : Type 0 where
  pub same : (n : Bytes) → contains t.seen n ≡ contains t.order n
  pub once : Distinct t.order
  pub set_once : Distinct t.seen
  pub sizes : length t.seen ≡ length t.order
  pub bounded : length t.order ≤ t.cap

-- What the loop leaves of a queue and a set that agree.
record Agrees (order seen : List Bytes) : Type 0 where
  same : (n : Bytes) → contains seen n ≡ contains order n
  once : Distinct order
  set_once : Distinct seen
  sizes : length seen ≡ length order

pop-Agrees :
    (old : Bytes) (rest seen : List Bytes)
    → Agrees (old ∷ rest) seen
    → Agrees rest (remove old seen)
pop-Agrees old rest seen a = record {
  same = λ n. ground (arith, contains-remove old n seen, a.same n, bytes_eq.beq_iff old n);
  once = a.once.1;
  set_once = remove-Distinct old seen a.set_once;
  sizes = ground (arith, length-remove old seen a.set_once, a.same old, bytes_eq.beq_iff old old);
}

evict-Agrees :
    (cap : ℕ) (order seen : List Bytes)
    → Agrees order seen
    → Agrees (evict cap order seen).0 (evict cap order seen).1
      × (length (evict cap order seen).0 ≤ cap)
unfolding evict
evict-Agrees cap [] seen a = (a, omega arith)
evict-Agrees cap (old ∷ rest) seen a = elim (Bool-cases (ltb cap (length (old ∷ rest)))) [
  | inr fits ↦ rw fits (a, ground arith)
  | inl over ↦
      rw (over, a.once.0) (evict-Agrees cap rest (remove old seen) (pop-Agrees old rest seen a))
]

Distinct-snoc :
    (nonce : Bytes) (order : List Bytes)
    → contains order nonce ≡ false
    → Distinct order
    → Distinct (order ++ nonce ∷ [])
Distinct-snoc nonce [] h d = (refl, tt)
Distinct-snoc nonce (o ∷ os) h d = ground (
  arith,
  Distinct-snoc nonce os,
  contains-append os (nonce ∷ []) o,
  bytes_eq.beq_iff o nonce,
  bytes_eq.beq_iff nonce o,
)

snoc-Agrees :
    (nonce : Bytes) (order seen : List Bytes)
    → Agrees order seen
    → contains seen nonce ≡ false
    → Agrees (order ++ nonce ∷ []) (nonce ∷ seen)
snoc-Agrees nonce order seen a new = record {
  same = λ n. ground (arith, a.same n, contains-append order (nonce ∷ []) n);
  once = Distinct-snoc nonce order (sym (a.same nonce) ∙ new) a.once;
  set_once = (new, a.set_once);
  sizes = omega (arith, a.sizes, length-append order (nonce ∷ []));
}

pub track-IsTracking :
    (t : HandshakeReplayTracker) (nonce : Bytes)
    → IsTracking t
    → contains t.seen nonce ≡ false
    → IsTracking (track t nonce)
unfolding track
track-IsTracking t nonce v new =
    let (a, bounded) = evict-Agrees t.cap (t.order ++ nonce ∷ []) (nonce ∷ t.seen) (
      snoc-Agrees nonce t.order t.seen
        (record { same = v.same; once = v.once; set_once = v.set_once; sizes = v.sizes }) new) in
    record {
      same = a.same;
      once = a.once;
      set_once = a.set_once;
      sizes = a.sizes;
      bounded = bounded;
    }

-- Every call keeps the set and the queue in agreement and within the cap, and reports a frame as
-- fresh exactly when it is too short to have a nonce or its nonce is not tracked.
pub check_and_track-IsTracking :
    (t : HandshakeReplayTracker) (frame : Bytes)
    → IsTracking t
    → IsTracking (check_and_track t frame).0
      × ((check_and_track t frame).1 ≡ (
          ltb (length frame) replay_nonce_len
          || not (contains t.seen (take replay_nonce_len frame))))
unfolding check_and_track
check_and_track-IsTracking t frame v =
    elim (Bool-cases (contains t.seen (take replay_nonce_len frame))) [
      | inl old ↦ rw old (ground arith, ground arith)
      | inr new ↦
          let tracked = track-IsTracking t (take replay_nonce_len frame) v new in
          rw new (ground arith, ground arith)
    ]
