-- ===== src/Network/Tracker/Window.antt =====
-- A nonce that the tracker of replay.rs took is refused until `cap` frames have come after it.
use origin_tools.Base.{
  ℕ, suc, ◌+◌, ◌≤◌, ◌<◌, ◌≡◌, refl, ◌∙◌, true, false, List, [], ◌∷◌, ◌++◌, arith, ltb, length,
  length-append, take, Bool-cases, inl, inr,
}
use mathlib.Core.List.{append_assoc}
use origin_tools.Base.Bytes.{Bytes}
use origin_tools.Base.Eq.{bytes_eq}
use origin_tools.Base.Sets.{contains, contains-append}
use origin_tools.Network.Tracker.{
  HandshakeReplayTracker, evict, track, check_and_track, replay_nonce_len,
}
use origin_tools.Network.Tracker.Bounded.{IsTracking, check_and_track-IsTracking}

-- At most `k` nonces of the queue are newer than `n`.
record Recent (n : Bytes) (k : ℕ) (order : List Bytes) : Type 0 where
  older : List Bytes
  newer : List Bytes
  split : order ≡ older ++ n ∷ newer
  close : length newer ≤ k

evict-Recent :
    (cap k : ℕ) (n : Bytes) (older newer seen : List Bytes)
    → length newer ≤ k
    → k < cap
    → Recent n k (evict cap (older ++ n ∷ newer) seen).0
unfolding evict
evict-Recent cap k n [] newer seen h lt =
    let fits : ltb cap (suc (length newer)) ≡ false = ground arith in
    rw fits (record { older = []; newer = newer; split = refl; close = h })
evict-Recent cap k n (o ∷ older) newer seen h lt =
    elim (Bool-cases (ltb cap (length (o ∷ older ++ n ∷ newer)))) [
      | inl over ↦ rw over (evict-Recent cap k n older newer _ h lt)
      | inr fits ↦ rw fits (record { older = o ∷ older; newer = newer; split = refl; close = h })
    ]

track-Recent :
    (t : HandshakeReplayTracker) (n nonce : Bytes) (k : ℕ)
    → Recent n k t.order
    → suc k < t.cap
    → Recent n (suc k) (track t nonce).order
unfolding track
track-Recent t n nonce k r lt =
    let e : t.order ++ nonce ∷ [] ≡ r.older ++ n ∷ (r.newer ++ nonce ∷ []) =
      rw r.split (append_assoc r.older (n ∷ r.newer) (nonce ∷ [])) in
    rw e (
      evict-Recent t.cap (suc k) n r.older (r.newer ++ nonce ∷ []) (nonce ∷ t.seen)
        (omega (arith, r.close, length-append r.newer (nonce ∷ []))) lt)

older_still : (n : Bytes) (k : ℕ) (order : List Bytes) → Recent n k order → Recent n (suc k) order
older_still n k order r = record {
  older = r.older;
  newer = r.newer;
  split = r.split;
  close = omega (arith, r.close);
}

order-check_and_track :
    (t : HandshakeReplayTracker) (n frame : Bytes) (k : ℕ)
    → Recent n k t.order
    → suc k < t.cap
    → Recent n (suc k) (check_and_track t frame).0.order
unfolding check_and_track
order-check_and_track t n frame k r lt = elim (Bool-cases (ltb (length frame) replay_nonce_len)) [
  | inl short ↦ rw short (older_still n k t.order r)
  | inr long ↦ rw long (elim (Bool-cases (contains t.seen (take replay_nonce_len frame))) [
    | inl old ↦ rw old (older_still n k t.order r)
    | inr new ↦ rw new (track-Recent t n (take replay_nonce_len frame) k r lt)
  ])
]

cap-check_and_track :
    (t : HandshakeReplayTracker) (frame : Bytes) → (check_and_track t frame).0.cap ≡ t.cap
unfolding check_and_track track
cap-check_and_track t frame = ground arith

-- The tracker after a sequence of frames.
unfoldable pub check_all : HandshakeReplayTracker → List Bytes → HandshakeReplayTracker
check_all t [] = t
check_all t (f ∷ fs) = check_all (check_and_track t f).0 fs

check_all-Recent :
    (t : HandshakeReplayTracker) (n : Bytes) (fs : List Bytes) (k : ℕ)
    → IsTracking t
    → Recent n k t.order
    → k + length fs < t.cap
    → IsTracking (check_all t fs) × Recent n (k + length fs) (check_all t fs).order
unfolding check_all
check_all-Recent t n [] k v r lt = (
  v,
  record { older = r.older; newer = r.newer; split = r.split; close = omega (arith, r.close) },
)
check_all-Recent t n (f ∷ fs) k v r lt =
    let t' = (check_and_track t f).0 in
    let e : k + suc (length fs) ≡ suc k + length fs = omega arith in
    rw e (
      check_all-Recent t' n fs (suc k) (check_and_track-IsTracking t f v).0
        (order-check_and_track t n f k r (omega arith)) (omega (arith, cap-check_and_track t f)))

contains-Recent :
    (t : HandshakeReplayTracker) (n : Bytes) (k : ℕ)
    → IsTracking t
    → Recent n k t.order
    → contains t.seen n ≡ true
contains-Recent t n k v r =
    let there : contains t.order n ≡ true =
      rw r.split (contains-append r.older (n ∷ r.newer) n ∙ ground (arith, bytes_eq.beq_iff n n)) in
    v.same n ∙ there

check_and_track_seen :
    (t : HandshakeReplayTracker) (f : Bytes)
    → 8 ≤ length f
    → contains t.seen (take 8 f) ≡ true
    → check_and_track t f ≡ (t, false)
unfolding check_and_track
check_and_track_seen t f long old = ground arith

check_and_track-Recent :
    (t : HandshakeReplayTracker) (f : Bytes)
    → 8 ≤ length f
    → (check_and_track t f).1 ≡ true
    → 0 < t.cap
    → Recent (take 8 f) 0 (check_and_track t f).0.order
unfolding check_and_track track
check_and_track-Recent t f long fresh pos =
    let new : contains t.seen (take 8 f) ≡ false = ground arith in
    let full : ltb (length f) 8 ≡ false = ground arith in
    rw (full, new) (evict-Recent t.cap 0 (take 8 f) t.order [] _ (omega arith) pos)

-- Once a tracker has taken a frame with a nonce as fresh, a frame with the same first eight bytes
-- is refused, and changes nothing, as long as fewer frames than the cap have come in between.
pub check_all-check_and_track_replay :
    (t : HandshakeReplayTracker) (f f' : Bytes) (fs : List Bytes)
    → IsTracking t
    → 8 ≤ length f
    → 8 ≤ length f'
    → take 8 f' ≡ take 8 f
    → (check_and_track t f).1 ≡ true
    → length fs < t.cap
    → let t' = check_all (check_and_track t f).0 fs in check_and_track t' f' ≡ (t', false)
check_all-check_and_track_replay t f f' fs v long long' same fresh few =
    let t0 = (check_and_track t f).0 in
    let (v', r) =
      check_all-Recent t0 (take 8 f) fs 0 (check_and_track-IsTracking t f v).0
        (check_and_track-Recent t f long fresh (omega arith))
        (omega (arith, cap-check_and_track t f)) in
    check_and_track_seen (check_all t0 fs) f' long'
      (rw same (contains-Recent (check_all t0 fs) (take 8 f) (0 + length fs) v' r))
