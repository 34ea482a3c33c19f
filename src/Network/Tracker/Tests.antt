-- ===== src/Network/Tracker/Tests.antt =====
-- Runs of the handshake tracker.
use origin_tools.Base.{◌≡◌, refl, true, false, [], ◌∷◌, arith, take, ok, err}
use origin_tools.Base.Bytes.{Bytes}
use origin_tools.Base.Eq.{bytes_eq}
use origin_tools.Network.Tracker.{
  HandshakeReplayTracker, with_cap, check_and_track, save, load, unknown_version,
}
use origin_tools.Network.Tracker.Bounded.{IsTracking}
use origin_tools.Network.Tracker.File.{Restores, load-save}
use origin_tools.Network.Tracker.Window.{check_all, check_all-check_and_track_replay}

abbrev frame_a : Bytes
frame_a = 1 ∷ 2 ∷ 3 ∷ 4 ∷ 5 ∷ 6 ∷ 7 ∷ 8 ∷ 99 ∷ []

abbrev frame_b : Bytes
frame_b = 2 ∷ 2 ∷ 3 ∷ 4 ∷ 5 ∷ 6 ∷ 7 ∷ 8 ∷ []

abbrev frame_c : Bytes
frame_c = 3 ∷ 2 ∷ 3 ∷ 4 ∷ 5 ∷ 6 ∷ 7 ∷ 8 ∷ []

abbrev empty_tracker : HandshakeReplayTracker
empty_tracker = with_cap 2

empty_tracker-IsTracking : IsTracking empty_tracker
empty_tracker-IsTracking = record {
  same = λ n. refl;
  once = tt;
  set_once = tt;
  sizes = refl;
  bounded = omega arith;
}

check_all-check_and_track_replay_example :
    let t = check_all (check_and_track empty_tracker frame_a).0 (frame_b ∷ []) in
    check_and_track t (take 8 frame_a) ≡ (t, false)
unfolding check_and_track
check_all-check_and_track_replay_example =
    check_all-check_and_track_replay empty_tracker frame_a (take 8 frame_a) (frame_b ∷ [])
      empty_tracker-IsTracking (omega arith) (omega arith) refl refl (omega arith)

-- With room for two, the third nonce evicts the first.
evicted_is_fresh :
    (check_and_track (check_all empty_tracker (frame_a ∷ frame_b ∷ frame_c ∷ [])) frame_a).1 ≡ true
unfolding check_all check_and_track
evicted_is_fresh = refl

version_checked : load (b'O' ∷ b'N' ∷ b'R' ∷ b'P' ∷ 9 ∷ []) ≡ err (unknown_version 9)
unfolding load
version_checked = refl

abbrev full_tracker : HandshakeReplayTracker
full_tracker = record { seen = frame_b ∷ frame_c ∷ []; order = frame_c ∷ frame_b ∷ []; cap = 2 }

load-save_example :
    (t : HandshakeReplayTracker) × (load (save full_tracker) ≡ ok t) × Restores full_tracker t
load-save_example = load-save full_tracker (refl, (refl, tt))
