-- ===== src/Channel/Replay/Tests.antt =====
-- Runs of the replay window.
use origin_tools.Base.{ℕ, ◌≡◌, refl, true, false, List, [], ◌∷◌, arith, ok, err, is_err}
use origin_tools.Channel.Replay.{ReplayWindow, replay, new, get_bit, set_bit, advance, mark, accept}
use origin_tools.Channel.Replay.Bits.{get_bit-advance}
use origin_tools.Channel.Replay.Seen.{seen, IsValid}
use origin_tools.Channel.Replay.Accept.{
  Accepts, new-IsValid, accept-unseen, accept_all, accept_all-accept_replay,
}

abbrev small : ReplayWindow
unfolding new
small = new 70

small-IsValid : IsValid small
unfolding new
small-IsValid = new-IsValid 70 (omega arith) (omega arith)

abbrev arrivals : List ℕ
arrivals = 3 ∷ 90 ∷ 89 ∷ 3 ∷ 300 ∷ []

accept_all-accept_replay_example :
    accept (accept_all (accept small 5).0 arrivals) 5
    ≡ (accept_all (accept small 5).0 arrivals, err (replay 5))
unfolding new
accept_all-accept_replay_example = accept_all-accept_replay small 5 arrivals small-IsValid

accept-unseen_example : ((accept small 5).1 ≡ ok tt) × Accepts small 5 (accept small 5).0
unfolding new seen
accept-unseen_example = accept-unseen small 5 small-IsValid refl

get_bit-advance_example :
    get_bit (advance 70 65 (accept small 69).0.bitmap) 4 ≡ get_bit (accept small 69).0.bitmap 69
unfolding new
get_bit-advance_example = get_bit-advance 70 65 (accept small 69).0.bitmap 4 (omega arith)

-- 89 arrives late and is taken once; 19 has left the window when 90 is the highest.
late_arrivals :
    (seen (accept_all small (90 ∷ 89 ∷ [])) 89 ≡ true)
    × (seen (accept_all small (90 ∷ 89 ∷ [])) 88 ≡ false)
    × (is_err (accept (accept_all small (90 ∷ [])) 20).1 ≡ true)
    × (is_err (accept (accept_all small (90 ∷ [])) 21).1 ≡ false)
unfolding new seen accept_all accept mark get_bit set_bit
late_arrivals = (refl, refl, refl, refl)
