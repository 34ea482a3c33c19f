-- ===== src/Channel/Replay.antt =====
-- origin-channel/src/replay.rs: the sliding window that refuses replayed sequence numbers.
-- A bitmap word is a `Word` of Base.Word. The two loops of `advance` write word `i` and read only
-- words from `i` on, so each is a recursion on the part of the bitmap that is still to do.
pub mod Bits
pub mod Seen
pub mod Accept
mod Tests
use origin_tools.Base.{
  ℕ, zero, suc, ◌+◌, ◌-◌, ◌/◌, ◌%◌, Bool, true, false, ◌||◌, List, [], ◌∷◌, map, ltb, leb, ◌==◌,
  if◌then◌else◌, length, replicate, Result, ok, err, u64, u64_mod,
}
use origin_tools.Base.Word.{Word, word_zero, word_bit, word_or, word_shl, word_shr}

pub record ReplayWindow : Type 0 where
  pub highest : ℕ
  pub bitmap : List Word
  pub window_size : ℕ
  pub initialized : Bool

-- `ChannelError::Replay(seq)`
pub data ReplayError : Type 0 where
  replay : ℕ → ReplayError

unfoldable pub new : ℕ → ReplayWindow
new window_size = record {
  highest = 0;
  bitmap = replicate ((window_size + 63) / 64) word_zero;
  window_size = window_size;
  initialized = false;
}

-- `bitmap[i]`, and zeros out of range.
abbrev pub word_at : List Word → ℕ → Word
word_at [] i = word_zero
word_at (w ∷ ws) zero = w
word_at (w ∷ ws) (suc i) = word_at ws i

unfoldable pub get_bit : List Word → ℕ → Bool
get_bit bitmap offset =
    if leb (length bitmap) (offset / 64) then false else word_at bitmap (offset / 64) (offset % 64)

-- `bitmap[word] |= 1 << bit`
abbrev or_at : List Word → ℕ → Word → List Word
or_at [] i v = []
or_at (w ∷ ws) zero v = word_or w v ∷ ws
or_at (w ∷ ws) (suc i) v = w ∷ or_at ws i v

unfoldable pub set_bit : List Word → ℕ → List Word
set_bit bitmap offset = or_at bitmap (offset / 64) (word_bit (offset % 64))

-- The loop that moves whole words down.
pub move_words : ℕ → List Word → List Word
move_words k [] = []
move_words k (w ∷ ws) = word_at (w ∷ ws) k ∷ move_words k ws

-- The loop that shifts by less than a word, with the carry of the next word.
pub shift_bits : ℕ → List Word → List Word
shift_bits b [] = []
shift_bits b (w ∷ []) = word_shr w b ∷ []
shift_bits b (w ∷ v ∷ ws) = word_or (word_shr w b) (word_shl v (64 - b)) ∷ shift_bits b (v ∷ ws)

pub advance : ℕ → ℕ → List Word → List Word
advance window_size shift bitmap =
    if leb window_size shift
    then map (λ _. word_zero) bitmap
    else let moved = if ltb 0 (shift / 64) then move_words (shift / 64) bitmap else bitmap in
      if ltb 0 (shift % 64) then shift_bits (shift % 64) moved else moved

-- `highest.saturating_sub(window_size as u64 - 1)`; the inner subtraction wraps.
abbrev pub floor_of : ℕ → ℕ → ℕ
floor_of highest window_size = highest - u64 (window_size + u64_mod - 1)

-- The part of `accept` after the window has been moved: check and mark the bit.
unfoldable pub mark : ReplayWindow → ℕ → ReplayWindow × Result ReplayError (Unit {0})
mark w seq =
    let offset = seq - floor_of w.highest w.window_size in
    if leb w.window_size offset
    then (w, err (replay seq))
    else if get_bit w.bitmap offset
    then (w, err (replay seq))
    else (record w { bitmap = set_bit w.bitmap offset }, ok tt)

unfoldable pub move_to : ReplayWindow → ℕ → ReplayWindow
move_to w seq =
    let floor_shift = floor_of seq w.window_size - floor_of w.highest w.window_size in
    record w {
      bitmap = if ltb 0 floor_shift then advance w.window_size floor_shift w.bitmap else w.bitmap;
      highest = seq;
    }

unfoldable pub accept : ReplayWindow → ℕ → ReplayWindow × Result ReplayError (Unit {0})
accept w seq =
    if w.initialized
    then (if ltb seq (floor_of w.highest w.window_size)
        then (w, err (replay seq))
        else if ltb w.highest seq
        then mark (move_to w seq) seq
        else mark w seq)
    else (
      record w {
        initialized = true;
        highest = seq;
        bitmap = set_bit w.bitmap (seq - floor_of seq w.window_size);
      },
      ok tt,
    )
