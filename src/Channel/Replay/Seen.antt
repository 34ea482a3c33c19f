-- ===== src/Channel/Replay/Seen.antt =====
-- The window of replay.rs as a set of seen sequence numbers: the numbers below the floor, and those
-- that are marked.
use origin_tools.Base.{
  ℕ, ◌+◌, ◌-◌, ◌*◌, ◌≤◌, ◌<◌, ◌≡◌, refl, inl, inr, Bool, true, false, ◌&&◌, ◌||◌, arith, ltb, leb,
  ◌==◌, length, Bool-cases, ◌∙◌, ok, u64_mod,
}
use origin_tools.Channel.Replay.{ReplayWindow, get_bit, floor_of, mark, move_to}
use origin_tools.Channel.Replay.Bits.{
  get_bit-advance, get_bit-advance_all, get_bit-set_bit, length-set_bit, length-advance,
}

-- The lowest sequence number that the window can still accept.
abbrev pub lowest : ReplayWindow → ℕ
lowest w = floor_of w.highest w.window_size

-- The abstract set: too old, or marked.
unfoldable pub seen : ReplayWindow → ℕ → Bool
seen w p = w.initialized && (ltb p (lowest w) || leb p w.highest && get_bit w.bitmap (p - lowest w))

-- The bitmap has room for the window, and marks nothing above the highest number.
pub record IsValid (w : ReplayWindow) : Type 0 where
  pub positive : 0 < w.window_size
  pub fits : w.window_size < u64_mod
  pub room : w.window_size ≤ 64 * length w.bitmap
  pub top : (o : ℕ) → w.highest - lowest w < o → get_bit w.bitmap o ≡ false
  pub unused : w.initialized ≡ false → (o : ℕ) → get_bit w.bitmap o ≡ false

-- Moving the window keeps the mark of each number, wherever its offset goes.
pub get_bit-move_to :
    (w : ReplayWindow) (q o : ℕ)
    → IsValid w
    → w.highest < q
    → get_bit (move_to w q).bitmap o ≡ get_bit w.bitmap (o + (floor_of q w.window_size - lowest w))
unfolding move_to
get_bit-move_to w q o v h =
    let s = floor_of q w.window_size - lowest w in
    elim (Bool-cases (leb w.window_size s)) [
      | inl all ↦
          let far : w.highest - lowest w < o + s = ground arith in
          ground (arith, get_bit-advance_all w.window_size s w.bitmap o, v.top (o + s))
      | inr part ↦
          let e : s ≡ 0 → o + s ≡ o = λ z. omega arith in
          ground (arith, get_bit-advance w.window_size s w.bitmap o)
    ]

pub move_to-IsValid :
    (w : ReplayWindow) (q : ℕ)
    → IsValid w
    → w.highest < q
    → w.initialized ≡ true
    → IsValid (move_to w q)
unfolding move_to
move_to-IsValid w q v h i = record {
  positive = v.positive;
  fits = v.fits;
  room =
      ground (arith, length-advance w.window_size (floor_of q w.window_size - lowest w) w.bitmap);
  top = λ o above. get_bit-move_to w q o v h ∙ v.top _ (omega arith);
  unused = λ e. cc;
}

-- Marking a number of the window that is not marked succeeds, and adds exactly that number.
pub mark_fresh :
    (w : ReplayWindow) (q : ℕ)
    → IsValid w
    → w.initialized ≡ true
    → lowest w ≤ q
    → q ≤ w.highest
    → get_bit w.bitmap (q - lowest w) ≡ false
    → ((mark w q).1 ≡ ok tt)
      × IsValid (mark w q).0
      × ((p : ℕ) → seen (mark w q).0 p ≡ (seen w p || p == q))
      × (lowest (mark w q).0 ≡ lowest w)
unfolding mark seen
mark_fresh w q v i lo hi bit =
    let inside : leb w.window_size (q - lowest w) ≡ false = ground arith in
    rw (inside, bit)
      (
        refl,
        record {
          positive = v.positive;
          fits = v.fits;
          room = ground (arith, length-set_bit w.bitmap (q - lowest w));
          top = λ o above. ground (arith, v.top o above, get_bit-set_bit w.bitmap (q - lowest w) o);
          unused = λ e. cc;
        },
        λ p. ground (arith, get_bit-set_bit w.bitmap (q - lowest w) (p - lowest w)),
        refl,
      )
