-- ===== src/Channel/Replay/Accept.antt =====
-- `accept` of replay.rs refines the set of seen numbers, and takes each number once.
use origin_tools.Base.{
  ℕ, ◌+◌, ◌-◌, ◌*◌, ◌≤◌, ◌<◌, ◌≡◌, refl, inl, inr, true, false, ◌||◌, List, [], ◌∷◌, arith, ltb,
  ◌==◌, length, replicate, length-replicate, ◌/◌, ◌%◌, Bool-cases, ◌∙◌, ok, err, u64_mod,
}
use origin_tools.Channel.Replay.{
  ReplayWindow, replay, new, get_bit, floor_of, accept, mark, move_to,
}
use origin_tools.Channel.Replay.Bits.{
  get_bit-word_at, word_at-zeros, get_bit-set_bit, length-set_bit,
}
use origin_tools.Base.Word.{word_zero}
use origin_tools.Channel.Replay.Seen.{
  lowest, seen, IsValid, get_bit-move_to, move_to-IsValid, mark_fresh,
}

-- A number that was seen, or lies below the window, is refused, and the window is unchanged.
pub accept-seen :
    (w : ReplayWindow) (q : ℕ) → IsValid w → seen w q ≡ true → accept w q ≡ (w, err (replay q))
unfolding accept seen mark
accept-seen w q v h = ground arith

-- What a successful call establishes: the number, and what fell out below the new floor, are seen
-- from then on, and nothing else changes.
pub record Accepts (w : ReplayWindow) (q : ℕ) (w' : ReplayWindow) : Type 0 where
  pub valid : IsValid w'
  pub now_seen : (p : ℕ) → seen w' p ≡ (seen w p || p == q || ltb p (lowest w'))

accept_first :
    (w : ReplayWindow) (q : ℕ)
    → IsValid w
    → w.initialized ≡ false
    → ((accept w q).1 ≡ ok tt) × Accepts w q (accept w q).0
unfolding accept seen
accept_first w q v i =
    let lo = floor_of q w.window_size in
    let inside : q - lo < 64 * length w.bitmap = omega arith in
    rw i (
      refl,
      record {
        valid = record {
          positive = v.positive;
          fits = v.fits;
          room = ground (arith, length-set_bit w.bitmap (q - lo));
          top = λ o above. ground (arith, get_bit-set_bit w.bitmap (q - lo) o, v.unused i o);
          unused = λ e. cc;
        };
        now_seen =
            λ p. ground (arith, get_bit-set_bit w.bitmap (q - lo) (p - lo), v.unused i (p - lo));
      },
    )

-- Moving the window makes the numbers below its new floor seen, and no others.
seen-move_to :
    (w : ReplayWindow) (q p : ℕ)
    → IsValid w
    → w.initialized ≡ true
    → w.highest < q
    → seen (move_to w q) p ≡ (seen w p || ltb p (lowest (move_to w q)))
unfolding move_to seen
seen-move_to w q p v i h =
    let lo = lowest w in
    let lo' = floor_of q w.window_size in
    let e : lo' ≤ p → p - lo' + (lo' - lo) ≡ p - lo = λ z. omega arith in
    ground (arith, get_bit-move_to w q (p - lo') v h, v.top (p - lo))

accept_ahead :
    (w : ReplayWindow) (q : ℕ)
    → IsValid w
    → w.initialized ≡ true
    → w.highest < q
    → ((mark (move_to w q) q).1 ≡ ok tt) × Accepts w q (mark (move_to w q) q).0
unfolding move_to
accept_ahead w q v i h =
    let lo' = floor_of q w.window_size in
    let e : q - lo' + (lo' - lowest w) ≡ q - lowest w = omega arith in
    let (done, valid, marked, floor) =
      mark_fresh (move_to w q) q (move_to-IsValid w q v h i) i (omega arith) (omega arith)
        (get_bit-move_to w q (q - lo') v h ∙ rw e (v.top _ (omega arith))) in
    (
      done,
      record {
        valid = valid;
        now_seen = λ p. ground (arith, marked p, seen-move_to w q p v i h, floor);
      },
    )

accept_inside :
    (w : ReplayWindow) (q : ℕ)
    → IsValid w
    → w.initialized ≡ true
    → q ≤ w.highest
    → seen w q ≡ false
    → ((mark w q).1 ≡ ok tt) × Accepts w q (mark w q).0
unfolding seen
accept_inside w q v i h fresh =
    let (done, valid, marked, floor) = mark_fresh w q v i (ground arith) h (ground arith) in
    (done, record { valid = valid; now_seen = λ p. ground (arith, marked p, floor) })

-- A number that was not seen is accepted. From then on it is seen, with the numbers that fell below
-- the floor, and the set changes in no other way.
pub accept-unseen :
    (w : ReplayWindow) (q : ℕ)
    → IsValid w
    → seen w q ≡ false
    → ((accept w q).1 ≡ ok tt) × Accepts w q (accept w q).0
unfolding accept
accept-unseen w q v fresh = elim (Bool-cases w.initialized) [
  | inr start ↦ accept_first w q v start
  | inl running ↦ elim (Bool-cases (ltb w.highest q)) [
    | inl ahead ↦
        let e : accept w q ≡ mark (move_to w q) q = ground arith in
        rw e (accept_ahead w q v running (ground arith))
    | inr inside ↦
        let e : accept w q ≡ mark w q = unfold seen in ground arith in
        rw e (accept_inside w q v running (ground arith) fresh)
  ]
]

get_bit-replicate : (n o : ℕ) → get_bit (replicate n word_zero) o ≡ false
get_bit-replicate n o = get_bit-word_at _ o ∙ word_at-zeros n (o / 64) (o % 64)

-- A new window of a size from 1 to 2^64 - 1 is valid.
pub new-IsValid : (n : ℕ) → 0 < n → n < u64_mod → IsValid (new n)
unfolding new
new-IsValid n pos fits = record {
  positive = pos;
  fits = fits;
  room = omega (arith, length-replicate ((n + 63) / 64) word_zero);
  top = λ o h. get_bit-replicate _ o;
  unused = λ e o. get_bit-replicate _ o;
}

-- A new window has seen nothing.
pub seen-new : (n q : ℕ) → ((new n).highest ≡ 0) × (seen (new n) q ≡ false)
unfolding new seen
seen-new n q = (refl, refl)

-- The window after a sequence of received numbers, accepted or not.
unfoldable pub accept_all : ReplayWindow → List ℕ → ReplayWindow
accept_all w [] = w
accept_all w (q ∷ qs) = accept_all (accept w q).0 qs

accept_keeps :
    (w : ReplayWindow) (q p : ℕ)
    → IsValid w
    → IsValid (accept w q).0 × (seen w p ≡ true → seen (accept w q).0 p ≡ true)
accept_keeps w q p v = elim (Bool-cases (seen w q)) [
  | inl old ↦ rw (accept-seen w q v old) (v, λ s. s)
  | inr fresh ↦
      let a = (accept-unseen w q v fresh).1 in (a.valid, λ s. ground (arith, a.now_seen p))
]

accept_all_keeps :
    (w : ReplayWindow) (qs : List ℕ) (p : ℕ)
    → IsValid w
    → seen w p ≡ true
    → IsValid (accept_all w qs) × (seen (accept_all w qs) p ≡ true)
unfolding accept_all
accept_all_keeps w [] p v s = (v, s)
accept_all_keeps w (q ∷ qs) p v s =
    let (v', keep) = accept_keeps w q p v in accept_all_keeps (accept w q).0 qs p v' (keep s)

accept-now_seen : (w : ReplayWindow) (q : ℕ) → IsValid w → seen (accept w q).0 q ≡ true
accept-now_seen w q v = elim (Bool-cases (seen w q)) [
  | inl old ↦ rw (accept-seen w q v old) old
  | inr fresh ↦ ground (arith, (accept-unseen w q v fresh).1.now_seen q)
]

-- Once a valid window has been given a number, that number is refused as a replay whatever numbers
-- come in between, and the refusal leaves the window as it is.
pub accept_all-accept_replay :
    (w : ReplayWindow) (q : ℕ) (qs : List ℕ)
    → IsValid w
    → accept (accept_all (accept w q).0 qs) q ≡ (accept_all (accept w q).0 qs, err (replay q))
accept_all-accept_replay w q qs v =
    let (v', s) =
      accept_all_keeps (accept w q).0 qs q (accept_keeps w q q v).0 (accept-now_seen w q v) in
    accept-seen _ q v' s

-- A number that is not below the highest becomes the highest.
pub highest-accept : (w : ReplayWindow) (q : ℕ) → w.highest ≤ q → (accept w q).0.highest ≡ q
unfolding accept mark move_to
highest-accept w q h = ground arith

-- An accepted number drags the floor of the window to within a window's size of itself.
pub lowest-accept :
    (w : ReplayWindow) (q : ℕ)
    → IsValid w
    → seen w q ≡ false
    → q + 1 ≤ lowest (accept w q).0 + w.window_size
unfolding accept mark move_to seen
lowest-accept w q v fresh = ground arith
