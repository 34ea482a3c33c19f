-- ===== src/Channel/Replay/Bits.antt =====
-- What the bitmap of replay.rs holds at each offset after `advance` and `set_bit`.
use origin_tools.Base.{
  ℕ, zero, suc, ◌+◌, ◌-◌, ◌*◌, ◌/◌, ◌%◌, ◌≤◌, ◌<◌, ◌≡◌, refl, inl, inr, true, false, ◌||◌, List, [],
  ◌∷◌, map, arith, ltb, leb, ◌==◌, if◌then◌else◌, length, replicate, Bool-cases, ◌∙◌, le→leb,
  ge→leb,
}
use origin_tools.Base.Word.{Word, word_zero, word_bit}
use origin_tools.Channel.Replay.{word_at, get_bit, or_at, set_bit, move_words, shift_bits, advance}

-- Past its end a bitmap reads as zeros.
word_at-ge : (bm : List Word) (i : ℕ) → length bm ≤ i → word_at bm i ≡ word_zero
word_at-ge [] i h = refl
word_at-ge (w ∷ ws) zero h = elim h [ ]
word_at-ge (w ∷ ws) (suc i) h = word_at-ge ws i (omega arith)

pub get_bit-word_at : (bm : List Word) (o : ℕ) → get_bit bm o ≡ word_at bm (o / 64) (o % 64)
unfolding get_bit
get_bit-word_at bm o = elim (Bool-cases (leb (length bm) (o / 64))) [
  | inl out ↦ rw (out, word_at-ge bm (o / 64) (ground arith))
  | inr in_range ↦ rw in_range
]

word_at-move_words :
    (k : ℕ) (bm : List Word) (i : ℕ) → word_at (move_words k bm) i ≡ word_at bm (i + k)
unfolding move_words
word_at-move_words k [] i = refl
word_at-move_words k (w ∷ ws) zero = let e : 0 + k ≡ k = omega arith in rw e
word_at-move_words k (w ∷ ws) (suc i) =
    let e : suc i + k ≡ suc (i + k) = omega arith in rw e (word_at-move_words k ws i)

word_at-shift_bits :
    (b : ℕ) (bm : List Word) (i j : ℕ)
    → 0 < b
    → b < 64
    → j < 64
    → word_at (shift_bits b bm) i j
      ≡ (if ltb (j + b) 64 then word_at bm i (j + b) else word_at bm (suc i) (j + b - 64))
unfolding shift_bits
word_at-shift_bits b [] i j hb hb' hj = ground arith
word_at-shift_bits b (w ∷ []) zero j hb hb' hj = ground arith
word_at-shift_bits b (w ∷ []) (suc i) j hb hb' hj = ground arith
word_at-shift_bits b (w ∷ v ∷ ws) zero j hb hb' hj =
    let e : j + b < 64 → ltb j (64 - b) ≡ true = λ h. ground arith in
    let e' : 64 ≤ j + b → j - (64 - b) ≡ j + b - 64 = λ h. omega arith in ground arith
word_at-shift_bits b (w ∷ v ∷ ws) (suc i) j hb hb' hj = word_at-shift_bits b (v ∷ ws) i j hb hb' hj

-- After the words have moved, word `i` is the word that stood `s / 64` places higher.
abbrev moved : ℕ → List Word → List Word
moved s bm = if ltb 0 (s / 64) then move_words (s / 64) bm else bm

word_at-moved : (s : ℕ) (bm : List Word) (i : ℕ) → word_at (moved s bm) i ≡ word_at bm (i + s / 64)
word_at-moved s bm i = elim (Bool-cases (ltb 0 (s / 64))) [
  | inl far ↦ rw far (word_at-move_words (s / 64) bm i)
  | inr near ↦ let e : i + s / 64 ≡ i = ground arith in rw (near, e)
]

-- A shift by less than the window moves the bit at `o + s` to `o`.
pub get_bit-advance :
    (window_size s : ℕ) (bm : List Word) (o : ℕ)
    → s < window_size
    → get_bit (advance window_size s bm) o ≡ get_bit bm (o + s)
unfolding advance
get_bit-advance window_size s bm o h =
    rw (get_bit-word_at (advance window_size s bm) o, get_bit-word_at bm (o + s))
      (rw (ge→leb window_size s h) (elim (Bool-cases (ltb 0 (s % 64))) [
        | inl carry ↦ rw carry (elim (Bool-cases (ltb (o % 64 + s % 64) 64)) [
          | inl low ↦
              let i : o / 64 + s / 64 ≡ (o + s) / 64 = ground arith in
              let j : o % 64 + s % 64 ≡ (o + s) % 64 = ground arith in
              word_at-shift_bits (s % 64) (moved s bm) (o / 64) (o % 64) (ground arith)
                (omega arith) (omega arith)
              ∙ rw (low, word_at-moved s bm (o / 64), i, j)
          | inr high ↦
              let i : suc (o / 64) + s / 64 ≡ (o + s) / 64 = ground arith in
              let j : o % 64 + s % 64 - 64 ≡ (o + s) % 64 = ground arith in
              word_at-shift_bits (s % 64) (moved s bm) (o / 64) (o % 64) (ground arith)
                (omega arith) (omega arith)
              ∙ rw (high, word_at-moved s bm (suc (o / 64)), i, j)
        ])
        | inr aligned ↦
            let i : o / 64 + s / 64 ≡ (o + s) / 64 = ground arith in
            let j : o % 64 ≡ (o + s) % 64 = ground arith in
            rw (aligned, word_at-moved s bm (o / 64), i, j)
      ]))

word_at-cleared : (bm : List Word) (i j : ℕ) → word_at (map (λ _. word_zero) bm) i j ≡ false
word_at-cleared [] i j = refl
word_at-cleared (w ∷ ws) zero j = refl
word_at-cleared (w ∷ ws) (suc i) j = word_at-cleared ws i j

-- A shift by the window or more clears it.
pub get_bit-advance_all :
    (window_size s : ℕ) (bm : List Word) (o : ℕ)
    → window_size ≤ s
    → get_bit (advance window_size s bm) o ≡ false
unfolding advance
get_bit-advance_all window_size s bm o h =
    rw (le→leb window_size s h) (get_bit-word_at _ o ∙ word_at-cleared bm (o / 64) (o % 64))

word_at-or_at :
    (bm : List Word) (i k : ℕ) (v : Word) (j : ℕ)
    → i < length bm
    → word_at (or_at bm i v) k j ≡ (if k == i then word_at bm k j || v j else word_at bm k j)
word_at-or_at [] i k v j h = elim h [ ]
word_at-or_at (w ∷ ws) zero zero v j h = refl
word_at-or_at (w ∷ ws) zero (suc k) v j h = ground arith
word_at-or_at (w ∷ ws) (suc i) zero v j h = ground arith
word_at-or_at (w ∷ ws) (suc i) (suc k) v j h = word_at-or_at ws i k v j (omega arith) ∙ ground arith

-- Marking an offset inside the bitmap sets its bit and no other.
pub get_bit-set_bit :
    (bm : List Word) (o p : ℕ)
    → o < 64 * length bm
    → get_bit (set_bit bm o) p ≡ (p == o || get_bit bm p)
unfolding set_bit
get_bit-set_bit bm o p h =
    rw (get_bit-word_at (set_bit bm o) p, get_bit-word_at bm p)
      (word_at-or_at bm (o / 64) (p / 64) (word_bit (o % 64)) (p % 64) (omega arith) ∙ ground arith)

length-or_at : (bm : List Word) (i : ℕ) (v : Word) → length (or_at bm i v) ≡ length bm
length-or_at [] i v = refl
length-or_at (w ∷ ws) zero v = refl
length-or_at (w ∷ ws) (suc i) v = omega (arith, length-or_at ws i v)

pub length-set_bit : (bm : List Word) (o : ℕ) → length (set_bit bm o) ≡ length bm
unfolding set_bit
length-set_bit bm o = length-or_at bm (o / 64) (word_bit (o % 64))

length-move_words : (k : ℕ) (bm : List Word) → length (move_words k bm) ≡ length bm
unfolding move_words
length-move_words k [] = refl
length-move_words k (w ∷ ws) = omega (arith, length-move_words k ws)

length-shift_bits : (b : ℕ) (bm : List Word) → length (shift_bits b bm) ≡ length bm
unfolding shift_bits
length-shift_bits b [] = refl
length-shift_bits b (w ∷ []) = refl
length-shift_bits b (w ∷ v ∷ ws) = omega (arith, length-shift_bits b (v ∷ ws))

length-cleared : (bm : List Word) → length (map (λ _. word_zero) bm) ≡ length bm
length-cleared [] = refl
length-cleared (w ∷ ws) = omega (arith, length-cleared ws)

pub length-advance :
    (window_size s : ℕ) (bm : List Word) → length (advance window_size s bm) ≡ length bm
unfolding advance
length-advance window_size s bm = ground (
  arith,
  length-cleared bm,
  length-move_words (s / 64) bm,
  length-shift_bits (s % 64) bm,
  length-shift_bits (s % 64) (move_words (s / 64) bm),
)

pub word_at-zeros : (n i j : ℕ) → word_at (replicate n word_zero) i j ≡ false
word_at-zeros zero i j = refl
word_at-zeros (suc n) zero j = refl
word_at-zeros (suc n) (suc i) j = word_at-zeros n i j
