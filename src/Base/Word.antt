-- ===== src/Base/Word.antt =====
-- A 64-bit machine word as its bits, the least significant first. Only the bits below 64 count:
-- a shift moves zeros in, and drops what leaves the word.
use Prim.Native.Nat.{ℕ, ◌+◌, ◌-◌}
use mathlib.Core.Bool.{Bool, false, ◌&&◌, ◌||◌, not}
use origin_tools.Base.Tests.{ltb, leb, ◌==◌}

abbrev pub word_bits : ℕ
word_bits = 64

abbrev pub Word : Type 0
Word = ℕ → Bool

-- `0u64`
abbrev pub word_zero : Word
word_zero i = false

-- `1 << k`
abbrev pub word_bit : ℕ → Word
word_bit k i = i == k

-- `w >> k`
abbrev pub word_shr : Word → ℕ → Word
word_shr w k i = ltb (i + k) word_bits && w (i + k)

-- `w << k`
abbrev pub word_shl : Word → ℕ → Word
word_shl w k i = leb k i && w (i - k)

-- `v | w`, `v & w`, `!w`
abbrev pub word_or : Word → Word → Word
word_or v w i = v i || w i

abbrev pub word_and : Word → Word → Word
word_and v w i = v i && w i

abbrev pub word_not : Word → Word
word_not w i = not (w i)
