-- ===== src/Base/Bytes.antt =====
-- Byte strings, and big-endian numbers of 4 and 8 bytes.
use Prim.Native.Nat.{ℕ, ◌+◌, ◌*◌, ◌/◌, ◌%◌, ◌<◌}
use mathlib.Core.Path.{◌≡◌, sym, ap, ◌∙◌}
use mathlib.Core.List.{List, [], ◌∷◌, ◌++◌}
use native.Mathlib.Omega.{arith}

abbrev pub Bytes : Type 0
Bytes = List ℕ

-- `u32::to_be_bytes`, `u64::to_be_bytes`
abbrev pub be32 : ℕ → Bytes
be32 n = n / 16777216 % 256 ∷ n / 65536 % 256 ∷ n / 256 % 256 ∷ n % 256 ∷ []

abbrev pub be64 : ℕ → Bytes
be64 n = be32 (n / 4294967296) ++ be32 (n % 4294967296)

-- `u32::from_be_bytes`, `u64::from_be_bytes`
abbrev pub from_be32 : ℕ → ℕ → ℕ → ℕ → ℕ
from_be32 a b c d = a * 16777216 + b * 65536 + c * 256 + d

abbrev pub from_be64 : ℕ → ℕ → ℕ → ℕ → ℕ → ℕ → ℕ → ℕ → ℕ
from_be64 a b c d e f g h = from_be32 a b c d * 4294967296 + from_be32 e f g h

pub from_be32-be32 :
    (n : ℕ)
    → n < 4294967296
    → from_be32 (n / 16777216 % 256) (n / 65536 % 256) (n / 256 % 256) (n % 256) ≡ n
from_be32-be32 n h = omega arith

-- `u32::to_le_bytes`, `u64::to_le_bytes`
abbrev pub le32 : ℕ → Bytes
le32 n = n % 256 ∷ n / 256 % 256 ∷ n / 65536 % 256 ∷ n / 16777216 % 256 ∷ []

abbrev pub le64 : ℕ → Bytes
le64 n = le32 (n % 4294967296) ++ le32 (n / 4294967296)

-- The number that the first eight bytes state, least significant first.
abbrev from_le : Bytes → ℕ
from_le (a ∷ b ∷ c ∷ d ∷ e ∷ f ∷ g ∷ h ∷ rest) =
    a + b * 256 + c * 65536 + d * 16777216 + (e + f * 256 + g * 65536 + h * 16777216) * 4294967296
from_le short = 0

from_le-le64 : (n : ℕ) (rest : Bytes) → n < 18446744073709551616 → from_le (le64 n ++ rest) ≡ n
from_le-le64 n rest h = omega arith

pub le64_injective :
    (m n : ℕ) (rest : Bytes)
    → m < 18446744073709551616
    → n < 18446744073709551616
    → le64 m ++ rest ≡ le64 n ++ rest
    → m ≡ n
le64_injective m n rest hm hn e =
    sym (from_le-le64 m rest hm) ∙ ap from_le e ∙ from_le-le64 n rest hn
