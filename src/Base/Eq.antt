-- ===== src/Base/Eq.antt =====
-- Keys that can be compared: an equality test and its law.
use Prim.Native.String.{String}
use text.Mathlib.Text.{◌==◌ as str_eq}
use text.Mathlib.TextEquality.{eq_iff}
use Prim.Native.Nat.{ℕ}
use mathlib.Core.Path.{◌≡◌, refl, sym, ap₂, ◌∙◌}
use mathlib.Core.Logic.{◌↔◌}
use mathlib.Core.Bool.{Bool, true, false, ◌&&◌}
use mathlib.Core.List.{List, [], ◌∷◌}
use native.Mathlib.Omega.{arith}
use origin_tools.Base.Tests.{◌==◌, ==_iff}

pub record Eq {ℓ} (A : Type ℓ) : Type ℓ where
  pub beq : A → A → Bool
  pub beq_iff : (a b : A) → (beq a b ≡ true) ↔ (a ≡ b)

instance abbrev pub nat_eq : Eq ℕ
nat_eq = record { beq = ◌==◌; beq_iff = ==_iff }

instance abbrev pub string_eq : Eq String
string_eq = record { beq = str_eq; beq_iff = eq_iff }

abbrev list_beq : List ℕ → List ℕ → Bool
list_beq [] [] = true
list_beq [] (b ∷ bs) = false
list_beq (a ∷ as') [] = false
list_beq (a ∷ as') (b ∷ bs) = (a == b) && list_beq as' bs

list_beq_to : (xs ys : List ℕ) → list_beq xs ys ≡ true → xs ≡ ys
list_beq_to [] [] e = refl
list_beq_to [] (b ∷ bs) e = cc
list_beq_to (a ∷ as') [] e = cc
list_beq_to (a ∷ as') (b ∷ bs) e = ground (arith, list_beq_to as' bs)

list_beq_refl : (xs : List ℕ) → list_beq xs xs ≡ true
list_beq_refl [] = refl
list_beq_refl (a ∷ as') = ground (arith, list_beq_refl as')

pub list_beq_iff : (xs ys : List ℕ) → (list_beq xs ys ≡ true) ↔ (xs ≡ ys)
list_beq_iff xs ys = (list_beq_to xs ys, λ e. ap₂ list_beq refl (sym e) ∙ list_beq_refl xs)

instance abbrev pub bytes_eq : Eq (List ℕ)
bytes_eq = record { beq = list_beq; beq_iff = list_beq_iff }
