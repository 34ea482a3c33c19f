-- ===== src/Base/Sets.antt =====
-- Hash sets and hash maps of the standard library, as lists without repeated keys. Their iteration
-- order is not specified, and no property depends on it.
use Prim.Native.Nat.{◌+◌, ◌≤◌}
use mathlib.Core.Path.{◌≡◌, refl}
use mathlib.Core.Bool.{Bool, true, false, ◌&&◌, ◌||◌, not}
use mathlib.Core.Option.{Option, none, some}
use mathlib.Core.List.{List, [], ◌∷◌, ◌++◌}
use native.Mathlib.Omega.{arith}
use origin_tools.Base.Tests.{if◌then◌else◌}
use origin_tools.Base.Lists.{length}
use origin_tools.Base.Eq.{Eq}

module _ {ℓ} {A : Type ℓ} ⦃e : Eq A⦄ where
  abbrev pub contains : List A → A → Bool
  contains [] a = false
  contains (x ∷ xs) a = e.beq x a || contains xs a

  abbrev pub insert : A → List A → List A
  insert a xs = if contains xs a then xs else a ∷ xs

  abbrev pub remove : A → List A → List A
  remove a [] = []
  remove a (x ∷ xs) = if e.beq x a then remove a xs else x ∷ remove a xs

  -- No element twice.
  abbrev pub Distinct : List A → Type 0
  Distinct [] = Unit
  Distinct (x ∷ xs) = (contains xs x ≡ false) × Distinct xs

  pub contains-remove :
      (a b : A) (xs : List A) → contains (remove a xs) b ≡ (not (e.beq a b) && contains xs b)
  contains-remove a b [] = ground arith
  contains-remove a b (x ∷ xs) =
      ground (arith, contains-remove a b xs, e.beq_iff x a, e.beq_iff a b, e.beq_iff x b)

  pub remove-Distinct : (a : A) (xs : List A) → Distinct xs → Distinct (remove a xs)
  remove-Distinct a [] d = tt
  remove-Distinct a (x ∷ xs) d = ground (arith, remove-Distinct a xs d.1, contains-remove a x xs)

  remove_absent : (a : A) (xs : List A) → contains xs a ≡ false → remove a xs ≡ xs
  remove_absent a [] h = refl
  remove_absent a (x ∷ xs) h = ground (arith, remove_absent a xs)

  pub length-remove :
      (a : A) (xs : List A)
      → Distinct xs
      → contains xs a ≡ true
      → length (remove a xs) + 1 ≡ length xs
  length-remove a [] d h = cc
  length-remove a (x ∷ xs) d h =
      ground (arith, length-remove a xs d.1, remove_absent a xs, e.beq_iff x a)

  pub contains-insert :
      (a b : A) (xs : List A) → contains (insert a xs) b ≡ (e.beq a b || contains xs b)
  contains-insert a b xs = ground (arith, e.beq_iff a b)

  pub insert-Distinct : (a : A) (xs : List A) → Distinct xs → Distinct (insert a xs)
  insert-Distinct a xs d = ground arith

  pub length-remove_le : (a : A) (xs : List A) → length (remove a xs) ≤ length xs
  length-remove_le a [] = omega arith
  length-remove_le a (x ∷ xs) = ground (arith, length-remove_le a xs)

  pub contains-append :
      (xs ys : List A) (a : A) → contains (xs ++ ys) a ≡ (contains xs a || contains ys a)
  contains-append [] ys a = refl
  contains-append (x ∷ xs) ys a = ground (arith, contains-append xs ys a)

module _ {ℓ κ} {K : Type ℓ} {V : Type κ} ⦃e : Eq K⦄ where
  abbrev pub lookup : K → List (K × V) → Option V
  lookup k [] = none
  lookup k ((j, v) ∷ m) = if e.beq j k then some v else lookup k m

  abbrev pub put : K → V → List (K × V) → List (K × V)
  put k v [] = (k, v) ∷ []
  put k v ((j, w) ∷ m) = if e.beq j k then (k, v) ∷ m else (j, w) ∷ put k v m

  pub lookup-put :
      (k j : K) (v : V) (m : List (K × V))
      → lookup j (put k v m) ≡ (if e.beq k j then some v else lookup j m)
  lookup-put k j v [] = refl
  lookup-put k j v ((i, w) ∷ m) =
      ground (arith, lookup-put k j v m, e.beq_iff k j, e.beq_iff i k, e.beq_iff i j)
