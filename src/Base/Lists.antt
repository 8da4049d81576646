-- ===== src/Base/Lists.antt =====
-- Lists over the native numbers, and lists that stand for sets, over a Boolean equality.
use Prim.Native.Nat.{ℕ, suc, ◌+◌, ◌≤◌}
use mathlib.Core.Path.{◌≡◌}
use mathlib.Core.Logic.{◌↔◌}
use mathlib.Core.Bool.{Bool, true, false, ◌||◌}
use mathlib.Core.List.{List, [], ◌∷◌, ◌++◌}
use native.Mathlib.Omega.{arith}
use try_it_now.Base.Tests.{if◌then◌else◌}

module _ {ℓ} {A : Type ℓ} where
  abbrev pub length : List A → ℕ
  length [] = 0
  length (x ∷ xs) = suc (length xs)

  pub length-append : (xs ys : List A) → length (xs ++ ys) ≡ length xs + length ys
  length-append [] ys = omega arith
  length-append (x ∷ xs) ys = omega (arith, length-append xs ys)

-- Every element satisfies `P`.
abbrev pub All {ℓ κ} : {A : Type ℓ} → (A → Type κ) → List A → Type κ
All P [] = Unit
All P (x ∷ xs) = P x × All P xs

-- `eq` decides equality.
abbrev pub Decides {ℓ} : {A : Type ℓ} → (A → A → Bool) → Type ℓ
Decides {A = A} eq = (a b : A) → (eq a b ≡ true) ↔ (a ≡ b)

module _ {ℓ} {A : Type ℓ} (eq : A → A → Bool) where
  unfoldable pub contains : A → List A → Bool
  contains a [] = false
  contains a (x ∷ xs) = eq x a || contains a xs

  unfoldable pub insert : A → List A → List A
  unfolding contains
  insert a xs = if contains a xs then xs else a ∷ xs

  unfoldable pub insert_all : List A → List A → List A
  insert_all [] xs = xs
  insert_all (a ∷ as') xs = insert a (insert_all as' xs)

  -- Without any occurrence of `a`.
  unfoldable pub remove : A → List A → List A
  remove a [] = []
  remove a (x ∷ xs) = let rest = remove a xs in if eq x a then rest else x ∷ rest

  -- Without the first occurrence of `a`.
  unfoldable pub remove_first : A → List A → List A
  remove_first a [] = []
  remove_first a (x ∷ xs) = let rest = remove_first a xs in if eq x a then xs else x ∷ rest

module _ {ℓ} {A : Type ℓ} (eq : A → A → Bool) (decides : Decides eq) where
  pub contains-remove :
      (a b : A) (xs : List A)
      → contains eq b (remove eq a xs) ≡ (if eq a b then false else contains eq b xs)
  unfolding contains remove
  contains-remove a b [] = ground arith
  contains-remove a b (x ∷ xs) =
      ground (arith, contains-remove a b xs, decides x a, decides x b, decides a b)

  pub contains-insert :
      (a b : A) (xs : List A)
      → contains eq b (insert eq a xs) ≡ (if eq a b then true else contains eq b xs)
  unfolding insert
  contains-insert a b xs = ground (arith, decides a b)

  pub length-remove-le : (a : A) (xs : List A) → length (remove eq a xs) ≤ length xs
  unfolding remove
  length-remove-le a [] = omega arith
  length-remove-le a (x ∷ xs) = ground (arith, length-remove-le a xs)
