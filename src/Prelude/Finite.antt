-- ===== src/Prelude/Finite.antt =====
-- `HashSet`: a list in the order of iteration; an element that is there is not added again.
use mathlib.Core.Path.{◌≡◌, refl}
use mathlib.Core.Bool.{Bool, false, not, ◌&&◌, ◌||◌}
use mathlib.Core.List.{List, [], ◌∷◌, ◌++◌}
use native.Mathlib.Omega.{arith}
use rustygear.Prelude.Tests.{if◌then◌else◌}
use rustygear.Prelude.Equality.{Key, ◌==◌}

module _ {ℓ} {A : Type ℓ} ⦃e : Key A⦄ where
  unfoldable pub contains : A → List A → Bool
  contains a [] = false
  contains a (x ∷ xs) = x == a || contains a xs

  -- `set.insert(a)`
  unfoldable pub insert : A → List A → List A
  insert a xs = if contains a xs then xs else xs ++ a ∷ []

  -- `set.remove(&a)`
  unfoldable pub remove : A → List A → List A
  remove a [] = []
  remove a (x ∷ xs) = let rest = remove a xs in if x == a then rest else x ∷ rest

  -- `set.extend(other.iter())`
  unfoldable pub extend : List A → List A → List A
  extend xs [] = xs
  extend xs (y ∷ ys) = extend (insert y xs) ys

  pub contains-append :
      (a : A) (xs ys : List A) → contains a (xs ++ ys) ≡ (contains a xs || contains a ys)
  unfolding contains
  contains-append a [] ys = refl
  contains-append a (x ∷ xs) ys = ground (arith, contains-append a xs ys)

  pub contains-insert :
      (a b : A) (xs : List A) → contains b (insert a xs) ≡ (a == b || contains b xs)
  unfolding insert contains
  contains-insert a b xs = ground (arith, contains-append b xs (a ∷ []), e.same_iff a b)

  pub contains-remove :
      (a b : A) (xs : List A) → contains b (remove a xs) ≡ (not (a == b) && contains b xs)
  unfolding remove contains
  contains-remove a b [] = ground arith
  contains-remove a b (x ∷ xs) =
      ground (arith, contains-remove a b xs, e.same_iff x a, e.same_iff x b, e.same_iff a b)

  pub contains-extend :
      (b : A) (xs ys : List A) → contains b (extend xs ys) ≡ (contains b xs || contains b ys)
  unfolding extend contains
  contains-extend b xs [] = ground arith
  contains-extend b xs (y ∷ ys) =
      ground (arith, contains-extend b (insert y xs) ys, contains-insert y b xs)
