-- ===== src/Prelude/All.antt =====
-- Lists whose every entry passes a test.
use mathlib.Core.List.{List, [], ◌∷◌, ◌++◌, reverse, reverse-cons}
use mathlib.Core.Path.{◌≡◌}
use mathlib.Core.Bool.{Bool, true}

module _ {ℓ} {A : Type ℓ} where
  abbrev pub All : (A → Bool) → List A → Type 0
  All p [] = Unit {0}
  All p (x ∷ xs) = (p x ≡ true) × All p xs

  pub All-append : (p : A → Bool) (xs ys : List A) → All p xs → All p ys → All p (xs ++ ys)
  All-append p [] ys h k = k
  All-append p (x ∷ xs) ys h k = (h.0, All-append p xs ys h.1 k)

  pub All-reverse : (p : A → Bool) (xs : List A) → All p xs → All p (reverse xs)
  All-reverse p [] h = tt
  All-reverse p (x ∷ xs) h =
      rw reverse-cons (All-append p (reverse xs) (x ∷ []) (All-reverse p xs h.1) (h.0, tt))

  pub All-mono :
      (p q : A → Bool) → ((x : A) → p x ≡ true → q x ≡ true) → (xs : List A) → All p xs → All q xs
  All-mono p q f [] h = tt
  All-mono p q f (x ∷ xs) h = (f x h.0, All-mono p q f xs h.1)
