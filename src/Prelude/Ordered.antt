-- ===== src/Prelude/Ordered.antt =====
-- `BTreeMap` with numbers as keys: an association list in the order of the keys.
use mathlib.Core.Path.{◌≡◌, refl}
use mathlib.Core.List.{[], ◌∷◌}
use mathlib.Core.Option.{some}
use native.Mathlib.Omega.{arith}
use rustygear.Prelude.Assoc
use rustygear.Prelude.Assoc.{Map}
use rustygear.Prelude.Equality.{◌==◌, nat_eq}
use rustygear.Prelude.Tests.{if◌then◌else◌, ltb, nat_beq_iff}
use Prim.Native.Nat.{ℕ}

-- The value of a key that is there is replaced; a new key comes before the first greater one.
unfoldable pub insert {ℓ} : {V : Type ℓ} → ℕ → V → Map ℕ V → Map ℕ V
insert k v [] = (k, v) ∷ []
insert k v ((j, w) ∷ m) =
    let rest = insert k v m in
    if j == k then (k, v) ∷ m else if ltb k j then (k, v) ∷ (j, w) ∷ m else (j, w) ∷ rest

pub get-insert {ℓ} :
    {V : Type ℓ} (k j : ℕ) (v : V) (m : Map ℕ V)
    → Assoc.get j (insert k v m) ≡ (if k == j then some v else Assoc.get j m)
unfolding Assoc.get insert
get-insert k j v [] = refl
get-insert k j v ((i, w) ∷ m) =
    ground (arith, nat_beq_iff k j, nat_beq_iff i k, nat_beq_iff i j, get-insert k j v m)
