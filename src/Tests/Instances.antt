-- ===== src/Tests/Instances.antt =====
-- Instances of what the code takes from other crates: words in network order, and a set of
-- functions that is iterated from its first element.
use rustygear.Codec.{Word}
use rustygear.Prelude.{
  ℕ, ◌+◌, ◌*◌, ◌/◌, ◌%◌, ◌<◌, ◌^◌, ◌≡◌, refl, List, [], ◌∷◌, arith, Bytes, bytes_eq, nat_eq, length,
  IsBytes,
}
use rustygear.Prelude.Finite
use rustygear.Prelude.Finite.{contains-insert, contains-remove}
use rustygear.Worker.{WrappingSet}

abbrev pub put_big : ℕ → Bytes
put_big n = (n / 2 ^ 24) % 256 ∷ (n / 2 ^ 16) % 256 ∷ (n / 2 ^ 8) % 256 ∷ n % 256 ∷ []

abbrev pub get_big : Bytes → ℕ
get_big (a ∷ b ∷ c ∷ d ∷ []) = a * 2 ^ 24 + b * 2 ^ 16 + c * 2 ^ 8 + d
get_big _ = 0

pub get_big-put_big : (n : ℕ) → n < 2 ^ 32 → get_big (put_big n) ≡ n
get_big-put_big n h = omega arith

-- Four bytes, one by one.
four :
    {a b c d w x y z : ℕ}
    → a ≡ w
    → b ≡ x
    → c ≡ y
    → d ≡ z
    → (a ∷ b ∷ c ∷ d ∷ []) ≡ (w ∷ x ∷ y ∷ z ∷ [])
four e f g h = cc

pub put_big-get_big : (bs : Bytes) → length bs ≡ 4 → IsBytes bs → put_big (get_big bs) ≡ bs
put_big-get_big [] l h = absurd (omega arith)
put_big-get_big (a ∷ []) l h = absurd (omega arith)
put_big-get_big (a ∷ b ∷ []) l h = absurd (omega arith)
put_big-get_big (a ∷ b ∷ c ∷ []) l h = absurd (omega arith)
put_big-get_big (a ∷ b ∷ c ∷ d ∷ []) l (ha, (hb, (hc, (hd, e)))) =
    four (omega arith) (omega arith) (omega arith) (omega arith)
put_big-get_big (a ∷ b ∷ c ∷ d ∷ x ∷ bs) l h = absurd (omega arith)

instance abbrev pub network_order : Word
network_order = record {
  put_u32 = put_big;
  get_u32 = get_big;
  length-put_u32 = λ n. refl;
  get_u32-put_u32 = get_big-put_big;
  put_u32-get_u32 = put_big-get_big;
}

instance abbrev pub list_set : WrappingSet (List Bytes)
list_set = record {
  new = [];
  insert = Finite.insert;
  remove = Finite.remove;
  iter = λ s. (s, s);
  iter-new = refl;
  iter-insert = λ f g s. contains-insert f g s;
  iter-remove = λ f g s. contains-remove f g s;
  iter-iter = λ g s. refl;
}
