-- ===== src/Text/Decimal.antt =====
-- `format!("{}", n)` and `format!("{:010}", n)` of the standard library, and what distinguishes
-- the numbers that they print.
use rustygear.Packet.Fields.{HasNo}
use rustygear.Prelude.{
  ℕ, zero, suc, ◌+◌, ◌-◌, ◌*◌, ◌/◌, ◌%◌, ◌<◌, ◌≡◌, refl, ◌∙◌, [], ◌∷◌, ◌++◌, arith, Bytes, nat_eq,
  length, ltb, if◌then◌else◌, Bool-cases, inl, inr,
}

-- The digits of a number, with fuel for their count.
unfoldable pub digits : ℕ → ℕ → Bytes
digits zero n = []
digits (suc k) n =
    let front = digits k (n / 10) in
    if ltb n 10 then (b'0' + n) ∷ [] else front ++ (b'0' + n % 10) ∷ []

-- `{}`. The number itself is fuel enough.
unfoldable pub show : ℕ → Bytes
unfolding digits
show n = digits (suc n) n

unfoldable pub zeros : ℕ → Bytes
zeros zero = []
zeros (suc k) = b'0' ∷ zeros k

-- `{:010}`
unfoldable pub show_padded : ℕ → Bytes
unfolding show zeros
show_padded n = zeros (10 - length (show n)) ++ show n

-- The number that digits stand for.
pub value : ℕ → Bytes → ℕ
value acc [] = acc
value acc (d ∷ ds) = value (acc * 10 + (d - b'0')) ds

value-append : (acc : ℕ) (xs ys : Bytes) → value acc (xs ++ ys) ≡ value (value acc xs) ys
unfolding value
value-append acc [] ys = refl
value-append acc (x ∷ xs) ys = value-append (acc * 10 + (x - b'0')) xs ys

value-digits : (k n : ℕ) → n < k → value 0 (digits k n) ≡ n
unfolding value digits
value-digits zero n h = absurd (omega arith)
value-digits (suc k) n h = elim (Bool-cases (ltb n 10)) [
  | inl e ↦ rw (e, digits) (omega arith)
  | inr e ↦
      rw (e, digits)
        (rw
          (
            value-append 0 (digits k (n / 10)) ((b'0' + n % 10) ∷ []),
            value-digits k (n / 10) (ground arith),
          )
          (omega arith))
]

value-zeros : (k : ℕ) (xs : Bytes) → value 0 (zeros k ++ xs) ≡ value 0 xs
unfolding value zeros
value-zeros zero xs = refl
value-zeros (suc k) xs = value-zeros k xs

pub value-show : (n : ℕ) → value 0 (show n) ≡ n
unfolding show
value-show n = value-digits (suc n) n (omega arith)

pub value-show_padded : (n : ℕ) → value 0 (show_padded n) ≡ n
unfolding show_padded
value-show_padded n = value-zeros (10 - length (show n)) (show n) ∙ value-show n

pub HasNo-append : (c : ℕ) (xs ys : Bytes) → HasNo c xs → HasNo c ys → HasNo c (xs ++ ys)
HasNo-append c [] ys h k = k
HasNo-append c (x ∷ xs) ys h k = (h.0, HasNo-append c xs ys h.1 k)

digits-HasNo : (k n : ℕ) → HasNo 0 (digits k n)
unfolding digits
digits-HasNo zero n = tt
digits-HasNo (suc k) n = elim (Bool-cases (ltb n 10)) [
  | inl e ↦ rw (e, digits) (ground arith, tt)
  | inr e ↦
      rw (e, digits)
        (HasNo-append 0 (digits k (n / 10)) _ (digits-HasNo k (n / 10)) (ground arith, tt))
]

pub show-HasNo : (n : ℕ) → HasNo 0 (show n)
unfolding show
show-HasNo n = digits-HasNo (suc n) n

zeros-HasNo : (k : ℕ) → HasNo 0 (zeros k)
unfolding zeros
zeros-HasNo zero = tt
zeros-HasNo (suc k) = (ground arith, zeros-HasNo k)

pub show_padded-HasNo : (n : ℕ) → HasNo 0 (show_padded n)
unfolding show_padded
show_padded-HasNo n =
    HasNo-append 0 (zeros (10 - length (show n))) (show n) (zeros-HasNo _) (show-HasNo n)
