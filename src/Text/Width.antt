-- ===== src/Text/Width.antt =====
-- How many digits `format!` prints.
use rustygear.Prelude.{
  ℕ, zero, suc, ◌+◌, ◌-◌, ◌*◌, ◌/◌, ◌%◌, ◌≤◌, ◌<◌, ◌≡◌, refl, [], ◌∷◌, arith, length, length-append,
  ltb, Bool-cases, inl, inr,
}
use rustygear.Text.Decimal.{digits, show, zeros, show_padded}

-- `10 ^ k`
unfoldable pub tens : ℕ → ℕ
tens zero = 1
tens (suc k) = 10 * tens k

length-digits : (k n j : ℕ) → n < tens (suc j) → length (digits k n) ≤ suc j
unfolding digits tens
length-digits zero n j h = omega arith
length-digits (suc k) n zero h = ground arith
length-digits (suc k) n (suc j) h = elim (Bool-cases (ltb n 10)) [
  | inl e ↦ rw (e, digits) (omega arith)
  | inr e ↦
      rw (e, digits)
        (omega (
          arith,
          length-append (digits k (n / 10)) ((b'0' + n % 10) ∷ []),
          length-digits k (n / 10) j (omega arith),
        ))
]

pub length-show : (n j : ℕ) → n < tens (suc j) → length (show n) ≤ suc j
unfolding show
length-show n j h = length-digits (suc n) n j h

length-zeros : (k : ℕ) → length (zeros k) ≡ k
unfolding zeros
length-zeros zero = refl
length-zeros (suc k) = omega (arith, length-zeros k)

-- As wide as the number, and at least ten.
pub length-show_padded : (n : ℕ) → length (show_padded n) ≡ (10 - length (show n)) + length (show n)
unfolding show_padded
length-show_padded n = omega (
  arith,
  length-append (zeros (10 - length (show n))) (show n),
  length-zeros (10 - length (show n)),
)
