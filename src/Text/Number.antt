-- ===== src/Text/Number.antt =====
-- `str::parse` of the standard library at the unsigned types.
use rustygear.Prelude.{
  ℕ, zero, suc, ◌+◌, ◌-◌, ◌*◌, ◌/◌, ◌%◌, ◌<◌, ◌≡◌, refl, ap, ◌≢◌, ◌∙◌, Bool, ◌&&◌, Option, none,
  some, List, [], ◌∷◌, ◌++◌, arith, Bytes, nat_eq, ◌==◌, ltb, leb, if◌then◌else◌, Bool-cases, inl,
  inr,
}
use rustygear.Prelude.All.{All, All-append, All-mono}
use rustygear.Text.{from_utf8}
use rustygear.Text.Ascii.{is_ascii, from_utf8-ascii}
use rustygear.Text.Decimal.{digits, show}

abbrev pub is_digit : ℕ → Bool
is_digit c = leb b'0' c && leb c b'9'

-- The digits from the first to the last, with an error as soon as the number is too large for the
-- type, whose numbers are those below `bound`.
unfoldable pub parse_digits : ℕ → ℕ → List ℕ → Option ℕ
parse_digits bound acc [] = some acc
parse_digits bound acc (c ∷ cs) =
    let next = acc * 10 + (c - b'0') in
    let rest = parse_digits bound next cs in if is_digit c && ltb next bound then rest else none

-- A sign `+` may stand in front, with a digit behind it.
unfoldable pub parse_uint : ℕ → List ℕ → Option ℕ
unfolding parse_digits
parse_uint bound [] = none
parse_uint bound (c ∷ []) = if c == b'+' then none else parse_digits bound 0 (c ∷ [])
parse_uint bound (c ∷ d ∷ cs) =
    if c == b'+' then parse_digits bound 0 (d ∷ cs) else parse_digits bound 0 (c ∷ d ∷ cs)

-- `String::from_utf8(bytes.to_vec()).unwrap().parse().unwrap()`, where `none` is a panic.
unfoldable pub parse_field : ℕ → Bytes → Option ℕ
parse_field bound bs = elim (from_utf8 bs) [ none ↦ none | some cs ↦ parse_uint bound cs ]

-- One more digit behind others.
parse_digits-snoc :
    (bound acc n d : ℕ) (xs : List ℕ)
    → parse_digits bound acc xs ≡ some n
    → d < 10
    → n * 10 + d < bound
    → parse_digits bound acc (xs ++ (b'0' + d) ∷ []) ≡ some (n * 10 + d)
unfolding parse_digits
parse_digits-snoc bound acc n d [] e h k = ground arith
parse_digits-snoc bound acc n d (x ∷ xs) e h k =
    ground (arith, parse_digits-snoc bound (acc * 10 + (x - b'0')) n d xs)

parse_digits-digits :
    (bound k n : ℕ) → n < k → n < bound → parse_digits bound 0 (digits k n) ≡ some n
unfolding digits parse_digits
parse_digits-digits bound zero n h b = absurd (omega arith)
parse_digits-digits bound (suc k) n h b = elim (Bool-cases (ltb n 10)) [
  | inl e ↦ rw (e, digits) (ground arith)
  | inr e ↦
      rw (e, digits)
        (parse_digits-snoc bound 0 (n / 10) (n % 10) (digits k (n / 10))
            (parse_digits-digits bound k (n / 10) (ground arith) (omega arith)) (omega arith)
            (omega arith)
          ∙ ap some (omega arith))
]

digits-All : (k n : ℕ) → All is_digit (digits k n)
unfolding digits
digits-All zero n = tt
digits-All (suc k) n = elim (Bool-cases (ltb n 10)) [
  | inl e ↦ rw (e, digits) (ground arith, tt)
  | inr e ↦
      rw (e, digits)
        (All-append is_digit (digits k (n / 10)) _ (digits-All k (n / 10)) (ground arith, tt))
]

snoc-ne_nil : (xs : Bytes) (d : ℕ) → xs ++ d ∷ [] ≢ []
snoc-ne_nil [] d e = cc
snoc-ne_nil (x ∷ xs) d e = cc

digits-ne_nil : (k n : ℕ) → digits (suc k) n ≢ []
unfolding digits
digits-ne_nil k n = elim (Bool-cases (ltb n 10)) [
  | inl e ↦ rw (e, digits) (λ p. cc)
  | inr e ↦ rw (e, digits) (snoc-ne_nil (digits k (n / 10)) _)
]

parse_uint-digits :
    (bound : ℕ) (xs : Bytes)
    → All is_digit xs
    → xs ≢ []
    → parse_uint bound xs ≡ parse_digits bound 0 xs
unfolding parse_uint
parse_uint-digits bound [] h e = absurd (e refl)
parse_uint-digits bound (x ∷ []) h e = ground arith
parse_uint-digits bound (x ∷ y ∷ xs) h e = ground arith

digits_ascii : (xs : Bytes) → All is_digit xs → All is_ascii xs
digits_ascii = All-mono is_digit is_ascii λ x h. ground arith

-- A number that the type can hold is read back from its digits.
pub parse_field-show : (bound n : ℕ) → n < bound → parse_field bound (show n) ≡ some n
unfolding parse_field show
parse_field-show bound n h =
    rw (from_utf8-ascii (digits (suc n) n) (digits_ascii _ (digits-All (suc n) n)), parse_field)
      (parse_uint-digits bound (digits (suc n) n) (digits-All (suc n) n) (digits-ne_nil n n)
        ∙ parse_digits-digits bound (suc n) n (omega arith) h)
