-- ===== src/Packet/Fields.antt =====
-- The null-separated bodies: what `next_field` reads back from the concatenations that the
-- programs build.
use rustygear.Prelude.{
  nat_beq_iff, ap, ℕ, ◌≡◌, refl, false, none, some, [], ◌∷◌, ◌++◌, arith, ◌⊎◌, inl, inr, Bool-cases,
  Bytes, nat_eq, ◌==◌, length, take-append_length, drop-append_length, take-length, drop-length,
}
use rustygear.Packet.{position, next_field}

-- A field that can stand before a null: it has none itself.
abbrev pub HasNo : ℕ → Bytes → Type 0
HasNo c [] = Unit {0}
HasNo c (b ∷ bs) = ((b == c) ≡ false) × HasNo c bs

pub position-append :
    (c : ℕ) (xs ys : Bytes) → HasNo c xs → position c (xs ++ c ∷ ys) ≡ some (length xs)
unfolding position
position-append c [] ys h = ground arith
position-append c (x ∷ xs) ys h = ground (arith, position-append c xs ys h.1)

pub position-HasNo : (c : ℕ) (xs : Bytes) → HasNo c xs → position c xs ≡ none
unfolding position
position-HasNo c [] h = refl
position-HasNo c (x ∷ xs) h = ground (arith, position-HasNo c xs h.1)

-- A field, its null and anything after it: the field, and what stands after the null.
pub next_field-append : (f rest : Bytes) → HasNo 0 f → next_field (f ++ 0 ∷ rest) ≡ (f, rest)
unfolding next_field
next_field-append f rest h =
    rw (position-append 0 f rest h, next_field)
      (rw (take-append_length f (0 ∷ rest), drop-append_length f (0 ∷ rest)))

-- A last field, with no null after it, is the whole buffer.
pub next_field-HasNo : (f : Bytes) → HasNo 0 f → next_field f ≡ (f, [])
unfolding next_field
next_field-HasNo f h = rw (position-HasNo 0 f h, next_field) (rw (take-length f, drop-length f))

-- What `next_field` promises of its result: the field has no null, and the buffer was the field
-- with either a null and the new buffer after it, or nothing.
abbrev pub Splits : Bytes → Bytes × Bytes → Type 0
Splits buf (f, rest) = HasNo 0 f × ((buf ≡ f ++ 0 ∷ rest) ⊎ ((buf ≡ f) × (rest ≡ [])))

null_split :
    (buf : Bytes) → ((f : Bytes) × (rest : Bytes) × HasNo 0 f × (buf ≡ f ++ 0 ∷ rest)) ⊎ HasNo 0 buf
null_split [] = inr tt
null_split (b ∷ bs) = elim (Bool-cases (b == 0)) [
  | inl z ↦ inl ([], bs, tt, ap (λ (x : ℕ). x ∷ bs) ((nat_beq_iff b 0).0 z))
  | inr nz ↦ elim (null_split bs) [
    | inl (f, rest, h, e) ↦ inl (b ∷ f, rest, (nz, h), ap (◌∷◌ b) e)
    | inr h ↦ inr (nz, h)
  ]
]

-- From every buffer `next_field` takes a field with no null, and the buffer was that field with
-- either a null and the new buffer after it, or nothing.
pub next_field-Splits : (buf : Bytes) → Splits buf (next_field buf)
next_field-Splits buf = elim (null_split buf) [
  | inl (f, rest, h, e) ↦ rw (e, next_field-append f rest h) (h, inl refl)
  | inr h ↦ rw (next_field-HasNo buf h) (h, inr (refl, refl))
]
