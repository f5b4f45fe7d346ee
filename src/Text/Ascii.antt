-- ===== src/Text/Ascii.antt =====
-- What the standard library's `str` makes of ASCII text, and of blanks round it.
use mathlib.Core.List.{reverse-append, reverse-reverse}
use rustygear.Prelude.{
  ℕ, ◌≡◌, ◌∙◌, refl, ap, Bool, true, not, some, List, [], ◌∷◌, ◌++◌, reverse, arith, Bytes, nat_eq,
  ltb,
}
use rustygear.Prelude.All.{All, All-reverse}
use rustygear.Text.{Partial, complete, decode_from, from_utf8, is_whitespace, drop_whitespace, trim}

abbrev pub is_ascii : ℕ → Bool
is_ascii b = ltb b 0x80

decode_from-ascii :
    (p : Partial) (bs : Bytes) → p.more ≡ 0 → All is_ascii bs → decode_from p bs ≡ some bs
unfolding decode_from
decode_from-ascii p [] e h = ground arith
decode_from-ascii p (b ∷ bs) e h = ground (arith, decode_from-ascii (complete b) bs refl h.1)

pub from_utf8-ascii : (bs : Bytes) → All is_ascii bs → from_utf8 bs ≡ some bs
unfolding from_utf8
from_utf8-ascii bs h = decode_from-ascii (complete 0) bs refl h

abbrev pub is_mark : ℕ → Bool
is_mark c = not (is_whitespace c)

drop_whitespace-append :
    (xs ys : List ℕ) → All is_whitespace xs → drop_whitespace (xs ++ ys) ≡ drop_whitespace ys
unfolding drop_whitespace
drop_whitespace-append [] ys h = refl
drop_whitespace-append (x ∷ xs) ys h = ground (arith, drop_whitespace-append xs ys h.1)

drop_whitespace-marks : (xs : List ℕ) → All is_mark xs → drop_whitespace xs ≡ xs
unfolding drop_whitespace
drop_whitespace-marks [] h = refl
drop_whitespace-marks (x ∷ xs) h = ground arith

drop_whitespace-blanks : (xs : List ℕ) → All is_whitespace xs → drop_whitespace xs ≡ []
unfolding drop_whitespace
drop_whitespace-blanks [] h = refl
drop_whitespace-blanks (x ∷ xs) h = ground (arith, drop_whitespace-blanks xs h.1)

drop_whitespace-word : (c : ℕ) (xs : List ℕ) → is_mark c ≡ true → drop_whitespace (c ∷ xs) ≡ c ∷ xs
unfolding drop_whitespace
drop_whitespace-word c xs h = ground arith

-- What is left of a word and the blanks behind it, read backwards.
drop_whitespace-reverse :
    (w post : List ℕ)
    → All is_mark w
    → All is_whitespace post
    → drop_whitespace (reverse (drop_whitespace (w ++ post))) ≡ reverse w
drop_whitespace-reverse [] post h k =
    ap (λ (t : List ℕ). drop_whitespace (reverse t)) (drop_whitespace-blanks post k)
    ∙ drop_whitespace-blanks [] tt
drop_whitespace-reverse (c ∷ w) post h k =
    ap (λ (t : List ℕ). drop_whitespace (reverse t)) (drop_whitespace-word c (w ++ post) h.0)
    ∙ ap drop_whitespace (reverse-append (c ∷ w) post)
    ∙ drop_whitespace-append (reverse post) (reverse (c ∷ w)) (All-reverse is_whitespace post k)
    ∙ drop_whitespace-marks (reverse (c ∷ w)) (All-reverse is_mark (c ∷ w) h)

-- Blanks on both sides of a word are cut off.
pub trim_lem :
    (pre w post : List ℕ)
    → All is_whitespace pre
    → All is_mark w
    → All is_whitespace post
    → trim (pre ++ (w ++ post)) ≡ w
unfolding trim
trim_lem pre w post h k l =
    ap (λ (t : List ℕ). reverse (drop_whitespace (reverse t)))
      (drop_whitespace-append pre (w ++ post) h)
    ∙ ap reverse (drop_whitespace-reverse w post k l)
    ∙ reverse-reverse w
