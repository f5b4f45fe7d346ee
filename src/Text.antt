-- ===== src/Text.antt =====
-- The parts of the standard library's `str` that the programs use: decoding and validating UTF-8
-- (`str::from_utf8`) and trimming white space (`str::trim`). A text is its list of code points.
pub mod Ascii
pub mod Decimal
pub mod Number
pub mod Width
use mathlib.Core.List.{reverse}
use mathlib.Core.Option
use rustygear.Prelude.{
  ℕ, ◌+◌, ◌-◌, ◌*◌, Bool, ◌&&◌, ◌||◌, Option, none, some, List, [], ◌∷◌, Bytes, nat_eq, ◌==◌, ltb,
  leb, if◌then◌else◌,
}

-- A character that is being read: how many bytes are to come, the range of the next one, and the
-- value of the bits so far. With no byte to come, a character is complete.
pub record Partial : Type 0 where
  pub more : ℕ
  pub lo : ℕ
  pub hi : ℕ
  pub value : ℕ

unfoldable pub complete : ℕ → Partial
complete v = record { more = 0; lo = 0; hi = 0; value = v }

-- The table of well-formed sequences (Unicode, table 3-7), by the first byte.
unfoldable pub lead : ℕ → Option Partial
unfolding complete
lead b =
    if ltb b 0x80
    then some (complete b)
    else if ltb b 0xC2
    then none
    else if ltb b 0xE0
    then some (record { more = 1; lo = 0x80; hi = 0xBF; value = b - 0xC0 })
    else if ltb b 0xF0
    then some (record {
      more = 2;
      lo = if b == 0xE0 then 0xA0 else 0x80;
      hi = if b == 0xED then 0x9F else 0xBF;
      value = b - 0xE0;
    })
    else if ltb b 0xF5
    then some (record {
      more = 3;
      lo = if b == 0xF0 then 0x90 else 0x80;
      hi = if b == 0xF4 then 0x8F else 0xBF;
      value = b - 0xF0;
    })
    else none

unfoldable pub push : Partial → ℕ → Option Partial
unfolding lead
push p b =
    if p.more == 0
    then lead b
    else if leb p.lo b && leb b p.hi
    then some
        (record { more = p.more - 1; lo = 0x80; hi = 0xBF; value = p.value * 64 + (b - 0x80) })
    else none

unfoldable pub decode_from : Partial → Bytes → Option (List ℕ)
unfolding push
decode_from p [] = if p.more == 0 then some [] else none
decode_from p (b ∷ bs) = elim (push p b) [
  | none ↦ none
  | some q ↦
      let rest = decode_from q bs in
      if q.more == 0 then Option.map (λ cs. q.value ∷ cs) rest else rest
]

-- `str::from_utf8`
unfoldable pub from_utf8 : Bytes → Option (List ℕ)
unfolding decode_from
from_utf8 = decode_from (complete 0)

-- `char::is_whitespace`
unfoldable pub is_whitespace : ℕ → Bool
is_whitespace c =
    (leb 9 c && leb c 13)
    || (c == 0x20 || c == 0x85 || c == 0xA0 || c == 0x1680)
    || (leb 0x2000 c && leb c 0x200A)
    || (c == 0x2028 || c == 0x2029 || c == 0x202F || c == 0x205F || c == 0x3000)

unfoldable pub drop_whitespace : List ℕ → List ℕ
drop_whitespace [] = []
drop_whitespace (c ∷ cs) = if is_whitespace c then drop_whitespace cs else c ∷ cs

unfoldable pub trim : List ℕ → List ℕ
unfolding drop_whitespace is_whitespace
trim cs = reverse (drop_whitespace (reverse (drop_whitespace cs)))
