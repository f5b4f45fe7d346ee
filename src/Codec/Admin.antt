-- ===== src/Codec/Admin.antt =====
-- The lines of the administration protocol, as `decode` of rustygear/src/codec.rs reads them.
use rustygear.Codec.{
  Word, admin_command, admin_packet, admin_line, admin_decode, magic_of, decode_as, decode,
}
use rustygear.Outcome.{Outcome, ok}
use rustygear.Packet.{Packet}
use rustygear.Packet.Fields.{HasNo, position-append}
use rustygear.Prelude.{
  ℕ, ◌≤◌, ◌<◌, ◌≡◌, ◌∙◌, ap, Bool, not, ◌&&◌, Option, some, [], ◌∷◌, ◌++◌, arith, Bytes, nat_eq,
  ◌==◌, length, take-append_length, drop-append_length, ltb,
}
use rustygear.Prelude.All.{All, All-mono}
use rustygear.Text.{is_whitespace, trim}
use rustygear.Text.Ascii.{is_ascii, is_mark, from_utf8-ascii, trim_lem}

-- A byte of a line: ASCII, and neither a null nor the newline.
abbrev pub is_line_byte : ℕ → Bool
is_line_byte b = ltb 0 b && ltb b 0x80 && not (b == b'\n')

line-HasNo : (bs : Bytes) → All is_line_byte bs → HasNo b'\n' bs
line-HasNo [] h = tt
line-HasNo (b ∷ bs) h = (ground arith, line-HasNo bs h.1)

line-ascii : (bs : Bytes) → All is_line_byte bs → All is_ascii bs
line-ascii = All-mono is_line_byte is_ascii λ x h. ground arith

admin_decode-line :
    (line rest : Bytes)
    → All is_line_byte line
    → admin_decode (line ++ b'\n' ∷ rest)
      ≡ (ok (some (admin_packet (admin_command (trim line)))), rest)
unfolding admin_decode admin_line
admin_decode-line line rest h =
    rw (position-append b'\n' line rest (line-HasNo line h), admin_decode)
      (rw (take-append_length line (b'\n' ∷ rest), drop-append_length line (b'\n' ∷ rest))
        (rw (from_utf8-ascii line (line-ascii line h), admin_line)))

module _ ⦃w : Word⦄ where
  -- A buffer whose first byte is no null is text.
  decode-text :
      (debug : Bool) (b : ℕ) (bs : Bytes)
      → 0 < b
      → 4 ≤ length (b ∷ bs)
      → decode debug (b ∷ bs) ≡ admin_decode (b ∷ bs)
  unfolding decode decode_as magic_of
  decode-text debug b bs h l = ground arith

  decode-admin :
      (debug : Bool) (line rest : Bytes)
      → All is_line_byte line
      → 4 ≤ length (line ++ b'\n' ∷ rest)
      → decode debug (line ++ b'\n' ∷ rest) ≡ admin_decode (line ++ b'\n' ∷ rest)
  decode-admin debug [] rest h l = decode-text debug b'\n' rest (omega arith) l
  decode-admin debug (b ∷ bs) rest h l = decode-text debug b (bs ++ b'\n' ∷ rest) (ground arith) l

  -- A line of ASCII without nulls that is a word between blanks (with the newline and what follows
  -- at least four bytes), is decoded as the administration command that the word names, and what
  -- follows the newline stays in the buffer.
  pub decode-line :
      (debug : Bool) (pre word post rest : Bytes)
      → All is_line_byte (pre ++ (word ++ post))
      → All is_whitespace pre
      → All is_mark word
      → All is_whitespace post
      → 4 ≤ length ((pre ++ (word ++ post)) ++ b'\n' ∷ rest)
      → decode debug ((pre ++ (word ++ post)) ++ b'\n' ∷ rest)
        ≡ (ok (some (admin_packet (admin_command word))), rest)
  decode-line debug pre word post rest h a b c l =
      decode-admin debug (pre ++ (word ++ post)) rest h l
      ∙ admin_decode-line (pre ++ (word ++ post)) rest h
      ∙ ap
          (λ (t : Bytes).
            let r : Outcome (Option Packet) × Bytes =
              (ok (some (admin_packet (admin_command t))), rest) in
            r)
          (trim_lem pre word post a b c)
