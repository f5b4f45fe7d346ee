-- ===== src/Codec/Chunks.antt =====
-- How `decode` of rustygear/src/codec.rs takes a stream that arrives in pieces.
use rustygear.Codec.{
  decode_body, Word, decode, decode_binary, decode_as, admin_decode, admin_line, magic_of,
}
use rustygear.Constants.Table.{ptypes}
use rustygear.Outcome.{Outcome, ok, panic}
use rustygear.Packet.{PacketMagic, text, Packet, position}
use rustygear.Prelude.{
  ℕ, zero, suc, ◌+◌, ◌≤◌, ◌<◌, ◌≡◌, ◌≢◌, refl, ◌⊎◌, inl, inr, Bool, false, ◌&&◌, Option, none, some,
  [], ◌∷◌, ◌++◌, arith, Bytes, nat_eq, length, length-append, length-drop, take, drop, take-append,
  drop-append, ltb, leb, Bool-cases, Option-cases,
}

pub position-append_found :
    (c : ℕ) (xs ys : Bytes) (n : ℕ) → position c xs ≡ some n → position c (xs ++ ys) ≡ some n
unfolding position
position-append_found c [] ys n h = cc
position-append_found c (x ∷ xs) ys zero h = ground arith
position-append_found c (x ∷ xs) ys (suc n) h = ground (arith, position-append_found c xs ys n)

pub position-lt : (c : ℕ) (xs : Bytes) (n : ℕ) → position c xs ≡ some n → n < length xs
unfolding position
position-lt c [] n h = cc
position-lt c (x ∷ xs) zero h = omega arith
position-lt c (x ∷ xs) (suc n) h = ground (arith, position-lt c xs n)

-- What decoding promises about a stream: with `none` it leaves the buffer as it is, to wait for
-- more; any other answer is the same whatever arrives behind it, and leaves that in the buffer.
abbrev pub Streams : (Bytes → Outcome (Option Packet) × Bytes) → Bytes → Bytes → Type 0
Streams f buf later =
    (f buf ≡ (ok none, buf))
    ⊎ ((r : Outcome (Option Packet)) × (rest : Bytes) × (r ≢ ok none)
        × (f buf ≡ (r, rest))
        × (f (buf ++ later) ≡ (r, rest ++ later)))

admin_line-ne_none : (line : Bytes) → admin_line line ≢ ok none
unfolding admin_line
admin_line-ne_none line = ground arith

admin_decode-Streams : (buf later : Bytes) → Streams admin_decode buf later
unfolding admin_decode
admin_decode-Streams buf later = elim (Option-cases (position b'\n' buf)) [
  | inl e ↦ inl (rw (e, admin_decode) refl)
  | inr (n, e) ↦
      let short = position-lt b'\n' buf n e in
      inr (
        admin_line (take n buf),
        drop 1 (drop n buf),
        admin_line-ne_none (take n buf),
        rw (e, admin_decode),
        rw (position-append_found b'\n' buf later n e, admin_decode)
            (rw (take-append n buf later (omega arith), drop-append n buf later (omega arith))
              (rw (drop-append 1 (drop n buf) later (omega (arith, length-drop n buf))))),
      )
]

decode_body-Streams :
    (debug : Bool) (m : PacketMagic) (t n : ℕ) (buf later : Bytes)
    → 12 ≤ length buf
    → Streams (decode_body debug m t n) buf later
unfolding decode_body
decode_body-Streams debug m t n buf later h = elim (Bool-cases (debug && leb (length ptypes) t)) [
  | inl bad ↦ inr (panic, buf, (λ e. cc), rw bad, rw bad)
  | inr good ↦ elim (Bool-cases (ltb (length buf) (12 + n))) [
    | inl short ↦ inl (rw (good, short))
    | inr fits ↦ inr (
      ok (some (record { magic = m; ptype = t; psize = n; body = take n (drop 12 buf) })),
      drop n (drop 12 buf),
      (λ e. cc),
      rw (good, fits),
      rw good (
          ground (
            arith,
            length-append buf later,
            length-drop 12 buf,
            drop-append 12 buf later,
            take-append n (drop 12 buf) later,
            drop-append n (drop 12 buf) later,
          )),
    )
  ]
]

-- A test on the length of the buffer that more bytes do not change.
longer :
    (k : ℕ) (buf later : Bytes) → ltb (length buf) k ≡ false → ltb (length (buf ++ later)) k ≡ false
longer k buf later h = ground (arith, length-append buf later)

enough : (k : ℕ) (buf : Bytes) → ltb (length buf) k ≡ false → k ≤ length buf
enough k buf h = ground arith

module _ ⦃w : Word⦄ where
  decode_binary-Streams :
      (debug : Bool) (m : PacketMagic) (buf later : Bytes)
      → Streams (decode_binary debug m) buf later
  unfolding decode_binary
  decode_binary-Streams debug m buf later = elim (Bool-cases (ltb (length buf) 12)) [
    | inl e ↦ inl (rw (e, decode_binary) refl)
    | inr e ↦
        rw (e, longer 12 buf later e, take-append 12 buf later (enough 12 buf e))
          (decode_body-Streams debug m _ _ buf later (enough 12 buf e))
  ]

  decode_as-Streams :
      (debug : Bool) (m : PacketMagic) (buf later : Bytes) → Streams (decode_as debug m) buf later
  unfolding decode_as
  decode_as-Streams debug text buf later = admin_decode-Streams buf later
  decode_as-Streams debug m buf later = decode_binary-Streams debug m buf later

  -- On every buffer, `decode` either answers none and leaves the buffer as it is, or gives an
  -- answer that is the same whatever has arrived behind the buffer, which stays there.
  pub decode-Streams : (debug : Bool) (buf later : Bytes) → Streams (decode debug) buf later
  unfolding decode
  decode-Streams debug buf later = elim (Bool-cases (ltb (length buf) 4)) [
    | inl e ↦ inl (rw (e, decode) refl)
    | inr e ↦
        rw (e, longer 4 buf later e, take-append 4 buf later (enough 4 buf e))
          (decode_as-Streams debug (magic_of (take 4 buf)) buf later)
  ]
