-- ===== src/Codec/Shrink.antt =====
-- How decoding shrinks the buffer of rustygear/src/codec.rs.
use rustygear.Codec.{
  decode, Word, admin_decode, decode_binary, decode_as, magic_of, header_ptype, header_psize,
}
use rustygear.Codec.Chunks.{position-lt}
use rustygear.Codec.Reverse.{decode_body-some, decode_binary-body, decode_binary-some, decode-some}
use rustygear.Codec.RoundTrip.{Decodes, stop, step}
use rustygear.Outcome.{Outcome, ok, err, panic}
use rustygear.Packet.{Packet, PacketMagic, text, position}
use rustygear.Prelude.{
  none, ℕ, zero, suc, ◌≢◌, ◌⊎◌, refl, Option, ◌+◌, ◌≤◌, ◌<◌, ◌≡◌, sym, ◌∙◌, inl, inr, Bool, some,
  List, [], ◌∷◌, arith, Bytes, nat_eq, length, length-drop, take, drop, Option-cases,
}

admin_decode-shrinks :
    (buf rest : Bytes) (p : Packet)
    → admin_decode buf ≡ (ok (some p), rest)
    → length rest < length buf
unfolding admin_decode
admin_decode-shrinks buf rest p e = elim (Option-cases (position b'\n' buf)) [
  | inl n ↦ absurd (ground (arith, n, e))
  | inr (n, q) ↦
      let left : drop 1 (drop n buf) ≡ rest = ground (arith, q, e) in
      rw (← left)
        (omega (arith, position-lt b'\n' buf n q, length-drop n buf, length-drop 1 (drop n buf)))
]

-- Whether an answer of the decoder is a packet.
packet_or_none :
    (r : Outcome (Option Packet) × Bytes)
    → ((p : Packet) × (next : Bytes) × (r ≡ (ok (some p), next)))
      ⊎ ((p : Packet) (next : Bytes) → r ≢ (ok (some p), next))
packet_or_none (ok (some p), next) = inl (p, next, refl)
packet_or_none (ok none, next) = inr λ p rest e. cc
packet_or_none (err x, next) = inr λ p rest e. cc
packet_or_none (panic, next) = inr λ p rest e. cc

module _ ⦃w : Word⦄ where
  decode_binary-shrinks :
      (debug : Bool) (m : PacketMagic) (buf rest : Bytes) (p : Packet)
      → decode_binary debug m buf ≡ (ok (some p), rest)
      → length rest < length buf
  decode_binary-shrinks debug m buf rest p e =
      let long = decode_binary-some debug m buf rest p e in
      let n = header_psize (take 12 buf) in
      let (same, left) =
        decode_body-some debug m (header_ptype (take 12 buf)) n buf rest p
          (sym (decode_binary-body debug m buf long) ∙ e) in
      rw (← left) (omega (arith, long, length-drop 12 buf, length-drop n (drop 12 buf)))

  decode_as-shrinks :
      (debug : Bool) (m : PacketMagic) (buf rest : Bytes) (p : Packet)
      → decode_as debug m buf ≡ (ok (some p), rest)
      → length rest < length buf
  unfolding decode_as
  decode_as-shrinks debug text buf rest p e = admin_decode-shrinks buf rest p e
  decode_as-shrinks debug m buf rest p e = decode_binary-shrinks debug m buf rest p e

  decode-shrinks :
      (debug : Bool) (buf rest : Bytes) (p : Packet)
      → decode debug buf ≡ (ok (some p), rest)
      → length rest < length buf
  decode-shrinks debug buf rest p e =
      decode_as-shrinks debug (magic_of (take 4 buf)) buf rest p (decode-some debug buf rest p e)

  -- The reader has taken these packets, and no other is in what is left.
  abbrev pub Drained : Bool → Bytes → Type 0
  Drained debug buf =
      (ps : List Packet) × (rest : Bytes) × Decodes debug buf ps rest
      × ((p : Packet) (next : Bytes) → decode debug rest ≢ (ok (some p), next))
      × (length ps + length rest ≤ length buf)

  -- A further packet, where there is one.
  Drained-step :
      (debug : Bool) (buf next : Bytes) (p : Packet)
      → decode debug buf ≡ (ok (some p), next)
      → Drained debug next
      → Drained debug buf
  Drained-step debug buf next p e (ps, rest, d, last, n) =
      (p ∷ ps, rest, step e d, last, omega (arith, decode-shrinks debug buf next p e))

  Drained-within : (n : ℕ) (debug : Bool) (buf : Bytes) → length buf ≤ n → Drained debug buf
  Drained-within zero debug buf l = elim (packet_or_none (decode debug buf)) [
    | inl (p, next, e) ↦ absurd (omega (arith, decode-shrinks debug buf next p e))
    | inr last ↦ ([], buf, stop, last, omega arith)
  ]
  Drained-within (suc n) debug buf l = elim (packet_or_none (decode debug buf)) [
    | inl (p, next, e) ↦
        Drained-step debug buf next p e
          (Drained-within n debug next (omega (arith, decode-shrinks debug buf next p e)))
    | inr last ↦ ([], buf, stop, last, omega arith)
  ]

  -- From every buffer a reader that calls `decode` again after each packet comes, after finitely
  -- many packets, to a rest from which `decode` takes no packet, and the packets and the bytes of
  -- the rest together are at most as many as the bytes of the buffer.
  pub decode-Drained : (debug : Bool) (buf : Bytes) → Drained debug buf
  decode-Drained debug buf = Drained-within (length buf) debug buf (omega arith)
