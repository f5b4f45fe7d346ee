-- ===== src/Codec/Reverse.antt =====
-- What `decode` of rustygear/src/codec.rs reads, `encode` writes as the bytes that were read.
use rustygear.Codec.{
  Word, magic_of, into_bytes, encode, header_ptype, header_psize, decode_body, decode_binary,
  decode_as, decode,
}
use rustygear.Constants
use rustygear.Constants.Table.{ptypes}
use rustygear.Codec.RoundTrip.{header}
use rustygear.Outcome.{Outcome, ok}
use rustygear.Packet.{PacketMagic, req, res, text, Packet}
use rustygear.Prelude.{
  zero, suc, suc, ℕ, ◌+◌, ◌≤◌, ◌≡◌, ◌≢◌, refl, sym, ap, ◌∙◌, inl, inr, Bool, false, ◌&&◌, Option,
  some, [], ◌∷◌, ◌++◌, arith, Bytes, nat_eq, bytes_eq, ◌==◌, bytes_beq_iff, length, take, drop, ltb,
  leb, Bool-cases, IsBytes,
}

-- The first four bytes of a buffer, and the rest.
word :
    (xs : Bytes)
    → 4 ≤ length xs
    → (a : ℕ) × (b : ℕ) × (c : ℕ) × (d : ℕ) × (ys : Bytes) × (xs ≡ a ∷ b ∷ c ∷ d ∷ ys)
word [] h = absurd (omega arith)
word (a ∷ []) h = absurd (omega arith)
word (a ∷ b ∷ []) h = absurd (omega arith)
word (a ∷ b ∷ c ∷ []) h = absurd (omega arith)
word (a ∷ b ∷ c ∷ d ∷ ys) h = (a, b, c, d, ys, refl)

take-drop : (n : ℕ) (xs : Bytes) → take n xs ++ drop n xs ≡ xs
take-drop zero xs = refl
take-drop (suc n) [] = refl
take-drop (suc n) (x ∷ xs) = ap (◌∷◌ x) (take-drop n xs)

IsBytes-take : (n : ℕ) (xs : Bytes) → IsBytes xs → IsBytes (take n xs)
IsBytes-take zero xs h = tt
IsBytes-take (suc n) [] h = tt
IsBytes-take (suc n) (x ∷ xs) h = (h.0, IsBytes-take n xs h.1)

decode_body-fits :
    (debug : Bool) (m : PacketMagic) (t n : ℕ) (src : Bytes)
    → (debug && leb (length ptypes) t) ≡ false
    → ltb (length src) (12 + n) ≡ false
    → decode_body debug m t n src ≡ (
      ok (some (record { magic = m; ptype = t; psize = n; body = take n (drop 12 src) })),
      drop n (drop 12 src),
    )
unfolding decode_body
decode_body-fits debug m t n src good fits = rw (good, fits)

result-inj :
    {p q : Packet} {xs ys : Bytes}
    → Path (Outcome (Option Packet) × Bytes) (ok (some p), xs) (ok (some q), ys)
    → (p ≡ q) × (xs ≡ ys)
result-inj e = (cc, cc)

-- A packet that was read, and where the reader stands.
pub decode_body-some :
    (debug : Bool) (m : PacketMagic) (t n : ℕ) (src rest : Bytes) (p : Packet)
    → decode_body debug m t n src ≡ (ok (some p), rest)
    → (record { magic = m; ptype = t; psize = n; body = take n (drop 12 src) } ≡ p)
      × (drop n (drop 12 src) ≡ rest)
unfolding decode_body
decode_body-some debug m t n src rest p e = elim (Bool-cases (debug && leb (length ptypes) t)) [
  | inl bad ↦ absurd (ground (arith, bad, e))
  | inr good ↦ elim (Bool-cases (ltb (length src) (12 + n))) [
    | inl short ↦ absurd (ground (arith, good, short, e))
    | inr fits ↦ result-inj (sym (decode_body-fits debug m t n src good fits) ∙ e)
  ]
]

module _ ⦃w : Word⦄ where
  pub decode_binary-body :
      (debug : Bool) (m : PacketMagic) (src : Bytes)
      → 12 ≤ length src
      → decode_binary debug m src
        ≡ decode_body debug m (header_ptype (take 12 src)) (header_psize (take 12 src)) src
  unfolding decode_binary
  decode_binary-body debug m src h = ground arith

  -- A header of twelve bytes and what follows it.
  decode_binary-bytes :
      (debug : Bool) (m : PacketMagic) (a b c d e f g h i j k l : ℕ) (tail rest : Bytes)
      (p : Packet)
      → IsBytes (e ∷ f ∷ g ∷ h ∷ i ∷ j ∷ k ∷ l ∷ [])
      → decode_binary debug m (a ∷ b ∷ c ∷ d ∷ e ∷ f ∷ g ∷ h ∷ i ∷ j ∷ k ∷ l ∷ tail)
        ≡ (ok (some p), rest)
      → (a ∷ b ∷ c ∷ d ∷ e ∷ f ∷ g ∷ h ∷ i ∷ j ∷ k ∷ l ∷ tail
          ≡ (header (a ∷ b ∷ c ∷ d ∷ []) p.ptype p.psize ++ p.body) ++ rest)
        × (p.magic ≡ m)
  unfolding header_ptype header_psize
  decode_binary-bytes debug m a b c d e f g h i j k l tail rest p
        (be, (bf, (bg, (bh, (bi, (bj, (bk, (bl, u)))))))) r =
      let src = a ∷ b ∷ c ∷ d ∷ e ∷ f ∷ g ∷ h ∷ i ∷ j ∷ k ∷ l ∷ tail in
      let found =
        decode_body-some debug m _ _ src rest p
          (sym (decode_binary-body debug m src (omega arith)) ∙ r) in
      rw (← found.0, ← found.1)
        (
          rw
              (
                w.put_u32-get_u32 (e ∷ f ∷ g ∷ h ∷ []) refl (be, (bf, (bg, (bh, tt)))),
                w.put_u32-get_u32 (i ∷ j ∷ k ∷ l ∷ []) refl (bi, (bj, (bk, (bl, tt)))),
              )
              (ap (λ (x : Bytes). a ∷ b ∷ c ∷ d ∷ e ∷ f ∷ g ∷ h ∷ i ∷ j ∷ k ∷ l ∷ x)
                (sym (take-drop (w.get_u32 (i ∷ j ∷ k ∷ l ∷ [])) tail))),
          refl,
        )

  -- A buffer of twelve bytes or more, word by word.
  abbrev Words : Bytes → Type 0
  Words xs =
      (a : ℕ) × (b : ℕ) × (c : ℕ) × (d : ℕ) × (e : ℕ) × (f : ℕ) × (g : ℕ) × (h : ℕ) × (i : ℕ)
      × (j : ℕ) × (k : ℕ) × (l : ℕ) × (tail : Bytes) × (xs
          ≡ a ∷ b ∷ c ∷ d ∷ e ∷ f ∷ g ∷ h ∷ i ∷ j ∷ k ∷ l ∷ tail)

  words : (xs : Bytes) → 12 ≤ length xs → Words xs
  words xs n =
      let (a, b, c, d, ys, one) = word xs (omega arith) in
      let (e, f, g, h, zs, two) = word ys (ground (arith, one)) in
      let (i, j, k, l, tail, three) = word zs (ground (arith, one, two)) in
      (a, b, c, d, e, f, g, h, i, j, k, l, tail, cc)

  abbrev Rewrites : PacketMagic → Bytes → Bool → Bytes → Bytes → Packet → Type 0
  Rewrites m mg debug rest xs p =
      take 4 xs ≡ mg
      → IsBytes xs
      → decode_binary debug m xs ≡ (ok (some p), rest)
      → (xs ≡ (header mg p.ptype p.psize ++ p.body) ++ rest) × (p.magic ≡ m)

  decode_binary-Rewrites :
      (m : PacketMagic) (mg : Bytes) (debug : Bool) (xs rest : Bytes) (p : Packet)
      → 12 ≤ length xs
      → Rewrites m mg debug rest xs p
  decode_binary-Rewrites m mg debug xs rest p n =
      let (a, b, c, d, e, f, g, h, i, j, k, l, tail, eq) = words xs n in
      rw eq λ t v r. rw (← t) (
        decode_binary-bytes debug m a b c d e f g h i j k l tail rest p
          (IsBytes-take 8 (e ∷ f ∷ g ∷ h ∷ i ∷ j ∷ k ∷ l ∷ tail) v.1.1.1.1) r)

  -- Too short a buffer gives no packet.
  pub decode_binary-some :
      (debug : Bool) (m : PacketMagic) (xs rest : Bytes) (p : Packet)
      → decode_binary debug m xs ≡ (ok (some p), rest)
      → 12 ≤ length xs
  unfolding decode_binary
  decode_binary-some debug m xs rest p e = elim (Bool-cases (ltb (length xs) 12)) [
    | inl short ↦ absurd (ground (arith, short, e))
    | inr long ↦ ground (arith, long)
  ]

  -- A packet with its bytes in front of what is left.
  abbrev pub Written : Packet → Bytes → Bytes → Type 0
  Written p buf rest = (frame : Bytes) × (encode p [] ≡ (ok tt, frame)) × (buf ≡ frame ++ rest)

  req-Written :
      (debug : Bool) (buf rest : Bytes) (p : Packet)
      → take 4 buf ≡ Constants.magic_req
      → IsBytes buf
      → decode_binary debug req buf ≡ (ok (some p), rest)
      → Written p buf rest
  unfolding encode into_bytes
  req-Written debug buf rest p t v e =
      let (same, m) =
        decode_binary-Rewrites req Constants.magic_req debug buf rest p
          (decode_binary-some debug req buf rest p e) t v e in
      (header Constants.magic_req p.ptype p.psize ++ p.body, rw (m, encode) refl, same)

  res-Written :
      (debug : Bool) (buf rest : Bytes) (p : Packet)
      → take 4 buf ≡ Constants.magic_res
      → IsBytes buf
      → decode_binary debug res buf ≡ (ok (some p), rest)
      → Written p buf rest
  unfolding encode into_bytes
  res-Written debug buf rest p t v e =
      let (same, m) =
        decode_binary-Rewrites res Constants.magic_res debug buf rest p
          (decode_binary-some debug res buf rest p e) t v e in
      (header Constants.magic_res p.ptype p.psize ++ p.body, rw (m, encode) refl, same)

  pub decode-some :
      (debug : Bool) (buf rest : Bytes) (p : Packet)
      → decode debug buf ≡ (ok (some p), rest)
      → decode_as debug (magic_of (take 4 buf)) buf ≡ (ok (some p), rest)
  unfolding decode
  decode-some debug buf rest p e = elim (Bool-cases (ltb (length buf) 4)) [
    | inl short ↦ absurd (ground (arith, short, e))
    | inr long ↦ ground (arith, long, e)
  ]

  -- A request or a response that is decoded from a buffer of bytes is encoded as exactly the bytes
  -- that were taken from the buffer.
  pub encode-decode :
      (debug : Bool) (buf rest : Bytes) (p : Packet)
      → IsBytes buf
      → magic_of (take 4 buf) ≢ text
      → decode debug buf ≡ (ok (some p), rest)
      → Written p buf rest
  unfolding magic_of decode_as
  encode-decode debug buf rest p v binary e =
      let read = decode-some debug buf rest p e in
      let known : (m : PacketMagic)
          → magic_of (take 4 buf) ≡ m
          → decode_as debug m buf ≡ (ok (some p), rest) =
        λ m h. ap (λ (x : PacketMagic). decode_as debug x buf) (sym h) ∙ read in
      elim (Bool-cases (take 4 buf == Constants.magic_req)) [
        | inl q ↦
            req-Written debug buf rest p ((bytes_beq_iff (take 4 buf) Constants.magic_req).0 q) v
              (known req (rw (q, magic_of)))
        | inr nq ↦ elim (Bool-cases (take 4 buf == Constants.magic_res)) [
          | inl s ↦
              res-Written debug buf rest p ((bytes_beq_iff (take 4 buf) Constants.magic_res).0 s) v
                (known res (rw (nq, magic_of) (rw s)))
          | inr ns ↦ absurd (binary (rw (nq, magic_of) (rw ns)))
        ]
      ]
