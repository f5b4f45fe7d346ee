-- ===== src/Codec/RoundTrip.antt =====
-- What `encode` of rustygear/src/codec.rs writes, `decode` reads back.
use rustygear.Constants
use rustygear.Constants.Table.{ptypes}
use rustygear.Codec.{
  List, magic_of, decode_as, into_bytes, encode, decode, Word, decode_binary, decode_body,
  header_ptype, header_psize,
}
use rustygear.Outcome.{ok}
use rustygear.Packet.{PacketMagic, req, res, Packet}
use rustygear.Prelude.{
  append-nil, inr, append_assoc, inl, take_all, ℕ, ◌<◌, ◌^◌, ◌≡◌, sym, ap, ◌∙◌, ◌⊎◌, Bool, false,
  ◌&&◌, some, [], ◌∷◌, ◌++◌, arith, Bytes, nat_eq, bytes_eq, length, length-append, take,
  take_exact, drop_exact, leb,
}

-- A packet that `encode` writes with a header that describes it.
pub record IsWire (p : Packet) : Type 0 where
  pub magic : (p.magic ≡ req) ⊎ (p.magic ≡ res)
  pub ptype : p.ptype < 2 ^ 32
  pub psize : p.psize < 2 ^ 32
  pub sized : p.psize ≡ length p.body

-- With debug logging on, only packet types of the table can be read.
abbrev pub Readable : Bool → Packet → Type 0
Readable debug p = (debug && leb (length ptypes) p.ptype) ≡ false

module _ ⦃w : Word⦄ where
  abbrev pub header : Bytes → ℕ → ℕ → Bytes
  header magic t n = magic ++ w.put_u32 t ++ w.put_u32 n

  -- A whole frame and what follows it.
  decode_binary-frame :
      (debug : Bool) (m : PacketMagic) (h body rest : Bytes)
      → length h ≡ 12
      → (debug && leb (length ptypes) (header_ptype h)) ≡ false
      → header_psize h ≡ length body
      → decode_binary debug m (h ++ (body ++ rest)) ≡ (
        ok (
            some
              (record { magic = m; ptype = header_ptype h; psize = header_psize h; body = body })),
        rest,
      )
  unfolding decode_binary decode_body
  decode_binary-frame debug m h body rest l12 good size = ground (
    arith,
    length-append h (body ++ rest),
    length-append body rest,
    take_exact 12 h (body ++ rest) l12,
    drop_exact 12 h (body ++ rest) l12,
    take_exact (header_psize h) body rest (sym size),
    drop_exact (header_psize h) body rest (sym size),
  )

  module _ (a b c d t n : ℕ) where
    abbrev magic : Bytes
    magic = a ∷ b ∷ c ∷ d ∷ []

    length-header : length (header magic t n) ≡ 12
    length-header =
        omega
          (arith, length-append (w.put_u32 t) (w.put_u32 n), w.length-put_u32 t, w.length-put_u32 n)

    ptype-header : t < 2 ^ 32 → header_ptype (header magic t n) ≡ t
    unfolding header_ptype
    ptype-header h =
        ap w.get_u32 (take_exact 4 (w.put_u32 t) (w.put_u32 n) (w.length-put_u32 t))
        ∙ w.get_u32-put_u32 t h

    psize-header : n < 2 ^ 32 → header_psize (header magic t n) ≡ n
    unfolding header_psize
    psize-header h =
        ap (λ (x : Bytes). w.get_u32 (take 4 x))
          (drop_exact 4 (w.put_u32 t) (w.put_u32 n) (w.length-put_u32 t))
        ∙ ap w.get_u32 (take_all 4 (w.put_u32 n) (w.length-put_u32 n))
        ∙ w.get_u32-put_u32 n h

module _ ⦃w : Word⦄ where
  -- The same, for the header that `into_bytes` builds from four bytes of magic.
  decode_binary-packet :
      (debug : Bool) (m : PacketMagic) (a b c d : ℕ) (p : Packet) (rest : Bytes)
      → IsWire p
      → Readable debug p
      → p.magic ≡ m
      → decode_binary debug m (header (a ∷ b ∷ c ∷ d ∷ []) p.ptype p.psize ++ (p.body ++ rest))
        ≡ (ok (some p), rest)
  decode_binary-packet debug m a b c d p rest v good e =
      let t = ptype-header a b c d p.ptype p.psize v.ptype in
      let n = psize-header a b c d p.ptype p.psize v.psize in
      ground (
        arith,
        v.sized,
        t,
        n,
        decode_binary-frame debug m (header (a ∷ b ∷ c ∷ d ∷ []) p.ptype p.psize) p.body rest
            (length-header a b c d p.ptype p.psize),
      )

  decode-req :
      (debug : Bool) (xs : Bytes)
      → decode debug (Constants.magic_req ++ xs)
        ≡ decode_binary debug req (Constants.magic_req ++ xs)
  unfolding decode decode_as magic_of
  decode-req debug xs = ground arith

  decode-res :
      (debug : Bool) (xs : Bytes)
      → decode debug (Constants.magic_res ++ xs)
        ≡ decode_binary debug res (Constants.magic_res ++ xs)
  unfolding decode decode_as magic_of
  decode-res debug xs = ground arith

  -- What a packet is on the wire, and what it is read back as.
  abbrev pub Frames : Bool → Packet → Bytes → Type 0
  Frames debug p frame =
      ((dst : Bytes) → encode p dst ≡ (ok tt, dst ++ frame))
      × ((rest : Bytes) → decode debug (frame ++ rest) ≡ (ok (some p), rest))

  -- A request or response whose header describes it is written as one frame behind whatever the
  -- buffer holds, and is decoded from that frame whatever follows it.
  pub decode-encode :
      (debug : Bool) (p : Packet)
      → IsWire p
      → Readable debug p
      → (frame : Bytes) × Frames debug p frame
  unfolding encode into_bytes
  decode-encode debug p v good = elim v.magic [
    | inl e ↦ (
      header Constants.magic_req p.ptype p.psize ++ p.body,
      (
        λ dst. rw (e, encode) (rw append_assoc),
        λ rest.
            rw append_assoc (
              decode-req debug _ ∙ decode_binary-packet debug req 0 b'R' b'E' b'Q' p rest v good e),
      ),
    )
    | inr e ↦ (
      header Constants.magic_res p.ptype p.psize ++ p.body,
      (
        λ dst. rw (e, encode) (rw append_assoc),
        λ rest.
            rw append_assoc (
              decode-res debug _ ∙ decode_binary-packet debug res 0 b'R' b'E' b'S' p rest v good e),
      ),
    )
  ]

  -- A run of the reader: the packets that it takes from a buffer, in order, and what is left.
  pub data Decodes (debug : Bool) : Bytes → List Packet → Bytes → Type 0 where
    stop : {buf : Bytes} → Decodes debug buf [] buf
    step :
        {buf buf' rest : Bytes} {p : Packet} {ps : List Packet}
        → decode debug buf ≡ (ok (some p), buf')
        → Decodes debug buf' ps rest
        → Decodes debug buf (p ∷ ps) rest

  -- A run of the writer: the packets that it appends to a buffer, in order.
  pub data Encodes : Bytes → List Packet → Bytes → Type 0 where
    stop : {dst : Bytes} → Encodes dst [] dst
    step :
        {dst dst' out : Bytes} {p : Packet} {ps : List Packet}
        → encode p dst ≡ (ok tt, dst')
        → Encodes dst' ps out
        → Encodes dst (p ∷ ps) out

  abbrev pub AllSent : Bool → List Packet → Type 0
  AllSent debug [] = Unit {0}
  AllSent debug (p ∷ ps) = IsWire p × Readable debug p × AllSent debug ps

  -- For any list of requests and responses whose headers describe them (and, with debug logging on,
  -- whose types are in the table), the bytes that `encode` appends for them, one after the other,
  -- are decoded into the same packets in the same order, with whatever follows them left in the
  -- buffer.
  pub Decodes-Encodes :
      (debug : Bool) (ps : List Packet)
      → AllSent debug ps
      → (wire : Bytes) × ((dst : Bytes) → Encodes dst ps (dst ++ wire))
        × ((rest : Bytes) → Decodes debug (wire ++ rest) ps rest)
  Decodes-Encodes debug [] h = ([], (λ dst. rw append-nil Encodes.stop), λ rest. Decodes.stop)
  Decodes-Encodes debug (p ∷ ps) h =
      let (frame, (written, read)) = decode-encode debug p h.0 h.1 in
      let (wire, writes, reads) = Decodes-Encodes debug ps h.2 in
      (
        frame ++ wire,
        (λ dst. Encodes.step (written dst) (rw (← append_assoc) (writes (dst ++ frame)))),
        λ rest. rw append_assoc (Decodes.step (read (wire ++ rest)) (reads rest)),
      )
