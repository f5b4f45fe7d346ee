-- ===== src/Tests/Codec.antt =====
-- Packets on the wire, at concrete inputs: rustygear/src/codec.rs and rustygear/src/util.rs.
use rustygear.Codec.{admin_command}
use rustygear.Text.{is_whitespace}
use rustygear.Constants
use rustygear.Codec.{
  admin_packet, decode, encode, into_bytes, decode_as, magic_of, decode_binary, decode_body,
  header_ptype, header_psize,
}
use rustygear.Codec.Admin.{decode-line}
use rustygear.Codec.Chunks.{Streams, decode-Streams}
use rustygear.Codec.Shrink.{Drained, decode-Drained}
use rustygear.Codec.Reverse.{Written, encode-decode}
use rustygear.Codec.RoundTrip.{IsWire, AllSent, Encodes, Decodes, Decodes-Encodes}
use rustygear.Outcome.{ok, panic}
use rustygear.Packet.{text, Packet, req, res, bytes2bool}
use rustygear.Prelude.{
  take, ◌≢◌, IsBytes, ◌≡◌, refl, true, false, some, [], ◌∷◌, ◌++◌, arith, Bytes, codes, inl, inr,
}
use rustygear.Tests.Instances.{network_order}

-- SUBMIT_JOB of the function `f` with the unique id `u` and the payload `x`, and its answer.
abbrev submission : Packet
submission = record { magic = req; ptype = 7; psize = 5; body = b'f' ∷ 0 ∷ b'u' ∷ 0 ∷ b'x' ∷ [] }

abbrev creation : Packet
creation = record { magic = res; ptype = 8; psize = 3; body = codes "H:1" }

submission-IsWire : IsWire submission
submission-IsWire = record {
  magic = inl refl;
  ptype = omega arith;
  psize = omega arith;
  sized = refl;
}

creation-IsWire : IsWire creation
creation-IsWire = record {
  magic = inr refl;
  ptype = omega arith;
  psize = omega arith;
  sized = refl;
}

both-AllSent : AllSent true (submission ∷ creation ∷ [])
both-AllSent = (submission-IsWire, refl, (creation-IsWire, refl, tt))

abbrev wire : Bytes
wire = 0 ∷ b'R' ∷ b'E' ∷ b'Q' ∷ 0 ∷ 0 ∷ 0 ∷ 7 ∷ 0 ∷ 0 ∷ 0 ∷ 5 ∷ b'f' ∷ 0 ∷ b'u' ∷ 0 ∷ b'x' ∷ []

encode-run : encode submission [] ≡ (ok tt, wire)
unfolding encode into_bytes
encode-run = refl

decode-run : decode true (wire ++ b'y' ∷ []) ≡ (ok (some submission), b'y' ∷ [])
unfolding decode decode_as magic_of decode_binary decode_body header_ptype header_psize
decode-run = refl

-- A type that is in no table, with debug logging on.
abbrev strange : Bytes
strange = 0 ∷ b'R' ∷ b'E' ∷ b'Q' ∷ 0 ∷ 0 ∷ 0 ∷ 99 ∷ 0 ∷ 0 ∷ 0 ∷ 0 ∷ []

decode-panic : decode true strange ≡ (panic, strange)
unfolding decode decode_as magic_of decode_binary decode_body header_ptype header_psize
decode-panic = refl

bytes2bool-run : (bytes2bool (b'1' ∷ []) ≡ true) × (bytes2bool (b'0' ∷ []) ≡ false)
unfolding bytes2bool
bytes2bool-run = (refl, refl)

Decodes-Encodes_example :
    (wire : Bytes) × ((dst : Bytes) → Encodes dst (submission ∷ creation ∷ []) (dst ++ wire))
    × ((rest : Bytes) → Decodes true (wire ++ rest) (submission ∷ creation ∷ []) rest)
Decodes-Encodes_example = Decodes-Encodes true (submission ∷ creation ∷ []) both-AllSent

decode-Streams_example : Streams (decode true) wire (b'y' ∷ [])
decode-Streams_example = decode-Streams true wire (b'y' ∷ [])

decode-line_example :
    decode true ((codes " " ++ (codes "status" ++ codes "\r")) ++ b'\n' ∷ codes "ver")
    ≡ (ok (some (admin_packet Constants.admin_status)), codes "ver")
unfolding is_whitespace admin_command
decode-line_example =
    decode-line true (codes " ") (codes "status") (codes "\r") (codes "ver")
      (refl, (refl, (refl, (refl, (refl, (refl, (refl, (refl, tt)))))))) (refl, tt)
      (refl, (refl, (refl, (refl, (refl, (refl, tt)))))) (refl, tt) (omega arith)

-- PRE_SLEEP as it stands on the wire.
abbrev resting : Packet
resting = record { magic = req; ptype = 4; psize = 0; body = [] }

abbrev resting_wire : Bytes
resting_wire = 0 ∷ b'R' ∷ b'E' ∷ b'Q' ∷ 0 ∷ 0 ∷ 0 ∷ 4 ∷ 0 ∷ 0 ∷ 0 ∷ 0 ∷ []

resting_wire-IsBytes : IsBytes resting_wire
resting_wire-IsBytes = (
  omega arith,
  (
    omega arith,
    (
      omega arith,
      (
        omega arith,
        (
          omega arith,
          (
            omega arith,
            (
              omega arith,
              (omega arith, (omega arith, (omega arith, (omega arith, (omega arith, tt))))),
            ),
          ),
        ),
      ),
    ),
  ),
)

resting_binary : magic_of (take 4 resting_wire) ≢ text
unfolding magic_of
resting_binary e = cc

resting_read : decode true resting_wire ≡ (ok (some resting), [])
unfolding decode decode_as magic_of decode_binary decode_body header_ptype header_psize
resting_read = refl

encode-decode_example : Written resting resting_wire []
encode-decode_example =
    encode-decode true resting_wire [] resting resting_wire-IsBytes resting_binary resting_read

decode-Drained_example : Drained true (wire ++ b'y' ∷ [])
decode-Drained_example = decode-Drained true (wire ++ b'y' ∷ [])
