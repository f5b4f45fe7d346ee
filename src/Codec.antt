-- ===== src/Codec.antt =====
-- rustygear/src/codec.rs: `PacketCodec`, which cuts packets out of the bytes of a connection and
-- writes them. Each function that works on a buffer returns the buffer as it leaves it.
pub mod Admin
pub mod Chunks
pub mod Reverse
pub mod RoundTrip
pub mod Shrink
use rustygear.Constants
use rustygear.Constants.Table.{ptypes}
use rustygear.Outcome.{Outcome, ok, err, panic, invalid_string}
use rustygear.Packet.{PacketMagic, unknown, req, res, text, Packet, position}
use rustygear.Prelude.{
  ℕ, ◌+◌, ◌<◌, ◌^◌, ◌≡◌, Bool, ◌&&◌, Option, none, some, List, [], ◌++◌, Bytes, bytes_eq, ◌==◌,
  length, take, drop, ltb, leb, codes, if◌then◌else◌, IsBytes,
}
use rustygear.Text.{from_utf8, trim}

-- `put_u32` and `get_u32` of the crate `bytes`: four bytes for a `u32`, in one order, which the two
-- share.
pub record Word : Type 0 where
  pub put_u32 : ℕ → Bytes
  pub get_u32 : Bytes → ℕ
  pub length-put_u32 : (n : ℕ) → length (put_u32 n) ≡ 4
  pub get_u32-put_u32 : (n : ℕ) → n < 2 ^ 32 → get_u32 (put_u32 n) ≡ n
  pub put_u32-get_u32 : (bs : Bytes) → length bs ≡ 4 → IsBytes bs → put_u32 (get_u32 bs) ≡ bs

-- The command of a line, by its trimmed text.
unfoldable pub admin_command : List ℕ → ℕ
admin_command t =
    if t == codes "version"
    then Constants.admin_version
    else if t == codes "status"
    then Constants.admin_status
    else if t == codes "workers"
    then Constants.admin_workers
    else Constants.admin_unknown

unfoldable pub admin_packet : ℕ → Packet
admin_packet command = record { magic = text; ptype = command; psize = 0; body = [] }

unfoldable pub admin_line : Bytes → Outcome (Option Packet)
unfolding admin_command admin_packet
admin_line line = elim (from_utf8 line) [
  | none ↦ err invalid_string
  | some data_str ↦ ok (some (admin_packet (admin_command (trim data_str))))
]

unfoldable pub admin_decode : Bytes → Outcome (Option Packet) × Bytes
admin_decode buf = elim (position b'\n' buf) [
  | some n ↦ (admin_line (take n buf), drop 1 (drop n buf))
  | none ↦ (ok none, buf)
]

unfoldable pub magic_of : Bytes → PacketMagic
magic_of magic_buf =
    if magic_buf == Constants.magic_req
    then req
    else if magic_buf == Constants.magic_res
    then res
    else text

-- A request or a response, after its header is read. With debug logging on, the number of the
-- packet type is an index into `PTYPES`, and one that is out of range panics.
unfoldable pub decode_body : Bool → PacketMagic → ℕ → ℕ → Bytes → Outcome (Option Packet) × Bytes
decode_body debug magic ptype psize src =
    let packet : Packet = record {
      magic = magic;
      ptype = ptype;
      psize = psize;
      body = take psize (drop 12 src);
    } in
    if debug && leb (length ptypes) ptype
    then (panic, src)
    else if ltb (length src) (12 + psize)
    then (ok none, src)
    else (ok (some packet), drop psize (drop 12 src))

module _ ⦃w : Word⦄ where
  -- The two parts of a packet on the wire.
  unfoldable pub into_bytes : Packet → Outcome (Bytes × Bytes)
  into_bytes p = elim p.magic [
    | unknown ↦ panic
    | req ↦ ok (Constants.magic_req ++ w.put_u32 p.ptype ++ w.put_u32 p.psize, p.body)
    | res ↦ ok (Constants.magic_res ++ w.put_u32 p.ptype ++ w.put_u32 p.psize, p.body)
    | text ↦ ok ([], p.body)
  ]

  unfoldable pub encode : Packet → Bytes → Outcome (Unit {0}) × Bytes
  unfolding into_bytes
  encode p dst = elim (into_bytes p) [
    | ok (header, body) ↦ (ok tt, (dst ++ header) ++ body)
    | err e ↦ (err e, dst)
    | panic ↦ (panic, dst)
  ]

  -- The two numbers of a header of twelve bytes.
  unfoldable pub header_ptype : Bytes → ℕ
  header_ptype header = w.get_u32 (take 4 (drop 4 header))

  unfoldable pub header_psize : Bytes → ℕ
  header_psize header = w.get_u32 (take 4 (drop 8 header))

  unfoldable pub decode_binary : Bool → PacketMagic → Bytes → Outcome (Option Packet) × Bytes
  decode_binary debug magic src =
      let header = take 12 src in
      if ltb (length src) 12
      then (ok none, src)
      else decode_body debug magic (header_ptype header) (header_psize header) src

  unfoldable pub decode_as : Bool → PacketMagic → Bytes → Outcome (Option Packet) × Bytes
  decode_as debug text src = admin_decode src
  decode_as debug m src = decode_binary debug m src

  -- `debug` says whether debug logging is on.
  unfoldable pub decode : Bool → Bytes → Outcome (Option Packet) × Bytes
  decode debug src =
      if ltb (length src) 4 then (ok none, src) else decode_as debug (magic_of (take 4 src)) src
