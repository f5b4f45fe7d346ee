-- ===== src/Packet.antt =====
-- rustygear/src/codec.rs and rustygear/src/util.rs: packets, how they are made, and the fields of
-- their bodies. A `Bytes` is its contents; `next_field` returns what it leaves in the buffer too.
pub mod Fields
use rustygear.Constants
use rustygear.Prelude.{
  ℕ, zero, suc, ◌+◌, ◌%◌, ◌^◌, Bool, true, false, not, Option, none, some, List, [], ◌∷◌, Bytes,
  nat_eq, ◌==◌, length, take, drop, if◌then◌else◌,
}

pub data PacketMagic : Type 0 where
  unknown req res text : PacketMagic

pub record Packet : Type 0 where
  pub magic : PacketMagic
  pub ptype : ℕ
  pub psize : ℕ
  pub body : Bytes

-- `len() as u32`
abbrev pub as_u32 : ℕ → ℕ
as_u32 n = n % 2 ^ 32

unfoldable pub new_res : ℕ → Bytes → Packet
new_res t d = record { magic = res; ptype = t; psize = as_u32 (length d); body = d }

unfoldable pub new_req : ℕ → Bytes → Packet
new_req t d = record { magic = req; ptype = t; psize = as_u32 (length d); body = d }

unfoldable pub no_response : Packet
no_response = record { magic = text; ptype = Constants.admin_response; psize = 0; body = [] }

unfoldable pub new_text_res : Bytes → Packet
new_text_res d = record {
  magic = text;
  ptype = Constants.admin_response;
  psize = as_u32 (length d);
  body = d;
}

-- `iter().position(|b| *b == c)`
unfoldable pub position : ℕ → Bytes → Option ℕ
position c [] = none
position c (b ∷ bs) =
    let rest = position c bs in
    if b == c then some 0 else elim rest [ none ↦ none | some n ↦ some (suc n) ]

-- The field up to the first null, and the buffer behind that null.
unfoldable pub next_field : Bytes → Bytes × Bytes
next_field buf = elim (position 0 buf) [
  | some n ↦ (take n buf, drop 1 (drop n buf))
  | none ↦ (take (length buf) buf, drop (length buf) buf)
]

unfoldable pub bytes2bool : Bytes → Bool
bytes2bool [] = false
bytes2bool (b ∷ []) = if b == b'1' then true else false
bytes2bool (b ∷ c ∷ bs) = false
