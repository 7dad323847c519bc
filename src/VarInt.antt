-- ===== src/VarInt.antt =====
-- qbase/src/varint.rs: the variable-length integers of QUIC. A `VarInt` is its `u64`.
pub mod RoundTrip
mod Tests
use Prim.Native.Nat.{bit_or}
use gm_quic.Prelude.{
  ℕ, ◌+◌, ◌-◌, ◌*◌, ◌/◌, ◌%◌, ◌^◌, List, Option, none, some, ltb, if◌then◌else◌, length,
}
use gm_quic.Prelude.{◌>>◌, guard}
use gm_quic.Wire.{BitResult, bits_ok, bits_incomplete, IResult, ok, incomplete, error, panic}
use gm_quic.Wire.{BufMut, Nom}

abbrev pub varint_max : ℕ
varint_max = 0x3fff_ffff_ffff_ffff

pub data EncodeBytes : Type 0 where
  one two four eight : EncodeBytes

-- `None` is `Err(Overflow)`.
unfoldable pub from_u64 : ℕ → Option ℕ
from_u64 x = if ltb x (2 ^ 62) then some x else none

unfoldable pub from_u128 : ℕ → Option ℕ
from_u128 x = if ltb x (2 ^ 62) then some (x % 2 ^ 64) else none

-- `none` is the panic of `unreachable!`.
unfoldable pub encoding_size : ℕ → Option ℕ
encoding_size x =
    if ltb x (2 ^ 6)
    then some 1
    else if ltb x (2 ^ 14)
    then some 2
    else if ltb x (2 ^ 30)
    then some 4
    else if ltb x (2 ^ 62)
    then some 8
    else none

-- The error path turns the bits that are needed into bytes. Its `usize` subtraction panics below 0.
shortage : ℕ → List ℕ → IResult ℕ
shortage n input =
    if ltb ((n + 7) / 8) (length input) then panic else incomplete ((n + 7) / 8 - length input)

-- The second `take` of the `flat_map`.
be_varint_value : Nom → List ℕ → List ℕ → ℕ → ℕ → IResult ℕ
unfolding shortage
be_varint_value nom input rest offset prefix =
    elim (nom.take_bits (8 * 2 ^ prefix - 2) rest offset) [
      | bits_ok buf _ value ↦ ok buf value
      | bits_incomplete n ↦ shortage n input
    ]

pub be_varint : Nom → List ℕ → IResult ℕ
unfolding be_varint_value
be_varint nom input = elim (nom.take_bits 2 input 0) [
  | bits_ok rest offset prefix ↦ be_varint_value nom input rest offset prefix
  | bits_incomplete n ↦ shortage n input
]

pub put_varint : BufMut → List ℕ → ℕ → Option (List ℕ)
put_varint w buf x =
    if ltb x (2 ^ 6)
    then some (w.put_u8 buf (x % 2 ^ 8))
    else if ltb x (2 ^ 14)
    then some (w.put_u16 buf (bit_or (1 * 2 ^ 14) (x % 2 ^ 16)))
    else if ltb x (2 ^ 30)
    then some (w.put_u32 buf (bit_or (2 * 2 ^ 30) (x % 2 ^ 32)))
    else if ltb x (2 ^ 62)
    then some (w.put_u64 buf (bit_or (3 * 2 ^ 62) x))
    else none

pub encode_varint : BufMut → List ℕ → ℕ → EncodeBytes → Option (List ℕ)
encode_varint w buf x one = do guard (ltb x (2 ^ 6)); some (w.put_u8 buf (x % 2 ^ 8))
encode_varint w buf x two = do
  guard (ltb x (2 ^ 14))
  some (w.put_u16 buf (bit_or (1 * 2 ^ 14) (x % 2 ^ 16)))
encode_varint w buf x four = do
  guard (ltb x (2 ^ 30))
  some (w.put_u32 buf (bit_or (2 * 2 ^ 30) (x % 2 ^ 32)))
encode_varint w buf x eight = do
  guard (ltb x (2 ^ 62))
  some (w.put_u64 buf (bit_or (3 * 2 ^ 62) x))
