-- ===== src/PacketNumber.antt =====
-- qbase/src/packet/number.rs: packet numbers, truncated to 1 to 4 bytes on the wire.
pub mod Window
mod Tests
use Prim.Native.Nat.{bit_or, bit_and}
use gm_quic.Prelude.{
  ℕ, zero, suc, ◌+◌, ◌-◌, ◌*◌, ◌/◌, ◌%◌, ◌^◌, max, List, Option, none, some, ltb, leb,
  if◌then◌else◌, ◌&&◌, ◌>>◌, guard,
}
use gm_quic.Wire.{IResult, ok, panic, BufMut, Nom, ◌>>=◌}

pub data PacketNumber : Type 0 where
  u8 u16 u24 u32 : ℕ → PacketNumber

pub put_packet_number : BufMut → List ℕ → PacketNumber → List ℕ
put_packet_number w buf (u8 x) = w.put_u8 buf x
put_packet_number w buf (u16 x) = w.put_u16 buf x
put_packet_number w buf (u24 x) = w.put_u16 (w.put_u8 buf (x / 2 ^ 16 % 2 ^ 8)) (x % 2 ^ 16)
put_packet_number w buf (u32 x) = w.put_u32 buf x

-- A length that is not 1 to 4 is `unreachable!`.
pub take_pn_len : Nom → ℕ → List ℕ → IResult PacketNumber
take_pn_len nom (suc zero) input = nom.be_uint 1 input >>= λ rest x. ok rest (u8 x)
take_pn_len nom (suc (suc zero)) input = nom.be_uint 2 input >>= λ rest x. ok rest (u16 x)
take_pn_len nom (suc (suc (suc zero))) input = nom.be_uint 3 input >>= λ rest x. ok rest (u24 x)
take_pn_len nom (suc (suc (suc (suc zero)))) input =
    nom.be_uint 4 input >>= λ rest x. ok rest (u32 x)
take_pn_len nom n input = panic

-- A range of more than 32 bits panics.
encode_in : ℕ → ℕ → Option PacketNumber
encode_in pn range =
    if ltb range (2 ^ 8)
    then some (u8 (pn % 2 ^ 8))
    else if ltb range (2 ^ 16)
    then some (u16 (pn % 2 ^ 16))
    else if ltb range (2 ^ 24)
    then some (u24 (pn % 2 ^ 32))
    else if ltb range (2 ^ 32)
    then some (u32 (pn % 2 ^ 32))
    else none

-- The `u64` subtraction and product panic out of range.
pub encode : ℕ → ℕ → Option PacketNumber
unfolding encode_in
encode pn largest_acked = do
  guard (leb largest_acked pn && ltb ((pn - largest_acked) * 2) (2 ^ 64))
  encode_in pn (max ((pn - largest_acked) * 2) (2 ^ 16 - 1))

pub size : PacketNumber → ℕ
size (u8 _) = 1
size (u16 _) = 2
size (u24 _) = 3
size (u32 _) = 4

-- `decode` on the bits of a truncated number; sums of `u64` wrap.
decode_bits : ℕ → ℕ → ℕ → ℕ
decode_bits truncated nbits expected =
    let win = 2 ^ nbits in
    let hwin = win / 2 in
    let mask = win - 1 in
    let candidate = bit_or (bit_and expected (2 ^ 64 - 1 - mask)) truncated in
    if leb hwin expected && leb candidate (expected - hwin)
    then (candidate + win) % 2 ^ 64
    else if ltb ((expected + hwin) % 2 ^ 64) candidate && ltb win candidate
    then candidate - win
    else candidate

pub decode : PacketNumber → ℕ → ℕ
decode (u8 x) expected = decode_bits x 8 expected
decode (u16 x) expected = decode_bits x 16 expected
decode (u24 x) expected = decode_bits x 24 expected
decode (u32 x) expected = decode_bits x 32 expected
