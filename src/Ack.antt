-- ===== src/Ack.antt =====
-- qbase/src/frame/ack.rs: the ACK frame, its bytes and the ranges of packet numbers in it. The
-- parser is in the child Parse.
pub mod Parse
pub mod Ranges
pub mod RoundTrip
pub mod Size
mod Tests
use gm_quic.Prelude.{
  ℕ, ◌+◌, ◌-◌, ◌*◌, List, [], ◌∷◌, Option, none, some, leb, length, ◌>>=◌, ◌>>◌, guard,
}
use Prim.Native.Nat.{bit_or}
use gm_quic.Wire.{BufMut}
use gm_quic.VarInt.{put_varint, encoding_size, varint_max}

pub record EcnCounts : Type 0 where
  pub ect0 : ℕ
  pub ect1 : ℕ
  pub ce : ℕ

-- Of a pair in `ranges` the first number is the gap, the second the length of the range.
pub record AckFrame : Type 0 where
  pub largest : ℕ
  pub delay : ℕ
  pub first_range : ℕ
  pub ranges : List (ℕ × ℕ)
  pub ecn : Option EcnCounts

-- `RangeInclusive<u64>`
pub record Range : Type 0 where
  pub first : ℕ
  pub last : ℕ

-- The `scan` of `iter`, run to its end. A subtraction below 0 panics.
unfoldable pub scan : ℕ → List (ℕ × ℕ) → Option (List Range)
scan largest [] = some []
scan largest ((gap, range) ∷ rest) =
    let right = largest - gap - 2 in
    let left = right - range in
    let more = scan left rest in
    guard (leb (gap + 2) largest)
    >> (guard (leb range right)
        >> (more >>= λ rs. some (record { first = left; last = right } ∷ rs)))

unfoldable pub iter : AckFrame → Option (List Range)
unfolding scan
iter f =
    let left = f.largest - f.first_range in
    guard (leb f.first_range f.largest)
    >> (scan left f.ranges >>= λ rs. some (record { first = left; last = f.largest } ∷ rs))

abbrev pub ack_frame_type : ℕ
ack_frame_type = 2

abbrev pub ecn_opt : ℕ
ecn_opt = 1

unfoldable pub max_encoding_size : AckFrame → ℕ
max_encoding_size f =
    1 + 8 + 8 + 8 + 8 + length f.ranges * 16 + elim (f.ecn) [ none ↦ 0 | some _ ↦ 24 ]

unfoldable pub ranges_size : List (ℕ × ℕ) → Option ℕ
ranges_size [] = some 0
ranges_size ((gap, ack) ∷ rest) =
    let more = ranges_size rest in
    encoding_size gap >>= λ g. encoding_size ack >>= λ a. more >>= λ m. some (g + a + m)

unfoldable pub ecn_size : Option EcnCounts → Option ℕ
ecn_size none = some 0
ecn_size (some e) = encoding_size e.ect0 >>= λ a.
    encoding_size e.ect1 >>= λ b. encoding_size e.ce >>= λ c. some (a + b + c)

-- `EncodeFrame::encoding_size`; a number beyond `varint_max` panics.
unfoldable pub frame_size : AckFrame → Option ℕ
unfolding ranges_size ecn_size
frame_size f =
    guard (leb (length f.ranges) varint_max)
    >> (encoding_size f.largest >>= λ l. encoding_size f.delay >>= λ d.
        encoding_size (length f.ranges) >>= λ c. encoding_size f.first_range >>= λ r.
        ranges_size f.ranges >>= λ rs. ecn_size f.ecn >>= λ e. some (1 + l + d + c + r + rs + e))

unfoldable pub put_ranges : BufMut → List ℕ → List (ℕ × ℕ) → Option (List ℕ)
put_ranges w buf [] = some buf
put_ranges w buf ((gap, ack) ∷ rest) =
    put_varint w buf gap >>= λ b. put_varint w b ack >>= λ b'. put_ranges w b' rest

unfoldable pub put_ecn : BufMut → List ℕ → Option EcnCounts → Option (List ℕ)
put_ecn w buf none = some buf
put_ecn w buf (some e) =
    put_varint w buf e.ect0 >>= λ b. put_varint w b e.ect1 >>= λ b'. put_varint w b' e.ce

unfoldable pub type_byte : AckFrame → ℕ
type_byte f = elim (f.ecn) [ none ↦ ack_frame_type | some _ ↦ bit_or ack_frame_type ecn_opt ]

unfoldable pub put_frame : BufMut → List ℕ → AckFrame → Option (List ℕ)
unfolding put_ranges put_ecn type_byte
put_frame w buf f = put_varint w (w.put_u8 buf (type_byte f)) f.largest >>= λ b1.
    put_varint w b1 f.delay >>= λ b2.
    guard (leb (length f.ranges) varint_max)
    >> (put_varint w b2 (length f.ranges) >>= λ b3. put_varint w b3 f.first_range >>= λ b4.
        put_ranges w b4 f.ranges >>= λ b5. put_ecn w b5 f.ecn)
