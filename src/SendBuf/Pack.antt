-- ===== src/SendBuf/Pack.antt =====
-- qrecovery/src/send/sndbuf.rs, `State`: an offset and a color in one `u64`.
use Prim.Native.Nat.{bit_or, bit_and}
use gm_quic.Prelude.{
  ℕ, ◌+◌, ◌-◌, ◌*◌, ◌/◌, ◌^◌, ◌<◌, ◌≡◌, refl, ◌∙◌, Option, none, some, arith, ◌==◌, if◌then◌else◌,
  ◌>>=◌,
}
use gm_quic.Prelude.Bits.{or-shift, and-mask}
use gm_quic.SendBuf.Map.{Color, pending, flighting, recved, lost}

-- The two bits of a color, which `prefix` shifts to the top.
abbrev pub color_bits : Color → ℕ
color_bits pending = 0
color_bits flighting = 1
color_bits lost = 2
color_bits recved = 3

unfoldable pub encode : ℕ → Color → ℕ
encode pos color = bit_or (color_bits color * 2 ^ 62) pos

unfoldable pub offset : ℕ → ℕ
offset word = bit_and word (2 ^ 62 - 1)

-- `none` is `unreachable!`.
unfoldable pub color : ℕ → Option Color
color word =
    let bits = word / 2 ^ 62 in
    if bits == 0
    then some pending
    else if bits == 1
    then some flighting
    else if bits == 2
    then some lost
    else if bits == 3
    then some recved
    else none

unfoldable pub decode : ℕ → Option (ℕ × Color)
unfolding offset color
decode word = color word >>= λ c. some (offset word, c)

color-word : (pos : ℕ) (c : Color) → pos < 2 ^ 62 → color (color_bits c * 2 ^ 62 + pos) ≡ some c
unfolding color
color-word pos pending h =
    let top : (0 * 2 ^ 62 + pos) / 2 ^ 62 ≡ 0 = omega (arith, h) in rw top refl
color-word pos flighting h =
    let top : (1 * 2 ^ 62 + pos) / 2 ^ 62 ≡ 1 = omega (arith, h) in rw top refl
color-word pos lost h = let top : (2 * 2 ^ 62 + pos) / 2 ^ 62 ≡ 2 = omega (arith, h) in rw top refl
color-word pos recved h =
    let top : (3 * 2 ^ 62 + pos) / 2 ^ 62 ≡ 3 = omega (arith, h) in rw top refl

-- A state is decoded to the offset and the color that it was made of, for offsets of 62 bits.
pub decode-encode_state :
    (pos : ℕ) (c : Color) → pos < 2 ^ 62 → decode (encode pos c) ≡ some (pos, c)
unfolding encode decode offset
decode-encode_state pos c h =
    let word = or-shift 62 (color_bits c) pos h in
    let low : bit_and (color_bits c * 2 ^ 62 + pos) (2 ^ 62 - 1) ≡ pos =
      and-mask 62 (color_bits c * 2 ^ 62 + pos) ∙ omega (arith, h) in
    rw word (rw (color-word pos c h) (rw low refl))
