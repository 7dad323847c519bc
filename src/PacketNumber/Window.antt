-- ===== src/PacketNumber/Window.antt =====
-- The window of packet numbers around the expected one, and `decode` in it.
use Prim.Native.Nat.{bit_or, bit_and}
use gm_quic.Prelude.{
  ℕ, ◌+◌, ◌-◌, ◌*◌, ◌/◌, ◌%◌, ◌^◌, ◌≤◌, ◌<◌, ◌≡◌, ◌⊎◌, ◌∙◌, List, [], ◌∷◌, ◌++◌, none, some, arith,
  ltb, if◌then◌else◌, length-append, take-append_left, drop-append_left,
}
use gm_quic.Prelude.Bits.{or-shift, and-mask, and-high}
use native.Mathlib.Nat.{mod-eq_of_lt}
use gm_quic.Wire.{ok, BufMut, Nom, be_bytes}
use gm_quic.Wire.BigEndian.{be_value-be_bytes, length-be_bytes}
use gm_quic.PacketNumber.{
  PacketNumber, u8, u16, u24, u32, put_packet_number, take_pn_len, encode, size, decode,
  decode_bits,
}

-- The mask `!(win - 1)` keeps the bits of `expected` from bit `k` on.
high_part :
    (k j expected : ℕ)
    → expected / 2 ^ k < 2 ^ j
    → bit_and expected ((2 ^ j - 1) * 2 ^ k) ≡ expected / 2 ^ k * 2 ^ k
high_part k j expected h =
    rw (and-high k expected (2 ^ j - 1), and-mask j (expected / 2 ^ k), mod-eq_of_lt h)

-- The candidate of `decode`: the high bits of `expected` over the truncated number.
abbrev spliced : ℕ → ℕ → ℕ → ℕ
spliced k expected t = bit_or (expected / 2 ^ k * 2 ^ k) t

module _ (pn expected : ℕ) (small : pn < 2 ^ 62) (near : expected < 2 ^ 62) where
  decode_bits16 :
      expected < pn + 2 ^ 15 → pn ≤ expected + 2 ^ 15 → decode_bits (pn % 2 ^ 16) 16 expected ≡ pn
  unfolding decode_bits
  decode_bits16 lo hi =
      rw
        (
          high_part 16 48 expected (omega arith),
          or-shift 16 (expected / 2 ^ 16) (pn % 2 ^ 16) (omega arith),
        )
        (ground arith)

  decode_bits24 :
      expected < pn + 2 ^ 23 → pn ≤ expected + 2 ^ 23 → decode_bits (pn % 2 ^ 24) 24 expected ≡ pn
  unfolding decode_bits
  decode_bits24 lo hi =
      rw
        (
          high_part 24 40 expected (omega arith),
          or-shift 24 (expected / 2 ^ 24) (pn % 2 ^ 24) (omega arith),
        )
        (ground arith)

  decode_bits32 :
      expected < pn + 2 ^ 31 → pn ≤ expected + 2 ^ 31 → decode_bits (pn % 2 ^ 32) 32 expected ≡ pn
  unfolding decode_bits
  decode_bits32 lo hi =
      rw
        (
          high_part 32 32 expected (omega arith),
          or-shift 32 (expected / 2 ^ 32) (pn % 2 ^ 32) (omega arith),
        )
        (ground arith)

-- A `U24` holds up to 32 bits, and loses the upper eight on the wire.
abbrev pub on_wire : PacketNumber → PacketNumber
on_wire (u24 x) = u24 (x % 2 ^ 24)
on_wire (u8 x) = u8 x
on_wire (u16 x) = u16 x
on_wire (u32 x) = u32 x

abbrev pub Fits : PacketNumber → Type 0
Fits (u8 x) = x < 2 ^ 8
Fits (u16 x) = x < 2 ^ 16
Fits (u24 x) = x < 2 ^ 32
Fits (u32 x) = x < 2 ^ 32

-- A big-endian number of `n` bytes, read from its bytes.
be_uint-be_bytes :
    (nom : Nom) (n x : ℕ) (rest : List ℕ)
    → nom.be_uint n (be_bytes n x ++ rest) ≡ ok rest (x % 256 ^ n)
be_uint-be_bytes nom n x rest =
    nom.be_uint_lem n (be_bytes n x ++ rest)
    ∙ ground (
      arith,
      length-append (be_bytes n x) rest,
      length-be_bytes n x,
      take-append_left (be_bytes n x) rest n,
      drop-append_left (be_bytes n x) rest n,
      be_value-be_bytes n x,
    )

-- What `put_packet_number` writes.
abbrev written : PacketNumber → List ℕ
written (u8 x) = be_bytes 1 x
written (u16 x) = be_bytes 2 x
written (u24 x) = be_bytes 3 x
written (u32 x) = be_bytes 4 x

put_packet_number-written :
    (w : BufMut) (p : PacketNumber) → Fits p → put_packet_number w [] p ≡ written p
unfolding put_packet_number
put_packet_number-written w (u8 x) h = w.put_u8_lem [] x h
put_packet_number-written w (u16 x) h = w.put_u16_lem [] x h
put_packet_number-written w (u24 x) h = ground (
  arith,
  w.put_u8_lem [] (x / 2 ^ 16 % 2 ^ 8),
  w.put_u16_lem (x / 2 ^ 16 % 2 ^ 8 ∷ []) (x % 2 ^ 16),
)
put_packet_number-written w (u32 x) h = w.put_u32_lem [] x h

take_pn_len-written :
    (nom : Nom) (p : PacketNumber) (rest : List ℕ)
    → Fits p
    → take_pn_len nom (size p) (written p ++ rest) ≡ ok rest (on_wire p)
unfolding take_pn_len size
take_pn_len-written nom (u8 x) rest h = rw (be_uint-be_bytes nom 1 x rest, mod-eq_of_lt h)
take_pn_len-written nom (u16 x) rest h = rw (be_uint-be_bytes nom 2 x rest, mod-eq_of_lt h)
take_pn_len-written nom (u24 x) rest h = rw (be_uint-be_bytes nom 3 x rest)
take_pn_len-written nom (u32 x) rest h = rw (be_uint-be_bytes nom 4 x rest, mod-eq_of_lt h)

-- A packet number goes over the wire at its size, but for the upper byte of a `U24`.
pub take_pn_len-put_packet_number :
    (w : BufMut) (nom : Nom) (p : PacketNumber) (rest : List ℕ)
    → Fits p
    → take_pn_len nom (size p) (put_packet_number w [] p ++ rest) ≡ ok rest (on_wire p)
take_pn_len-put_packet_number w nom p rest h =
    rw (put_packet_number-written w p h) (take_pn_len-written nom p rest h)

-- What `encode` picks: 16, 24 or 32 bits, by twice the distance to the largest acknowledged number.
abbrev chosen : ℕ → ℕ → PacketNumber
chosen pn largest_acked =
    if ltb (pn - largest_acked) (2 ^ 15)
    then u16 (pn % 2 ^ 16)
    else if ltb (pn - largest_acked) (2 ^ 23)
    then u24 (pn % 2 ^ 32)
    else u32 (pn % 2 ^ 32)

encode-chosen :
    (pn largest_acked : ℕ)
    → largest_acked ≤ pn
    → pn < largest_acked + 2 ^ 31
    → encode pn largest_acked ≡ some (chosen pn largest_acked)
unfolding encode
encode-chosen pn largest_acked h k = ground arith

-- `encode` panics on a number below the largest acknowledged one, and from a distance of 2 ^ 31 on.
pub encode-none :
    (pn largest_acked : ℕ)
    → (pn < largest_acked) ⊎ (largest_acked + 2 ^ 31 ≤ pn)
    → encode pn largest_acked ≡ none
unfolding encode
encode-none pn largest_acked h = ground arith

chosen-Fits : (pn largest_acked : ℕ) → Fits (chosen pn largest_acked)
chosen-Fits pn largest_acked = ground arith

decode-chosen :
    (pn largest_acked expected : ℕ)
    → largest_acked ≤ pn
    → pn < largest_acked + 2 ^ 31
    → pn < 2 ^ 62
    → expected < 2 ^ 62
    → largest_acked ≤ expected
    → expected < pn + 2 ^ 15
    → decode (on_wire (chosen pn largest_acked)) expected ≡ pn
unfolding decode
decode-chosen pn largest_acked expected h k small near lo hi = ground (
  arith,
  decode_bits16 pn expected small near,
  decode_bits24 pn expected small near,
  decode_bits32 pn expected small near,
)

-- A packet number that the sender encodes against the largest acknowledged one is written on the
-- wire, read at its size and decoded to itself by every receiver that expects a number from that
-- acknowledged one on, and less than 2 ^ 15 beyond the number itself.
pub decode-encode :
    (w : BufMut) (nom : Nom) (pn largest_acked expected : ℕ) (rest : List ℕ)
    → largest_acked ≤ pn
    → pn < largest_acked + 2 ^ 31
    → pn < 2 ^ 62
    → expected < 2 ^ 62
    → largest_acked ≤ expected
    → expected < pn + 2 ^ 15
    → (p : PacketNumber) × (q : PacketNumber) × (encode pn largest_acked ≡ some p)
      × (take_pn_len nom (size p) (put_packet_number w [] p ++ rest) ≡ ok rest q)
      × (decode q expected ≡ pn)
decode-encode w nom pn largest_acked expected rest h k small near lo hi = (
  chosen pn largest_acked,
  on_wire (chosen pn largest_acked),
  encode-chosen pn largest_acked h k,
  take_pn_len-put_packet_number w nom _ rest (chosen-Fits pn largest_acked),
  decode-chosen pn largest_acked expected h k small near lo hi,
)
