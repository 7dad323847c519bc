-- ===== src/VarInt/RoundTrip.antt =====
-- The encoders and the parser of qbase/src/varint.rs on the same bytes.
use gm_quic.Prelude.{
  ℕ, zero, suc, ◌+◌, ◌-◌, ◌*◌, ◌≤◌, none, ◌/◌, ◌%◌, ◌^◌, ◌≤◌, ◌<◌, ◌≡◌, List, [], ◌∷◌, ◌++◌, none,
  some, arith, All, ltb, if◌then◌else◌, length, take, drop, ◌∙◌, refl, ap, length-append,
  take-append_left, drop-append_left,
}
use gm_quic.Prelude.Bits.{or-shift}
use native.Mathlib.Nat.{one-le-pow}
use gm_quic.Wire.{IResult, ok, incomplete, BufMut, Nom, IsByte, be_bytes, be_value}
use gm_quic.Wire.BigEndian.{be_value-be_bytes, length-be_bytes}
use gm_quic.Wire.{BitResult, bits_ok, bits_incomplete}
use gm_quic.VarInt.{
  EncodeBytes, one, two, four, eight, encoding_size, be_varint, be_varint_value, shortage,
  put_varint, encode_varint,
}

-- The bytes of `x` on `2 ^ s` bytes: two bits of prefix, the rest big-endian.
abbrev pub prefixed : ℕ → ℕ → List ℕ
prefixed s x = be_bytes (2 ^ s) (s * 2 ^ (8 * 2 ^ s - 2) + x)

abbrev pub size_class : ℕ → ℕ
size_class x =
    if ltb x (2 ^ 6) then 0 else if ltb x (2 ^ 14) then 1 else if ltb x (2 ^ 30) then 2 else 3

abbrev pub encoding : ℕ → List ℕ
encoding x = prefixed (size_class x) x

-- `n` bytes are `2 ^ class_of n` of them.
abbrev pub class_of : EncodeBytes → ℕ
class_of one = 0
class_of two = 1
class_of four = 2
class_of eight = 3

abbrev pub capacity : EncodeBytes → ℕ
capacity n = 2 ^ (8 * 2 ^ class_of n - 2)

pub put_varint-encoding :
    (w : BufMut) (buf : List ℕ) (x : ℕ) → x < 2 ^ 62 → put_varint w buf x ≡ some (buf ++ encoding x)
unfolding put_varint
put_varint-encoding w buf x h = ground (
  arith,
  w.put_u8_lem buf (x % 2 ^ 8),
  or-shift 14 1 (x % 2 ^ 16),
  w.put_u16_lem buf (2 ^ 14 + x),
  or-shift 30 2 (x % 2 ^ 32),
  w.put_u32_lem buf (2 * 2 ^ 30 + x),
  or-shift 62 3 x,
  w.put_u64_lem buf (3 * 2 ^ 62 + x),
)

-- The first two bits of a byte.
take_prefix :
    (nom : Nom) (b : ℕ) (bs : List ℕ) → nom.take_bits 2 (b ∷ bs) 0 ≡ bits_ok (b ∷ bs) 2 (b / 64 % 4)
take_prefix nom b bs =
    let first : (b * 1 + 0) / 64 % 4 ≡ b / 64 % 4 = omega arith in
    nom.take_bits_lem 2 (b ∷ bs) 0 (omega arith) ∙ ground (arith, first)

-- The rest of the first `n` bytes.
abbrev field_result : List ℕ → ℕ → ℕ → BitResult
field_result bs n count =
    if ltb (length bs) n
    then bits_incomplete count
    else bits_ok (drop n bs) 0 (be_value (take n bs) % 2 ^ count)

take_field :
    (nom : Nom) (bs : List ℕ) (p : ℕ)
    → p < 4
    → nom.take_bits (8 * 2 ^ p - 2) bs 2 ≡ field_result bs (2 ^ p) (8 * 2 ^ p - 2)
take_field nom bs zero h = nom.take_bits_lem 6 bs 2 (omega arith) ∙ ground arith
take_field nom bs (suc zero) h = nom.take_bits_lem 14 bs 2 (omega arith) ∙ ground arith
take_field nom bs (suc (suc zero)) h = nom.take_bits_lem 30 bs 2 (omega arith) ∙ ground arith
take_field nom bs (suc (suc (suc zero))) h = nom.take_bits_lem 62 bs 2 (omega arith) ∙ ground arith
take_field nom bs (suc (suc (suc (suc p)))) h = absurd (omega arith)

-- What a parser of variable-length integers owes on any bytes.
abbrev pub varint_spec : List ℕ → IResult ℕ
varint_spec [] = incomplete 1
varint_spec (b ∷ bs) =
    let n = 2 ^ (b / 64) in
    if ltb (length (b ∷ bs)) n
    then incomplete (n - length (b ∷ bs))
    else ok (drop n (b ∷ bs)) (be_value (take n (b ∷ bs)) % 2 ^ (8 * n - 2))

be_varint_step :
    (nom : Nom) (input : List ℕ) (p : ℕ)
    → p < 4
    → be_varint_value nom input input 2 p ≡ (
        if ltb (length input) (2 ^ p)
        then incomplete (2 ^ p - length input)
        else ok (drop (2 ^ p) input) (be_value (take (2 ^ p) input) % 2 ^ (8 * 2 ^ p - 2)))
unfolding be_varint_value shortage
be_varint_step nom input p h =
    rw (be_varint_value, take_field nom input p h) (ground (arith, one-le-pow p 2))

be_varint_at :
    (nom : Nom) (b : ℕ) (bs : List ℕ) (p : ℕ)
    → p < 4
    → b / 64 % 4 ≡ p
    → be_varint nom (b ∷ bs) ≡ (
        if ltb (length (b ∷ bs)) (2 ^ p)
        then incomplete (2 ^ p - length (b ∷ bs))
        else ok (drop (2 ^ p) (b ∷ bs)) (be_value (take (2 ^ p) (b ∷ bs)) % 2 ^ (8 * 2 ^ p - 2)))
unfolding be_varint
be_varint_at nom b bs p h e =
    rw (be_varint, take_prefix nom b bs, e) (be_varint_step nom (b ∷ bs) p h)

-- On every byte string `be_varint` behaves as the prefix of the first byte says: it needs
-- `2 ^ prefix` bytes, asks for exactly as many as are missing, and never panics.
pub be_varint_lem :
    (nom : Nom) (input : List ℕ) → All IsByte input → be_varint nom input ≡ varint_spec input
unfolding be_varint
be_varint_lem nom [] h = rw (be_varint, nom.take_bits_lem 2 [] 0 (omega arith))
be_varint_lem nom (b ∷ bs) h = be_varint_at nom b bs (b / 64) (omega arith) (omega arith)

-- A run of the parser over `2 ^ p` bytes and what follows them.
be_varint-append :
    (nom : Nom) (b : ℕ) (bs rest : List ℕ) (p : ℕ)
    → p < 4
    → b / 64 % 4 ≡ p
    → 2 ^ p ≡ length (b ∷ bs)
    → be_varint nom (b ∷ bs ++ rest) ≡ ok rest (be_value (b ∷ bs) % 2 ^ (8 * 2 ^ p - 2))
be_varint-append nom b bs rest p h e l =
    be_varint_at nom b (bs ++ rest) p h e
    ∙ ground (
      arith,
      length-append (b ∷ bs) rest,
      take-append_left (b ∷ bs) rest (2 ^ p) l,
      drop-append_left (b ∷ bs) rest (2 ^ p) l,
    )

-- The bytes that `put_varint` writes for `x`, on 1, 2, 4 or 8 bytes, are read back as `x`, and
-- whatever follows them is left.
pub be_varint-prefixed :
    (nom : Nom) (s x : ℕ) (rest : List ℕ)
    → s < 4
    → x < 2 ^ (8 * 2 ^ s - 2)
    → be_varint nom (prefixed s x ++ rest) ≡ ok rest x
be_varint-prefixed nom zero x rest h fits =
    be_varint-append nom ((0 + x) / 256 ^ 0 % 256) (be_bytes 0 (0 + x)) rest 0 h (omega arith) refl
    ∙ ap (ok rest) (omega (arith, be_value-be_bytes 1 (0 + x)))
be_varint-prefixed nom (suc zero) x rest h fits =
    be_varint-append nom ((2 ^ 14 + x) / 256 ^ 1 % 256) (be_bytes 1 (2 ^ 14 + x)) rest 1 h
      (omega arith) refl
    ∙ ap (ok rest) (omega (arith, be_value-be_bytes 2 (2 ^ 14 + x)))
be_varint-prefixed nom (suc (suc zero)) x rest h fits =
    be_varint-append nom ((2 * 2 ^ 30 + x) / 256 ^ 3 % 256) (be_bytes 3 (2 * 2 ^ 30 + x)) rest 2 h
      (omega arith) refl
    ∙ ap (ok rest) (omega (arith, be_value-be_bytes 4 (2 * 2 ^ 30 + x)))
be_varint-prefixed nom (suc (suc (suc zero))) x rest h fits =
    be_varint-append nom ((3 * 2 ^ 62 + x) / 256 ^ 7 % 256) (be_bytes 7 (3 * 2 ^ 62 + x)) rest 3 h
      (omega arith) refl
    ∙ ap (ok rest) (omega (arith, be_value-be_bytes 8 (3 * 2 ^ 62 + x)))
be_varint-prefixed nom (suc (suc (suc (suc s)))) x rest h fits = absurd (omega arith)

pub size_class-fits :
    (x : ℕ) → x < 2 ^ 62 → (size_class x < 4) × (x < 2 ^ (8 * 2 ^ size_class x - 2))
size_class-fits x h = ground arith

-- `be_varint` reads back every `VarInt` that `put_varint` writes, and leaves what follows it.
pub be_varint-put_varint :
    (w : BufMut) (nom : Nom) (x : ℕ) (rest : List ℕ)
    → x < 2 ^ 62
    → (written : List ℕ) × (put_varint w [] x ≡ some written)
      × (be_varint nom (written ++ rest) ≡ ok rest x)
be_varint-put_varint w nom x rest h =
    let (small, fits) = size_class-fits x h in
    (
      encoding x,
      put_varint-encoding w [] x h,
      be_varint-prefixed nom (size_class x) x rest small fits,
    )

pub length-encoding : (x : ℕ) → x < 2 ^ 62 → some (length (encoding x)) ≡ encoding_size x
unfolding encoding_size
length-encoding x h =
    ground (
      arith,
      length-be_bytes (2 ^ size_class x) (size_class x * 2 ^ (8 * 2 ^ size_class x - 2) + x),
    )

encode_varint-prefixed :
    (w : BufMut) (buf : List ℕ) (x : ℕ) (n : EncodeBytes)
    → x < capacity n
    → encode_varint w buf x n ≡ some (buf ++ prefixed (class_of n) x)
unfolding encode_varint
encode_varint-prefixed w buf x one h = ground (arith, w.put_u8_lem buf (x % 2 ^ 8))
encode_varint-prefixed w buf x two h =
    ground (arith, or-shift 14 1 (x % 2 ^ 16), w.put_u16_lem buf (2 ^ 14 + x))
encode_varint-prefixed w buf x four h =
    ground (arith, or-shift 30 2 (x % 2 ^ 32), w.put_u32_lem buf (2 * 2 ^ 30 + x))
encode_varint-prefixed w buf x eight h =
    ground (arith, or-shift 62 3 x, w.put_u64_lem buf (3 * 2 ^ 62 + x))

class_of-lt : (n : EncodeBytes) → class_of n < 4
class_of-lt one = omega arith
class_of-lt two = omega arith
class_of-lt four = omega arith
class_of-lt eight = omega arith

-- `encode_varint` at a width that holds the value appends that many bytes, which read back as the
-- value.
pub be_varint-encode_varint :
    (w : BufMut) (nom : Nom) (buf rest : List ℕ) (x : ℕ) (n : EncodeBytes)
    → x < capacity n
    → (written : List ℕ) × (encode_varint w buf x n ≡ some (buf ++ written))
      × (length written ≡ 2 ^ class_of n)
      × (be_varint nom (written ++ rest) ≡ ok rest x)
be_varint-encode_varint w nom buf rest x n h = (
  prefixed (class_of n) x,
  encode_varint-prefixed w buf x n h,
  length-be_bytes (2 ^ class_of n) (class_of n * capacity n + x),
  be_varint-prefixed nom (class_of n) x rest (class_of-lt n) h,
)

-- At a width that does not hold the value `encode_varint` panics.
pub encode_varint-none :
    (w : BufMut) (buf : List ℕ) (x : ℕ) (n : EncodeBytes)
    → capacity n ≤ x
    → encode_varint w buf x n ≡ none
unfolding encode_varint
encode_varint-none w buf x one h = ground arith
encode_varint-none w buf x two h = ground arith
encode_varint-none w buf x four h = ground arith
encode_varint-none w buf x eight h = ground arith
