-- ===== src/Wire.antt =====
-- What the program takes from the crates `bytes` (BufMut) and `nom` to write and read bytes.
-- A buffer is the list of its bytes. The crates are not part of the repository: their functions are
-- the fields of two records, which the codecs take as arguments, beside the behaviour that the
-- crates document. `vec_buf` and `list_nom` at the end of the file meet the laws.
pub mod BigEndian
use gm_quic.Prelude.{
  ℕ, zero, suc, ◌+◌, ◌-◌, ◌*◌, ◌/◌, ◌%◌, ◌^◌, ◌<◌, ◌≡◌, refl, List, [], ◌∷◌, ◌++◌, ltb,
  if◌then◌else◌, length, take, drop,
}

-- `nom::IResult`. `error` is `nom::Err::Error`; `panic` is no value of it, but a Rust panic.
pub data IResult {ℓ} (A : Type ℓ) : Type ℓ where
  ok : List ℕ → A → IResult A
  incomplete : ℕ → IResult A
  error : IResult A
  panic : IResult A

-- The result of a parser over a bit position, `(&[u8], usize)`.
pub data BitResult : Type 0 where
  bits_ok : List ℕ → ℕ → ℕ → BitResult
  bits_incomplete : ℕ → BitResult

infixl 5 ◌>>=◌
abbrev pub ◌>>=◌ {ℓ κ} :
    {A : Type ℓ} {B : Type κ} → IResult A → (List ℕ → A → IResult B) → IResult B
ok rest a >>= f = f rest a
incomplete n >>= f = incomplete n
error >>= f = error
panic >>= f = panic

abbrev pub IsByte : ℕ → Type 0
IsByte b = b < 256

-- The last `n` bytes of `x`, most significant first, and the number that such bytes stand for.
abbrev pub be_bytes : ℕ → ℕ → List ℕ
be_bytes zero x = []
be_bytes (suc n) x = x / 256 ^ n % 256 ∷ be_bytes n x

abbrev pub be_value : List ℕ → ℕ
be_value [] = 0
be_value (b ∷ bs) = b * 256 ^ length bs + be_value bs

-- The `count` bits from bit `offset` of the first byte on.
abbrev pub bit_field : List ℕ → ℕ → ℕ → ℕ
bit_field bs offset count =
    let bytes = (offset + count + 7) / 8 in
    be_value (take bytes bs) / 2 ^ (8 * bytes - offset - count) % 2 ^ count

abbrev pub take_bits_result : ℕ → List ℕ → ℕ → BitResult
take_bits_result count bs offset =
    if ltb (8 * length bs) (offset + count)
    then bits_incomplete count
    else bits_ok (drop ((offset + count) / 8) bs) ((offset + count) % 8) (bit_field bs offset count)

-- `bytes::BufMut` of a buffer that grows.
pub record BufMut : Type 0 where
  pub put_u8 : List ℕ → ℕ → List ℕ
  pub put_u16 : List ℕ → ℕ → List ℕ
  pub put_u32 : List ℕ → ℕ → List ℕ
  pub put_u64 : List ℕ → ℕ → List ℕ
  pub put_slice : List ℕ → List ℕ → List ℕ
  pub put_u8_lem : (buf : List ℕ) (x : ℕ) → x < 2 ^ 8 → put_u8 buf x ≡ buf ++ be_bytes 1 x
  pub put_u16_lem : (buf : List ℕ) (x : ℕ) → x < 2 ^ 16 → put_u16 buf x ≡ buf ++ be_bytes 2 x
  pub put_u32_lem : (buf : List ℕ) (x : ℕ) → x < 2 ^ 32 → put_u32 buf x ≡ buf ++ be_bytes 4 x
  pub put_u64_lem : (buf : List ℕ) (x : ℕ) → x < 2 ^ 64 → put_u64 buf x ≡ buf ++ be_bytes 8 x
  pub put_slice_lem : (buf src : List ℕ) → put_slice buf src ≡ buf ++ src

-- The parsers of `nom` that the code calls: `bits::streaming::take`, and of `number::complete`
-- the big-endian ones, and `bytes::{streaming, complete}::take`.
pub record Nom : Type 0 where
  pub take_bits : ℕ → List ℕ → ℕ → BitResult
  pub be_uint : ℕ → List ℕ → IResult ℕ
  pub take_bytes : ℕ → List ℕ → IResult (List ℕ)
  pub take_bits_lem :
      (count : ℕ) (bs : List ℕ) (offset : ℕ)
      → offset < 8
      → take_bits count bs offset ≡ take_bits_result count bs offset
  pub be_uint_lem :
      (n : ℕ) (bs : List ℕ)
      → be_uint n bs ≡ (if ltb (length bs) n then error else ok (drop n bs) (be_value (take n bs)))
  pub take_bytes_lem :
      (n : ℕ) (bs : List ℕ)
      → take_bytes n bs ≡ (if ltb (length bs) n then error else ok (drop n bs) (take n bs))

abbrev pub vec_buf : BufMut
vec_buf = record {
  put_u8 = λ buf x. buf ++ be_bytes 1 x;
  put_u16 = λ buf x. buf ++ be_bytes 2 x;
  put_u32 = λ buf x. buf ++ be_bytes 4 x;
  put_u64 = λ buf x. buf ++ be_bytes 8 x;
  put_slice = λ buf src. buf ++ src;
  put_u8_lem = λ buf x h. refl;
  put_u16_lem = λ buf x h. refl;
  put_u32_lem = λ buf x h. refl;
  put_u64_lem = λ buf x h. refl;
  put_slice_lem = λ buf src. refl;
}

abbrev pub list_nom : Nom
list_nom = record {
  take_bits = take_bits_result;
  be_uint = λ n bs. if ltb (length bs) n then error else ok (drop n bs) (be_value (take n bs));
  take_bytes = λ n bs. if ltb (length bs) n then error else ok (drop n bs) (take n bs);
  take_bits_lem = λ count bs offset h. refl;
  be_uint_lem = λ n bs. refl;
  take_bytes_lem = λ n bs. refl;
}
