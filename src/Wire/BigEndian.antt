-- ===== src/Wire/BigEndian.antt =====
-- Big-endian numbers: what `be_bytes` writes, `be_value` reads.
use gm_quic.Prelude.{
  ℕ, zero, suc, ◌+◌, ◌*◌, ◌/◌, ◌%◌, ◌^◌, ◌≡◌, refl, sym, ap, ◌∙◌, arith, length, All,
}
use gm_quic.Wire.{IsByte, be_bytes, be_value}
use native.Mathlib.Nat.{pow-suc, div-div-eq-div-mul, div-add-mod}

pub length-be_bytes : (n x : ℕ) → length (be_bytes n x) ≡ n
length-be_bytes zero x = refl
length-be_bytes (suc n) x = ap suc (length-be_bytes n x)

pub be_bytes-IsByte : (n x : ℕ) → All IsByte (be_bytes n x)
be_bytes-IsByte zero x = tt
be_bytes-IsByte (suc n) x = (omega arith, be_bytes-IsByte n x)

-- The remainder by `256 ^ (n + 1)` is a leading digit and the remainder by `256 ^ n`.
leading_digit : (n x : ℕ) → x / 256 ^ n % 256 * 256 ^ n + x % 256 ^ n ≡ x % 256 ^ suc n
leading_digit n x =
    let quotient : x / 256 ^ n / 256 ≡ x / 256 ^ suc n =
      div-div-eq-div-mul x (256 ^ n) 256 ∙ ap (λ t. x / t) (sym (pow-suc 256 n)) in
    omega (
      arith,
      div-add-mod x (256 ^ n),
      div-add-mod x (256 ^ suc n),
      ap (λ (t : ℕ). 256 ^ n * t) (div-add-mod (x / 256 ^ n) 256),
      ap (λ (t : ℕ). 256 ^ suc n * t) quotient,
      ap (λ (t : ℕ). t * (x / 256 ^ n / 256)) (pow-suc 256 n),
    )

pub be_value-be_bytes : (n x : ℕ) → be_value (be_bytes n x) ≡ x % 256 ^ n
be_value-be_bytes zero x = omega arith
be_value-be_bytes (suc n) x =
    ap (λ t. x / 256 ^ n % 256 * 256 ^ t + be_value (be_bytes n x)) (length-be_bytes n x)
    ∙ ap (λ t. x / 256 ^ n % 256 * 256 ^ n + t) (be_value-be_bytes n x)
    ∙ leading_digit n x
