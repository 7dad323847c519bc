-- ===== src/Prelude/Bits.antt =====
-- The bit operators `&` and `|` on words, as arithmetic: fields that do not overlap, low masks, and
-- high masks. The native operations are recursions over binary digits with fuel; each law is first
-- shown of the digits.
use Prim.Native.Nat.{ℕ, zero, suc, ◌+◌, ◌-◌, ◌*◌, ◌/◌, ◌%◌, ◌^◌, ◌≤◌, ◌<◌, min, max}
use Prim.Native.Nat.{digits, bit_and, bit_or, bit_and-bitwise, bit_or-bitwise}
use mathlib.Core.Path.{◌≡◌, refl, ap, sym}
use native.Mathlib.Nat.{pow-suc, pow-succ', div-div-eq-div-mul, div-add-mod, one-le-pow}
use native.Mathlib.Omega.{arith}

-- Digits of `a` against those of `b`: any two fuels from `a` on give the same number.
digits_same :
    (z : ℕ → ℕ) (f : ℕ → ℕ → ℕ) (n m a b : ℕ) → a ≤ n → a ≤ m → digits z f n a b ≡ digits z f m a b
digits_same z f zero zero zero b h k = refl
digits_same z f zero (suc m) zero b h k = refl
digits_same z f (suc n) zero zero b h k = refl
digits_same z f (suc n) (suc m) zero b h k = refl
digits_same z f zero m (suc a) b h k = absurd (omega arith)
digits_same z f (suc n) zero (suc a) b h k = absurd (omega arith)
digits_same z f (suc n) (suc m) (suc a) b h k =
    ap (λ (t : ℕ). t * 2 + f (suc a % 2) (b % 2))
      (digits_same z f n m (suc a / 2) (b / 2) (omega arith) (omega arith))

or_step : (a b : ℕ) → bit_or a b ≡ bit_or (a / 2) (b / 2) * 2 + max (a % 2) (b % 2)
or_step zero b = omega (arith, bit_or-bitwise 0 b, bit_or-bitwise 0 (b / 2))
or_step (suc a) b = omega (
  arith,
  bit_or-bitwise (suc a) b,
  bit_or-bitwise (suc a / 2) (b / 2),
  digits_same (λ y. y) max a (suc a / 2) (suc a / 2) (b / 2) (omega arith) (omega arith),
)

and_step : (a b : ℕ) → bit_and a b ≡ bit_and (a / 2) (b / 2) * 2 + min (a % 2) (b % 2)
and_step zero b = omega (arith, bit_and-bitwise 0 b, bit_and-bitwise 0 (b / 2))
and_step (suc a) b = omega (
  arith,
  bit_and-bitwise (suc a) b,
  bit_and-bitwise (suc a / 2) (b / 2),
  digits_same (λ y. 0) min a (suc a / 2) (suc a / 2) (b / 2) (omega arith) (omega arith),
)

or-zero_below : (n a : ℕ) → a ≤ n → bit_or a 0 ≡ a
or-zero_below n zero h = refl
or-zero_below zero (suc a) h = absurd (omega arith)
or-zero_below (suc n) (suc a) h =
    omega (arith, or_step (suc a) 0, or-zero_below n (suc a / 2) (omega arith))

and-zero_below : (n a : ℕ) → a ≤ n → bit_and a 0 ≡ 0
and-zero_below n zero h = refl
and-zero_below zero (suc a) h = absurd (omega arith)
and-zero_below (suc n) (suc a) h =
    omega (arith, and_step (suc a) 0, and-zero_below n (suc a / 2) (omega arith))

double : (q k : ℕ) → q * 2 ^ suc k ≡ 2 * (q * 2 ^ k)
double q k = omega (arith, ap (λ (t : ℕ). q * t) (pow-suc 2 k))

-- `(q << k) | r` is the sum, if `r` has at most `k` bits.
pub or-shift : (k q r : ℕ) → r < 2 ^ k → bit_or (q * 2 ^ k) r ≡ q * 2 ^ k + r
or-shift zero q r h = ground (arith, or-zero_below q q)
or-shift (suc k) q r h =
    ground (arith, or_step (q * 2 ^ suc k) r, double q k, pow-suc 2 k, or-shift k q (r / 2))

halve_div : (k a : ℕ) → a / 2 ^ suc k ≡ a / 2 / 2 ^ k
halve_div k a = rw (pow-succ' 2 k) (sym (div-div-eq-div-mul a 2 (2 ^ k)))

halve_mod : (k a : ℕ) → a % 2 ^ suc k ≡ a / 2 % 2 ^ k * 2 + a % 2
halve_mod k a = omega (
  arith,
  div-add-mod a (2 ^ suc k),
  div-add-mod (a / 2) (2 ^ k),
  ap (λ (t : ℕ). 2 ^ suc k * t) (halve_div k a),
  ap (λ (t : ℕ). t * (a / 2 / 2 ^ k)) (pow-suc 2 k),
)

-- `a & ((1 << w) - 1)` keeps the low bits.
pub and-mask : (w a : ℕ) → bit_and a (2 ^ w - 1) ≡ a % 2 ^ w
and-mask zero a = omega (arith, and-zero_below a a)
and-mask (suc w) a = ground (
  arith,
  and_step a (2 ^ suc w - 1),
  pow-suc 2 w,
  one-le-pow w 2,
  halve_mod w a,
  and-mask w (a / 2),
)

-- `a & (m << k)` clears the low `k` bits.
pub and-high : (k a m : ℕ) → bit_and a (m * 2 ^ k) ≡ bit_and (a / 2 ^ k) m * 2 ^ k
and-high zero a m = ground arith
and-high (suc k) a m = ground (
  arith,
  and_step a (m * 2 ^ suc k),
  double m k,
  double (bit_and (a / 2 ^ suc k) m) k,
  halve_div k a,
  and-high k (a / 2) m,
)
