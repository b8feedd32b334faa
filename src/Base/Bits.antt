-- ===== src/Base/Bits.antt =====
-- `|` of numbers whose bits do not overlap is their sum.
use Prim.Native.Nat.{
  ℕ, zero, suc, ◌+◌, ◌*◌, ◌/◌, ◌%◌, ◌^◌, ◌≤◌, ◌<◌, max, bit_or, digits, bit_or-bitwise,
}
use mathlib.Core.Path.{◌≡◌, refl, ap, sym, ◌∙◌}
use native.Mathlib.Nat.{pow-suc, mul_comm, mul_assoc, div-div-eq-div-mul}
use native.Mathlib.Numerals.{towards_suc}
use native.Mathlib.Omega.{arith}

-- The recursion behind `bit_or`, with its count of digits.
abbrev or_digits : ℕ → ℕ → ℕ → ℕ
or_digits n a b = digits (λ y. y) max n a b

-- Any count that is large enough gives the same digits.
or_digits_count : (n m a b : ℕ) → a ≤ n → a ≤ m → or_digits n a b ≡ or_digits m a b
or_digits_count zero zero a b p q = refl
or_digits_count (suc n) zero zero b p q = refl
or_digits_count zero (suc m) zero b p q = refl
or_digits_count (suc n) (suc m) zero b p q = refl
or_digits_count zero m (suc a) b p q = absurd (omega arith)
or_digits_count (suc n) zero (suc a) b p q = absurd (omega arith)
or_digits_count (suc n) (suc m) (suc a) b p q =
    omega (arith, or_digits_count n m (suc a / 2) (b / 2) (omega arith) (omega arith))

-- The lowest digit, and the rest.
bit_or_halves : (a b : ℕ) → bit_or a b ≡ bit_or (a / 2) (b / 2) * 2 + max (a % 2) (b % 2)
bit_or_halves zero b = omega (arith, bit_or-bitwise 0 b, bit_or-bitwise 0 (b / 2))
bit_or_halves (suc a) b = omega (
  arith,
  bit_or-bitwise (suc a) b,
  bit_or-bitwise (suc a / 2) (b / 2),
  or_digits_count a (suc a / 2) (suc a / 2) (b / 2) (omega arith) (omega arith),
)

bit_or-zero_count : (n a : ℕ) → a ≤ n → bit_or a 0 ≡ a
bit_or-zero_count n zero h = refl
bit_or-zero_count zero (suc a) h = absurd (omega arith)
bit_or-zero_count (suc n) (suc a) h =
    omega (arith, bit_or_halves (suc a) 0, bit_or-zero_count n (suc a / 2) (omega arith))

pow_double : (k : ℕ) → 2 ^ suc k ≡ 2 * 2 ^ k
pow_double k = omega (arith, pow-suc 2 k)

double_times : (x p : ℕ) → x * (2 * p) ≡ 2 * (x * p)
double_times x p = grind arith

-- `(x << k) | y` for `y` of at most `k` bits.
pub bit_or-disjoint : (k x y : ℕ) → y < 2 ^ k → bit_or (x * 2 ^ k) y ≡ x * 2 ^ k + y
bit_or-disjoint zero x zero h = omega (arith, bit_or-zero_count (x * 2 ^ 0) (x * 2 ^ 0))
bit_or-disjoint zero x (suc y) h = absurd (omega arith)
bit_or-disjoint (suc k) x y h =
    rw (pow_double k, double_times x (2 ^ k))
      (omega (
        arith,
        pow_double k,
        bit_or_halves (2 * (x * 2 ^ k)) y,
        ap (λ t. bit_or t (y / 2)) half,
        bit_or-disjoint k x (y / 2) (omega (arith, pow_double k)),
      ))
  where
    half : 2 * (x * 2 ^ k) / 2 ≡ x * 2 ^ k
    half = omega arith

-- 256 * 2 ^ k, in the two ways that a shift by one byte more is written.
pow_byte : (k : ℕ) → 2 ^ (k + 8) ≡ 256 * 2 ^ k
pow_byte k = simp towards_suc (simp pow-suc (omega arith))

pow-pos : (k : ℕ) → 0 < 2 ^ k
pow-pos zero = omega arith
pow-pos (suc k) = omega (arith, pow-suc 2 k, pow-pos k)

recompose : (q p : ℕ) → q / 256 * (256 * p) + q % 256 * p ≡ q * p
recompose q p = omega (arith, ap (λ (t : ℕ). t * p) whole, mul_assoc (q / 256) 256 p)
  where
    whole : q / 256 * 256 + q % 256 ≡ q
    whole = omega arith

byte_fits : (b p : ℕ) → b < 256 → 0 < p → b * p < 256 * p
byte_fits b p h g = grind arith

-- With the bytes above position `k` of `w` in place, `|` puts in the byte at `k`.
pub next_byte :
    (k w hi : ℕ)
    → hi ≡ w / 2 ^ (k + 8) * 2 ^ (k + 8)
    → bit_or hi (w / 2 ^ k % 256 * 2 ^ k) ≡ w / 2 ^ k * 2 ^ k
next_byte k w hi e =
    ap (λ t. bit_or t (w / 2 ^ k % 256 * 2 ^ k)) (e ∙ ap (λ t. t * 2 ^ (k + 8)) halves)
    ∙ bit_or-disjoint (k + 8) (w / 2 ^ k / 256) (w / 2 ^ k % 256 * 2 ^ k)
        (rw (pow_byte k) (byte_fits _ _ (omega arith) (pow-pos k)))
    ∙ rw (pow_byte k) (recompose (w / 2 ^ k) (2 ^ k))
  where
    halves : w / 2 ^ (k + 8) ≡ w / 2 ^ k / 256
    halves = rw (pow_byte k, mul_comm 256 (2 ^ k)) (sym (div-div-eq-div-mul w (2 ^ k) 256))

-- The last byte, which is not shifted.
pub last_byte : (w hi : ℕ) → hi ≡ w / 2 ^ 8 * 2 ^ 8 → bit_or hi (w % 256) ≡ w
last_byte w hi e =
    ap (λ t. bit_or t (w % 256)) e
    ∙ bit_or-disjoint 8 (w / 2 ^ 8) (w % 256) (omega arith)
    ∙ omega arith
