-- ===== src/Base/Int.antt =====
-- C integers: the whole number that a signed value stands for, and its bit pattern.
use tp_2017_2c_yatpos.Base.{
  ℕ, suc, Bool, true, ◌+◌, ◌≤◌, ◌-◌, ◌*◌, ◌/◌, ◌%◌, ◌<◌, ◌≡◌, arith, leb, ltb, ◌==◌, ◌&&◌,
  if◌then◌else◌, Bool-cases, leb→le, inl, inr, ◌↔◌,
}

-- `negsuc n` is -(n + 1).
pub data ℤ : Type 0 where
  pos : ℕ → ℤ
  negsuc : ℕ → ℤ

-- Conversion to an unsigned type of `m` values, which is modular.
unfoldable pub to_unsigned : ℕ → ℤ → ℕ
to_unsigned m (pos n) = n % m
to_unsigned m (negsuc n) = m - 1 - n % m

-- The value of a bit pattern below `m` read as a signed integer, as the unpackers compute it:
-- patterns up to `m / 2 - 1` stand for themselves.
unfoldable pub re_sign : ℕ → ℕ → ℤ
re_sign m w = if leb w (m / 2 - 1) then pos w else negsuc (m - 1 - w)

-- `z` is a value of the signed type of `2 * h` values.
abbrev pub IsSigned : ℕ → ℤ → Type 0
IsSigned h (pos n) = n < h
IsSigned h (negsuc n) = n < h

pub to_unsigned-lt : (m : ℕ) (z : ℤ) → 0 < m → to_unsigned m z < m
unfolding to_unsigned
to_unsigned-lt m (pos n) h = omega arith
to_unsigned-lt m (negsuc n) h = omega arith

-- Conversion to the unsigned type and back.
pub re_sign-to_unsigned :
    (h : ℕ) (z : ℤ) → 0 < h → IsSigned h z → re_sign (2 * h) (to_unsigned (2 * h) z) ≡ z
unfolding re_sign to_unsigned
re_sign-to_unsigned h (pos n) hp r = ground (arith, small)
  where
    small : n % (2 * h) ≡ n
    small = grind arith
re_sign-to_unsigned h (negsuc n) hp r = ground (arith, small)
  where
    small : n % (2 * h) ≡ n
    small = grind arith

-- A bit pattern survives being read as a signed integer.
pub to_unsigned-re_sign : (m w : ℕ) → w < m → to_unsigned m (re_sign m w) ≡ w
unfolding re_sign to_unsigned
to_unsigned-re_sign m w h = ground (arith, small w h, small (m - 1 - w) (omega arith))
  where
    small : (n : ℕ) → n < m → n % m ≡ n
    small n p = grind arith

-- A bit pattern of the type is read as a value of the type.
pub re_sign-IsSigned : (h w : ℕ) → w < 2 * h → IsSigned h (re_sign (2 * h) w)
unfolding re_sign
re_sign-IsSigned h w p = elim (Bool-cases (leb w (2 * h / 2 - 1))) [
  | inl e ↦ rw e (omega (arith, leb→le w (2 * h / 2 - 1) e))
  | inr e ↦ rw e (ground arith)
]

abbrev pub pos_part : ℤ → ℕ
pos_part (pos n) = n
pos_part (negsuc n) = 0

abbrev pub neg_part : ℤ → ℕ
neg_part (pos n) = 0
neg_part (negsuc n) = suc n

-- `a - b`
abbrev pub sub_ℕ : ℕ → ℕ → ℤ
sub_ℕ a b = if leb b a then pos (a - b) else negsuc (b - a - 1)

infixl 65 ◌+ℤ◌ ◌-ℤ◌
unfoldable pub ◌+ℤ◌ : ℤ → ℤ → ℤ
a +ℤ b = sub_ℕ (pos_part a + pos_part b) (neg_part a + neg_part b)

unfoldable pub ◌-ℤ◌ : ℤ → ℤ → ℤ
a -ℤ b = sub_ℕ (pos_part a + neg_part b) (neg_part a + pos_part b)

abbrev pub leb_ℤ : ℤ → ℤ → Bool
leb_ℤ a b = leb (pos_part a + neg_part b) (pos_part b + neg_part a)

abbrev pub ltb_ℤ : ℤ → ℤ → Bool
ltb_ℤ a b = ltb (pos_part a + neg_part b) (pos_part b + neg_part a)

abbrev pub eq_ℤ : ℤ → ℤ → Bool
eq_ℤ a b = (pos_part a + neg_part b) == (pos_part b + neg_part a)

pub +ℤ_parts :
    (a b : ℤ)
    → pos_part (a +ℤ b) + neg_part a + neg_part b ≡ neg_part (a +ℤ b) + pos_part a + pos_part b
unfolding ◌+ℤ◌
+ℤ_parts a b = ground arith

pub -ℤ_parts :
    (a b : ℤ)
    → pos_part (a -ℤ b) + neg_part a + pos_part b ≡ neg_part (a -ℤ b) + pos_part a + neg_part b
unfolding ◌-ℤ◌
-ℤ_parts a b = ground arith

pub eq_of_parts : (a b : ℤ) → pos_part a + neg_part b ≡ pos_part b + neg_part a → a ≡ b
eq_of_parts a b h = ground arith

pub ruleset int_laws = (arith, +ℤ_parts, -ℤ_parts, eq_of_parts)

pub eq_ℤ→eq : (a b : ℤ) → eq_ℤ a b ≡ true → a ≡ b
eq_ℤ→eq a b h = ground arith

pub eq_ℤ_refl : (a : ℤ) → eq_ℤ a a ≡ true
eq_ℤ_refl a = ground arith
