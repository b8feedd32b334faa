-- ===== src/Serial/Words.antt =====
-- Big-endian words of Shared/serial.c: `packi16/32/64`, `unpacki16/32/64` and `unpacku16/32/64`.
-- A byte is a number below 256 and `|` is the binary or of the shifted bytes.
use tp_2017_2c_yatpos.Base.{
  ℕ, ◌*◌, ◌/◌, ◌%◌, ◌^◌, ◌<◌, bit_or, ◌≡◌, ap, ◌∙◌, List, [], ◌∷◌, arith, next_byte, last_byte,
}
use tp_2017_2c_yatpos.Base.Int.{
  ℤ, to_unsigned, re_sign, IsSigned, to_unsigned-lt, re_sign-to_unsigned,
}

abbrev pub Bytes : Type 0
Bytes = List ℕ

abbrev byte : ℕ → ℕ
byte n = n % 256

unfoldable pub packi16 : ℕ → Bytes
packi16 i = byte (i / 2 ^ 8) ∷ byte i ∷ []

unfoldable pub packi32 : ℕ → Bytes
packi32 i = byte (i / 2 ^ 24) ∷ byte (i / 2 ^ 16) ∷ byte (i / 2 ^ 8) ∷ byte i ∷ []

unfoldable pub packi64 : ℕ → Bytes
packi64 i =
    byte (i / 2 ^ 56)
    ∷ byte (i / 2 ^ 48)
    ∷ byte (i / 2 ^ 40)
    ∷ byte (i / 2 ^ 32)
    ∷ byte (i / 2 ^ 24)
    ∷ byte (i / 2 ^ 16)
    ∷ byte (i / 2 ^ 8)
    ∷ byte i
    ∷ []

unfoldable pub unpacku16 : ℕ → ℕ → ℕ
unpacku16 b0 b1 = bit_or (b0 * 2 ^ 8) b1

unfoldable pub unpacku32 : ℕ → ℕ → ℕ → ℕ → ℕ
unpacku32 b0 b1 b2 b3 = bit_or (bit_or (bit_or (b0 * 2 ^ 24) (b1 * 2 ^ 16)) (b2 * 2 ^ 8)) b3

unfoldable pub unpacku64 : ℕ → ℕ → ℕ → ℕ → ℕ → ℕ → ℕ → ℕ → ℕ
unpacku64 b0 b1 b2 b3 b4 b5 b6 b7 =
    let top = bit_or (bit_or (bit_or (b0 * 2 ^ 56) (b1 * 2 ^ 48)) (b2 * 2 ^ 40)) (b3 * 2 ^ 32) in
    bit_or (bit_or (bit_or (bit_or top (b4 * 2 ^ 24)) (b5 * 2 ^ 16)) (b6 * 2 ^ 8)) b7

unfoldable pub unpacki16 : ℕ → ℕ → ℤ
unpacki16 b0 b1 = re_sign (2 ^ 16) (bit_or (b0 * 2 ^ 8) b1)

unfoldable pub unpacki32 : ℕ → ℕ → ℕ → ℕ → ℤ
unpacki32 b0 b1 b2 b3 =
    re_sign (2 ^ 32) (bit_or (bit_or (bit_or (b0 * 2 ^ 24) (b1 * 2 ^ 16)) (b2 * 2 ^ 8)) b3)

unfoldable pub unpacki64 : ℕ → ℕ → ℕ → ℕ → ℕ → ℕ → ℕ → ℕ → ℤ
unpacki64 b0 b1 b2 b3 b4 b5 b6 b7 =
    let top = bit_or (bit_or (bit_or (b0 * 2 ^ 56) (b1 * 2 ^ 48)) (b2 * 2 ^ 40)) (b3 * 2 ^ 32) in
    re_sign (2 ^ 64)
      (bit_or (bit_or (bit_or (bit_or top (b4 * 2 ^ 24)) (b5 * 2 ^ 16)) (b6 * 2 ^ 8)) b7)

-- The bytes of a word, put together again: most significant first.
pub unpacku16-packi16 : (w : ℕ) → w < 2 ^ 16 → unpacku16 (byte (w / 2 ^ 8)) (byte w) ≡ w
unfolding unpacku16
unpacku16-packi16 w h = last_byte w _ (omega arith)

pub unpacku32-packi32 :
    (w : ℕ)
    → w < 2 ^ 32
    → unpacku32 (byte (w / 2 ^ 24)) (byte (w / 2 ^ 16)) (byte (w / 2 ^ 8)) (byte w) ≡ w
unfolding unpacku32
unpacku32-packi32 w h = last_byte w _ (next_byte 8 w _ (next_byte 16 w _ (omega arith)))

pub unpacku64-packi64 :
    (w : ℕ)
    → w < 2 ^ 64
    → unpacku64
        (byte (w / 2 ^ 56))
        (byte (w / 2 ^ 48))
        (byte (w / 2 ^ 40))
        (byte (w / 2 ^ 32))
        (byte (w / 2 ^ 24))
        (byte (w / 2 ^ 16))
        (byte (w / 2 ^ 8))
        (byte w)
      ≡ w
unfolding unpacku64
unpacku64-packi64 w h = last_byte w _ (next_byte 8 w _ (next_byte 16 w _ (next_byte 24 w _ top)))
  where
    top :
        bit_or
          (bit_or
            (bit_or (byte (w / 2 ^ 56) * 2 ^ 56) (byte (w / 2 ^ 48) * 2 ^ 48))
            (byte (w / 2 ^ 40) * 2 ^ 40))
          (byte (w / 2 ^ 32) * 2 ^ 32)
        ≡ w / 2 ^ 32 * 2 ^ 32
    top = next_byte 32 w _ (next_byte 40 w _ (next_byte 48 w _ (omega arith)))

-- A signed value, through its bit pattern and back.
pub unpacki16-packi16 :
    (z : ℤ)
    → IsSigned (2 ^ 15) z
    → let w = to_unsigned (2 ^ 16) z in unpacki16 (byte (w / 2 ^ 8)) (byte w) ≡ z
unfolding unpacki16 unpacku16
unpacki16-packi16 z r =
    ap (re_sign (2 ^ 16)) (unpacku16-packi16 _ (to_unsigned-lt (2 ^ 16) z (omega arith)))
    ∙ re_sign-to_unsigned (2 ^ 15) z (omega arith) r

pub unpacki32-packi32 :
    (z : ℤ)
    → IsSigned (2 ^ 31) z
    → let w = to_unsigned (2 ^ 32) z in
      unpacki32 (byte (w / 2 ^ 24)) (byte (w / 2 ^ 16)) (byte (w / 2 ^ 8)) (byte w) ≡ z
unfolding unpacki32 unpacku32
unpacki32-packi32 z r =
    ap (re_sign (2 ^ 32)) (unpacku32-packi32 _ (to_unsigned-lt (2 ^ 32) z (omega arith)))
    ∙ re_sign-to_unsigned (2 ^ 31) z (omega arith) r

pub unpacki64-packi64 :
    (z : ℤ)
    → IsSigned (2 ^ 63) z
    → let w = to_unsigned (2 ^ 64) z in
      unpacki64
        (byte (w / 2 ^ 56))
        (byte (w / 2 ^ 48))
        (byte (w / 2 ^ 40))
        (byte (w / 2 ^ 32))
        (byte (w / 2 ^ 24))
        (byte (w / 2 ^ 16))
        (byte (w / 2 ^ 8))
        (byte w)
      ≡ z
unfolding unpacki64 unpacku64
unpacki64-packi64 z r =
    ap (re_sign (2 ^ 64)) (unpacku64-packi64 _ (to_unsigned-lt (2 ^ 64) z (omega arith)))
    ∙ re_sign-to_unsigned (2 ^ 63) z (omega arith) r
