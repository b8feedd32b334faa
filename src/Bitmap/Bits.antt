-- ===== src/Bitmap/Bits.antt =====
-- The bit arrays of the commons library, as Shared/bitmap.c uses them: setting, cleaning and testing
-- a bit inside the array.
use tp_2017_2c_yatpos.Base.{ℕ, ◌*◌, ◌<◌, ◌≡◌, ◌≢◌, Bool, true, false}

-- `bytes` is the number of bytes of an array, and `zeros` an array of bytes that are all 0.
pub record BitArray : Type 1 where
  pub Bits : Type 0
  pub set_bit : Bits → ℕ → Bits
  pub clean_bit : Bits → ℕ → Bits
  pub test_bit : Bits → ℕ → Bool
  pub bytes : Bits → ℕ
  pub zeros : ℕ → Bits
  pub test-set_self : (b : Bits) (i : ℕ) → i < bytes b * 8 → test_bit (set_bit b i) i ≡ true
  pub test-set_ne : (b : Bits) (i j : ℕ) → i ≢ j → test_bit (set_bit b i) j ≡ test_bit b j
  pub test-clean_self : (b : Bits) (i : ℕ) → i < bytes b * 8 → test_bit (clean_bit b i) i ≡ false
  pub test-clean_ne : (b : Bits) (i j : ℕ) → i ≢ j → test_bit (clean_bit b i) j ≡ test_bit b j
  pub bytes-set : (b : Bits) (i : ℕ) → bytes (set_bit b i) ≡ bytes b
  pub bytes-clean : (b : Bits) (i : ℕ) → bytes (clean_bit b i) ≡ bytes b
  pub bytes-zeros : (n : ℕ) → bytes (zeros n) ≡ n
  pub test-zeros : (n i : ℕ) → test_bit (zeros n) i ≡ false
