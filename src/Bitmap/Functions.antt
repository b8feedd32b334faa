-- ===== src/Bitmap/Functions.antt =====
-- A bit array by functions: the laws of Bitmap/Bits can hold.
use tp_2017_2c_yatpos.Base.{ℕ, ◌≡◌, ◌≢◌, refl, Bool, true, false, arith, ◌==◌, if◌then◌else◌}
use tp_2017_2c_yatpos.Bitmap.Bits.{BitArray}

pub record Bits : Type 0 where
  pub size : ℕ
  pub bit : ℕ → Bool

abbrev pub write : Bool → Bits → ℕ → Bits
write v b i = record b { bit = λ j. if i == j then v else b.bit j }

pub write_self : (v : Bool) (b : Bits) (i : ℕ) → (write v b i).bit i ≡ v
write_self v b i = ground arith

pub write_ne : (v : Bool) (b : Bits) (i j : ℕ) → i ≢ j → (write v b i).bit j ≡ b.bit j
write_ne v b i j h = ground arith

abbrev pub functions : BitArray
functions = record {
  Bits = Bits;
  set_bit = write true;
  clean_bit = write false;
  test_bit = λ b i. b.bit i;
  bytes = λ b. b.size;
  zeros = λ n. record { size = n; bit = λ i. false };
  test-set_self = λ b i l. write_self true b i;
  test-set_ne = write_ne true;
  test-clean_self = λ b i l. write_self false b i;
  test-clean_ne = write_ne false;
  bytes-set = λ b i. refl;
  bytes-clean = λ b i. refl;
  bytes-zeros = λ n. refl;
  test-zeros = λ n i. refl;
}

-- Bytes whose bits are all 1.
abbrev pub malloced : ℕ → Bits
malloced n = record { size = n; bit = λ i. true }
