-- ===== src/Bitmap.antt =====
-- Shared/bitmap.c: the bitmap of the used blocks of a node, kept in a file.
-- The bit array of the commons library is the parameter `BitArray`; `none` in `firstzero` and
-- `firstone` is the source's -1.
pub mod Bits
pub mod Functions
pub mod First
pub mod Used
mod Tests
use Bits.{BitArray}
use tp_2017_2c_yatpos.Base.{
  ℕ, zero, suc, ◌+◌, ◌/◌, Bool, true, false, not, Option, none, some, leb, if◌then◌else◌,
}

module _ (B : BitArray) where
  -- `file` is the content of the file, and `none` where the bitmap has no file.
  pub record Bitmap : Type 0 where
    pub bitarray : B.Bits
    pub file : Option B.Bits
    pub size : ℕ

  -- `number_ceiling((double) size / 8.0)`
  unfoldable pub byte_size : ℕ → ℕ
  byte_size size = (size + 7) / 8

  unfoldable pub sync_file : Bitmap → Bitmap
  sync_file bitmap = elim bitmap.file [
    | none ↦ bitmap
    | some old ↦ record bitmap { file = some bitmap.bitarray }
  ]

  unfoldable pub bitmap_set : Bitmap → ℕ → Bitmap
  unfolding sync_file
  bitmap_set bitmap bit = sync_file (record bitmap { bitarray = B.set_bit bitmap.bitarray bit })

  unfoldable pub bitmap_unset : Bitmap → ℕ → Bitmap
  unfolding sync_file
  bitmap_unset bitmap bit = sync_file (record bitmap { bitarray = B.clean_bit bitmap.bitarray bit })

  unfoldable pub bitmap_test : Bitmap → ℕ → Bool
  bitmap_test bitmap bit = B.test_bit bitmap.bitarray bit

  -- `memset` to 0 over all the bytes.
  unfoldable pub bitmap_clear : Bitmap → Bitmap
  unfolding sync_file
  bitmap_clear bitmap = sync_file (record bitmap { bitarray = B.zeros (B.bytes bitmap.bitarray) })

  -- `malloced` is the array over the bytes that `malloc` gave, whatever they hold.
  unfoldable pub bitmap_create : (malloced : B.Bits) → (size : ℕ) → Bitmap
  unfolding bitmap_clear
  bitmap_create malloced size =
      bitmap_clear (record { bitarray = malloced; file = none; size = size })

  -- `for(off_t i = 0; i < bitmap->size; i++)`, with `left` rounds to go.
  unfoldable pub first_from : (Bool → Bool) → Bitmap → (left i : ℕ) → Option ℕ
  unfolding bitmap_test
  first_from wanted bitmap zero i = none
  first_from wanted bitmap (suc left) i = elim (wanted (bitmap_test bitmap i)) [
    | true ↦ some i
    | false ↦ first_from wanted bitmap left (suc i)
  ]

  unfoldable pub bitmap_firstzero : Bitmap → Option ℕ
  unfolding first_from
  bitmap_firstzero bitmap = first_from not bitmap bitmap.size 0

  unfoldable pub bitmap_firstone : Bitmap → Option ℕ
  unfolding first_from
  bitmap_firstone bitmap = first_from (λ b. b) bitmap bitmap.size 0
