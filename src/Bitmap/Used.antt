-- ===== src/Bitmap/Used.antt =====
-- How many bits of the map of Shared/bitmap.c are 0, as blocks are taken and given back.
use tp_2017_2c_yatpos.Base.{
  ℕ, zero, suc, ◌+◌, ◌*◌, ◌<◌, ◌≤◌, ◌≡◌, ◌≢◌, ◌∙◌, ◌⊎◌, inl, inr, refl, ap, ap2, sym, subst, Bool,
  true, false, not, Option, none, some, arith, if◌then◌else◌,
}
use tp_2017_2c_yatpos.Bitmap.Bits.{BitArray}
use tp_2017_2c_yatpos.Bitmap.{
  Bitmap, byte_size, sync_file, bitmap_set, bitmap_unset, bitmap_test, bitmap_firstzero,
  bitmap_create, bitmap_clear,
}
use tp_2017_2c_yatpos.Bitmap.First.{IsFirst, bitmap_firstzero-IsFirst}

module _ (B : BitArray) where
  -- The bits before `n` that are 0.
  unfoldable pub clear_bits : B.Bits → ℕ → ℕ
  clear_bits bits zero = 0
  clear_bits bits (suc n) = (if B.test_bit bits n then 0 else 1) + clear_bits bits n

  same_bits :
      (b b' : B.Bits) (n : ℕ)
      → ((i : ℕ) → i < n → B.test_bit b' i ≡ B.test_bit b i)
      → clear_bits b' n ≡ clear_bits b n
  unfolding clear_bits
  same_bits b b' zero h = refl
  same_bits b b' (suc n) h = rw (h n (omega arith), same_bits b b' n (λ i l. h i (omega arith)))

  -- One bit goes from 0 to 1.
  one_less :
      (b b' : B.Bits) (n k : ℕ)
      → k < n
      → B.test_bit b k ≡ false
      → B.test_bit b' k ≡ true
      → ((i : ℕ) → k ≢ i → B.test_bit b' i ≡ B.test_bit b i)
      → clear_bits b n ≡ suc (clear_bits b' n)
  unfolding clear_bits
  one_less b b' zero k l off on h = absurd (omega arith)
  one_less b b' (suc n) k l off on h = elim (last_cases) [
    | inl e ↦
        let off' = subst (λ i. B.test_bit b i ≡ false) e off in
        let on' = subst (λ i. B.test_bit b' i ≡ true) e on in
        rw (off', on', same_bits b b' n (λ i i_lt. h i (λ x. omega (arith, x, e, i_lt))))
          (omega arith)
    | inr l' ↦ rw (h n (λ x. omega (arith, x, l')), one_less b b' n k l' off on h) (omega arith)
  ]
    where
      last_cases : (k ≡ n) ⊎ (k < n)
      last_cases = ground arith

  -- The bitmap covers its size.
  abbrev pub IsBitmap : Bitmap B → Type 0
  IsBitmap b = b.size ≤ B.bytes b.bitarray * 8

  abbrev pub free_blocks : Bitmap B → ℕ
  free_blocks b = clear_bits b.bitarray b.size

  all_clear : (bytes n : ℕ) → clear_bits (B.zeros bytes) n ≡ n
  unfolding clear_bits
  all_clear bytes zero = refl
  all_clear bytes (suc n) = rw (B.test-zeros bytes n, all_clear bytes n) (omega arith)

  -- A new bitmap, over `byte_size` bytes that hold whatever they hold, covers its size, and all its
  -- bits are 0.
  pub bitmap_create-IsBitmap :
      (malloced : B.Bits) (size : ℕ)
      → B.bytes malloced ≡ byte_size B size
      → IsBitmap (bitmap_create B malloced size)
        × (free_blocks (bitmap_create B malloced size) ≡ size)
  unfolding bitmap_create bitmap_clear byte_size sync_file
  bitmap_create-IsBitmap malloced size e =
      (grind (arith, e, B.bytes-zeros (B.bytes malloced)), all_clear (B.bytes malloced) size)

  none_clear :
      (bits : B.Bits) (n : ℕ)
      → ((j : ℕ) → j < n → not (B.test_bit bits j) ≡ false)
      → clear_bits bits n ≡ 0
  unfolding clear_bits
  none_clear bits zero h = refl
  none_clear bits (suc n) h =
      let on : B.test_bit bits n ≡ true = negated (B.test_bit bits n) (h n (omega arith)) in
      rw (on, none_clear bits n (λ j l. h j (omega arith)))
    where
      negated : (r : Bool) → not r ≡ false → r ≡ true
      negated true e = refl
      negated false e = sym e

  sync_file-bitarray :
      (b : Bitmap B) → ((sync_file B b).bitarray ≡ b.bitarray) × ((sync_file B b).size ≡ b.size)
  unfolding sync_file
  sync_file-bitarray b = by_file b.file
    where
      by_file :
          (f : Option B.Bits)
          → ((sync_file B (record b { file = f })).bitarray ≡ b.bitarray)
            × ((sync_file B (record b { file = f })).size ≡ b.size)
      by_file none = (refl, refl)
      by_file (some old) = (refl, refl)

  pub set-bits :
      (b : Bitmap B) (k : ℕ)
      → ((bitmap_set B b k).bitarray ≡ B.set_bit b.bitarray k) × ((bitmap_set B b k).size ≡ b.size)
  unfolding bitmap_set
  set-bits b k = sync_file-bitarray (record b { bitarray = B.set_bit b.bitarray k })

  pub unset-bits :
      (b : Bitmap B) (k : ℕ)
      → ((bitmap_unset B b k).bitarray ≡ B.clean_bit b.bitarray k)
        × ((bitmap_unset B b k).size ≡ b.size)
  unfolding bitmap_unset
  unset-bits b k = sync_file-bitarray (record b { bitarray = B.clean_bit b.bitarray k })

  negated_true : (r : Bool) → not r ≡ true → r ≡ false
  negated_true true e = sym e
  negated_true false e = refl

  firstzero-free :
      (b : Bitmap B)
      → 0 < free_blocks b
      → (k : ℕ) × (bitmap_firstzero B b ≡ some k) × (k < b.size) × (bitmap_test B b k ≡ false)
  unfolding bitmap_test
  firstzero-free b h = go (bitmap_firstzero B b) refl (bitmap_firstzero-IsFirst B b)
    where
      go :
          (r : Option ℕ)
          → bitmap_firstzero B b ≡ r
          → IsFirst B not b 0 b.size r
          → (k : ℕ) × (bitmap_firstzero B b ≡ some k) × (k < b.size) × (bitmap_test B b k ≡ false)
      go none e f =
          absurd (omega (arith, none_clear b.bitarray b.size (λ j l. f j (omega arith) l)))
      go (some k) e (l, u, found, before) = (k, e, u, negated_true (bitmap_test B b k) found)

  taken :
      (b : Bitmap B) (k : ℕ)
      → IsBitmap b
      → k < b.size
      → B.test_bit b.bitarray k ≡ false
      → free_blocks b ≡ suc (free_blocks (bitmap_set B b k))
  taken b k inside l off =
      one_less b.bitarray (B.set_bit b.bitarray k) b.size k l off
        (B.test-set_self b.bitarray k (omega arith)) (λ i ne. B.test-set_ne b.bitarray k i ne)
      ∙ ap suc (ap2 clear_bits (sym (set-bits b k).0) (sym (set-bits b k).1))

  pub given_back :
      (b : Bitmap B) (k : ℕ)
      → IsBitmap b
      → k < b.size
      → B.test_bit b.bitarray k ≡ true
      → free_blocks (bitmap_unset B b k) ≡ suc (free_blocks b)
  given_back b k inside l on =
      ap2 clear_bits (unset-bits b k).0 (unset-bits b k).1
      ∙ one_less (B.clean_bit b.bitarray k) b.bitarray b.size k l
          (B.test-clean_self b.bitarray k (omega arith)) on
          (λ i ne. sym (B.test-clean_ne b.bitarray k i ne))

  bitmap_set-IsBitmap : (b : Bitmap B) (k : ℕ) → IsBitmap b → IsBitmap (bitmap_set B b k)
  bitmap_set-IsBitmap b k inside =
      let (bits, size) = set-bits b k in
      omega (arith, size, ap B.bytes bits, B.bytes-set b.bitarray k)

  -- Taking a block while one is free, in a bitmap whose bytes cover its size: `bitmap_firstzero`
  -- finds a bit inside the map that is 0, setting it leaves one free bit less and the bytes still
  -- cover the size, and unsetting it gives the free bit back.
  pub bitmap_set-firstzero :
      (b : Bitmap B)
      → IsBitmap b
      → 0 < free_blocks b
      → (k : ℕ) × (bitmap_firstzero B b ≡ some k)
        × (bitmap_test B b k ≡ false)
        × (bitmap_test B (bitmap_set B b k) k ≡ true)
        × IsBitmap (bitmap_set B b k)
        × (free_blocks b ≡ suc (free_blocks (bitmap_set B b k)))
        × (free_blocks (bitmap_unset B (bitmap_set B b k) k) ≡ free_blocks b)
  unfolding bitmap_test
  bitmap_set-firstzero b inside free =
      let (k, found, l, off) = firstzero-free b free in
      let (bits, size) = set-bits b k in
      let on : B.test_bit (bitmap_set B b k).bitarray k ≡ true =
        ap (λ x. B.test_bit x k) bits ∙ B.test-set_self b.bitarray k (omega arith) in
      let still = bitmap_set-IsBitmap b k inside in
      let less = taken b k inside l off in
      (
        k,
        found,
        off,
        on,
        still,
        less,
        given_back (bitmap_set B b k) k still (omega (arith, size)) on ∙ sym less,
      )
