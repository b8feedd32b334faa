-- ===== src/Datanode/Blocks.antt =====
-- The mapped file of Shared/data.c as a list of blocks: `data_set` writes one of them and `data_get`
-- reads one.
use tp_2017_2c_yatpos.Base.{
  ℕ, zero, suc, ◌+◌, ◌*◌, ◌^◌, ◌<◌, ◌≤◌, ◌≡◌, refl, ap, sym, ◌∙◌, List, [], ◌∷◌, ◌++◌, All, some,
  length, take, drop, set, leb, true, arith, length-append, take-append_length,
}
use tp_2017_2c_yatpos.Base.Int.{pos}
use tp_2017_2c_yatpos.Serial.Words.{Bytes}
use tp_2017_2c_yatpos.Partition.{overlay}
use tp_2017_2c_yatpos.Datanode.{block_offset, data_set, data_get}

unfoldable pub concat : List Bytes → Bytes
concat [] = []
concat (b ∷ bs) = b ++ concat bs

-- The block at a place, and none of its bytes where there is no block.
unfoldable pub block_at : List Bytes → ℕ → Bytes
block_at [] n = []
block_at (b ∷ bs) zero = b
block_at (b ∷ bs) (suc n) = block_at bs n

overlay_behind :
    (xs ys block : Bytes) (n : ℕ)
    → overlay (length xs + n) block (xs ++ ys) ≡ xs ++ overlay n block ys
unfolding overlay
overlay_behind [] ys block n = ap (λ m. overlay m block ys) (omega arith)
overlay_behind (x ∷ xs) ys block n =
    ap (λ m. overlay m block (x ∷ xs ++ ys)) shift ∙ ap (◌∷◌ x) (overlay_behind xs ys block n)
  where
    shift : suc (length xs) + n ≡ suc (length xs + n)
    shift = omega arith

overlay_here :
    (xs ys block : Bytes) → length block ≡ length xs → overlay 0 block (xs ++ ys) ≡ block ++ ys
unfolding overlay
overlay_here [] [] [] h = refl
overlay_here [] (y ∷ ys) [] h = refl
overlay_here [] ys (b ∷ block) h = absurd (omega arith)
overlay_here (x ∷ xs) ys [] h = absurd (omega arith)
overlay_here (x ∷ xs) ys (b ∷ block) h = ap (◌∷◌ b) (overlay_here xs ys block (omega arith))

drop_behind : (xs ys : Bytes) (n : ℕ) → drop (length xs + n) (xs ++ ys) ≡ drop n ys
drop_behind [] ys n = ap (λ m. drop m ys) (omega arith)
drop_behind (x ∷ xs) ys n = ap (λ m. drop m (x ∷ xs ++ ys)) shift ∙ drop_behind xs ys n
  where
    shift : suc (length xs) + n ≡ suc (length xs + n)
    shift = omega arith

pub take-length : (xs : Bytes) → take (length xs) xs ≡ xs
take-length [] = refl
take-length (x ∷ xs) = ap (◌∷◌ x) (take-length xs)

module _ (block_size : ℕ) where
  -- All the blocks have the size of a block.
  abbrev pub IsBlocks : List Bytes → Type 0
  IsBlocks blocks = All (λ b. length b ≡ block_size) blocks

  next_place :
      (b : Bytes) (n : ℕ) → length b ≡ block_size → suc n * block_size ≡ length b + n * block_size
  next_place b n e = grind arith

  pub length-concat :
      (blocks : List Bytes) → IsBlocks blocks → length (concat blocks) ≡ length blocks * block_size
  unfolding concat
  length-concat [] h = omega arith
  length-concat (b ∷ blocks) h =
      length-append b (concat blocks)
      ∙ ap (◌+◌ (length b)) (length-concat blocks h.1)
      ∙ sym (next_place b (length blocks) h.0)

  pub overlay-concat :
      (blocks : List Bytes) (n : ℕ) (block : Bytes)
      → IsBlocks blocks
      → n < length blocks
      → length block ≡ block_size
      → overlay (n * block_size) block (concat blocks) ≡ concat (set blocks n block)
  unfolding concat
  overlay-concat [] n block h p e = absurd (omega arith)
  overlay-concat (b ∷ blocks) zero block h p e =
      ap (λ m. overlay m block (b ++ concat blocks)) (omega arith)
      ∙ overlay_here b (concat blocks) block (e ∙ sym h.0)
  overlay-concat (b ∷ blocks) (suc n) block h p e =
      ap (λ m. overlay m block (b ++ concat blocks)) (next_place b n h.0)
      ∙ overlay_behind b (concat blocks) block (n * block_size)
      ∙ ap (◌++◌ b) (overlay-concat blocks n block h.1 (omega arith) e)

  pub take-drop-concat :
      (blocks : List Bytes) (n : ℕ)
      → IsBlocks blocks
      → n < length blocks
      → take block_size (drop (n * block_size) (concat blocks)) ≡ block_at blocks n
  unfolding concat block_at
  take-drop-concat [] n h p = absurd (omega arith)
  take-drop-concat (b ∷ blocks) zero h p =
      ap (λ m. take block_size (drop m (b ++ concat blocks))) none_before
      ∙ ap (λ m. take m (b ++ concat blocks)) (sym h.0)
      ∙ take-append_length b (concat blocks)
    where
      none_before : 0 * block_size ≡ 0
      none_before = omega arith
  take-drop-concat (b ∷ blocks) (suc n) h p =
      ap (λ m. take block_size (drop m (b ++ concat blocks))) (next_place b n h.0)
      ∙ ap (take block_size) (drop_behind b (concat blocks) (n * block_size))
      ∙ take-drop-concat blocks n h.1 (omega arith)

  in_map :
      (blocks : List Bytes) (n : ℕ)
      → IsBlocks blocks
      → n < length blocks
      → n * block_size + block_size ≤ length (concat blocks)
  in_map blocks n h p = rw (length-concat blocks h) (monotone n (length blocks) p)
    where
      monotone : (a c : ℕ) → a < c → a * block_size + block_size ≤ c * block_size
      monotone a c q = grind arith

  -- The block has a place in the map.
  pub block_offset-concat :
      (blocks : List Bytes) (n : ℕ)
      → IsBlocks blocks
      → n < length blocks
      → length (concat blocks) < 2 ^ 31
      → block_offset block_size (concat blocks) (pos n) ≡ some (n * block_size)
  unfolding block_offset
  block_offset-concat blocks n h p small = ground (arith, in_map blocks n h p)

  pub data_set-concat :
      (blocks : List Bytes) (n : ℕ) (block : Bytes)
      → IsBlocks blocks
      → n < length blocks
      → length (concat blocks) < 2 ^ 31
      → length block ≡ block_size
      → data_set block_size (concat blocks) (pos n) block ≡ some (concat (set blocks n block))
  unfolding data_set
  data_set-concat blocks n block h p small e =
      rw (block_offset-concat blocks n h p small, data_set)
        (rw (there, whole, overlay-concat blocks n block h p e))
    where
      there : leb block_size (length block) ≡ true
      there = ground arith

      whole : take block_size block ≡ block
      whole = rw (sym e) (take-length block)

  pub data_get-concat :
      (blocks : List Bytes) (n : ℕ)
      → IsBlocks blocks
      → n < length blocks
      → length (concat blocks) < 2 ^ 31
      → data_get block_size (concat blocks) (pos n) ≡ some (block_at blocks n)
  unfolding data_get
  data_get-concat blocks n h p small =
      rw (block_offset-concat blocks n h p small, data_get)
        (ap some (take-drop-concat blocks n h p))

  pub block_at-IsBlock :
      (blocks : List Bytes) (n : ℕ)
      → IsBlocks blocks
      → n < length blocks
      → length (block_at blocks n) ≡ block_size
  unfolding block_at
  block_at-IsBlock [] n h p = absurd (omega arith)
  block_at-IsBlock (b ∷ blocks) zero h p = h.0
  block_at-IsBlock (b ∷ blocks) (suc n) h p = block_at-IsBlock blocks n h.1 (omega arith)
