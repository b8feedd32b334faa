-- ===== src/Partition/Rejoin.antt =====
-- `reconstruct_file` of FileSystem/src/filetable.c inside one block: the chunks of the block file
-- that hold the block, one after the other.
use tp_2017_2c_yatpos.Base.{
  ℕ, zero, suc, ◌+◌, ◌-◌, ◌≤◌, ◌<◌, ◌≡◌, refl, ap, ◌∙◌, List, [], ◌∷◌, ◌++◌, none, some, true,
  false, arith, length, take, get_elem?, ltb, ◌==◌, min,
}
use tp_2017_2c_yatpos.Serial.Words.{Bytes}
use tp_2017_2c_yatpos.Yfile.{Block}
use tp_2017_2c_yatpos.Partition.Reconstruct.{
  Joining, Flow, more, stop, next_block, write_round, write_chunk, traverser,
}

take_all : {A : Type 0} (xs : List A) → take (length xs) xs ≡ xs
take_all [] = refl
take_all (x ∷ xs) = ap (◌∷◌ x) (take_all xs)

module _ (block_size : ℕ) (blocks : List Block) where
  abbrev pub at : ℕ → Block → ℕ → Bytes → Joining
  at next b size out = record { next = next; block = some b; size = size; out = out }

  -- The loop over a chunk ends when the offset is past it.
  write_chunk-past :
      (fuel : ℕ) (bytes : Bytes) (offset bcur : ℕ) (j : Joining)
      → 0 < fuel
      → length bytes ≤ offset
      → write_chunk block_size blocks fuel bytes offset bcur j ≡ more j
  unfolding write_chunk
  write_chunk-past zero bytes offset bcur j p h = absurd (omega arith)
  write_chunk-past (suc fuel) bytes offset bcur j p h = rw (past, write_chunk)
    where
      past : ltb offset (length bytes) ≡ false
      past = ground arith

  module _ (again : ℕ → ℕ → Joining → Flow) (c : Bytes) (next : ℕ) (b : Block) (size : ℕ)
      (out : Bytes) where
    round_inside :
        size + length c < b.size
        → write_round block_size blocks again c 0 (length c) b (at next b size out)
          ≡ again (0 + length c) (length c - length c) (at next b (size + length c) (out ++ c))
    unfolding write_round
    round_inside h = rw (going_on, write_round) (rw (amount, take_all c))
      where
        amount : min (length c) (b.size - size) ≡ length c
        amount = omega arith

        going_on : (size + min (length c) (b.size - size) == b.size) ≡ false
        going_on = rw amount (ground arith)

    -- The last bytes of a block, and the step to the block that follows.
    round_last :
        (n : ℕ)
        → size + n ≡ b.size
        → n ≤ length c
        → write_round block_size blocks again c 0 (length c) b (at next b size out)
          ≡ next_block block_size blocks
              (at next b (size + n) (out ++ take n c))
              (λ k. again (0 + (block_size - (size + n)) + n) (length c - n) k)
              stop
    unfolding write_round
    round_last n e h = rw (complete, write_round) (rw amount)
      where
        amount : min (length c) (b.size - size) ≡ n
        amount = omega arith

        complete : (size + min (length c) (b.size - size) == b.size) ≡ true
        complete = rw amount (ground arith)

  -- The first round of the loop over a chunk.
  first_round :
      (c : Bytes) (next : ℕ) (b : Block) (size : ℕ) (out : Bytes)
      → 0 < length c
      → size < block_size
      → traverser block_size blocks (at next b size out) c
        ≡ write_round block_size blocks
            (write_chunk block_size blocks (length c) c)
            c
            0
            (length c)
            b
            (at next b size out)
  unfolding traverser write_chunk
  first_round c next b size out p h = rw (part, nonempty, write_chunk)
    where
      part : (size == block_size) ≡ false
      part = ground arith

      nonempty : ltb 0 (length c) ≡ true
      nonempty = ground arith

  -- A chunk inside the block is written whole.
  pub traverser_inside :
      (c : Bytes) (next : ℕ) (b : Block) (size : ℕ) (out : Bytes)
      → 0 < length c
      → size + length c < b.size
      → b.size ≤ block_size
      → traverser block_size blocks (at next b size out) c
        ≡ more (at next b (size + length c) (out ++ c))
  traverser_inside c next b size out p h q =
      first_round c next b size out p (omega arith)
      ∙ round_inside (write_chunk block_size blocks (length c) c) c next b size out h
      ∙ write_chunk-past (length c) c _ _ _ p (omega arith)

  -- The chunk in which the block ends, when another block follows: that block is up next, and the
  -- padding in the chunk is passed over.
  pub traverser_ends :
      (c : Bytes) (next : ℕ) (b b' : Block) (size n : ℕ) (out : Bytes)
      → 0 < length c
      → size + length c ≤ block_size
      → size + n ≡ b.size
      → n ≤ length c
      → get_elem? blocks next ≡ some b'
      → traverser block_size blocks (at next b size out) c
        ≡ more (at (suc next) b' 0 (out ++ take n c))
  unfolding next_block
  traverser_ends c next b b' size n out p q e h g =
      first_round c next b size out p (omega arith)
      ∙ round_last (write_chunk block_size blocks (length c) c) c next b size out n e h
      ∙ rw (g, next_block) (write_chunk-past (length c) c _ _ _ p (omega arith))

  -- The chunk in which the last block ends: the traversal stops there.
  pub traverser_stops :
      (c : Bytes) (next : ℕ) (b : Block) (size n : ℕ) (out : Bytes)
      → 0 < length c
      → size + length c ≤ block_size
      → size + n ≡ b.size
      → n ≤ length c
      → get_elem? blocks next ≡ none
      → (j : Joining) × (traverser block_size blocks (at next b size out) c ≡ stop j)
        × (j.out ≡ out ++ take n c)
  unfolding next_block
  traverser_stops c next b size n out p q e h g = (
    record { next = suc next; block = none; size = size + n; out = out ++ take n c },
    first_round c next b size out p (omega arith)
        ∙ round_last (write_chunk block_size blocks (length c) c) c next b size out n e h
        ∙ rw (g, next_block),
    refl,
  )
