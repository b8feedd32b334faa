-- ===== src/Partition/Reconstruct.antt =====
-- `reconstruct_file` of FileSystem/src/filetable.c.
use tp_2017_2c_yatpos.Base.{
  ℕ, zero, suc, ◌+◌, ◌-◌, List, [], ◌∷◌, ◌++◌, true, false, Option, none, some, length, take, drop,
  get_elem?, ltb, ◌==◌, if◌then◌else◌, min,
}
use tp_2017_2c_yatpos.Serial.Words.{Bytes}
use tp_2017_2c_yatpos.Yfile.{Block}

-- The variables of `reconstruct_file`: `next` is `index + 1`, and `out` the file written so far.
pub record Joining : Type 0 where
  pub next : ℕ
  pub block : Option Block
  pub size : ℕ
  pub out : Bytes

-- What a call of `traverser` leads to: it goes on, it stops the traversal, or it reads `block`
-- when that is NULL.
pub data Flow : Type 0 where
  more stop : Joining → Flow
  fault : Flow

module _ (block_size : ℕ) (blocks : List Block) where
  -- `next_block`, with what follows when there is one and when there is none.
  unfoldable pub next_block {ℓ} : {A : Type ℓ} → Joining → (Joining → A) → (Joining → A) → A
  next_block j found missing = elim (get_elem? blocks j.next) [
    | none ↦ missing (record j { next = suc j.next; block = none })
    | some b ↦ found (record j { next = suc j.next; block = some b; size = 0 })
  ]

  -- One round of the loop over a chunk: a write, and the next block if this one is complete.
  unfoldable pub write_round :
      (ℕ → ℕ → Joining → Flow) → Bytes → (offset bcur : ℕ) → Block → Joining → Flow
  unfolding next_block
  write_round again bytes offset bcur b j =
      let n = min bcur (b.size - j.size) in
      let j' = record j { size = j.size + n; out = j.out ++ take n (drop offset bytes) } in
      elim (j'.size == b.size) [
        | false ↦ again (offset + n) (bcur - n) j'
        | true ↦ next_block j' (λ k. again (offset + (block_size - j'.size) + n) (bcur - n) k) stop
      ]

  -- `for(offset = 0; offset < bsize; offset += bytes)`. Each round writes a byte at least.
  unfoldable pub write_chunk : (fuel : ℕ) → Bytes → (offset bcur : ℕ) → Joining → Flow
  unfolding write_round
  write_chunk zero bytes offset bcur j = fault
  write_chunk (suc fuel) bytes offset bcur j = elim (ltb offset (length bytes)) [
    | false ↦ more j
    | true ↦ elim j.block [
      | none ↦ fault
      | some b ↦ write_round (write_chunk fuel bytes) bytes offset bcur b j
    ]
  ]

  unfoldable pub traverser : Joining → Bytes → Flow
  unfolding write_chunk
  traverser j bytes =
      let write = λ (k : Joining). write_chunk (suc (length bytes)) bytes 0 (length bytes) k in
      if j.size == block_size then next_block j write stop else write j

  unfoldable pub traverse : Joining → List Bytes → Flow
  unfolding traverser
  traverse j [] = more j
  traverse j (c ∷ cs) = elim (traverser j c) [
    | more k ↦ traverse k cs
    | stop k ↦ stop k
    | fault ↦ fault
  ]

  abbrev pub written : Flow → Option Bytes
  written (more j) = some j.out
  written (stop j) = some j.out
  written fault = none

  -- The content of the file "metadata/file", from the chunks of the block file.
  unfoldable pub reconstruct_file : List Bytes → Option Bytes
  unfolding traverse
  reconstruct_file chunks =
      written (traverse (record { next = 0; block = none; size = block_size; out = [] }) chunks)
