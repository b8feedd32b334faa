-- ===== src/Partition/Chunks.antt =====
-- The chunks that `file_btraverse` reads, and `count_file_blocks` of FileSystem/src/filetable.c for
-- a binary file: the rounded-up quotient is the number of blocks that the chunks fill.
use tp_2017_2c_yatpos.Base.{
  ℕ, zero, suc, ◌+◌, ◌*◌, ◌≤◌, ◌<◌, ◌≡◌, refl, ap, sym, ◌∙◌, inl, inr, List, [], ◌∷◌, ◌++◌, arith,
  length, take, drop, All, leb, Bool-cases, leb→le, length-take, length-drop, take-append-drop,
}
use mathlib.Core.List.{flatten}
use tp_2017_2c_yatpos.Serial.Words.{Bytes}
use tp_2017_2c_yatpos.Partition.{read_chunks, chunks_of, count_bin_blocks}
use tp_2017_2c_yatpos.Partition.Cut.{block_of, needed, needed_over, needed_fits}

module _ (chunk : ℕ) (chunk_pos : 0 < chunk) where
  flatten-read_chunks :
      (fuel : ℕ) (bytes : Bytes)
      → length bytes ≤ fuel
      → flatten (read_chunks chunk fuel bytes) ≡ bytes
  unfolding read_chunks flatten
  flatten-read_chunks zero [] h = refl
  flatten-read_chunks zero (b ∷ bs) h = absurd (omega arith)
  flatten-read_chunks (suc fuel) [] h = refl
  flatten-read_chunks (suc fuel) (b ∷ bs) h =
      ap (◌++◌ (take chunk (b ∷ bs)))
        (flatten-read_chunks fuel (drop chunk (b ∷ bs)) (omega (arith, length-drop chunk (b ∷ bs))))
      ∙ take-append-drop chunk (b ∷ bs)

  -- The chunks of a file are the file.
  pub flatten-chunks_of : (bytes : Bytes) → flatten (chunks_of chunk bytes) ≡ bytes
  unfolding chunks_of
  flatten-chunks_of bytes = flatten-read_chunks (length bytes) bytes (omega arith)

  All-read_chunks :
      (fuel : ℕ) (bytes : Bytes) → All (λ c. length c ≤ chunk) (read_chunks chunk fuel bytes)
  unfolding read_chunks
  All-read_chunks zero bytes = tt
  All-read_chunks (suc fuel) [] = tt
  All-read_chunks (suc fuel) (b ∷ bs) =
      (omega (arith, length-take chunk (b ∷ bs)), All-read_chunks fuel (drop chunk (b ∷ bs)))

  pub All-chunks_of : (bytes : Bytes) → All (λ c. length c ≤ chunk) (chunks_of chunk bytes)
  unfolding chunks_of
  All-chunks_of bytes = All-read_chunks (length bytes) bytes

  read_chunks-nil :
      (fuel : ℕ) (bytes : Bytes) → length bytes ≡ 0 → read_chunks chunk fuel bytes ≡ []
  unfolding read_chunks
  read_chunks-nil zero bytes h = refl
  read_chunks-nil (suc fuel) [] h = refl
  read_chunks-nil (suc fuel) (b ∷ bs) h = absurd (omega arith)

module _ (block_size : ℕ) (block_pos : 0 < block_size) where
  ceil-le : (n : ℕ) → n ≤ block_size → count_bin_blocks block_size n ≡ block_of n
  unfolding count_bin_blocks
  ceil-le zero h = grind arith
  ceil-le (suc n) h = grind arith

  ceil-add :
      (n : ℕ) → count_bin_blocks block_size (block_size + n) ≡ 1 + count_bin_blocks block_size n
  unfolding count_bin_blocks
  ceil-add n = grind arith

-- `BLOCK_SIZE` is a whole number of chunks.
module _ (chunk m : ℕ) (chunk_pos : 0 < chunk) (m_pos : 0 < m) where
  times_le : (k : ℕ) → k < m → k * chunk + chunk ≤ m * chunk
  times_le k h = grind arith

  block_pos : 0 < m * chunk
  block_pos = grind arith

  suc_times : (k : ℕ) → suc k * chunk ≡ k * chunk + chunk
  suc_times k = grind arith

  -- With the buffer short of full by whole chunks, one more chunk fits.
  needed_step :
      (k : ℕ) (p : Bytes) (ps : List Bytes)
      → k < m
      → length p ≤ chunk
      → needed (m * chunk) 0 (k * chunk) (p ∷ ps) ≡ needed (m * chunk) 0 (k * chunk + length p) ps
  needed_step k p ps h l = needed_fits (m * chunk) 0 (k * chunk) p ps (omega (arith, times_le k h))

  -- A full buffer makes way for any chunk.
  needed_full :
      (p : Bytes) (ps : List Bytes)
      → 0 < length p
      → needed (m * chunk) 0 (m * chunk) (p ∷ ps)
        ≡ 1 + needed (m * chunk) 0 (0 * chunk + length p) ps
  needed_full p ps h =
      needed_over (m * chunk) 0 (m * chunk) p ps (omega arith)
      ∙ ap (λ n. n + needed (m * chunk) 0 (0 + length p) ps) (one (m * chunk) block_pos)
      ∙ ap (λ n. 1 + needed (m * chunk) 0 n ps) (omega arith)
    where
      one : (n : ℕ) → 0 < n → block_of n ≡ 1
      one zero q = absurd (omega arith)
      one (suc n) q = refl

  -- The rest of the file behind one chunk, with room for that chunk in the buffer.
  after_chunk :
      (fuel k : ℕ) (bytes : Bytes)
      → k < m
      → needed (m * chunk) 0 (suc k * chunk) (read_chunks chunk fuel (drop chunk bytes))
        ≡ count_bin_blocks (m * chunk) (suc k * chunk + length (drop chunk bytes))
      → needed
          (m * chunk)
          0
          (k * chunk + length (take chunk bytes))
          (read_chunks chunk fuel (drop chunk bytes))
        ≡ count_bin_blocks (m * chunk) (k * chunk + length bytes)
  unfolding needed
  after_chunk fuel k bytes h ih = elim (Bool-cases (leb (length bytes) chunk)) [
    | inl e ↦
        let short : length bytes ≤ chunk = leb→le _ _ e in
        rw
          (
            read_chunks-nil chunk chunk_pos fuel (drop chunk bytes)
                (omega (arith, length-drop chunk bytes)),
            length-take_all short,
          )
          (sym (ceil-le (m * chunk) block_pos _ (omega (arith, times_le k h))))
    | inr e ↦
        let long : chunk ≤ length bytes = ground arith in
        ap (λ n. needed (m * chunk) 0 n (read_chunks chunk fuel (drop chunk bytes)))
          (omega (arith, suc_times k, length-take chunk bytes))
        ∙ ih
        ∙ ap (count_bin_blocks (m * chunk)) (omega (arith, suc_times k, length-drop chunk bytes))
  ]
    where
      length-take_all : length bytes ≤ chunk → length (take chunk bytes) ≡ length bytes
      length-take_all short = omega (arith, length-take chunk bytes)

  -- The rounded-up quotient of what is in the buffer and what is still to come.
  pub needed-read_chunks :
      (fuel k : ℕ) (bytes : Bytes)
      → length bytes ≤ fuel
      → k ≤ m
      → needed (m * chunk) 0 (k * chunk) (read_chunks chunk fuel bytes)
        ≡ count_bin_blocks (m * chunk) (k * chunk + length bytes)
  unfolding read_chunks needed
  needed-read_chunks fuel k [] h l =
      ap (needed (m * chunk) 0 (k * chunk)) (read_chunks-nil chunk chunk_pos fuel [] refl)
      ∙ no_more (k * chunk) (times_mono k l)
      ∙ ap (count_bin_blocks (m * chunk)) (omega arith)
    where
      times_mono : (k : ℕ) → k ≤ m → k * chunk ≤ m * chunk
      times_mono k l = grind arith

      no_more : (n : ℕ) → n ≤ m * chunk → needed (m * chunk) 0 n [] ≡ count_bin_blocks (m * chunk) n
      no_more n q = sym (ceil-le (m * chunk) block_pos n q)
  needed-read_chunks zero k (b ∷ bs) h l = absurd (omega arith)
  needed-read_chunks (suc fuel) k (b ∷ bs) h l = elim (Bool-cases (leb m k)) [
    | inl e ↦
        let last : k ≡ m = ground arith in
        rw last (
          needed_full (take chunk (b ∷ bs)) (read_chunks chunk fuel (drop chunk (b ∷ bs)))
            (omega (arith, length-take chunk (b ∷ bs)))
          ∙ ap (λ n. 1 + n)
              (after_chunk fuel 0 (b ∷ bs) m_pos (
                needed-read_chunks fuel 1 (drop chunk (b ∷ bs))
                  (omega (arith, length-drop chunk (b ∷ bs))) m_pos))
          ∙ sym (ceil-add (m * chunk) block_pos (0 * chunk + length (b ∷ bs)))
          ∙ ap (count_bin_blocks (m * chunk)) (omega arith))
    | inr e ↦
        let room : k < m = ground arith in
        needed_step k (take chunk (b ∷ bs)) (read_chunks chunk fuel (drop chunk (b ∷ bs))) room
          (omega (arith, length-take chunk (b ∷ bs)))
        ∙ after_chunk fuel k (b ∷ bs) room (
            needed-read_chunks fuel (suc k) (drop chunk (b ∷ bs))
              (omega (arith, length-drop chunk (b ∷ bs))) room)
  ]
