-- ===== src/Partition/Restore.antt =====
-- Writing a file into blocks and reading it again, in FileSystem/src/filetable.c:
-- `reconstruct_file` after `partition_bin_file` and after `partition_text_file`.
use tp_2017_2c_yatpos.Base.{
  ℕ, ◌+◌, ◌*◌, ◌^◌, ◌≤◌, ◌<◌, ◌≡◌, ap, ◌∙◌, List, [], ◌∷◌, Option, none, some, arith, length, All,
  All-mono,
}
use mathlib.Core.List.{flatten}
use tp_2017_2c_yatpos.Serial.Words.{Bytes}
use tp_2017_2c_yatpos.Partition.{
  Output, Cutting, partition_text_file, partition_bin_file, count_bin_blocks, chunks_of, cut, start,
}
use tp_2017_2c_yatpos.Partition.Chunks.{All-chunks_of}
use tp_2017_2c_yatpos.Partition.Cut.{Cuts, Fits, needed}
use tp_2017_2c_yatpos.Partition.Content.{
  Fresh, partition_bin_file-Cuts, partition_text_file-Cuts, bin_needed, text_needed,
}
use tp_2017_2c_yatpos.Partition.Padding.{IsShort, cut-IsPadded}
use tp_2017_2c_yatpos.Partition.Whole.{reconstruct_file-contents}
use tp_2017_2c_yatpos.Partition.Reconstruct.{reconstruct_file}

module _ (chunk m : ℕ) (chunk_pos : 0 < chunk) (m_pos : 0 < m) where
  -- `run` came to its end, and reading the blocks that it wrote gives `text`.
  abbrev pub Restores : Option Cutting → List ℕ → Type 0
  Restores run text =
      (c : Cutting) × (o : Output) × (run ≡ some c)
      × (c.output ≡ some o)
      × (reconstruct_file (m * chunk) o.file.blocks (chunks_of chunk (flatten o.target))
          ≡ some text)

  -- What a run of the cutting loop wrote is read again, if no piece is longer than a chunk.
  cut-Restores :
      (terminator : Bytes) (ps : List Bytes) (buffer text : Bytes) (o : Output) (n total : ℕ)
      → All (IsShort chunk m terminator) ps
      → o.file.blocks ≡ []
      → length o.target ≡ n
      → n * (m * chunk) < 2 ^ 31
      → needed (m * chunk) (length terminator) 0 ps ≤ n
      → Cuts
          (m * chunk)
          n
          (cut (m * chunk) terminator (start (m * chunk) buffer (some o)) ps)
          text
          total
      → total ≤ n
      → Restores (cut (m * chunk) terminator (start (m * chunk) buffer (some o)) ps) text
  cut-Restores terminator ps buffer text o n total short empty room small enough cuts all = (
    cuts.after,
    cuts.output,
    cuts.ran,
    cuts.wrote,
    reconstruct_file-contents chunk m chunk_pos cuts.output.file.blocks cuts.output.target m_pos
          cuts.written.sizes
          (cut-IsPadded chunk m terminator ps buffer 0 0 o cuts.output cuts.after fits short
            (rw empty tt) (omega arith) (rw room small) cuts.ran cuts.wrote)
          cuts.written.targets (omega (arith, cuts.blocks, cuts.written.room))
        ∙ ap some cuts.written.text,
  )
    where
      whole : chunk ≤ m * chunk
      whole = grind arith

      fits : All (Fits (m * chunk) terminator) ps
      fits =
          All-mono (IsShort chunk m terminator) (Fits (m * chunk) terminator) ps
            (λ c h. omega (arith, whole)) short

  -- A binary file written into a block file with room for `count_file_blocks` blocks comes back
  -- byte for byte, with BLOCK_SIZE a whole number of chunks and a block file of less than 2 ^ 31 bytes.
  pub reconstruct_file-partition_bin_file :
      (bytes buffer : Bytes) (o : Output)
      → Fresh (m * chunk) (count_bin_blocks (m * chunk) (length bytes)) buffer o
      → Restores (partition_bin_file (m * chunk) buffer (chunks_of chunk bytes) (some o)) bytes
  unfolding partition_bin_file
  reconstruct_file-partition_bin_file bytes buffer o f =
      cut-Restores [] (chunks_of chunk bytes) buffer bytes o _ _
        (All-mono (λ c. length c ≤ chunk) (IsShort chunk m []) (chunks_of chunk bytes)
          (λ c h. omega arith) (All-chunks_of chunk chunk_pos bytes))
        f.no_blocks f.room f.small (omega (arith, bin_needed chunk m chunk_pos m_pos bytes))
        (partition_bin_file-Cuts chunk m bytes buffer o chunk_pos m_pos f) (omega arith)

  -- A text file comes back as its lines in order when each of them, with its NUL, is no longer than
  -- a chunk: BLOCK_SIZE is a whole number of chunks, and the block file has the number of blocks
  -- that counting the lines gave, and less than 2 ^ 31 bytes.
  pub reconstruct_file-partition_text_file :
      (lines : List Bytes) (buffer : Bytes) (o : Output) (counted : Cutting)
      → All (λ l. length l + 1 ≤ chunk) lines
      → partition_text_file (m * chunk) buffer lines none ≡ some counted
      → Fresh (m * chunk) counted.count buffer o
      → Restores (partition_text_file (m * chunk) buffer lines (some o)) (flatten lines)
  unfolding partition_text_file
  reconstruct_file-partition_text_file lines buffer o counted short ran f =
      cut-Restores (0 ∷ []) lines buffer (flatten lines) o _ _ short f.no_blocks f.room f.small
        (omega (arith, text_needed (m * chunk) lines buffer counted fits ran))
        (partition_text_file-Cuts (m * chunk) lines buffer o counted fits ran f) (omega arith)
    where
      whole : chunk ≤ m * chunk
      whole = grind arith

      fits : All (λ l. length l + 1 ≤ m * chunk) lines
      fits =
          All-mono (λ l. length l + 1 ≤ chunk) (λ l. length l + 1 ≤ m * chunk) lines
            (λ c h. omega (arith, whole)) short
