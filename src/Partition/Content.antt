-- ===== src/Partition/Content.antt =====
-- The block file that FileSystem/src/filetable.c makes of a source: exactly as many blocks as were
-- counted, and in them every byte of the source.
use tp_2017_2c_yatpos.Base.{
  ℕ, ◌+◌, ◌*◌, ◌^◌, ◌≤◌, ◌<◌, ◌≡◌, refl, sym, ap, ◌∙◌, List, [], ◌∷◌, none, some, arith, length,
  All, All-mono, some_inj,
}
use mathlib.Core.List.{flatten}
use tp_2017_2c_yatpos.Serial.Words.{Bytes}
use tp_2017_2c_yatpos.Partition.{
  Output, Cutting, partition_text_file, partition_bin_file, count_bin_blocks, chunks_of,
}
use tp_2017_2c_yatpos.Partition.Overlay.{contents}
use tp_2017_2c_yatpos.Partition.Chunks.{flatten-chunks_of, All-chunks_of, needed-read_chunks}
use tp_2017_2c_yatpos.Partition.Cut.{IsBlock, Holds, Cuts, cut-Cuts, needed, along, Fits}
use tp_2017_2c_yatpos.Partition.Count.{count_cut}

-- Before the first piece: a buffer of one block, a block file of `n` blocks and of less than
-- 2 ^ 31 bytes, a file with no block.
pub record Fresh (block_size n : ℕ) (buffer : Bytes) (o : Output) : Type 0 where
  pub buffer_size : length buffer ≡ block_size
  pub room : length o.target ≡ n
  pub small : n * block_size < 2 ^ 31
  pub targets : All (IsBlock block_size) o.target
  pub no_blocks : o.file.blocks ≡ []

Fresh-Holds :
    {block_size n : ℕ} {buffer : Bytes} {o : Output}
    → Fresh block_size n buffer o
    → Holds block_size n buffer 0 0 o []
unfolding contents
Fresh-Holds {block_size} {o} f = record {
  buffer_size = f.buffer_size;
  size_le = omega arith;
  counted = sym (ap length f.no_blocks);
  text = rw f.no_blocks;
  sizes = rw f.no_blocks tt;
  room = f.room;
  small = f.small;
  targets = f.targets;
}

-- The chunks of a source need the number of blocks that `count_file_blocks` gives.
pub bin_needed :
    (chunk m : ℕ)
    → 0 < chunk
    → 0 < m
    → (bytes : Bytes)
    → needed (m * chunk) 0 0 (chunks_of chunk bytes) ≡ count_bin_blocks (m * chunk) (length bytes)
unfolding chunks_of
bin_needed chunk m p q bytes =
    ap (λ n. needed (m * chunk) 0 n (chunks_of chunk bytes)) {x = 0} {y = 0 * chunk} (omega arith)
    ∙ needed-read_chunks chunk m p q (length bytes) 0 bytes (omega arith) (omega arith)
    ∙ ap (count_bin_blocks (m * chunk)) (omega arith)

-- The binary file: with a block file of `count_file_blocks` blocks and of less than 2 ^ 31 bytes,
-- BLOCK_SIZE a whole number of chunks, the loop over the chunks of the source never writes outside the buffer or the block
-- file, fills exactly that many blocks, none empty, and they hold the bytes of the source in order.
pub partition_bin_file-Cuts :
    (chunk m : ℕ) (bytes buffer : Bytes) (o : Output)
    → 0 < chunk
    → 0 < m
    → Fresh (m * chunk) (count_bin_blocks (m * chunk) (length bytes)) buffer o
    → Cuts
        (m * chunk)
        (count_bin_blocks (m * chunk) (length bytes))
        (partition_bin_file (m * chunk) buffer (chunks_of chunk bytes) (some o))
        bytes
        (count_bin_blocks (m * chunk) (length bytes))
unfolding partition_bin_file chunks_of
partition_bin_file-Cuts chunk m bytes buffer o p q f =
    along (m * chunk)
      (cut-Cuts (m * chunk) [] (chunks_of chunk bytes) buffer 0 0 o [] (Fresh-Holds f) fits
        (omega (arith, total)))
      refl (flatten-chunks_of chunk p bytes) (omega (arith, total))
  where
    total :
        needed (m * chunk) 0 0 (chunks_of chunk bytes) ≡ count_bin_blocks (m * chunk) (length bytes)
    total = bin_needed chunk m p q bytes

    whole : chunk ≤ m * chunk
    whole = grind arith

    fits : All (Fits (m * chunk) []) (chunks_of chunk bytes)
    fits =
        All-mono (λ c. length c ≤ chunk) (Fits (m * chunk) []) (chunks_of chunk bytes)
          (λ c h. omega (arith, whole)) (All-chunks_of chunk p bytes)

-- So do the lines, and the run that only counts.
pub text_needed :
    (block_size : ℕ) (lines : List Bytes) (buffer : Bytes) (counted : Cutting)
    → All (λ l. length l + 1 ≤ block_size) lines
    → partition_text_file block_size buffer lines none ≡ some counted
    → needed block_size 1 0 lines ≡ counted.count
unfolding partition_text_file
text_needed block_size lines buffer counted fits ran =
    let (c, again, count) = count_cut block_size (0 ∷ []) lines buffer 0 0 fits in
    let same : counted ≡ c = some_inj (sym ran ∙ again) in
    omega (arith, count, ap (λ (x : Cutting). x.count) same)

-- The text file: when counting its lines gave `counted`, the block file has that many blocks and
-- less than 2 ^ 31 bytes, and every line fits a block with its NUL, the second run over the lines writes nothing outside the
-- buffer or the block file, fills exactly those blocks, none empty, and they hold the lines in
-- order.
pub partition_text_file-Cuts :
    (block_size : ℕ) (lines : List Bytes) (buffer : Bytes) (o : Output) (counted : Cutting)
    → All (λ l. length l + 1 ≤ block_size) lines
    → partition_text_file block_size buffer lines none ≡ some counted
    → Fresh block_size counted.count buffer o
    → Cuts block_size counted.count
        (partition_text_file block_size buffer lines (some o))
        (flatten lines)
        counted.count
unfolding partition_text_file
partition_text_file-Cuts block_size lines buffer o counted fits ran f =
    along block_size
      (cut-Cuts block_size (0 ∷ []) lines buffer 0 0 o [] (Fresh-Holds f) fits
        (omega (arith, total)))
      refl refl (omega (arith, total))
  where
    total : needed block_size 1 0 lines ≡ counted.count
    total = text_needed block_size lines buffer counted fits ran
