-- ===== src/Partition.antt =====
-- How FileSystem/src/filetable.c cuts a file into blocks (`partition_text_file`,
-- `partition_bin_file`, `add_block`, `count_file_blocks`) and puts it together again
-- (`reconstruct_file`, in the child `Reconstruct`).
-- `block_size` is BLOCK_SIZE (2 ^ 20 in the program) and `chunk` the 4096 bytes that
-- `file_btraverse` reads at a time. The block file is a list of blocks of `block_size` bytes.
-- `none` is a write outside the buffer or the block file.
pub mod Reconstruct
pub mod Overlay
pub mod Chunks
pub mod Cut
pub mod Count
pub mod Content
pub mod Rejoin
pub mod Whole
pub mod Padding
pub mod Restore
pub mod OneBlock
mod Tests
use tp_2017_2c_yatpos.Base.{
  ℕ, zero, suc, ◌+◌, ◌-◌, ◌*◌, ◌/◌, ◌%◌, ◌≤◌, ◌<◌, ◌≡◌, List, [], ◌∷◌, ◌++◌, Option, none, some,
  length, take, drop, set, ltb, ◌&&◌, ◌^◌, ◌==◌, if◌then◌else◌,
}
use tp_2017_2c_yatpos.Base.Int.{pos}
use tp_2017_2c_yatpos.Serial.Words.{Bytes}
use tp_2017_2c_yatpos.Yfile.{File, Block, yfile_addblock}

-- `memcpy(buffer + offset, bytes, ...)`, for a write that stays inside the buffer.
unfoldable pub overlay : ℕ → Bytes → Bytes → Bytes
overlay offset bytes [] = []
overlay zero [] (y ∷ ys) = y ∷ ys
overlay zero (x ∷ xs) (y ∷ ys) = x ∷ overlay zero xs ys
overlay (suc n) bytes (y ∷ ys) = y ∷ overlay n bytes ys

-- `target` and `yfile`, which are both NULL when the blocks are only counted.
pub record Output : Type 0 where
  pub target : List Bytes
  pub file : File

-- The variables that the handlers of lines and chunks share.
pub record Cutting : Type 0 where
  pub buffer : Bytes
  pub size : ℕ
  pub count : ℕ
  pub output : Option Output

-- `calloc` and `block->size = size`
abbrev new_block : ℕ → Block
new_block size = record {
  index = pos 0;
  size = size;
  copy0 = record { blockno = pos 0; node = none };
  copy1 = record { blockno = pos 0; node = none };
}

module _ (block_size : ℕ) where
  -- `add_block`: what it returns, and the block file and the file after it. The place
  -- in the block file, `blockno * BLOCK_SIZE`, is an `int`.
  unfoldable pub add_block : Bytes → ℕ → ℕ → Option Output → Option (ℕ × Option Output)
  unfolding yfile_addblock
  add_block buffer blockno size output = if size == 0 then some (0, output) else elim output [
    | none ↦ some (1, none)
    | some o ↦
        if ltb blockno (length o.target) && ltb (blockno * block_size) (2 ^ 31)
        then some (
          1,
          some (record {
            target = set o.target blockno buffer;
            file = yfile_addblock o.file (new_block size);
          }),
        )
        else none
  ]

  -- `count += add_block(buffer, count, size, target, yfile);`
  unfoldable pub flush : Cutting → Option Cutting
  unfolding add_block
  flush c = elim (add_block c.buffer c.count c.size c.output) [
    | none ↦ none
    | some (n, output) ↦ some (record c { count = c.count + n; output = output })
  ]

  -- The room that the next piece needs is made by writing out the buffer.
  unfoldable pub make_room : ℕ → Cutting → Option Cutting
  unfolding flush
  make_room need c =
      if ltb block_size (c.size + need)
      then elim (flush c) [ none ↦ none | some c' ↦ some (record c' { size = 0 }) ]
      else some c

  -- The copy of a piece, followed by `terminator`, to the end of the buffer.
  unfoldable pub append_piece : Bytes → Bytes → Cutting → Option Cutting
  unfolding overlay
  append_piece terminator piece c =
      if ltb block_size (c.size + length piece + length terminator)
      then none
      else some (record c {
        buffer = overlay c.size (piece ++ terminator) c.buffer;
        size = c.size + length piece;
      })

  unfoldable pub handle : Bytes → Cutting → Bytes → Option Cutting
  unfolding make_room append_piece
  handle terminator c piece = elim (make_room (length piece + length terminator) c) [
    | none ↦ none
    | some c' ↦ append_piece terminator piece c'
  ]

  -- `line_handler`: `sprintf` writes the line and a NUL.
  unfoldable pub line_handler : Cutting → Bytes → Option Cutting
  unfolding handle
  line_handler = handle (0 ∷ [])

  -- `block_handler`: `memcpy` of one chunk.
  unfoldable pub block_handler : Cutting → Bytes → Option Cutting
  unfolding handle
  block_handler = handle []

  unfoldable pub cut : Bytes → Cutting → List Bytes → Option Cutting
  unfolding handle
  cut terminator c [] = flush c
  cut terminator c (p ∷ ps) = elim (handle terminator c p) [
    | none ↦ none
    | some c' ↦ cut terminator c' ps
  ]

  abbrev pub start : Bytes → Option Output → Cutting
  start buffer output = record { buffer = buffer; size = 0; count = 0; output = output }

  -- The pieces are the lines of the source, as `file_ltraverse` hands them over.
  unfoldable pub partition_text_file : Bytes → List Bytes → Option Output → Option Cutting
  unfolding cut
  partition_text_file buffer lines output = cut (0 ∷ []) (start buffer output) lines

  -- The pieces are the chunks of the source, as `file_btraverse` hands them over.
  unfoldable pub partition_bin_file : Bytes → List Bytes → Option Output → Option Cutting
  unfolding cut
  partition_bin_file buffer chunks output = cut [] (start buffer output) chunks

  -- `number_ceiling(file_size(source) * 1.0 / BLOCK_SIZE)`
  unfoldable pub count_bin_blocks : ℕ → ℕ
  count_bin_blocks file_size = (file_size + block_size - 1) / block_size

-- `file_btraverse`: the chunks of a file in order, all of `chunk` bytes but the last. A round reads
-- a byte at least, so the length of the file is fuel enough.
unfoldable pub read_chunks : (chunk fuel : ℕ) → Bytes → List Bytes
read_chunks chunk zero bytes = []
read_chunks chunk (suc fuel) [] = []
read_chunks chunk (suc fuel) (b ∷ bs) =
    take chunk (b ∷ bs) ∷ read_chunks chunk fuel (drop chunk (b ∷ bs))

unfoldable pub chunks_of : ℕ → Bytes → List Bytes
unfolding read_chunks
chunks_of chunk bytes = read_chunks chunk (length bytes) bytes
