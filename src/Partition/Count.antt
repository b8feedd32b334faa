-- ===== src/Partition/Count.antt =====
-- `count_file_blocks` of FileSystem/src/filetable.c finds the number of blocks that the cutting
-- loops then write, so they stay inside the block file that is made for them.
use tp_2017_2c_yatpos.Base.{
  ℕ, zero, suc, ◌+◌, ◌≤◌, ◌<◌, ◌≡◌, refl, inl, inr, List, [], ◌∷◌, ◌++◌, none, some, arith, length,
  All, ltb, Bool-cases, lt→ltb, ltb→lt,
}
use tp_2017_2c_yatpos.Serial.Words.{Bytes}
use tp_2017_2c_yatpos.Partition.{Cutting, flush, make_room, append_piece, handle, cut, overlay}
use tp_2017_2c_yatpos.Partition.Cut.{block_of, needed, needed_over, needed_fits}

module _ (block_size : ℕ) where
  abbrev counting : Bytes → ℕ → ℕ → Cutting
  counting buffer size count = record { buffer = buffer; size = size; count = count; output = none }

  count_flush :
      (buffer : Bytes) (size count : ℕ)
      → flush block_size (counting buffer size count)
        ≡ some (counting buffer size (count + block_of size))
  unfolding flush
  count_flush buffer zero count = refl
  count_flush buffer (suc k) count = ground arith

  count_over :
      (terminator piece buffer : Bytes) (size count : ℕ)
      → block_size < size + (length piece + length terminator)
      → length piece + length terminator ≤ block_size
      → handle block_size terminator (counting buffer size count) piece
        ≡ some (
            counting
              (overlay 0 (piece ++ terminator) buffer)
              (0 + length piece)
              (count + block_of size))
  unfolding handle make_room append_piece
  count_over terminator piece buffer size count over fits =
      rw (lt→ltb _ _ over, handle, count_flush buffer size count) (ground arith)

  count_fits :
      (terminator piece buffer : Bytes) (size count : ℕ)
      → size + (length piece + length terminator) ≤ block_size
      → handle block_size terminator (counting buffer size count) piece
        ≡ some (counting (overlay size (piece ++ terminator) buffer) (size + length piece) count)
  unfolding handle make_room append_piece
  count_fits terminator piece buffer size count fits = ground arith

  pub count_cut :
      (terminator : Bytes) (ps : List Bytes) (buffer : Bytes) (size count : ℕ)
      → All (λ p. length p + length terminator ≤ block_size) ps
      → (c : Cutting) × (cut block_size terminator (counting buffer size count) ps ≡ some c)
        × (c.count ≡ count + needed block_size (length terminator) size ps)
  unfolding cut needed
  count_cut terminator [] buffer size count fits =
      (counting buffer size (count + block_of size), count_flush buffer size count, refl)
  count_cut terminator (p ∷ ps) buffer size count fits =
      elim (Bool-cases (ltb block_size (size + (length p + length terminator)))) [
        | inl e ↦
            let over : block_size < size + (length p + length terminator) = ltb→lt _ _ e in
            let (c, ran, total) =
              count_cut terminator ps (overlay 0 (p ++ terminator) buffer) (0 + length p)
                (count + block_of size) fits.1 in
            (
              c,
              rw (count_over terminator p buffer size count over fits.0, cut) ran,
              omega (arith, total, needed_over block_size (length terminator) size p ps over),
            )
        | inr e ↦
            let within : size + (length p + length terminator) ≤ block_size = ground arith in
            let (c, ran, total) =
              count_cut terminator ps (overlay size (p ++ terminator) buffer) (size + length p)
                count fits.1 in
            (
              c,
              rw (count_fits terminator p buffer size count within, cut) ran,
              omega (arith, total, needed_fits block_size (length terminator) size p ps within),
            )
      ]
