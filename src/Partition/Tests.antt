-- ===== src/Partition/Tests.antt =====
-- Runs of the cutting and joining code on small files, with chunks of two bytes and blocks of four.
use tp_2017_2c_yatpos.Base.{
  ℕ, ◌+◌, ◌*◌, ◌≤◌, ◌≡◌, refl, List, [], ◌∷◌, none, some, arith, All, replicate, length,
}
use mathlib.Core.List.{flatten}
use tp_2017_2c_yatpos.Serial.Words.{Bytes}
use tp_2017_2c_yatpos.Yfile.{File, ftype_bin, yfile_create}
use tp_2017_2c_yatpos.Partition.{
  Output, Cutting, partition_text_file, partition_bin_file, count_bin_blocks, chunks_of,
}
use tp_2017_2c_yatpos.Partition.Cut.{Cuts}
use tp_2017_2c_yatpos.Partition.Content.{Fresh, partition_bin_file-Cuts, partition_text_file-Cuts}
use tp_2017_2c_yatpos.Partition.Restore.{
  Restores, reconstruct_file-partition_bin_file, reconstruct_file-partition_text_file,
}

abbrev empty_file : File
empty_file = yfile_create (some (47 ∷ 97 ∷ [])) ftype_bin

abbrev output : ℕ → Output
output n = record { target = replicate n (0 ∷ 0 ∷ 0 ∷ 0 ∷ []); file = empty_file }

abbrev bytes : Bytes
bytes = 1 ∷ 2 ∷ 3 ∷ 4 ∷ 5 ∷ 6 ∷ 7 ∷ []

abbrev buffer : Bytes
buffer = 0 ∷ 0 ∷ 0 ∷ 0 ∷ []

bin_output-Fresh : Fresh (2 * 2) (count_bin_blocks (2 * 2) (length bytes)) buffer (output 2)
unfolding count_bin_blocks yfile_create
bin_output-Fresh = record {
  buffer_size = refl;
  room = refl;
  small = omega arith;
  targets = (refl, (refl, tt));
  no_blocks = refl;
}

partition_bin_file-Cuts_example :
    Cuts
      (2 * 2)
      (count_bin_blocks (2 * 2) (length bytes))
      (partition_bin_file (2 * 2) buffer (chunks_of 2 bytes) (some (output 2)))
      bytes
      (count_bin_blocks (2 * 2) (length bytes))
partition_bin_file-Cuts_example =
    partition_bin_file-Cuts 2 2 bytes buffer (output 2) (omega arith) (omega arith) bin_output-Fresh

reconstruct_file-partition_bin_file_example :
    Restores 2 2
      (omega arith)
      (omega arith)
      (partition_bin_file (2 * 2) buffer (chunks_of 2 bytes) (some (output 2)))
      bytes
reconstruct_file-partition_bin_file_example =
    reconstruct_file-partition_bin_file 2 2 (omega arith) (omega arith) bytes buffer (output 2)
      bin_output-Fresh

abbrev lines : List Bytes
lines = (97 ∷ []) ∷ (10 ∷ []) ∷ (98 ∷ []) ∷ (10 ∷ []) ∷ []

-- Three lines fill a block, since a line needs room for its NUL.
abbrev counted : Cutting
counted = record { buffer = 10 ∷ 0 ∷ 98 ∷ 0 ∷ []; size = 1; count = 2; output = none }

lines_counted : partition_text_file (2 * 2) buffer lines none ≡ some counted
unfolding partition_text_file
lines_counted = refl

text_output-Fresh : Fresh (2 * 2) counted.count buffer (output 2)
unfolding yfile_create
text_output-Fresh = record {
  buffer_size = refl;
  room = refl;
  small = omega arith;
  targets = (refl, (refl, tt));
  no_blocks = refl;
}

abbrev lines_fit : All (λ (l : Bytes). length l + 1 ≤ 2) lines
lines_fit = (omega arith, (omega arith, (omega arith, (omega arith, tt))))

lines_fit_block : All (λ (l : Bytes). length l + 1 ≤ 2 * 2) lines
lines_fit_block = (omega arith, (omega arith, (omega arith, (omega arith, tt))))

partition_text_file-Cuts_example :
    Cuts
      (2 * 2)
      2
      (partition_text_file (2 * 2) buffer lines (some (output 2)))
      (97 ∷ 10 ∷ 98 ∷ 10 ∷ [])
      2
unfolding flatten
partition_text_file-Cuts_example =
    partition_text_file-Cuts (2 * 2) lines buffer (output 2) counted lines_fit_block lines_counted
      text_output-Fresh

reconstruct_file-partition_text_file_example :
    Restores 2 2
      (omega arith)
      (omega arith)
      (partition_text_file (2 * 2) buffer lines (some (output 2)))
      (97 ∷ 10 ∷ 98 ∷ 10 ∷ [])
unfolding flatten
reconstruct_file-partition_text_file_example =
    reconstruct_file-partition_text_file 2 2 (omega arith) (omega arith) lines buffer (output 2)
      counted lines_fit lines_counted text_output-Fresh
