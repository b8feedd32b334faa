-- ===== src/Yfile.antt =====
-- Shared/yfile.c and yfile.h: a file of the distributed file system, its blocks and their two
-- copies, and its packing for YAMA. `char *` is an optional text, `int` a whole number and `size_t`
-- a number below 2 ^ 32.
mod Tests
pub mod RoundTrip
use tp_2017_2c_yatpos.Base.{ℕ, ◌+◌, ◌%◌, ◌^◌, ◌<◌, ◌++◌, List, [], ◌∷◌, Option, none, some, length}
use tp_2017_2c_yatpos.Base.Int.{ℤ, pos, to_unsigned, re_sign, IsSigned}
use tp_2017_2c_yatpos.Serial.Words.{Bytes}
use tp_2017_2c_yatpos.Serial.{
  Value, int, str, i, s, removed, untouched, overrun, serial_add, serial_remove,
}
use tp_2017_2c_yatpos.Serial.RoundTrip.{IsValue}
use tp_2017_2c_yatpos.Layout.{Layout, add_records, take_to_end}

abbrev pub Text : Type 0
Text = Option Bytes

-- `blockno` is -1 and `node` NULL where there is no copy.
pub record BlockCopy : Type 0 where
  pub blockno : ℤ
  pub node : Text

pub record Block : Type 0 where
  pub index : ℤ
  pub size : ℕ
  pub copy0 : BlockCopy
  pub copy1 : BlockCopy

pub record File : Type 0 where
  pub path : Text
  pub size : ℕ
  pub type : ℤ
  pub blocks : List Block

-- FTYPE_TXT and FTYPE_BIN
abbrev pub ftype_txt : ℤ
ftype_txt = pos 0

abbrev pub ftype_bin : ℤ
ftype_bin = pos 1

unfoldable pub yfile_create : Text → ℤ → File
yfile_create path type = record { path = path; size = 0; type = type; blocks = [] }

unfoldable pub yfile_addblock : File → Block → File
yfile_addblock file block = record file {
  blocks = file.blocks ++ record block { index = pos (length file.blocks) } ∷ [];
  size = (file.size + block.size) % 2 ^ 32;
}

-- A `size_t` handed over where the format says `i`, and back.
abbrev pub size_arg : ℕ → Value
size_arg n = int (re_sign (2 ^ 32) n)

abbrev pub size_of : ℤ → ℕ
size_of z = to_unsigned (2 ^ 32) z

block_values : Block → List Value
block_values b =
    int b.index
    ∷ size_arg b.size
    ∷ int b.copy0.blockno
    ∷ str b.copy0.node
    ∷ int b.copy1.blockno
    ∷ str b.copy1.node
    ∷ []

abbrev block_of : ℤ → ℤ → ℤ → Text → ℤ → Text → Block
block_of index size blockno0 node0 blockno1 node1 = record {
  index = index;
  size = size_of size;
  copy0 = record { blockno = blockno0; node = node0 };
  copy1 = record { blockno = blockno1; node = node1 };
}

read_block : List Value → Option Block
unfolding to_unsigned
read_block (int a ∷ int b ∷ int n0 ∷ str t0 ∷ int n1 ∷ str t1 ∷ []) =
    some (block_of a b n0 t0 n1 t1)
read_block _ = none

-- Ranges of the C types, and names that are not the text that stands for NULL.
abbrev pub CopyFits : BlockCopy → Type 0
CopyFits c = IsSigned (2 ^ 31) c.blockno × IsValue (str c.node)

pub record BlockFits (b : Block) : Type 0 where
  pub index : IsSigned (2 ^ 31) b.index
  pub size : b.size < 2 ^ 32
  pub copy0 : CopyFits b.copy0
  pub copy1 : CopyFits b.copy1

-- `"iiisis"`
unfoldable pub block_layout : Layout Block
unfolding block_values read_block re_sign
block_layout = record {
  formats = i ∷ i ∷ i ∷ s ∷ i ∷ s ∷ [];
  values = block_values;
  read = read_block;
  IsFit = BlockFits;
}

header_values : File → List Value
header_values f = str f.path ∷ size_arg f.size ∷ int f.type ∷ []

unfoldable pub yfile_pack : File → Bytes
unfolding header_values re_sign
yfile_pack file = add_records block_layout (serial_add [] (header_values file)) file.blocks

-- The header's assignments, and the loop over the blocks.
with_header : List Value → Bytes → Option File
unfolding to_unsigned
with_header (str path ∷ int size ∷ int type ∷ []) rest =
    elim (take_to_end block_layout (length rest) rest) [
      | none ↦ none
      | some blocks ↦
          some (record { path = path; size = size_of size; type = type; blocks = blocks })
    ]
with_header _ rest = none

-- `none` is a read past the end of the serial. An empty serial leaves the new file as it is.
unfoldable pub yfile_unpack : Bytes → Option File
unfolding with_header yfile_create
yfile_unpack serial = elim (serial_remove serial (s ∷ i ∷ i ∷ [])) [
  | untouched ↦ some (yfile_create none (pos 0))
  | overrun ↦ none
  | removed vs rest ↦ with_header vs rest
]
