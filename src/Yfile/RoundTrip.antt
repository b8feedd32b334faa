-- ===== src/Yfile/RoundTrip.antt =====
-- A file survives `yfile_pack` and `yfile_unpack` of Shared/yfile.c.
use tp_2017_2c_yatpos.Base.{◌<◌, ◌^◌, ◌≡◌, refl, [], ◌∷◌, ◌++◌, some, map, All}
use tp_2017_2c_yatpos.Base.Int.{IsSigned, to_unsigned-re_sign, re_sign-IsSigned}
use tp_2017_2c_yatpos.Serial.{str, i, s, format, serial_pack}
use tp_2017_2c_yatpos.Serial.RoundTrip.{IsValue, serial_remove-append}
use tp_2017_2c_yatpos.Layout.{IsLayout}
use tp_2017_2c_yatpos.Layout.Laws.{add_records-rows, take_to_end-rows, rows, length-rows}
use tp_2017_2c_yatpos.Yfile.{
  File, Block, BlockFits, block_values, read_block, block_layout, header_values, with_header,
  yfile_pack, yfile_unpack,
}

block_values-IsValue : (b : Block) → BlockFits b → All IsValue (block_values b)
unfolding block_values
block_values-IsValue b h = (
  h.index,
  (re_sign-IsSigned (2 ^ 31) b.size h.size, (h.copy0.0, (h.copy0.1, (h.copy1.0, (h.copy1.1, tt))))),
)

read_block-block_values : (b : Block) → BlockFits b → read_block (block_values b) ≡ some b
unfolding read_block block_values
read_block-block_values b h = rw (to_unsigned-re_sign (2 ^ 32) b.size h.size)

pub block_layout-IsLayout : IsLayout block_layout
unfolding block_layout block_values format
block_layout-IsLayout = record {
  first = i;
  others = i ∷ i ∷ s ∷ i ∷ s ∷ [];
  nonempty = refl;
  formats-values = λ b. refl;
  values-IsValue = block_values-IsValue;
  read-values = read_block-block_values;
}

-- A file whose fields are in the range of their C types.
pub record FileFits (f : File) : Type 0 where
  pub path : IsValue (str f.path)
  pub size : f.size < 2 ^ 32
  pub type : IsSigned (2 ^ 31) f.type
  pub blocks : All BlockFits f.blocks

header-IsValue : (f : File) → FileFits f → All IsValue (header_values f)
unfolding header_values
header-IsValue f h = (h.path, (re_sign-IsSigned (2 ^ 31) f.size h.size, (h.type, tt)))

with_header-rows :
    (f : File)
    → FileFits f
    → with_header (header_values f) (rows block_layout block_layout-IsLayout f.blocks) ≡ some f
unfolding with_header header_values block_layout
with_header-rows f h = rw (
  take_to_end-rows block_layout block_layout-IsLayout _ f.blocks
      (length-rows block_layout block_layout-IsLayout f.blocks) h.blocks,
  with_header,
  to_unsigned-re_sign (2 ^ 32) f.size h.size,
)

yfile_pack-append :
    (f : File)
    → yfile_pack f
      ≡ serial_pack (header_values f) ++ rows block_layout block_layout-IsLayout f.blocks
unfolding yfile_pack serial_pack
yfile_pack-append f =
    add_records-rows block_layout block_layout-IsLayout (serial_pack (header_values f)) f.blocks

header_formats : (f : File) → map format (header_values f) ≡ s ∷ i ∷ i ∷ []
unfolding header_values format
header_formats f = refl

-- YAMA unpacks the file that the FileSystem packed: its path, size and type, and every block with
-- both of its copies, in order, for fields in the range of their C types and no name "__NULL__".
pub yfile_unpack-yfile_pack : (f : File) → FileFits f → yfile_unpack (yfile_pack f) ≡ some f
unfolding yfile_unpack header_values
yfile_unpack-yfile_pack f h =
    rw
      (
        yfile_pack-append f,
        serial_remove-append _ _ _ (rows block_layout block_layout-IsLayout f.blocks)
            (header_formats f) (header-IsValue f h),
        yfile_unpack,
      )
      (with_header-rows f h)
