-- ===== src/Yfile/Tests.antt =====
-- A file with two blocks, packed and unpacked as Shared/yfile.c does.
use tp_2017_2c_yatpos.Base.{ℕ, ◌≡◌, refl, [], ◌∷◌, some, none, arith}
use tp_2017_2c_yatpos.Base.Int.{pos, negsuc}
use tp_2017_2c_yatpos.Yfile.{
  BlockCopy, File, ftype_bin, yfile_create, yfile_addblock, yfile_pack, yfile_unpack,
}
use tp_2017_2c_yatpos.Yfile.RoundTrip.{yfile_unpack-yfile_pack}

abbrev no_copy : BlockCopy
no_copy = record { blockno = negsuc 0; node = none }

abbrev copy_at : ℕ → BlockCopy
copy_at n = record { blockno = pos n; node = some (b'n' ∷ b'1' ∷ []) }

abbrev two_blocks : File
two_blocks = record {
  path = some (b'/' ∷ b'0' ∷ []);
  size = 1500;
  type = ftype_bin;
  blocks =
      record { index = pos 0; size = 1024; copy0 = copy_at 3; copy1 = no_copy }
      ∷ record { index = pos 1; size = 476; copy0 = copy_at 4; copy1 = copy_at 9 }
      ∷ [];
}

-- `yfile_addblock` numbers the blocks and adds up their sizes.
built :
    yfile_addblock
      (yfile_addblock
        (yfile_create two_blocks.path ftype_bin)
        (record { index = pos 7; size = 1024; copy0 = copy_at 3; copy1 = no_copy }))
      (record { index = pos 7; size = 476; copy0 = copy_at 4; copy1 = copy_at 9 })
    ≡ two_blocks
unfolding yfile_addblock yfile_create
built = refl

yfile_unpack-yfile_pack_example : yfile_unpack (yfile_pack two_blocks) ≡ some two_blocks
yfile_unpack-yfile_pack_example = yfile_unpack-yfile_pack two_blocks (record {
  path = (omega arith, λ e. cc);
  size = omega arith;
  type = omega arith;
  blocks = (
    record {
      index = omega arith;
      size = omega arith;
      copy0 = (omega arith, (omega arith, λ e. cc));
      copy1 = (omega arith, tt);
    },
    (
      record {
        index = omega arith;
        size = omega arith;
        copy0 = (omega arith, (omega arith, λ e. cc));
        copy1 = (omega arith, (omega arith, λ e. cc));
      },
      tt,
    ),
  );
})
