-- ===== src/Transfer/Tests.antt =====
-- A file of two blocks of two bytes, whose second block is copied first and counted last.
use tp_2017_2c_yatpos.Base.{
  ℕ, zero, suc, ◌<◌, ◌≡◌, refl, List, [], ◌∷◌, Bool, true, false, some, none, get_elem?, arith,
  some_inj, ap, sym, ◌∙◌,
}
use tp_2017_2c_yatpos.Base.Int.{pos}
use tp_2017_2c_yatpos.Serial.Words.{Bytes}
use tp_2017_2c_yatpos.Yfile.{Block}
use tp_2017_2c_yatpos.Strings.{mstring_isempty}
use tp_2017_2c_yatpos.Partition.{Output, Cutting, partition_bin_file, count_bin_blocks, chunks_of}
use tp_2017_2c_yatpos.Partition.Content.{Fresh}
use tp_2017_2c_yatpos.Partition.Reconstruct.{reconstruct_file}
use tp_2017_2c_yatpos.Transfer.Whole.{reconstruct_file-run}
use tp_2017_2c_yatpos.Transfer.{BlockFile}
use tp_2017_2c_yatpos.Datanode.Blocks.{concat, block_at}
use tp_2017_2c_yatpos.Transfer.{
  Arrival, block_finder, first_available_copy, filetable_writeblock, reset_block_file, Event,
  copying, counting, run,
}
use tp_2017_2c_yatpos.Transfer.Finding.{IsAsked}
use tp_2017_2c_yatpos.Transfer.Arrivals.{IsComplete, indices, has, erase}
use tp_2017_2c_yatpos.Transfer.Copying.{IsSent}
use tp_2017_2c_yatpos.Transfer.Gathered.{run_resumed}

-- Nodes "a" and "b".
abbrev block_with : ℕ → Block
block_with n = record {
  index = pos n;
  size = 2;
  copy0 = record { blockno = pos n; node = some (97 ∷ []) };
  copy1 = record { blockno = pos (suc (suc n)); node = some (98 ∷ []) };
}

abbrev two_blocks : List Block
two_blocks = block_with 0 ∷ block_with 1 ∷ []

abbrev contents : List Bytes
contents = (1 ∷ 2 ∷ []) ∷ (3 ∷ 4 ∷ []) ∷ []

-- The first block comes from its first copy, for which a second round is needed.
abbrev rounds : ℕ → List (Bool × Bool)
rounds zero = (false, false) ∷ (false, true) ∷ []
rounds (suc k) = (true, true) ∷ []

abbrev arrival : ℕ → Arrival
arrival zero = record { node = 97 ∷ []; blockno = pos 0; content = 1 ∷ 2 ∷ [] }
arrival (suc k) = record { node = 98 ∷ []; blockno = pos 3; content = 3 ∷ 4 ∷ [] }

abbrev events : List Event
events = copying 1 ∷ copying 0 ∷ counting 0 ∷ counting 1 ∷ []

abbrev blank : List Bytes
blank = (0 ∷ 0 ∷ []) ∷ (0 ∷ 0 ∷ []) ∷ []

-- The content of a block that nobody sent for is written in front of the map.
unknown_block :
    filetable_writeblock 2
      (record { node = 99 ∷ []; blockno = pos 0; content = 1 ∷ 2 ∷ [] })
      (reset_block_file two_blocks (0 ∷ 0 ∷ 0 ∷ 0 ∷ []))
    ≡ none
unfolding filetable_writeblock reset_block_file
unknown_block = refl

distinct :
    (j k : ℕ) (b : Block)
    → get_elem? two_blocks j ≡ some b
    → k < 2
    → block_finder (arrival k).node (arrival k).blockno b ≡ some true
    → j ≡ k
unfolding block_finder
distinct zero zero b at h e = refl
distinct zero (suc k) b at h e = cc (ap (block_finder (98 ∷ []) (pos 3)) (some_inj at) ∙ e)
distinct (suc zero) zero b at h e = cc (ap (block_finder (97 ∷ []) (pos 0)) (some_inj at) ∙ e)
distinct (suc zero) (suc zero) b at h e = refl
distinct (suc zero) (suc (suc k)) b at h e = absurd (omega arith)
distinct (suc (suc j)) k b at h e = cc

asked : (k : ℕ) (b : Block) → get_elem? two_blocks k ≡ some b → IsAsked (rounds k) b (arrival k)
unfolding first_available_copy
asked zero b at = record {
  copy = b.copy0;
  chosen = refl;
  node = ap (λ c. c.copy0.node) (sym (some_inj at));
  blockno = ap (λ c. c.copy0.blockno) (sym (some_inj at));
}
asked (suc zero) b at = record {
  copy = b.copy1;
  chosen = refl;
  node = ap (λ c. c.copy1.node) (sym (some_inj at));
  blockno = ap (λ c. c.copy1.blockno) (sym (some_inj at));
}
asked (suc (suc k)) b at = cc

brought : (k : ℕ) → k < 2 → (arrival k).content ≡ block_at contents k
unfolding block_at
brought zero h = refl
brought (suc zero) h = refl
brought (suc (suc k)) h = absurd (omega arith)

sent : IsSent 2 rounds arrival two_blocks contents
unfolding mstring_isempty
sent = record {
  nodes = (record { node0 = refl; node1 = refl }, (record { node0 = refl; node1 = refl }, tt));
  distinct = distinct;
  asked = asked;
  brought = brought;
  counted = refl;
  sized = (refl, (refl, tt));
  small = omega arith;
}

complete : IsComplete (indices 2) [] events
unfolding IsComplete indices has erase
complete = (refl, (refl, (refl, (refl, (refl, refl)))))

run_resumed_example :
    run 2 arrival events (reset_block_file two_blocks (concat blank))
    ≡ some (
      record { blocks = two_blocks; current = 2; total = 2; map = concat contents },
      concat contents ∷ [],
    )
run_resumed_example =
    run_resumed 2 rounds arrival two_blocks contents sent blank events (refl, (refl, tt)) refl
      (omega arith) complete

abbrev four_bytes : Bytes
four_bytes = 1 ∷ 2 ∷ 3 ∷ 4 ∷ []

abbrev empty : Output
empty = record {
  target = blank;
  file = record { path = none; size = 0; type = pos 1; blocks = [] };
}

-- A block before it has copies.
abbrev cut_block : ℕ → Block
cut_block n = record {
  index = pos n;
  size = 2;
  copy0 = record { blockno = pos 0; node = none };
  copy1 = record { blockno = pos 0; node = none };
}

abbrev cut_file : Output
cut_file = record {
  target = contents;
  file = record { path = none; size = 4; type = pos 1; blocks = cut_block 0 ∷ cut_block 1 ∷ [] };
}

abbrev cut_end : Cutting
cut_end = record { buffer = 3 ∷ 4 ∷ []; size = 2; count = 2; output = some cut_file }

four_bytes_cut :
    partition_bin_file 2 (0 ∷ 0 ∷ []) (chunks_of 1 four_bytes) (some empty) ≡ some cut_end
unfolding partition_bin_file chunks_of
four_bytes_cut = refl

empty-Fresh : Fresh 2 (count_bin_blocks 2 4) (0 ∷ 0 ∷ []) empty
unfolding count_bin_blocks
empty-Fresh = record {
  buffer_size = refl;
  room = refl;
  small = omega arith;
  targets = (refl, (refl, tt));
  no_blocks = refl;
}

reconstruct_file-run_example :
    (f : BlockFile) × (map : Bytes) × (run 2 arrival events
        (reset_block_file two_blocks (concat blank))
      ≡ some (f, map ∷ []))
    × (reconstruct_file 2 two_blocks (chunks_of 1 map) ≡ some four_bytes)
reconstruct_file-run_example =
    reconstruct_file-run 1 2 (omega arith) (omega arith) four_bytes (0 ∷ 0 ∷ []) empty cut_file
      cut_end empty-Fresh four_bytes_cut refl rounds arrival two_blocks blank events refl sent
      (refl, (refl, tt)) refl (omega arith) complete
