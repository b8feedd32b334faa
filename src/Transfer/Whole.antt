-- ===== src/Transfer/Whole.antt =====
-- A binary file of FileSystem/src/filetable.c on its whole way: cut into blocks, gathered from the
-- nodes and put together again.
use tp_2017_2c_yatpos.Base.{
  ℕ, ◌*◌, ◌≤◌, ◌<◌, ◌≡◌, refl, ap, sym, ◌∙◌, subst, some_inj, List, [], ◌∷◌, ◌++◌, Bool, All,
  All-mono, some, arith, length, map,
}
use mathlib.Core.List.{flatten}
use tp_2017_2c_yatpos.Serial.Words.{Bytes}
use tp_2017_2c_yatpos.Yfile.{Block}
use tp_2017_2c_yatpos.Partition.{Output, Cutting, partition_bin_file, count_bin_blocks, chunks_of}
use tp_2017_2c_yatpos.Partition.Overlay.{contents}
use tp_2017_2c_yatpos.Partition.Chunks.{All-chunks_of}
use tp_2017_2c_yatpos.Partition.Cut.{Fits, InBlock, Written}
use tp_2017_2c_yatpos.Partition.Content.{Fresh, partition_bin_file-Cuts, bin_needed}
use tp_2017_2c_yatpos.Partition.Padding.{IsShort, cut-IsPadded}
use tp_2017_2c_yatpos.Partition.Whole.{IsPadded, reconstruct_file-contents}
use tp_2017_2c_yatpos.Partition.Reconstruct.{reconstruct_file}
use tp_2017_2c_yatpos.Datanode.Blocks.{concat, IsBlocks}
use tp_2017_2c_yatpos.Transfer.{BlockFile, Arrival, Event, run, reset_block_file}
use tp_2017_2c_yatpos.Transfer.Arrivals.{IsComplete, indices}
use tp_2017_2c_yatpos.Transfer.Copying.{IsSent}
use tp_2017_2c_yatpos.Transfer.Gathered.{run_resumed}

-- Only the copies of the blocks differ, or their numbers.
abbrev pub sizes : List Block → List ℕ
sizes blocks = map (λ (b : Block). b.size) blocks

concat-flatten : (blocks : List Bytes) → concat blocks ≡ flatten blocks
unfolding concat flatten
concat-flatten [] = refl
concat-flatten (b ∷ blocks) = ap (◌++◌ b) (concat-flatten blocks)

first_size : (b c : Block) (bs cs : List Block) → sizes (b ∷ bs) ≡ sizes (c ∷ cs) → b.size ≡ c.size
first_size b c bs cs e = cc

other_sizes :
    (b c : Block) (bs cs : List Block) → sizes (b ∷ bs) ≡ sizes (c ∷ cs) → sizes bs ≡ sizes cs
other_sizes b c bs cs e = cc

contents-sizes :
    (bs cs : List Block) (ts : List Bytes) → sizes bs ≡ sizes cs → contents bs ts ≡ contents cs ts
unfolding contents
contents-sizes [] [] ts e = refl
contents-sizes [] (c ∷ cs) ts e = cc
contents-sizes (b ∷ bs) [] ts e = cc
contents-sizes (b ∷ bs) (c ∷ cs) [] e = refl
contents-sizes (b ∷ bs) (c ∷ cs) (t ∷ ts) e =
    rw (first_size b c bs cs e, contents-sizes bs cs ts (other_sizes b c bs cs e))

All-sizes :
    (n : ℕ) (bs cs : List Block) → sizes bs ≡ sizes cs → All (InBlock n) bs → All (InBlock n) cs
All-sizes n [] [] e h = tt
All-sizes n [] (c ∷ cs) e h = cc
All-sizes n (b ∷ bs) [] e h = cc
All-sizes n (b ∷ bs) (c ∷ cs) e h = (
  subst (λ k. (0 < k) × (k ≤ n)) (first_size b c bs cs e) h.0,
  All-sizes n bs cs (other_sizes b c bs cs e) h.1,
)

IsPadded-sizes :
    (chunk m : ℕ) (bs cs : List Block)
    → sizes bs ≡ sizes cs
    → IsPadded chunk m bs
    → IsPadded chunk m cs
unfolding IsPadded
IsPadded-sizes chunk m [] [] e h = tt
IsPadded-sizes chunk m [] (c ∷ cs) e h = cc
IsPadded-sizes chunk m (b ∷ bs) [] e h = cc
IsPadded-sizes chunk m (b ∷ []) (c ∷ []) e h = tt
IsPadded-sizes chunk m (b ∷ []) (c ∷ c' ∷ cs) e h = cc
IsPadded-sizes chunk m (b ∷ b' ∷ bs) (c ∷ []) e h = cc
IsPadded-sizes chunk m (b ∷ b' ∷ bs) (c ∷ c' ∷ cs) e h = (
  omega (arith, h.0, first_size b c (b' ∷ bs) (c' ∷ cs) e),
  IsPadded-sizes chunk m (b' ∷ bs) (c' ∷ cs) (other_sizes b c (b' ∷ bs) (c' ∷ cs) e) h.1,
)

module _ (chunk m : ℕ) (chunk_pos : 0 < chunk) (m_pos : 0 < m) (bytes buffer : Bytes)
    (o o' : Output) (c : Cutting)
    (fresh : Fresh (m * chunk) (count_bin_blocks (m * chunk) (length bytes)) buffer o)
    (ran : partition_bin_file (m * chunk) buffer (chunks_of chunk bytes) (some o) ≡ some c)
    (wrote : c.output ≡ some o') where
  -- What `partition_bin_file` wrote.
  partition_bin_file-Written :
      Written (m * chunk) (count_bin_blocks (m * chunk) (length bytes)) o' bytes
  partition_bin_file-Written =
      let cuts = partition_bin_file-Cuts chunk m bytes buffer o chunk_pos m_pos fresh in
      let same : cuts.output ≡ o' =
        some_inj (
          sym cuts.wrote
          ∙ ap (λ (x : Cutting). x.output) (some_inj (sym cuts.ran ∙ ran))
          ∙ wrote) in
      subst (λ out. Written (m * chunk) (count_bin_blocks (m * chunk) (length bytes)) out bytes)
        same cuts.written

  partition_bin_file-IsPadded : IsPadded chunk m o'.file.blocks
  unfolding partition_bin_file
  partition_bin_file-IsPadded =
      cut-IsPadded chunk m [] (chunks_of chunk bytes) buffer 0 0 o o' c fits short
        (rw fresh.no_blocks tt)
        (omega (arith, fresh.room, bin_needed chunk m chunk_pos m_pos bytes))
        (rw fresh.room fresh.small) ran wrote
    where
      whole : chunk ≤ m * chunk
      whole = grind arith

      short : All (IsShort chunk m []) (chunks_of chunk bytes)
      short =
          All-mono (λ p. length p ≤ chunk) (IsShort chunk m []) (chunks_of chunk bytes)
            (λ p h. omega arith) (All-chunks_of chunk chunk_pos bytes)

      fits : All (Fits (m * chunk) []) (chunks_of chunk bytes)
      fits =
          All-mono (IsShort chunk m []) (Fits (m * chunk) []) (chunks_of chunk bytes)
            (λ p h. omega (arith, whole)) short

  -- A binary file that was cut into blocks, of which there is one at least and less than 2 ^ 31 bytes,
  -- BLOCK_SIZE being a whole number of chunks. Its blocks got copies on nodes and kept their sizes;
  -- each is sent for from the place of one of its copies, where no other block has a copy, and what
  -- was cut arrives from there, in any order of the steps of the threads. Then the main thread is
  -- resumed once, and what `reconstruct_file` makes of the map that it finds is the file, byte for
  -- byte.
  pub reconstruct_file-run :
      (rounds : ℕ → List (Bool × Bool)) (arrival : ℕ → Arrival) (stored : List Block)
      (start : List Bytes) (events : List Event)
      → sizes o'.file.blocks ≡ sizes stored
      → IsSent (m * chunk) rounds arrival stored o'.target
      → IsBlocks (m * chunk) start
      → length start ≡ length stored
      → 0 < length stored
      → IsComplete (indices (length stored)) [] events
      → (f : BlockFile) × (map : Bytes) × (run
            (m * chunk)
            arrival
            events
            (reset_block_file stored (concat start))
          ≡ some (f, map ∷ []))
        × (reconstruct_file (m * chunk) stored (chunks_of chunk map) ≡ some bytes)
  reconstruct_file-run rounds arrival stored start events same sent sized counted some_block order =
      (
        _,
        concat o'.target,
        run_resumed (m * chunk) rounds arrival stored o'.target sent start events sized counted
            some_block order,
        ap (λ t. reconstruct_file (m * chunk) stored (chunks_of chunk t)) (concat-flatten o'.target)
            ∙ reconstruct_file-contents chunk m chunk_pos stored o'.target m_pos
                (All-sizes (m * chunk) o'.file.blocks stored same partition_bin_file-Written.sizes)
                (IsPadded-sizes chunk m o'.file.blocks stored same partition_bin_file-IsPadded)
                sent.sized (omega (arith, sent.counted))
            ∙ ap some (
                sym (contents-sizes o'.file.blocks stored o'.target same)
                ∙ partition_bin_file-Written.text),
      )
