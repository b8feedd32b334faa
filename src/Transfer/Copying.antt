-- ===== src/Transfer/Copying.antt =====
-- A file that `receive_file` of FileSystem/src/filetable.c sends for, and what a thread copies into the
-- map of the block file.
use tp_2017_2c_yatpos.Base.{
  ℕ, ◌+◌, ◌*◌, ◌^◌, ◌<◌, ◌≡◌, ap, sym, ◌∙◌, List, Bool, true, All, All-mono, some, length, take,
  get_elem?, set, leb, arith,
}
use tp_2017_2c_yatpos.Base.Int.{pos}
use tp_2017_2c_yatpos.Serial.Words.{Bytes}
use tp_2017_2c_yatpos.Yfile.{Block}
use tp_2017_2c_yatpos.Planner.Move.{get_elem?-lt}
use tp_2017_2c_yatpos.Planner.Workers.{All-get_elem?}
use tp_2017_2c_yatpos.Datanode.Blocks.{
  concat, block_at, IsBlocks, block_at-IsBlock, length-concat, block_offset-concat, overlay-concat,
  take-length,
}
use tp_2017_2c_yatpos.Transfer.{BlockFile, Arrival, block_finder, index_from, copy_block}
use tp_2017_2c_yatpos.Transfer.Finding.{
  HasNodes, IsAsked, block_finder-HasNodes, block_finder-IsAsked, index_from_unique,
}

-- `blocks` are sent for, each from the node that answered in the rounds, and `contents` are what the nodes have of them.
pub record IsSent (block_size : ℕ) (rounds : ℕ → List (Bool × Bool)) (arrival : ℕ → Arrival)
    (blocks : List Block) (contents : List Bytes) : Type 0 where
  pub nodes : All HasNodes blocks
  -- No other block has a copy at the place that a block was sent for from.
  pub distinct :
      (j k : ℕ) (b : Block)
      → get_elem? blocks j ≡ some b
      → k < length blocks
      → block_finder (arrival k).node (arrival k).blockno b ≡ some true
      → j ≡ k
  pub asked : (k : ℕ) (b : Block) → get_elem? blocks k ≡ some b → IsAsked (rounds k) b (arrival k)
  pub brought : (k : ℕ) → k < length blocks → (arrival k).content ≡ block_at contents k
  pub counted : length contents ≡ length blocks
  pub sized : IsBlocks block_size contents
  pub small : length contents * block_size < 2 ^ 31

-- The block file with some of its blocks.
abbrev pub gathered : List Block → ℕ → List Bytes → BlockFile
gathered blocks current store = record {
  blocks = blocks;
  current = current;
  total = length blocks;
  map = concat store;
}

module _ (block_size : ℕ) (rounds : ℕ → List (Bool × Bool)) (arrival : ℕ → Arrival)
    (blocks : List Block) (contents : List Bytes)
    (sent : IsSent block_size rounds arrival blocks contents) where
  found :
      (k : ℕ)
      → k < length blocks
      → index_from (block_finder (arrival k).node (arrival k).blockno) 0 blocks ≡ some (pos k)
  found k h =
      let (b, at) = get_elem?-lt blocks k h in
      let self =
        block_finder-IsAsked (rounds k) b (arrival k)
          (All-get_elem? HasNodes blocks k sent.nodes at) (sent.asked k b at) in
      index_from_unique (block_finder (arrival k).node (arrival k).blockno) 0 k b blocks
        (All-mono HasNodes _ blocks (block_finder-HasNodes (arrival k).node (arrival k).blockno)
          sent.nodes)
        at self (λ j c there is. sent.distinct j k c there h is)
      ∙ ap (λ n. some (pos n)) here
    where
      here : 0 + k ≡ k
      here = omega arith

  pub copy_block-gathered :
      (current k : ℕ) (store : List Bytes)
      → IsBlocks block_size store
      → length store ≡ length blocks
      → k < length blocks
      → copy_block block_size (arrival k) (gathered blocks current store)
        ≡ some (gathered blocks current (set store k (block_at contents k)))
  unfolding copy_block
  copy_block-gathered current k store sized same h =
      rw (found k h, copy_block)
        (rw
          (
            block_offset-concat block_size store k sized (omega (arith, h, same)) small,
            there,
            whole,
          )
          (ap (λ m. some (record (gathered blocks current store) { map = m }))
            (overlay-concat block_size store k (block_at contents k) sized (omega (arith, h, same))
              long)))
    where
      small : length (concat store) < 2 ^ 31
      small = rw (length-concat block_size store sized, same, sym sent.counted) sent.small

      long : length (block_at contents k) ≡ block_size
      long = block_at-IsBlock block_size contents k sent.sized (omega (arith, h, sent.counted))

      there : leb block_size (length (arrival k).content) ≡ true
      there = rw (sent.brought k h) (ground (arith, long))

      whole : take block_size (arrival k).content ≡ block_at contents k
      whole =
          rw (sent.brought k h)
            (ap (λ n. take n (block_at contents k)) (sym long) ∙ take-length (block_at contents k))
