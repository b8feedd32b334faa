-- ===== src/Transfer.antt =====
-- How FileSystem/src/filetable.c gathers the blocks of a file (`reset_block_file`, `receive_block`,
-- `filetable_writeblock`): the threads of the nodes write into one map, in any order, and the last of
-- them resumes the main thread. `block_size` is BLOCK_SIZE. What a thread does outside the lock and
-- inside it are two steps, between which the steps of other threads may come. `none` is a write
-- outside the map.
pub mod Finding
pub mod Arrivals
pub mod Copying
pub mod Gathered
pub mod Whole
mod Tests
use tp_2017_2c_yatpos.Base.{
  ℕ, zero, suc, ◌+◌, ◌*◌, List, [], ◌∷◌, ◌++◌, Bool, true, false, ◌&&◌, Option, none, some, length,
  get_elem?, take, leb, ◌==◌, if◌then◌else◌,
}
use tp_2017_2c_yatpos.Base.Int.{ℤ, pos, negsuc}
use tp_2017_2c_yatpos.Serial.Words.{Bytes}
use tp_2017_2c_yatpos.Yfile.{BlockCopy, Block}
use tp_2017_2c_yatpos.Strings.{mstring_isempty}
use tp_2017_2c_yatpos.Protocol.{same_code}
use tp_2017_2c_yatpos.Nodelist.{has_name}
use tp_2017_2c_yatpos.Partition.{overlay}
use tp_2017_2c_yatpos.Datanode.{block_offset}

-- `bfile`, with the map of its file.
pub record BlockFile : Type 0 where
  pub blocks : List Block
  pub current : ℕ
  pub total : ℕ
  pub map : Bytes

-- `filetable_writeblock(node, blockno, block)`: the name of the node, the block that it was asked
-- for, and the content that came.
pub record Arrival : Type 0 where
  pub node : Bytes
  pub blockno : ℤ
  pub content : Bytes

-- One round of the `for` of `block_finder`.
unfoldable pub is_copy : Bytes → ℤ → BlockCopy → Option Bool
unfolding mstring_isempty has_name same_code
is_copy node blockno copy = elim (mstring_isempty copy.node) [
  | none ↦ none
  | some true ↦ some false
  | some false ↦ some (has_name node copy.node && same_code copy.blockno blockno)
]

unfoldable pub block_finder : Bytes → ℤ → Block → Option Bool
unfolding is_copy
block_finder node blockno block = elim (is_copy node blockno block.copy0) [
  | none ↦ none
  | some true ↦ some true
  | some false ↦ is_copy node blockno block.copy1
]

-- `mlist_index` of a condition that may fault.
unfoldable pub index_from : (Block → Option Bool) → ℕ → List Block → Option ℤ
index_from condition i [] = some (negsuc 0)
index_from condition i (block ∷ blocks) = elim (condition block) [
  | none ↦ none
  | some true ↦ some (pos i)
  | some false ↦ index_from condition (suc i) blocks
]

-- What the main thread starts with; the file that is mapped has `total * BLOCK_SIZE` bytes.
unfoldable pub reset_block_file : List Block → Bytes → BlockFile
reset_block_file blocks map = record {
  blocks = blocks;
  current = 0;
  total = length blocks;
  map = map;
}

-- The copy that `receive_block` sends for. Each round of the loop asks the node of the second copy
-- and, if it does not answer, that of the first: `rounds` are the two answers, as long as there are
-- any.
unfoldable pub first_available_copy : (rounds : List (Bool × Bool)) → Block → Option BlockCopy
first_available_copy [] block = none
first_available_copy ((node1, node0) ∷ rounds) block =
    if node1
    then some block.copy1
    else if node0
    then some block.copy0
    else first_available_copy rounds block

-- A step of the thread that brings the block of an index.
pub data Event : Type 0 where
  copying : ℕ → Event
  counting : ℕ → Event

-- Inside the lock: the file after it, and whether the main thread is resumed.
unfoldable pub count_block : BlockFile → BlockFile × Bool
count_block f = (record f { current = f.current + 1 }, f.current + 1 == f.total)

module _ (block_size : ℕ) where
  -- Up to the lock. A block that no copy is of is reported, and written in front of the map.
  unfoldable pub copy_block : Arrival → BlockFile → Option BlockFile
  unfolding index_from block_finder block_offset overlay
  copy_block a f = elim (index_from (block_finder a.node a.blockno) 0 f.blocks) [
    | none ↦ none
    | some index ↦ elim (block_offset block_size f.map index) [
      | none ↦ none
      | some offset ↦
          if leb block_size (length a.content)
          then some (record f { map = overlay offset (take block_size a.content) f.map })
          else none
    ]
  ]

  unfoldable pub filetable_writeblock : Arrival → BlockFile → Option (BlockFile × Bool)
  unfolding copy_block count_block
  filetable_writeblock a f = elim (copy_block a f) [ none ↦ none | some f' ↦ some (count_block f') ]

  -- The steps in the order in which they come. Each time that the main thread is resumed, the map
  -- that it finds is put down.
  unfoldable pub run : (ℕ → Arrival) → List Event → BlockFile → Option (BlockFile × List Bytes)
  unfolding copy_block count_block
  run arrival [] f = some (f, [])
  run arrival (copying k ∷ events) f = elim (copy_block (arrival k) f) [
    | none ↦ none
    | some f' ↦ run arrival events f'
  ]
  run arrival (counting k ∷ events) f =
      let (f', resumed) = count_block f in
      elim (run arrival events f') [
        | none ↦ none
        | some (end, maps) ↦ some (end, if resumed then f'.map ∷ maps else maps)
      ]
