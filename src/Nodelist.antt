-- ===== src/Nodelist.antt =====
-- FileSystem/src/nodelist.c: the nodes, and the blocks of them that are taken and given back.
-- A pointer to a node is its place in the list. Parameters: the bit arrays of the bitmaps; the
-- arithmetic of `float` and `double` by which nodes are compared (`Rates`); whether a node answers a
-- ping (`active`); what `rand` gives. The configuration file of the nodes is not here. `none` as a
-- result is a read through NULL or a write outside an array.
mod Candidates
pub mod Adding
pub mod Copies
pub mod Giving
pub mod Removing
mod Tests
use tp_2017_2c_yatpos.Base.{
  ℕ, suc, ◌+◌, ◌-◌, ◌%◌, List, [], ◌∷◌, ◌++◌, Bool, true, false, not, ◌&&◌, ◌||◌, Option, none,
  some, length, get_elem?, set, ◌==◌, if◌then◌else◌, eq_bytes,
}
use tp_2017_2c_yatpos.Base.Int.{ℤ, pos, negsuc}
use tp_2017_2c_yatpos.Serial.Words.{Bytes}
use tp_2017_2c_yatpos.Yfile.{Text, BlockCopy, Block}
use tp_2017_2c_yatpos.Mlist.{mlist_append, mlist_index, mlist_get, mlist_reverse}
use tp_2017_2c_yatpos.Bitmap.Bits.{BitArray}
use tp_2017_2c_yatpos.Bitmap.{Bitmap, bitmap_set, bitmap_unset, bitmap_firstzero}
use tp_2017_2c_yatpos.Strings.{mstring_isempty}

-- `free_blocks * 1.0f / total_blocks` as a `double`, 0, `<`, and `number_equals`.
pub record Rates : Type 1 where
  pub Rate : Type 0
  pub node_empty_rate : (free_blocks total_blocks : ℕ) → Rate
  pub zero_rate : Rate
  pub below : Rate → Rate → Bool
  pub number_equals : Rate → Rate → Bool

-- The list is one of candidates, to which nodes were only appended.
unfoldable pub mlist_random {ℓ} : {A : Type ℓ} → (rand : ℕ) → List A → Option A
unfolding mlist_get mlist_reverse
mlist_random rand list =
    if length list == 0 then none else mlist_get list (mlist_reverse list) (rand % length list)

-- `mstring_equal(node->name, name)`
unfoldable pub has_name : Bytes → Text → Bool
has_name name none = false
has_name name (some text) = eq_bytes name text

-- `server_nodeop(NODE_SEND, blockno, content)`, sent to the thread of a node.
pub record NodeOp : Type 0 where
  pub handler : Bytes
  pub blockno : ℕ
  pub content : Bytes

-- The candidates that `balance_node` has so far, and their rate.
pub record Balance (R : Rates) : Type 0 where
  pub rate : R.Rate
  pub candidates : List ℕ

unfoldable pub put_copy : (first : Bool) → BlockCopy → Block → Block
put_copy first copy block =
    if first then record block { copy0 = copy } else record block { copy1 = copy }

module _ (B : BitArray) where
  pub record Node : Type 0 where
    pub name : Bytes
    pub total_blocks : ℕ
    pub free_blocks : ℕ
    pub bitmap : Bitmap B

  unfoldable pub nodelist_find : Text → List Node → Option (Option ℕ)
  unfolding mstring_isempty has_name mlist_index
  nodelist_find name nodes = elim (mstring_isempty name) [
    | none ↦ none
    | some true ↦ some none
    | some false ↦ some (mlist_index (λ (node : Node). has_name node.name name) nodes)
  ]

  -- What `nodelist_addblock` leaves when it returns true.
  pub record Added : Type 0 where
    pub block : Block
    pub nodes : List Node
    pub op : NodeOp

  -- `bitmap_set` and `free_blocks--`
  unfoldable pub take_block : Node → ℕ → Node
  unfolding bitmap_set
  take_block node blockno = record node {
    bitmap = bitmap_set B node.bitmap blockno;
    free_blocks = node.free_blocks - 1;
  }

  module _ (R : Rates) (active : Node → Bool) (rand : ℕ) where
    unfoldable pub balance_routine : Text → ℕ → Node → Balance R → Balance R
    unfolding has_name mlist_append
    balance_routine original i node b =
        let cur = R.node_empty_rate node.free_blocks node.total_blocks in
        if R.below cur b.rate || (has_name node.name original || not (active node))
        then b
        else record {
          rate = cur;
          candidates = mlist_append (if R.number_equals cur b.rate then b.candidates else []) i;
        }

    unfoldable pub balance_from : Text → ℕ → List Node → Balance R → Balance R
    unfolding balance_routine
    balance_from original i [] b = b
    balance_from original i (node ∷ nodes) b =
        balance_from original (suc i) nodes (balance_routine original i node b)

    unfoldable pub balance_node : Text → List Node → Option ℕ
    unfolding balance_from mlist_random
    balance_node original nodes =
        mlist_random rand
          (balance_from original 0 nodes
            (record { rate = R.zero_rate; candidates = [] })).candidates

    -- `nodelist_addblock`: `some none` is false.
    unfoldable pub nodelist_addblock : Block → (content : Bytes) → List Node → Option (Option Added)
    unfolding balance_node take_block put_copy bitmap_firstzero mstring_isempty
    nodelist_addblock block content nodes = elim (balance_node block.copy0.node nodes) [
      | none ↦ some none
      | some k ↦ elim (get_elem? nodes k) [
        | none ↦ none
        | some node ↦
            if node.free_blocks == 0 then some none else elim (bitmap_firstzero B node.bitmap) [
              | none ↦ none
              | some blockno ↦ elim (mstring_isempty block.copy0.node) [
                | none ↦ none
                | some first ↦ some (
                    some (record {
                      block =
                          put_copy first (record { blockno = pos blockno; node = some node.name })
                            block;
                      nodes = set nodes k (take_block node blockno);
                      op = record { handler = node.name; blockno = blockno; content = content };
                    }))
              ]
            ]
      ]
    ]

  -- `bitmap_unset` and `free_blocks++`
  unfoldable pub give_block : Node → ℕ → Node
  unfolding bitmap_unset
  give_block node blockno = record node {
    bitmap = bitmap_unset B node.bitmap blockno;
    free_blocks = suc node.free_blocks;
  }

  -- The body of `nodelist_rmblock`, for one copy.
  unfoldable pub rm_copy : BlockCopy → List Node → Option (List Node)
  unfolding nodelist_find give_block
  rm_copy copy nodes = elim (nodelist_find copy.node nodes) [
    | none ↦ none
    | some none ↦ some nodes
    | some (some k) ↦ elim (get_elem? nodes k) [
      | none ↦ none
      | some node ↦ elim copy.blockno [
        | pos blockno ↦ some (set nodes k (give_block node blockno))
        | negsuc n ↦ none
      ]
    ]
  ]

  unfoldable pub nodelist_rmblock : Block → List Node → Option (List Node)
  unfolding rm_copy
  nodelist_rmblock block nodes = elim (rm_copy block.copy0 nodes) [
    | none ↦ none
    | some nodes' ↦ rm_copy block.copy1 nodes'
  ]
