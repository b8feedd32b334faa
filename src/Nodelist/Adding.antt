-- ===== src/Nodelist/Adding.antt =====
-- What `nodelist_addblock` (FileSystem/src/nodelist.c) leaves.
use tp_2017_2c_yatpos.Base.{
  ℕ, suc, ◌<◌, ◌≡◌, ◌≢◌, ◌∙◌, refl, ap, sym, subst, ◌⊎◌, inl, inr, List, Bool, true, false, not,
  none, some, some_inj, arith, get_elem?, set, All, All-set, ◌==◌, Bool-cases, Option-cases,
}
use tp_2017_2c_yatpos.Base.Int.{pos}
use tp_2017_2c_yatpos.Serial.Words.{Bytes}
use tp_2017_2c_yatpos.Yfile.{Block}
use tp_2017_2c_yatpos.Planner.Workers.{All-get_elem?}
use tp_2017_2c_yatpos.Bitmap.Bits.{BitArray}
use tp_2017_2c_yatpos.Bitmap.{Bitmap, bitmap_set, bitmap_test, bitmap_firstzero}
use tp_2017_2c_yatpos.Bitmap.Used.{IsBitmap, free_blocks, bitmap_set-firstzero}
use tp_2017_2c_yatpos.Strings.{mstring_isempty}
use tp_2017_2c_yatpos.Nodelist.{
  Rates, has_name, Node, balance_node, Added, take_block, put_copy, nodelist_addblock,
}
use tp_2017_2c_yatpos.Bitmap.Used.{set-bits}
use tp_2017_2c_yatpos.Bitmap.First.{IsFirst, bitmap_firstzero-IsFirst}
use tp_2017_2c_yatpos.Nodelist.Candidates.{balance_node-IsCandidate}

module _ (B : BitArray) where
  -- The counter of free blocks is the number of bits that are 0.
  abbrev pub IsNode : Node B → Type 0
  IsNode node = IsBitmap B node.bitmap × (node.free_blocks ≡ free_blocks B node.bitmap)

  set_others :
      (b : Bitmap B) (k j : ℕ) → k ≢ j → bitmap_test B (bitmap_set B b k) j ≡ bitmap_test B b j
  unfolding bitmap_test
  set_others b k j ne =
      ap (λ bits. B.test_bit bits j) (set-bits B b k).0 ∙ B.test-set_ne b.bitarray k j ne

  module _ (R : Rates) (active : Node B → Bool) (rand : ℕ) where
    -- What adding a block leaves.
    pub record IsAdded (block : Block) (content : Bytes) (nodes : List (Node B)) (r : Added B)
        : Type 0 where
      pub place : ℕ
      pub node : Node B
      pub node' : Node B
      pub blockno : ℕ
      pub first : Bool
      pub at : get_elem? nodes place ≡ some node
      pub answers : active node ≡ true
      pub other : has_name node.name block.copy0.node ≡ false
      pub inside : blockno < node.bitmap.size
      pub same_size : node'.bitmap.size ≡ node.bitmap.size
      pub same_total : node'.total_blocks ≡ node.total_blocks
      pub was_free : bitmap_test B node.bitmap blockno ≡ false
      pub is_taken : bitmap_test B node'.bitmap blockno ≡ true
      pub others_kept :
          (j : ℕ) → blockno ≢ j → bitmap_test B node'.bitmap j ≡ bitmap_test B node.bitmap j
      pub same_name : node'.name ≡ node.name
      pub one_less : node.free_blocks ≡ suc node'.free_blocks
      pub still : IsNode node'
      pub nodes_after : r.nodes ≡ set nodes place node'
      pub sent : r.op ≡ record { handler = node.name; blockno = blockno; content = content }
      pub is_first : mstring_isempty block.copy0.node ≡ some first
      pub block_after :
          r.block ≡ put_copy first (record { blockno = pos blockno; node = some node.name }) block

    -- A node with a free block, of which `nodelist_addblock` takes one.
    taken :
        (node : Node B)
        → IsNode node
        → (node.free_blocks == 0) ≡ false
        → (k : ℕ) × (bitmap_firstzero B node.bitmap ≡ some k)
          × (k < node.bitmap.size)
          × (bitmap_test B node.bitmap k ≡ false)
          × (bitmap_test B (take_block B node k).bitmap k ≡ true)
          × (node.free_blocks ≡ suc (take_block B node k).free_blocks)
          × IsNode (take_block B node k)
    unfolding take_block
    taken node (inside, counted) some_free =
        let (k, found, off, on, still, less, back) =
          bitmap_set-firstzero B node.bitmap inside (ground (arith, some_free, counted)) in
        let (_, l, _, _) =
          subst (IsFirst B not node.bitmap 0 node.bitmap.size) found
            (bitmap_firstzero-IsFirst B node.bitmap) in
        (k, found, l, off, on, omega (arith, less, counted), (still, omega (arith, less, counted)))

    -- A first copy whose node's name, if it has one, is not all blanks, and nodes whose counters are the
    -- numbers of their free bits: `nodelist_addblock` returns. It returns false, and changes nothing; or a
    -- node that answers, other than that of the first copy, gives the block a bit that was free and is
    -- taken now, its counter falls by one and is the number of its free bits still, no other bit and no
    -- other node changes, the content is sent to that node with the number of the bit, and the copy of
    -- the block that was missing is written, the first or the second, with that node and number.
    pub nodelist_addblock-IsAdded :
        (block : Block) (content : Bytes) (nodes : List (Node B)) (first : Bool)
        → All IsNode nodes
        → mstring_isempty block.copy0.node ≡ some first
        → (nodelist_addblock B R active rand block content nodes ≡ some none)
          ⊎ ((r : Added B) × (nodelist_addblock B R active rand block content nodes ≡ some (some r))
              × IsAdded block content nodes r
              × All IsNode r.nodes)
    unfolding nodelist_addblock take_block
    nodelist_addblock-IsAdded block content nodes first valid empty =
        elim (Option-cases (balance_node B R active rand block.copy0.node nodes)) [
          | inl e ↦ inl (rw (e, nodelist_addblock) refl)
          | inr (k, e) ↦
              let (node, at, answers, other) =
                balance_node-IsCandidate B R active rand block.copy0.node nodes k e in
              let is_node = All-get_elem? IsNode nodes k valid at in
              elim (Bool-cases (node.free_blocks == 0)) [
                | inl full ↦ inl (rw (e, nodelist_addblock) (rw (at, full) refl))
                | inr some_free ↦
                    let (b, found, inside, off, on, less, still) = taken node is_node some_free in
                    inr (
                      record {
                        block =
                            put_copy first (record { blockno = pos b; node = some node.name })
                              block;
                        nodes = set nodes k (take_block B node b);
                        op = record { handler = node.name; blockno = b; content = content };
                      },
                      rw (e, nodelist_addblock) (rw (at, some_free) (rw found (rw empty refl))),
                      record {
                        place = k;
                        node = node;
                        node' = take_block B node b;
                        blockno = b;
                        first = first;
                        at = at;
                        answers = answers;
                        other = other;
                        inside = inside;
                        same_size = (set-bits B node.bitmap b).1;
                        same_total = refl;
                        was_free = off;
                        is_taken = on;
                        others_kept = λ j ne. set_others node.bitmap b j ne;
                        same_name = refl;
                        one_less = less;
                        still = still;
                        nodes_after = refl;
                        sent = refl;
                        is_first = empty;
                        block_after = refl;
                      },
                      All-set IsNode nodes k (take_block B node b) valid still,
                    )
              ]
        ]

    -- What is known when it returned true.
    pub IsAdded-of_true :
        (block : Block) (content : Bytes) (nodes : List (Node B)) (first : Bool) (r : Added B)
        → All IsNode nodes
        → mstring_isempty block.copy0.node ≡ some first
        → nodelist_addblock B R active rand block content nodes ≡ some (some r)
        → IsAdded block content nodes r × All IsNode r.nodes
    IsAdded-of_true block content nodes first r valid empty e =
        elim (nodelist_addblock-IsAdded block content nodes first valid empty) [
          | inl f ↦ cc
          | inr (s, f, added, still) ↦
              subst (λ s. IsAdded block content nodes s × All IsNode s.nodes)
                (some_inj (some_inj (sym f ∙ e))) (added, still)
        ]
