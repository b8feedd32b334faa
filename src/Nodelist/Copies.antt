-- ===== src/Nodelist/Copies.antt =====
-- The two copies of a block (FileSystem/src/nodelist.c): `nodelist_addblock` twice, as
-- FileSystem/src/filetable.c calls it, and `nodelist_rmblock`.
use tp_2017_2c_yatpos.Base.{
  ℕ, ◌≡◌, ◌≢◌, ◌∙◌, ap, sym, subst, List, Bool, true, false, none, some, some_inj, arith, All,
  All-set, eq_bytes, eq_bytes_refl,
}
use tp_2017_2c_yatpos.Base.Int.{pos}
use tp_2017_2c_yatpos.Serial.Words.{Bytes}
use tp_2017_2c_yatpos.Yfile.{BlockCopy, Block}
use tp_2017_2c_yatpos.Planner.Workers.{All-get_elem?}
use tp_2017_2c_yatpos.Bitmap.Bits.{BitArray}
use tp_2017_2c_yatpos.Strings.{mstring_isempty}
use tp_2017_2c_yatpos.Nodelist.{Rates, has_name, Node, Added, put_copy, nodelist_addblock}
use tp_2017_2c_yatpos.Nodelist.Adding.{IsNode, IsAdded, IsAdded-of_true}

module _ (B : BitArray) where
  -- The name is a text that `mstring_isempty` does not take for an empty one.
  abbrev pub IsNamed : Node B → Type 0
  IsNamed node = mstring_isempty (some node.name) ≡ some false

  -- Both copies of a block are there, on different nodes.
  pub record HasCopies (block : Block) : Type 0 where
    pub name0 : Bytes
    pub name1 : Bytes
    pub blockno0 : ℕ
    pub blockno1 : ℕ
    pub copy0 : block.copy0 ≡ record { blockno = pos blockno0; node = some name0 }
    pub copy1 : block.copy1 ≡ record { blockno = pos blockno1; node = some name1 }
    pub different : name0 ≢ name1

  pub has_name-ne : (name other : Bytes) → has_name name (some other) ≡ false → other ≢ name
  unfolding has_name
  has_name-ne name other e same =
      absurd
        (ground (arith, e, subst (λ n. eq_bytes name n ≡ true) (sym same) (eq_bytes_refl name)))

  module _ (R : Rates) (active : Node B → Bool) (rand : ℕ) (block : Block) (content : Bytes)
      (nodes : List (Node B)) (r : Added B)
      (a : IsAdded B R active rand block content nodes r) where
    -- The copy that was written.
    abbrev pub written : BlockCopy
    written = record { blockno = pos a.blockno; node = some a.node.name }

    pub first_copy : block.copy0.node ≡ none → r.block ≡ record block { copy0 = written }
    unfolding mstring_isempty put_copy
    first_copy fresh =
        let is_first : a.first ≡ true = some_inj (sym a.is_first ∙ ap mstring_isempty fresh) in
        a.block_after ∙ ap (λ b. put_copy b written block) is_first

    pub second_copy :
        (name : Bytes)
        → block.copy0.node ≡ some name
        → mstring_isempty (some name) ≡ some false
        → r.block ≡ record block { copy1 = written }
    unfolding put_copy
    second_copy name known full =
        let is_second : a.first ≡ false =
          some_inj (sym a.is_first ∙ ap mstring_isempty known ∙ full) in
        a.block_after ∙ ap (λ b. put_copy b written block) is_second

    IsNamed-Added : All IsNamed nodes → All IsNamed r.nodes
    IsNamed-Added named = subst (All IsNamed) (sym a.nodes_after) (
        All-set IsNamed nodes a.place a.node' named (
          ap (λ n. mstring_isempty (some n)) a.same_name
          ∙ All-get_elem? IsNamed nodes a.place named a.at))

  module _ (R : Rates) (active active' : Node B → Bool) (rand rand' : ℕ) (block : Block)
      (content : Bytes) (nodes : List (Node B)) (r r' : Added B) where
    -- A block without copies, nodes with names whose counters are the numbers of their free bits: when
    -- `nodelist_addblock` returned true twice, the block has both copies, on different nodes that answered,
    -- and the counters are the numbers of free bits still.
    pub nodelist_addblock-HasCopies :
        block.copy0.node ≡ none
        → All (IsNode B) nodes
        → All IsNamed nodes
        → nodelist_addblock B R active rand block content nodes ≡ some (some r)
        → nodelist_addblock B R active' rand' r.block content r.nodes ≡ some (some r')
        → HasCopies r'.block
          × IsAdded B R active rand block content nodes r
          × IsAdded B R active' rand' r.block content r.nodes r'
          × All (IsNode B) r'.nodes
    unfolding mstring_isempty
    nodelist_addblock-HasCopies fresh valid named once twice =
        let (a, valid1) =
          IsAdded-of_true B R active rand block content nodes true r valid
            (ap mstring_isempty fresh) once in
        let one = first_copy R active rand block content nodes r a fresh in
        let known : r.block.copy0.node ≡ some a.node.name = ap (λ (b : Block). b.copy0.node) one in
        let full = All-get_elem? IsNamed nodes a.place named a.at in
        let (a', valid2) =
          IsAdded-of_true B R active' rand' r.block content r.nodes false r' valid1
            (ap mstring_isempty known ∙ full) twice in
        let two =
          second_copy R active' rand' r.block content r.nodes r' a' a.node.name known full in
        (
          record {
            name0 = a.node.name;
            name1 = a'.node.name;
            blockno0 = a.blockno;
            blockno1 = a'.blockno;
            copy0 = ap (λ (b : Block). b.copy0) two ∙ ap (λ (b : Block). b.copy0) one;
            copy1 = ap (λ (b : Block). b.copy1) two;
            different =
                has_name-ne a'.node.name a.node.name
                  (sym (ap (has_name a'.node.name) known) ∙ a'.other);
          },
          a,
          a',
          valid2,
        )
