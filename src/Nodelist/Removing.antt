-- ===== src/Nodelist/Removing.antt =====
-- `nodelist_rmblock` (FileSystem/src/nodelist.c) gives back what `nodelist_addblock` took.
use tp_2017_2c_yatpos.Base.{
  ℕ, ◌≡◌, ◌≢◌, ◌∙◌, refl, ap, sym, subst, List, Bool, false, none, some, some_inj, get_elem?,
  get_elem?-set_ne, set, All,
}
use tp_2017_2c_yatpos.Serial.Words.{Bytes}
use tp_2017_2c_yatpos.Yfile.{Block}
use tp_2017_2c_yatpos.Planner.Workers.{All-get_elem?, map-set}
use tp_2017_2c_yatpos.Bitmap.Bits.{BitArray}
use tp_2017_2c_yatpos.Strings.{mstring_isempty}
use tp_2017_2c_yatpos.Nodelist.{
  Rates, has_name, Node, Added, nodelist_addblock, give_block, rm_copy, nodelist_rmblock,
}
use tp_2017_2c_yatpos.Nodelist.Adding.{IsNode, IsAdded}
use tp_2017_2c_yatpos.Nodelist.Copies.{
  IsNamed, has_name-ne, written, first_copy, second_copy, nodelist_addblock-HasCopies,
}
use tp_2017_2c_yatpos.Nodelist.Giving.{
  set_at, IsDistinct, SameNodes, names, index-names, rm_copy_lem, give-SameNode, again, twice_at,
  twice_at', again-SameNodes, rmblock_steps,
}

module _ (B : BitArray) where
  module _ (R : Rates) (active active' : Node B → Bool) (rand rand' : ℕ) (block : Block)
      (content : Bytes) (nodes : List (Node B)) (r r' : Added B) where
    -- Both copies given back, from what is known of the two that were added.
    both_back :
        (a : IsAdded B R active rand block content nodes r)
        (a' : IsAdded B R active' rand' r.block content r.nodes r')
        → block.copy0.node ≡ none
        → All (IsNode B) nodes
        → All (IsNamed B) nodes
        → IsDistinct B nodes
        → (nodes' : List (Node B)) × (nodelist_rmblock B r'.block r'.nodes ≡ some nodes')
          × SameNodes B nodes nodes'
    unfolding give_block
    both_back a a' fresh valid named distinct = (
      again B nodes a.place a'.place a.node a'.node a.node' a'.node' x x' apart a.at at',
      ap (nodelist_rmblock B r'.block) after
          ∙ rmblock_steps B r'.block two_taken one_back (set one_back a'.place x')
              (ap (λ c. rm_copy B c two_taken) copy0 ∙ first_back)
              (ap (λ c. rm_copy B c one_back) copy1 ∙ second_back),
      again-SameNodes B nodes a.place a'.place a.node a'.node a.node' a'.node' x x' apart a.at at'
          valid (give-SameNode B R active rand block content nodes r a)
          (give-SameNode B R active' rand' r.block content r.nodes r' a'),
    )
      where
        one : r.block ≡ record block { copy0 = written B R active rand block content nodes r a }
        one = first_copy B R active rand block content nodes r a fresh

        known : r.block.copy0.node ≡ some a.node.name
        known = ap (λ (b : Block). b.copy0.node) one

        full : mstring_isempty (some a.node.name) ≡ some false
        full = All-get_elem? (IsNamed B) nodes a.place named a.at

        two :
            r'.block
            ≡ record r.block { copy1 = written B R active' rand' r.block content r.nodes r' a' }
        two = second_copy B R active' rand' r.block content r.nodes r' a' a.node.name known full

        x : Node B
        x = give_block B a.node' a.blockno

        x' : Node B
        x' = give_block B a'.node' a'.blockno

        there : get_elem? (set nodes a.place a.node') a'.place ≡ some a'.node
        there = subst (λ ns. get_elem? ns a'.place ≡ some a'.node) a.nodes_after a'.at

        apart : a.place ≢ a'.place
        apart s =
            let same : a.node' ≡ a'.node = some_inj (
              sym (set_at nodes a.place a.node' a.at)
              ∙ ap (get_elem? (set nodes a.place a.node')) s
              ∙ there) in
            has_name-ne B a'.node.name a.node.name
              (sym (ap (has_name a'.node.name) known) ∙ a'.other)
              (sym a.same_name ∙ ap (λ (n : Node B). n.name) same)

        at' : get_elem? nodes a'.place ≡ some a'.node
        at' = sym (get_elem?-set_ne nodes a.node' apart) ∙ there

        after : r'.nodes ≡ set (set nodes a.place a.node') a'.place a'.node'
        after = a'.nodes_after ∙ ap (λ ns. set ns a'.place a'.node') a.nodes_after

        two_taken : List (Node B)
        two_taken = set (set nodes a.place a.node') a'.place a'.node'

        one_back : List (Node B)
        one_back = set two_taken a.place x

        copy0 : r'.block.copy0 ≡ written B R active rand block content nodes r a
        copy0 = ap (λ (b : Block). b.copy0) two ∙ ap (λ (b : Block). b.copy0) one

        copy1 : r'.block.copy1 ≡ written B R active' rand' r.block content r.nodes r' a'
        copy1 = ap (λ (b : Block). b.copy1) two

        names_taken : names B two_taken ≡ names B nodes
        names_taken =
            map-set (λ (n : Node B). n.name) (set nodes a.place a.node') a'.place a'.node' there
              a'.same_name
            ∙ map-set (λ (n : Node B). n.name) nodes a.place a.node' a.at a.same_name

        names_back : names B one_back ≡ names B nodes
        names_back =
            map-set (λ (n : Node B). n.name) two_taken a.place x
              (twice_at B nodes a.place a'.place a.node a'.node a.node' a'.node' x x' apart a.at
                at')
              refl
            ∙ names_taken

        first_back :
            rm_copy B (written B R active rand block content nodes r a) two_taken ≡ some one_back
        first_back =
            rm_copy_lem B two_taken a.node.name a.blockno a.place a.node' full
              (index-names B nodes two_taken (some a.node.name) names_taken
                ∙ distinct a.place a.node a.at)
              (twice_at B nodes a.place a'.place a.node a'.node a.node' a'.node' x x' apart a.at
                at')

        second_back :
            rm_copy B (written B R active' rand' r.block content r.nodes r' a') one_back
            ≡ some (set one_back a'.place x')
        second_back =
            rm_copy_lem B one_back a'.node.name a'.blockno a'.place a'.node'
              (All-get_elem? (IsNamed B) nodes a'.place named at')
              (index-names B nodes one_back (some a'.node.name) names_back
                ∙ distinct a'.place a'.node at')
              (twice_at' B nodes a.place a'.place a.node a'.node a.node' a'.node' x x' apart a.at
                at')

    -- A block without copies, nodes with different names whose counters are the numbers of their free bits:
    -- after `nodelist_addblock` returned true twice, `nodelist_rmblock` returns, and leaves every node with
    -- the counter and the bits that it had before both.
    pub nodelist_rmblock-addblock :
        block.copy0.node ≡ none
        → All (IsNode B) nodes
        → All (IsNamed B) nodes
        → IsDistinct B nodes
        → nodelist_addblock B R active rand block content nodes ≡ some (some r)
        → nodelist_addblock B R active' rand' r.block content r.nodes ≡ some (some r')
        → (nodes' : List (Node B)) × (nodelist_rmblock B r'.block r'.nodes ≡ some nodes')
          × SameNodes B nodes nodes'
    nodelist_rmblock-addblock fresh valid named distinct once twice =
        let (_, a, a', _) =
          nodelist_addblock-HasCopies B R active active' rand rand' block content nodes r r' fresh
            valid named once twice in
        both_back a a' fresh valid named distinct
