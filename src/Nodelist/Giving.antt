-- ===== src/Nodelist/Giving.antt =====
-- What `nodelist_rmblock` (FileSystem/src/nodelist.c) gives back: one copy, and two of them.
use tp_2017_2c_yatpos.Base.{
  ℕ, zero, suc, ◌≡◌, ◌≢◌, ◌∙◌, refl, ap, sym, subst, inl, inr, List, [], ◌∷◌, Bool, false, some,
  some_inj, arith, get_elem?, get_elem?-set_ne, set, All, ◌==◌, ==_iff, Bool-cases, map,
}
use tp_2017_2c_yatpos.Base.Int.{pos}
use tp_2017_2c_yatpos.Serial.Words.{Bytes}
use tp_2017_2c_yatpos.Yfile.{Text, Block}
use tp_2017_2c_yatpos.Mlist.{mlist_index}
use tp_2017_2c_yatpos.Mlist.Search.{mlist_index-map}
use tp_2017_2c_yatpos.Planner.Workers.{All-get_elem?}
use tp_2017_2c_yatpos.Bitmap.Bits.{BitArray}
use tp_2017_2c_yatpos.Bitmap.{bitmap_unset, bitmap_test}
use tp_2017_2c_yatpos.Bitmap.Used.{unset-bits, given_back}
use tp_2017_2c_yatpos.Strings.{mstring_isempty}
use tp_2017_2c_yatpos.Nodelist.{
  Rates, has_name, Node, Added, nodelist_find, give_block, rm_copy, nodelist_rmblock,
}
use tp_2017_2c_yatpos.Nodelist.Adding.{IsNode, IsAdded}

pub set_at :
    {A : Type 0} (xs : List A) (i : ℕ) {x : A} (v : A)
    → get_elem? xs i ≡ some x
    → get_elem? (set xs i v) i ≡ some v
set_at [] i v e = cc
set_at (x ∷ xs) zero v e = refl
set_at (x ∷ xs) (suc i) v e = set_at xs i v e

module _ (B : BitArray) where
  -- The same node with the same bits.
  pub record SameNode (node node' : Node B) : Type 0 where
    pub same_name : node'.name ≡ node.name
    pub same_total : node'.total_blocks ≡ node.total_blocks
    pub same_free : node'.free_blocks ≡ node.free_blocks
    pub same_bits : (j : ℕ) → bitmap_test B node'.bitmap j ≡ bitmap_test B node.bitmap j
    pub is_node : IsNode B node'

  abbrev pub names : List (Node B) → List Bytes
  names nodes = map (λ (node : Node B). node.name) nodes

  -- Each node is the first of its name.
  abbrev pub IsDistinct : List (Node B) → Type 0
  IsDistinct nodes =
      (k : ℕ) (node : Node B)
      → get_elem? nodes k ≡ some node
      → mlist_index (λ (m : Node B). has_name m.name (some node.name)) nodes ≡ some k

  pub index-names :
      (nodes nodes' : List (Node B)) (name : Text)
      → names nodes' ≡ names nodes
      → mlist_index (λ (m : Node B). has_name m.name name) nodes'
        ≡ mlist_index (λ (m : Node B). has_name m.name name) nodes
  index-names nodes nodes' name e =
      mlist_index-map (λ (m : Node B). m.name) (λ s. has_name s name) nodes'
      ∙ ap (mlist_index (λ s. has_name s name)) e
      ∙ sym (mlist_index-map (λ (m : Node B). m.name) (λ s. has_name s name) nodes)

  pub rm_copy_lem :
      (nodes : List (Node B)) (name : Bytes) (b k : ℕ) (node : Node B)
      → mstring_isempty (some name) ≡ some false
      → mlist_index (λ (m : Node B). has_name m.name (some name)) nodes ≡ some k
      → get_elem? nodes k ≡ some node
      → rm_copy B (record { blockno = pos b; node = some name }) nodes
        ≡ some (set nodes k (give_block B node b))
  unfolding rm_copy nodelist_find
  rm_copy_lem nodes name b k node full found at =
      rw (full, rm_copy, nodelist_find) (rw (found, at) refl)

  module _ (R : Rates) (active : Node B → Bool) (rand : ℕ) (block : Block) (content : Bytes)
      (nodes : List (Node B)) (r : Added B)
      (a : IsAdded B R active rand block content nodes r) where
    give_bits :
        (j : ℕ)
        → bitmap_test B (bitmap_unset B a.node'.bitmap a.blockno) j ≡ bitmap_test B a.node.bitmap j
    unfolding bitmap_test
    give_bits j =
        let l = a.inside in
        let same_size = a.same_size in
        let inside = a.still.0 in
        elim (Bool-cases (a.blockno == j)) [
          | inl e ↦
              subst
                (λ j.
                  B.test_bit (bitmap_unset B a.node'.bitmap a.blockno).bitarray j
                  ≡ B.test_bit a.node.bitmap.bitarray j)
                ((==_iff a.blockno j).0 e)
                (ap (λ bits. B.test_bit bits a.blockno) (unset-bits B a.node'.bitmap a.blockno).0
                  ∙ B.test-clean_self a.node'.bitmap.bitarray a.blockno
                      (omega (arith, l, same_size, inside))
                  ∙ sym a.was_free)
          | inr e ↦
              ap (λ bits. B.test_bit bits j) (unset-bits B a.node'.bitmap a.blockno).0
              ∙ B.test-clean_ne a.node'.bitmap.bitarray a.blockno j (λ s. ground arith)
              ∙ a.others_kept j (λ s. ground arith)
        ]

    pub give-SameNode : SameNode a.node (give_block B a.node' a.blockno)
    unfolding give_block bitmap_test
    give-SameNode =
        let (bits, size) = unset-bits B a.node'.bitmap a.blockno in
        let (inside, counted) = a.still in
        let l = a.inside in
        let same_size = a.same_size in
        record {
          same_name = a.same_name;
          same_total = a.same_total;
          same_free = sym a.one_less;
          same_bits = give_bits;
          is_node = (
            omega (
              arith,
              inside,
              size,
              ap B.bytes bits,
              B.bytes-clean a.node'.bitmap.bitarray a.blockno,
            ),
            ap suc counted
                ∙ sym (
                    given_back B a.node'.bitmap a.blockno inside (omega (arith, l, same_size))
                      a.is_taken),
          );
        }

  -- Every node is where it was, with the same counter and the same bits.
  abbrev pub SameNodes : List (Node B) → List (Node B) → Type 0
  SameNodes nodes nodes' =
      (k : ℕ) (node : Node B)
      → get_elem? nodes k ≡ some node
      → (node' : Node B) × (get_elem? nodes' k ≡ some node') × SameNode node node'

  SameNode-refl : (node : Node B) → IsNode B node → SameNode node node
  SameNode-refl node valid = record {
    same_name = refl;
    same_total = refl;
    same_free = refl;
    same_bits = λ j. refl;
    is_node = valid;
  }

  -- Two places of the list are written, and written again.
  module _ (nodes : List (Node B)) (k k' : ℕ) (n n' m m' x x' : Node B) (apart : k ≢ k')
      (at : get_elem? nodes k ≡ some n) (at' : get_elem? nodes k' ≡ some n') where
    abbrev twice : List (Node B)
    twice = set (set nodes k m) k' m'

    abbrev pub again : List (Node B)
    again = set (set twice k x) k' x'

    pub twice_at : get_elem? twice k ≡ some m
    twice_at = get_elem?-set_ne (set nodes k m) m' (λ e. apart (sym e)) ∙ set_at nodes k m at

    pub twice_at' : get_elem? (set twice k x) k' ≡ some m'
    twice_at' =
        get_elem?-set_ne twice x apart
        ∙ set_at (set nodes k m) k' m' (get_elem?-set_ne nodes m apart ∙ at')

    again_at : get_elem? again k ≡ some x
    again_at = get_elem?-set_ne (set twice k x) x' (λ e. apart (sym e)) ∙ set_at twice k x twice_at

    again_ne : (i : ℕ) → k ≢ i → k' ≢ i → get_elem? again i ≡ get_elem? nodes i
    again_ne i ne ne' =
        get_elem?-set_ne (set twice k x) x' ne'
        ∙ get_elem?-set_ne twice x ne
        ∙ get_elem?-set_ne (set nodes k m) m' ne'
        ∙ get_elem?-set_ne nodes m ne

    found_at :
        (j i : ℕ) (o y node : Node B)
        → j ≡ i
        → get_elem? nodes j ≡ some o
        → get_elem? nodes i ≡ some node
        → get_elem? again j ≡ some y
        → SameNode o y
        → (node' : Node B) × (get_elem? again i ≡ some node') × SameNode node node'
    found_at j i o y node s at there after same = (
      y,
      subst (λ i. get_elem? again i ≡ some y) s after,
      subst (λ n. SameNode n y) (some_inj (sym at ∙ ap (get_elem? nodes) s ∙ there)) same,
    )

    pub again-SameNodes :
        All (IsNode B) nodes → SameNode n x → SameNode n' x' → SameNodes nodes again
    again-SameNodes valid same same' i node there = elim (Bool-cases (k == i)) [
      | inl e ↦ found_at k i n x node ((==_iff k i).0 e) at there again_at same
      | inr e ↦ elim (Bool-cases (k' == i)) [
        | inl e' ↦
            found_at k' i n' x' node ((==_iff k' i).0 e') at' there
              (set_at (set twice k x) k' x' twice_at') same'
        | inr e' ↦ (
          node,
          again_ne i (λ s. ground arith) (λ s. ground arith) ∙ there,
          SameNode-refl node (All-get_elem? (IsNode B) nodes i valid there),
        )
      ]
    ]

  pub rmblock_steps :
      (block : Block) (nodes one two : List (Node B))
      → rm_copy B block.copy0 nodes ≡ some one
      → rm_copy B block.copy1 one ≡ some two
      → nodelist_rmblock B block nodes ≡ some two
  unfolding nodelist_rmblock
  rmblock_steps block nodes one two first second = rw (first, nodelist_rmblock) second
