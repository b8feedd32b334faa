-- ===== src/Nodelist/Tests.antt =====
-- Two nodes of three blocks each (FileSystem/src/nodelist.c).
use tp_2017_2c_yatpos.Base.{
  ℕ, zero, suc, ◌≡◌, refl, ap, sym, some_inj, ◌⊎◌, List, [], ◌∷◌, Bool, true, Option, some, none,
  All, ltb, ◌==◌,
}
use tp_2017_2c_yatpos.Base.Int.{pos, negsuc}
use tp_2017_2c_yatpos.Serial.Words.{Bytes}
use tp_2017_2c_yatpos.Yfile.{Block}
use tp_2017_2c_yatpos.Mlist.{mlist_index}
use tp_2017_2c_yatpos.Bitmap.{bitmap_create, byte_size}
use tp_2017_2c_yatpos.Bitmap.Functions.{functions, malloced}
use tp_2017_2c_yatpos.Bitmap.Used.{bitmap_create-IsBitmap}
use tp_2017_2c_yatpos.Strings.{mstring_isempty}
use tp_2017_2c_yatpos.Nodelist.{Rates, has_name, Node, Added, nodelist_addblock, nodelist_rmblock}
use tp_2017_2c_yatpos.Nodelist.Adding.{IsNode, IsAdded, nodelist_addblock-IsAdded}
use tp_2017_2c_yatpos.Nodelist.Copies.{HasCopies, IsNamed, nodelist_addblock-HasCopies}
use tp_2017_2c_yatpos.Nodelist.Giving.{IsDistinct, SameNodes}
use tp_2017_2c_yatpos.Nodelist.Removing.{nodelist_rmblock-addblock}

abbrev counts : Rates
counts = record {
  Rate = ℕ;
  node_empty_rate = λ free total. free;
  zero_rate = 0;
  below = ltb;
  number_equals = ◌==◌;
}

abbrev empty_node : Bytes → Node functions
empty_node name = record {
  name = name;
  total_blocks = 3;
  free_blocks = 3;
  bitmap = bitmap_create functions (malloced 1) 3;
}

abbrev two_nodes : List (Node functions)
two_nodes = empty_node (78 ∷ 49 ∷ []) ∷ empty_node (78 ∷ 50 ∷ []) ∷ []

abbrev fresh : Block
fresh = record {
  index = pos 0;
  size = 5;
  copy0 = record { blockno = negsuc 0; node = none };
  copy1 = record { blockno = negsuc 0; node = none };
}

abbrev after : Block → Option (Option (Added functions)) → Added functions
after block (some (some r)) = r
after block o = record {
  block = block;
  nodes = [];
  op = record { handler = []; blockno = 0; content = [] };
}

abbrev all_active : Node functions → Bool
all_active node = true

abbrev once : Added functions
once = after fresh (nodelist_addblock functions counts all_active 5 fresh (7 ∷ []) two_nodes)

abbrev twice : Added functions
twice = after fresh (nodelist_addblock functions counts all_active 8 once.block (7 ∷ []) once.nodes)

valid : All (IsNode functions) two_nodes
unfolding byte_size
valid =
    let (inside, counted) = bitmap_create-IsBitmap functions (malloced 1) 3 refl in
    ((inside, sym counted), ((inside, sym counted), tt))

named : All (IsNamed functions) two_nodes
unfolding mstring_isempty
named = (refl, (refl, tt))

distinct : IsDistinct functions two_nodes
unfolding mlist_index has_name
distinct zero node e =
    ap
      (λ (n : Node functions).
        mlist_index (λ (m : Node functions). has_name m.name (some n.name)) two_nodes)
      (some_inj (sym e))
distinct (suc zero) node e =
    ap
      (λ (n : Node functions).
        mlist_index (λ (m : Node functions). has_name m.name (some n.name)) two_nodes)
      (some_inj (sym e))
distinct (suc (suc k)) node e = cc

added_once :
    nodelist_addblock functions counts all_active 5 fresh (7 ∷ []) two_nodes ≡ some (some once)
unfolding nodelist_addblock bitmap_create
added_once = refl

added_twice :
    nodelist_addblock functions counts all_active 8 once.block (7 ∷ []) once.nodes
    ≡ some (some twice)
unfolding nodelist_addblock bitmap_create
added_twice = refl

nodelist_addblock-IsAdded_example :
    (nodelist_addblock functions counts all_active 5 fresh (7 ∷ []) two_nodes ≡ some none)
    ⊎ ((r : Added functions) × (nodelist_addblock functions counts all_active 5 fresh
            (7 ∷ [])
            two_nodes
          ≡ some (some r))
        × IsAdded functions counts all_active 5 fresh (7 ∷ []) two_nodes r
        × All (IsNode functions) r.nodes)
unfolding mstring_isempty
nodelist_addblock-IsAdded_example =
    nodelist_addblock-IsAdded functions counts all_active 5 fresh (7 ∷ []) two_nodes true valid refl

nodelist_addblock-HasCopies_example :
    HasCopies functions twice.block
    × IsAdded functions counts all_active 5 fresh (7 ∷ []) two_nodes once
    × IsAdded functions counts all_active 8 once.block (7 ∷ []) once.nodes twice
    × All (IsNode functions) twice.nodes
nodelist_addblock-HasCopies_example =
    nodelist_addblock-HasCopies functions counts all_active all_active 5 8 fresh (7 ∷ []) two_nodes
      once twice refl valid named added_once added_twice

nodelist_rmblock-addblock_example :
    (nodes : List (Node functions)) × (nodelist_rmblock functions twice.block twice.nodes
      ≡ some nodes)
    × SameNodes functions two_nodes nodes
nodelist_rmblock-addblock_example =
    nodelist_rmblock-addblock functions counts all_active all_active 5 8 fresh (7 ∷ []) two_nodes
      once twice refl valid named distinct added_once added_twice
