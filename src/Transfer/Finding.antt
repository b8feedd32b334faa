-- ===== src/Transfer/Finding.antt =====
-- Which block of the file `filetable_writeblock` of FileSystem/src/filetable.c takes a content for:
-- the one that `receive_block` sent for.
use tp_2017_2c_yatpos.Base.{
  ℕ, zero, suc, ◌+◌, ◌≡◌, refl, ap, ◌∙◌, List, [], ◌∷◌, Bool, true, false, ◌&&◌, Option, some,
  some_inj, All, get_elem?, eq_bytes_refl, arith, Bool-cases, inl, inr, ◌⊎◌,
}
use tp_2017_2c_yatpos.Base.Int.{ℤ, pos, negsuc}
use tp_2017_2c_yatpos.Serial.Words.{Bytes}
use tp_2017_2c_yatpos.Yfile.{BlockCopy, Block}
use tp_2017_2c_yatpos.Strings.{mstring_isempty}
use tp_2017_2c_yatpos.Protocol.{same_code}
use tp_2017_2c_yatpos.Nodelist.{has_name}
use tp_2017_2c_yatpos.Transfer.{Arrival, is_copy, block_finder, index_from, first_available_copy}

same_code_refl : (z : ℤ) → same_code z z ≡ true
unfolding same_code
same_code_refl (pos zero) = refl
same_code_refl (pos (suc n)) = same_code_refl (pos n)
same_code_refl (negsuc zero) = refl
same_code_refl (negsuc (suc n)) = same_code_refl (negsuc n)

-- Both copies are on nodes, whose names are not all blanks.
pub record HasNodes (block : Block) : Type 0 where
  pub node0 : mstring_isempty block.copy0.node ≡ some false
  pub node1 : mstring_isempty block.copy1.node ≡ some false

is_copy-named :
    (node : Bytes) (blockno : ℤ) (copy : BlockCopy)
    → mstring_isempty copy.node ≡ some false
    → is_copy node blockno copy ≡ some (has_name node copy.node && same_code copy.blockno blockno)
unfolding is_copy
is_copy-named node blockno copy h = rw (h, is_copy)

is_copy_self :
    (node : Bytes) (blockno : ℤ) (copy : BlockCopy)
    → mstring_isempty copy.node ≡ some false
    → copy.node ≡ some node
    → copy.blockno ≡ blockno
    → is_copy node blockno copy ≡ some true
unfolding has_name
is_copy_self node blockno copy h e n =
    is_copy-named node blockno copy h
    ∙ rw (e, n, has_name) (rw (eq_bytes_refl node, same_code_refl blockno))

pub block_finder-HasNodes :
    (node : Bytes) (blockno : ℤ) (block : Block)
    → HasNodes block
    → (found : Bool) × (block_finder node blockno block ≡ some found)
unfolding block_finder
block_finder-HasNodes node blockno block h =
    elim (Bool-cases (has_name node block.copy0.node && same_code block.copy0.blockno blockno)) [
      | inl e ↦ (true, rw (is_copy-named node blockno block.copy0 h.node0, block_finder) (rw e))
      | inr e ↦ (
        has_name node block.copy1.node && same_code block.copy1.blockno blockno,
        rw (is_copy-named node blockno block.copy0 h.node0, block_finder)
            (rw e (is_copy-named node blockno block.copy1 h.node1)),
      )
    ]

-- What arrives is the copy that was sent for.
pub record IsAsked (rounds : List (Bool × Bool)) (block : Block) (a : Arrival) : Type 0 where
  pub copy : BlockCopy
  pub chosen : first_available_copy rounds block ≡ some copy
  pub node : copy.node ≡ some a.node
  pub blockno : copy.blockno ≡ a.blockno

first_available_copy_cases :
    (rounds : List (Bool × Bool)) (block : Block) (copy : BlockCopy)
    → first_available_copy rounds block ≡ some copy
    → (block.copy1 ≡ copy) ⊎ (block.copy0 ≡ copy)
unfolding first_available_copy
first_available_copy_cases [] block copy e = cc
first_available_copy_cases ((true, node0) ∷ rounds) block copy e = inl (some_inj e)
first_available_copy_cases ((false, true) ∷ rounds) block copy e = inr (some_inj e)
first_available_copy_cases ((false, false) ∷ rounds) block copy e =
    first_available_copy_cases rounds block copy e

block_finder-copy0 :
    (block : Block) (a : Arrival)
    → HasNodes block
    → block.copy0.node ≡ some a.node
    → block.copy0.blockno ≡ a.blockno
    → block_finder a.node a.blockno block ≡ some true
unfolding block_finder
block_finder-copy0 block a h n b =
    rw (is_copy_self a.node a.blockno block.copy0 h.node0 n b, block_finder)

block_finder-copy1 :
    (block : Block) (a : Arrival)
    → HasNodes block
    → block.copy1.node ≡ some a.node
    → block.copy1.blockno ≡ a.blockno
    → block_finder a.node a.blockno block ≡ some true
unfolding block_finder
block_finder-copy1 block a h n b =
    elim (Bool-cases
      (has_name a.node block.copy0.node && same_code block.copy0.blockno a.blockno)) [
        | inl e ↦ rw (is_copy-named a.node a.blockno block.copy0 h.node0, block_finder) (rw e)
        | inr e ↦
            rw (is_copy-named a.node a.blockno block.copy0 h.node0, block_finder)
              (rw e (is_copy_self a.node a.blockno block.copy1 h.node1 n b))
      ]

pub block_finder-IsAsked :
    (rounds : List (Bool × Bool)) (block : Block) (a : Arrival)
    → HasNodes block
    → IsAsked rounds block a
    → block_finder a.node a.blockno block ≡ some true
block_finder-IsAsked rounds block a h asked =
    elim (first_available_copy_cases rounds block asked.copy asked.chosen) [
      | inl e ↦
          block_finder-copy1 block a h (ap (λ c. c.node) e ∙ asked.node)
            (ap (λ c. c.blockno) e ∙ asked.blockno)
      | inr e ↦
          block_finder-copy0 block a h (ap (λ c. c.node) e ∙ asked.node)
            (ap (λ c. c.blockno) e ∙ asked.blockno)
    ]

-- Where only the block at `k` has the condition, it is found.
pub index_from_unique :
    (condition : Block → Option Bool) (i k : ℕ) (block : Block) (blocks : List Block)
    → All (λ b. (t : Bool) × (condition b ≡ some t)) blocks
    → get_elem? blocks k ≡ some block
    → condition block ≡ some true
    → ((j : ℕ) (c : Block) → get_elem? blocks j ≡ some c → condition c ≡ some true → j ≡ k)
    → index_from condition i blocks ≡ some (pos (i + k))
unfolding index_from
index_from_unique condition i k block [] total e found unique = cc
index_from_unique condition i zero block (b ∷ blocks) total e found unique =
    rw (ap condition (some_inj e) ∙ found, index_from) (ap (λ n. some (pos n)) here)
  where
    here : i ≡ i + 0
    here = omega arith
index_from_unique condition i (suc k) block (b ∷ blocks) total e found unique =
    elim (Bool-cases total.0.0) [
      | inl t ↦ absurd (omega (arith, unique 0 b refl (total.0.1 ∙ ap some t)))
      | inr t ↦
          rw (total.0.1 ∙ ap some t, index_from)
            (index_from_unique condition (suc i) k block blocks total.1 e found next
              ∙ ap (λ n. some (pos n)) step)
    ]
  where
    step : suc i + k ≡ i + suc k
    step = omega arith

    next : (j : ℕ) (c : Block) → get_elem? blocks j ≡ some c → condition c ≡ some true → j ≡ k
    next j c there h = omega (arith, unique (suc j) c there h)
