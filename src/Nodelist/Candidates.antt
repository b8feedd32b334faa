-- ===== src/Nodelist/Candidates.antt =====
-- Which nodes `balance_node` (FileSystem/src/nodelist.c) chooses from.
use tp_2017_2c_yatpos.Base.{
  ℕ, suc, ◌+◌, ◌%◌, ◌≡◌, ◌∙◌, ap, sym, subst, inl, inr, List, [], ◌∷◌, Bool, true, false, not, ◌||◌,
  none, some, arith, length, get_elem?, All, All-append, ◌==◌, if◌then◌else◌, Bool-cases,
}
use tp_2017_2c_yatpos.Yfile.{Text}
use tp_2017_2c_yatpos.Mlist.{mlist_append, mlist_get, mlist_reverse}
use tp_2017_2c_yatpos.Mlist.Search.{mlist_get-elem}
use tp_2017_2c_yatpos.Planner.Workers.{All-get_elem?}
use tp_2017_2c_yatpos.Bitmap.Bits.{BitArray}
use tp_2017_2c_yatpos.Nodelist.{
  Rates, mlist_random, has_name, Node, Balance, balance_routine, balance_from, balance_node,
}

mlist_random-All {κ} :
    {A : Type 0} (P : A → Type κ) (rand : ℕ) (xs : List A) (x : A)
    → All P xs
    → mlist_random rand xs ≡ some x
    → P x
unfolding mlist_random
mlist_random-All P rand xs x h e = elim (Bool-cases (length xs == 0)) [
  | inl empty ↦ absurd (ground (arith, empty, e))
  | inr more ↦ All-get_elem? P xs (rand % length xs) h (
      sym (mlist_get-elem xs (rand % length xs))
      ∙ subst
          (λ b. (if b then none else mlist_get xs (mlist_reverse xs) (rand % length xs)) ≡ some x)
          more e)
]

module _ (B : BitArray) where
  module _ (R : Rates) (active : Node B → Bool) (rand : ℕ) where
    -- Another node than that of the first copy, which answers.
    abbrev pub IsCandidate : Text → List (Node B) → ℕ → Type 0
    IsCandidate original nodes k =
        (node : Node B) × (get_elem? nodes k ≡ some node)
        × (active node ≡ true)
        × (has_name node.name original ≡ false)

    balance_routine-candidates :
        (original : Text) (nodes : List (Node B)) (i : ℕ) (node : Node B) (b : Balance R)
        → get_elem? nodes i ≡ some node
        → All (IsCandidate original nodes) b.candidates
        → All
            (IsCandidate original nodes)
            (balance_routine B R active rand original i node b).candidates
    unfolding balance_routine mlist_append
    balance_routine-candidates original nodes i node b at h =
        elim (Bool-cases
          (R.below cur b.rate || (has_name node.name original || not (active node)))) [
            | inl e ↦ rw e h
            | inr e ↦ rw e (
                All-append (IsCandidate original nodes)
                  (if R.number_equals cur b.rate then b.candidates else []) (i ∷ [])
                  (kept (R.number_equals cur b.rate)) ((node, at, answers e, other e), tt))
          ]
      where
        cur : R.Rate
        cur = R.node_empty_rate node.free_blocks node.total_blocks

        kept :
            (equal : Bool) → All (IsCandidate original nodes) (if equal then b.candidates else [])
        kept true = h
        kept false = tt

        answers :
            (R.below cur b.rate || (has_name node.name original || not (active node))) ≡ false
            → active node ≡ true
        answers e = ground arith

        other :
            (R.below cur b.rate || (has_name node.name original || not (active node))) ≡ false
            → has_name node.name original ≡ false
        other e = ground arith

    balance_from-candidates :
        (original : Text) (nodes : List (Node B)) (i : ℕ) (rest : List (Node B)) (b : Balance R)
        → ((j : ℕ) → get_elem? nodes (i + j) ≡ get_elem? rest j)
        → All (IsCandidate original nodes) b.candidates
        → All
            (IsCandidate original nodes)
            (balance_from B R active rand original i rest b).candidates
    unfolding balance_from
    balance_from-candidates original nodes i [] b there h = h
    balance_from-candidates original nodes i (node ∷ rest) b there h =
        balance_from-candidates original nodes (suc i) rest
          (balance_routine B R active rand original i node b)
          (λ j. subst (λ k. get_elem? nodes k ≡ get_elem? rest j) (omega arith) (there (suc j)))
          (balance_routine-candidates original nodes i node b
            (subst (λ k. get_elem? nodes k ≡ some node) (omega arith) (there 0)) h)

    pub balance_node-IsCandidate :
        (original : Text) (nodes : List (Node B)) (k : ℕ)
        → balance_node B R active rand original nodes ≡ some k
        → IsCandidate original nodes k
    unfolding balance_node
    balance_node-IsCandidate original nodes k e =
        mlist_random-All (IsCandidate original nodes) rand
          (balance_from B R active rand original 0 nodes
            (record { rate = R.zero_rate; candidates = [] })).candidates
          k
          (balance_from-candidates original nodes 0 nodes _
            (λ j. ap (get_elem? nodes) (omega arith)) tt)
          e
