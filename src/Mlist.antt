-- ===== src/Mlist.antt =====
-- Shared/mlist.c as its callers see it: a list is its elements in the order of the `next` links, and
-- an element is never NULL. `none` is the source's -1 or NULL.
-- Only `mlist_get` follows the `prev` links, from the tail on; sorting follows and changes only the
-- `next` links, and leaves the others as they were.
pub mod Sort
pub mod Unique
pub mod Search
mod Tests
use tp_2017_2c_yatpos.Base.{
  ℕ, zero, suc, ◌-◌, ◌/◌, leb, List, [], ◌∷◌, ◌++◌, Bool, true, false, not, Option, none, some,
  length, get_elem?, set, if◌then◌else◌,
}
use tp_2017_2c_yatpos.Base.Int.{ℤ, ◌+ℤ◌}

module _ {ℓ} {A : Type ℓ} where
  unfoldable pub mlist_append : List A → A → List A
  mlist_append xs x = xs ++ x ∷ []

  -- The loop of `mlist_index`.
  unfoldable pub mlist_index : (A → Bool) → List A → Option ℕ
  mlist_index cond [] = none
  mlist_index cond (x ∷ xs) = elim (cond x) [
    | true ↦ some 0
    | false ↦ elim (mlist_index cond xs) [ none ↦ none | some i ↦ some (suc i) ]
  ]

  unfoldable pub mlist_find : (A → Bool) → List A → Option A
  mlist_find cond [] = none
  mlist_find cond (x ∷ xs) = elim (cond x) [ true ↦ some x | false ↦ mlist_find cond xs ]

  -- Every element for which the condition holds.
  unfoldable pub mlist_filter : (A → Bool) → List A → List A
  mlist_filter cond [] = []
  mlist_filter cond (x ∷ xs) = let rest = mlist_filter cond xs in if cond x then x ∷ rest else rest

  -- `mlist_remove` takes out every element for which the condition holds, and returns the last.
  unfoldable pub mlist_remove : (A → Bool) → List A → List A × Option A
  mlist_remove cond [] = ([], none)
  mlist_remove cond (x ∷ xs) =
      let (rest, last) = mlist_remove cond xs in
      if cond x then (rest, elim last [ none ↦ some x | some y ↦ some y ]) else (x ∷ rest, last)

  unfoldable pub mlist_count : (A → Bool) → List A → ℕ
  mlist_count cond [] = 0
  mlist_count cond (x ∷ xs) = let rest = mlist_count cond xs in if cond x then suc rest else rest

  unfoldable pub mlist_any : (A → Bool) → List A → Bool
  unfolding mlist_find
  mlist_any cond xs = elim (mlist_find cond xs) [ none ↦ false | some x ↦ true ]

  unfoldable pub mlist_all : (A → Bool) → List A → Bool
  unfolding mlist_any
  mlist_all positive xs = not (mlist_any (λ x. not (positive x)) xs)

  unfoldable pub mlist_first : List A → Option A
  mlist_first [] = none
  mlist_first (x ∷ xs) = some x

  unfoldable pub mlist_reduce_from : (ℤ → A → ℤ) → ℤ → List A → ℤ
  mlist_reduce_from add sum [] = sum
  mlist_reduce_from add sum (x ∷ xs) = mlist_reduce_from add (add sum x) xs

  -- `slow` and `fast` of `split_nodes`: what comes of the list from `slow` on.
  unfoldable pub halve : (slow fast : List A) → List A × List A
  halve [] fast = ([], [])
  halve (x ∷ slow) [] = (x ∷ [], slow)
  halve (x ∷ slow) (f ∷ []) = (x ∷ [], slow)
  halve (x ∷ slow) (f ∷ g ∷ fast) = let (front, back) = halve slow fast in (x ∷ front, back)

  unfoldable pub split_nodes : List A → List A × List A
  unfolding halve
  split_nodes [] = ([], [])
  split_nodes (x ∷ []) = (x ∷ [], [])
  split_nodes (x ∷ y ∷ xs) = halve (x ∷ y ∷ xs) (y ∷ xs)

  -- `(fwd && cmp(a, b)) || (!fwd && !cmp(a, b))`
  abbrev pub goes_first : (A → A → Bool) → Bool → A → A → Bool
  goes_first cmp fwd a b = if fwd then cmp a b else not (cmp a b)

  unfoldable pub merge_nodes : (A → A → Bool) → Bool → List A → List A → List A
  merge_nodes cmp fwd [] b = b
  merge_nodes cmp fwd (x ∷ a) [] = x ∷ a
  merge_nodes cmp fwd (x ∷ a) (y ∷ b) = elim (goes_first cmp fwd x y) [
    | true ↦ x ∷ merge_nodes cmp fwd a (y ∷ b)
    | false ↦ y ∷ merge_nodes cmp fwd (x ∷ a) b
  ]

  -- `sort_nodes`: the length of the list is fuel enough.
  unfoldable pub sort_nodes : (fuel : ℕ) → (A → A → Bool) → Bool → List A → List A
  unfolding split_nodes merge_nodes
  sort_nodes zero cmp fwd xs = xs
  sort_nodes (suc fuel) cmp fwd [] = []
  sort_nodes (suc fuel) cmp fwd (x ∷ []) = x ∷ []
  sort_nodes (suc fuel) cmp fwd (x ∷ y ∷ xs) =
      let (a, b) = split_nodes (x ∷ y ∷ xs) in
      merge_nodes cmp fwd (sort_nodes fuel cmp fwd a) (sort_nodes fuel cmp fwd b)

  unfoldable pub mlist_sort : (A → A → Bool) → List A → List A
  unfolding sort_nodes
  mlist_sort cmp xs = sort_nodes (length xs) cmp true xs

  unfoldable pub mlist_rsort : (A → A → Bool) → List A → List A
  unfolding sort_nodes
  mlist_rsort cmp xs = sort_nodes (length xs) cmp false xs

  -- `mlist_reverse`: a new list, to which the elements are appended from the tail on.
  unfoldable pub mlist_reverse : List A → List A
  unfolding mlist_append
  mlist_reverse [] = []
  mlist_reverse (x ∷ xs) = mlist_append (mlist_reverse xs) x

  -- `get_node`: from the head for the first half of the list, along the `next` links, and from the
  -- tail for the second, along the `prev` links, which give the elements of `backward`. The two orders
  -- agree in a list that elements were only appended to, but not after sorting.
  unfoldable pub mlist_get : (forward backward : List A) → ℕ → Option A
  mlist_get forward backward i =
      if leb (length forward) i
      then none
      else if leb i (length forward / 2)
      then get_elem? forward i
      else get_elem? backward (length forward - 1 - i)

  unfoldable pub mlist_replace : List A → ℕ → A → List A
  mlist_replace xs i x = set xs i x

  unfoldable pub mlist_extend : List A → List A → List A
  unfolding mlist_append
  mlist_extend xs [] = xs
  mlist_extend xs (y ∷ ys) = mlist_extend (mlist_append xs y) ys
