-- ===== src/Mlist/Sort.antt =====
-- The merge sort of Shared/mlist.c gives the elements of the list in order.
use tp_2017_2c_yatpos.Base.{
  ℕ, zero, suc, ◌+◌, ◌≤◌, ◌<◌, ◌≡◌, refl, ap, sym, subst, ◌∙◌, List, [], ◌∷◌, ◌++◌, Bool, true,
  false, not, length, arith, All, All-append, All-mono, append-nil, length-append, Bool-cases, inl,
  inr, some,
}
use mathlib.Core.List.{Perm, perm_middle}
use mathlib.Core.List.Perm
use tp_2017_2c_yatpos.Mlist.{
  halve, split_nodes, goes_first, merge_nodes, sort_nodes, mlist_sort, mlist_rsort, mlist_first,
}

module _ {ℓ} {A : Type ℓ} where
  -- Every element comes before all that follow it.
  abbrev pub IsSorted {κ} : (A → A → Type κ) → List A → Type κ
  IsSorted R [] = Unit
  IsSorted R (x ∷ xs) = All (R x) xs × IsSorted R xs

  pub All-append_inv {κ} :
      (P : A → Type κ) (xs ys : List A) → All P (xs ++ ys) → All P xs × All P ys
  All-append_inv P [] ys h = (tt, h)
  All-append_inv P (x ∷ xs) ys (h, hs) = let (a, b) = All-append_inv P xs ys hs in ((h, a), b)

  halve-append : (slow fast : List A) → (halve slow fast).0 ++ (halve slow fast).1 ≡ slow
  unfolding halve
  halve-append [] fast = refl
  halve-append (x ∷ slow) [] = refl
  halve-append (x ∷ slow) (f ∷ []) = refl
  halve-append (x ∷ slow) (f ∷ g ∷ fast) = ap (◌∷◌ x) (halve-append slow fast)

  split_nodes-append : (xs : List A) → (split_nodes xs).0 ++ (split_nodes xs).1 ≡ xs
  unfolding split_nodes
  split_nodes-append [] = refl
  split_nodes-append (x ∷ []) = refl
  split_nodes-append (x ∷ y ∷ xs) = halve-append (x ∷ y ∷ xs) (y ∷ xs)

  -- Both halves are shorter than the list.
  halve-length :
      (slow fast : List A)
      → length fast < length slow
      → (0 < length (halve slow fast).0)
        × (length (halve slow fast).0 + length (halve slow fast).0 ≤ 2 + length fast)
  unfolding halve
  halve-length [] fast h = absurd (omega arith)
  halve-length (x ∷ slow) [] h = (omega arith, omega arith)
  halve-length (x ∷ slow) (f ∷ []) h = (omega arith, omega arith)
  halve-length (x ∷ slow) (f ∷ g ∷ fast) h =
      let (a, b) = halve-length slow fast (omega arith) in (omega arith, omega arith)

  split_nodes-shorter :
      (x y : A) (xs : List A)
      → (length (split_nodes (x ∷ y ∷ xs)).0 < length (x ∷ y ∷ xs))
        × (length (split_nodes (x ∷ y ∷ xs)).1 < length (x ∷ y ∷ xs))
  unfolding split_nodes
  split_nodes-shorter x y xs =
      let (a, b) = halve-length (x ∷ y ∷ xs) (y ∷ xs) (omega arith) in
      let whole =
        sym (length-append (halve (x ∷ y ∷ xs) (y ∷ xs)).0 (halve (x ∷ y ∷ xs) (y ∷ xs)).1)
        ∙ ap (length {A = A}) (halve-append (x ∷ y ∷ xs) (y ∷ xs)) in
      (omega arith, omega (arith, whole))

  module _ (cmp : A → A → Bool) (fwd : Bool) where
    merge_first :
        (x y : A) (a b : List A)
        → goes_first cmp fwd x y ≡ true
        → merge_nodes cmp fwd (x ∷ a) (y ∷ b) ≡ x ∷ merge_nodes cmp fwd a (y ∷ b)
    unfolding merge_nodes
    merge_first x y a b e = rw (e, merge_nodes)

    merge_second :
        (x y : A) (a b : List A)
        → goes_first cmp fwd x y ≡ false
        → merge_nodes cmp fwd (x ∷ a) (y ∷ b) ≡ y ∷ merge_nodes cmp fwd (x ∷ a) b
    unfolding merge_nodes
    merge_second x y a b e = rw (e, merge_nodes)

    All-merge_nodes {κ} :
        (P : A → Type κ) (a b : List A) → All P a → All P b → All P (merge_nodes cmp fwd a b)
    unfolding merge_nodes
    All-merge_nodes P [] b ha hb = hb
    All-merge_nodes P (x ∷ a) [] ha hb = ha
    All-merge_nodes P (x ∷ a) (y ∷ b) ha hb = elim (Bool-cases (goes_first cmp fwd x y)) [
      | inl e ↦ rw (merge_first x y a b e) (ha.0, All-merge_nodes P a (y ∷ b) ha.1 hb)
      | inr e ↦ rw (merge_second x y a b e) (hb.0, All-merge_nodes P (x ∷ a) b ha hb.1)
    ]

    merge_nodes-perm : (a b : List A) → Perm (merge_nodes cmp fwd a b) (a ++ b)
    unfolding merge_nodes
    merge_nodes-perm [] b = Perm.rfl
    merge_nodes-perm (x ∷ a) [] = rw (append-nil a) Perm.rfl
    merge_nodes-perm (x ∷ a) (y ∷ b) = elim (Bool-cases (goes_first cmp fwd x y)) [
      | inl e ↦ rw (merge_first x y a b e) (Perm.cons x (merge_nodes-perm a (y ∷ b)))
      | inr e ↦ rw (merge_second x y a b e) (
          Perm.trans (Perm.cons y (merge_nodes-perm (x ∷ a) b)) (Perm.symm (perm_middle (x ∷ a) b)))
    ]

    sort_nodes-perm : (fuel : ℕ) (xs : List A) → Perm (sort_nodes fuel cmp fwd xs) xs
    unfolding sort_nodes
    sort_nodes-perm zero xs = Perm.rfl
    sort_nodes-perm (suc fuel) [] = Perm.rfl
    sort_nodes-perm (suc fuel) (x ∷ []) = Perm.rfl
    sort_nodes-perm (suc fuel) (x ∷ y ∷ xs) =
        Perm.trans
          (merge_nodes-perm (sort_nodes fuel cmp fwd (split_nodes (x ∷ y ∷ xs)).0)
            (sort_nodes fuel cmp fwd (split_nodes (x ∷ y ∷ xs)).1))
          (subst (Perm _) (split_nodes-append (x ∷ y ∷ xs)) (
            Perm.append (sort_nodes-perm fuel (split_nodes (x ∷ y ∷ xs)).0)
              (sort_nodes-perm fuel (split_nodes (x ∷ y ∷ xs)).1)))

    All-sort_nodes {κ} :
        (P : A → Type κ) (fuel : ℕ) (xs : List A) → All P xs → All P (sort_nodes fuel cmp fwd xs)
    unfolding sort_nodes
    All-sort_nodes P zero xs h = h
    All-sort_nodes P (suc fuel) [] h = tt
    All-sort_nodes P (suc fuel) (x ∷ []) h = h
    All-sort_nodes P (suc fuel) (x ∷ y ∷ xs) h =
        let (a, b) =
          All-append_inv P (split_nodes (x ∷ y ∷ xs)).0 (split_nodes (x ∷ y ∷ xs)).1
            (subst (All P) (sym (split_nodes-append (x ∷ y ∷ xs))) h) in
        All-merge_nodes P (sort_nodes fuel cmp fwd (split_nodes (x ∷ y ∷ xs)).0)
          (sort_nodes fuel cmp fwd (split_nodes (x ∷ y ∷ xs)).1)
          (All-sort_nodes P fuel (split_nodes (x ∷ y ∷ xs)).0 a)
          (All-sort_nodes P fuel (split_nodes (x ∷ y ∷ xs)).1 b)

    All-merge_nodes_inv {κ} :
        (P : A → Type κ) (a b : List A) → All P (merge_nodes cmp fwd a b) → All P a × All P b
    unfolding merge_nodes
    All-merge_nodes_inv P [] b h = (tt, h)
    All-merge_nodes_inv P (x ∷ a) [] h = (h, tt)
    All-merge_nodes_inv P (x ∷ a) (y ∷ b) h = elim (Bool-cases (goes_first cmp fwd x y)) [
      | inl e ↦
          let (hx, rest) = subst (All P) (merge_first x y a b e) h in
          let (ha, hb) = All-merge_nodes_inv P a (y ∷ b) rest in ((hx, ha), hb)
      | inr e ↦
          let (hy, rest) = subst (All P) (merge_second x y a b e) h in
          let (ha, hb) = All-merge_nodes_inv P (x ∷ a) b rest in (ha, (hy, hb))
    ]

    -- Nothing is lost in sorting.
    All-sort_nodes_inv {κ} :
        (P : A → Type κ) (fuel : ℕ) (xs : List A) → All P (sort_nodes fuel cmp fwd xs) → All P xs
    unfolding sort_nodes
    All-sort_nodes_inv P zero xs h = h
    All-sort_nodes_inv P (suc fuel) [] h = tt
    All-sort_nodes_inv P (suc fuel) (x ∷ []) h = h
    All-sort_nodes_inv P (suc fuel) (x ∷ y ∷ xs) h =
        let halves = split_nodes (x ∷ y ∷ xs) in
        let (a, b) =
          All-merge_nodes_inv P (sort_nodes fuel cmp fwd halves.0)
            (sort_nodes fuel cmp fwd halves.1) h in
        subst (All P) (split_nodes-append (x ∷ y ∷ xs)) (
          All-append P halves.0 halves.1 (All-sort_nodes_inv P fuel halves.0 a)
            (All-sort_nodes_inv P fuel halves.1 b))

    module _ {κ} (R : A → A → Type κ) (R_trans : (x y z : A) → R x y → R y z → R x z)
        (R_first : (x y : A) → goes_first cmp fwd x y ≡ true → R x y)
        (R_second : (x y : A) → goes_first cmp fwd x y ≡ false → R y x) where
      merge_nodes-IsSorted :
          (a b : List A) → IsSorted R a → IsSorted R b → IsSorted R (merge_nodes cmp fwd a b)
      unfolding merge_nodes
      merge_nodes-IsSorted [] b sa sb = sb
      merge_nodes-IsSorted (x ∷ a) [] sa sb = sa
      merge_nodes-IsSorted (x ∷ a) (y ∷ b) sa sb = elim (Bool-cases (goes_first cmp fwd x y)) [
        | inl e ↦
            let r = R_first x y e in
            rw (merge_first x y a b e) (
              All-merge_nodes (R x) a (y ∷ b) sa.0
                  (r, All-mono (R y) (R x) b (λ z. R_trans x y z r) sb.0),
              merge_nodes-IsSorted a (y ∷ b) sa.1 sb,
            )
        | inr e ↦
            let r = R_second x y e in
            rw (merge_second x y a b e) (
              All-merge_nodes (R y) (x ∷ a) b
                  (r, All-mono (R x) (R y) a (λ z. R_trans y x z r) sa.0) sb.0,
              merge_nodes-IsSorted (x ∷ a) b sa sb.1,
            )
      ]

      sort_nodes-IsSorted :
          (fuel : ℕ) (xs : List A) → length xs ≤ fuel → IsSorted R (sort_nodes fuel cmp fwd xs)
      unfolding sort_nodes
      sort_nodes-IsSorted zero [] h = tt
      sort_nodes-IsSorted zero (x ∷ xs) h = absurd (omega arith)
      sort_nodes-IsSorted (suc fuel) [] h = tt
      sort_nodes-IsSorted (suc fuel) (x ∷ []) h = (tt, tt)
      sort_nodes-IsSorted (suc fuel) (x ∷ y ∷ xs) h =
          let (a, b) = split_nodes-shorter x y xs in
          merge_nodes-IsSorted (sort_nodes fuel cmp fwd (split_nodes (x ∷ y ∷ xs)).0)
            (sort_nodes fuel cmp fwd (split_nodes (x ∷ y ∷ xs)).1)
            (sort_nodes-IsSorted fuel (split_nodes (x ∷ y ∷ xs)).0 (omega arith))
            (sort_nodes-IsSorted fuel (split_nodes (x ∷ y ∷ xs)).1 (omega arith))

  pub All-mlist_sort {κ} :
      (P : A → Type κ) (cmp : A → A → Bool) (xs : List A) → All P xs → All P (mlist_sort cmp xs)
  unfolding mlist_sort
  All-mlist_sort P cmp xs h = All-sort_nodes cmp true P (length xs) xs h

  pub All-mlist_sort_inv {κ} :
      (P : A → Type κ) (cmp : A → A → Bool) (xs : List A) → All P (mlist_sort cmp xs) → All P xs
  unfolding mlist_sort
  All-mlist_sort_inv P cmp xs h = All-sort_nodes_inv cmp true P (length xs) xs h

  -- `mlist_sort` arranges the elements of the list by the comparator, for a comparator that is
  -- transitive and holds one way or the other.
  pub mlist_sort-IsSorted :
      (cmp : A → A → Bool) (xs : List A)
      → ((x y z : A) → cmp x y ≡ true → cmp y z ≡ true → cmp x z ≡ true)
      → ((x y : A) → cmp x y ≡ false → cmp y x ≡ true)
      → IsSorted (λ x y. cmp x y ≡ true) (mlist_sort cmp xs) × Perm (mlist_sort cmp xs) xs
  unfolding mlist_sort
  mlist_sort-IsSorted cmp xs trans total = (
    sort_nodes-IsSorted cmp true (λ x y. cmp x y ≡ true) trans (λ x y e. e) total (length xs) xs
        (omega arith),
    sort_nodes-perm cmp true (length xs) xs,
  )

  -- The first element of a sorted list that is not empty stands in the list, and before all others.
  pub mlist_sort-first {κ} :
      (P : A → Type κ) (cmp : A → A → Bool) (x : A) (xs : List A)
      → ((x y z : A) → cmp x y ≡ true → cmp y z ≡ true → cmp x z ≡ true)
      → ((x y : A) → cmp x y ≡ false → cmp y x ≡ true)
      → All P (x ∷ xs)
      → (m : A) × (mlist_first (mlist_sort cmp (x ∷ xs)) ≡ some m)
        × P m
        × All (λ y. cmp m y ≡ true) (x ∷ xs)
  unfolding mlist_sort mlist_first
  mlist_sort-first P cmp x xs trans total h =
      head (mlist_sort cmp (x ∷ xs))
        (λ e. absurd (All-sort_nodes_inv cmp true (λ _. ⊥) (length (x ∷ xs)) (x ∷ xs) (rw e tt)).0)
        (All-sort_nodes cmp true P (length (x ∷ xs)) (x ∷ xs) h)
        (mlist_sort-IsSorted cmp (x ∷ xs) trans total).0
        (λ Q. All-sort_nodes_inv cmp true Q (length (x ∷ xs)) (x ∷ xs))
    where
      self : (y : A) → cmp y y ≡ true
      self y = elim (Bool-cases (cmp y y)) [ inl e ↦ e | inr e ↦ total y y e ]

      head :
          (ys : List A)
          → (ys ≡ [] → ⊥)
          → All P ys
          → IsSorted (λ a b. cmp a b ≡ true) ys
          → ((Q : A → Type 0) → All Q ys → All Q (x ∷ xs))
          → (m : A) × (mlist_first ys ≡ some m) × P m × All (λ y. cmp m y ≡ true) (x ∷ xs)
      head [] some_left hp sorted all = absurd (some_left refl)
      head (m ∷ ys) some_left (hm, hp) (before, sorted) all =
          (m, refl, hm, all (λ y. cmp m y ≡ true) (self m, before))

  -- `mlist_rsort` arranges them the other way round.
  pub mlist_rsort-IsSorted :
      (cmp : A → A → Bool) (xs : List A)
      → ((x y z : A) → cmp x y ≡ true → cmp y z ≡ true → cmp x z ≡ true)
      → ((x y : A) → cmp x y ≡ false → cmp y x ≡ true)
      → IsSorted (λ x y. cmp y x ≡ true) (mlist_rsort cmp xs) × Perm (mlist_rsort cmp xs) xs
  unfolding mlist_rsort
  mlist_rsort-IsSorted cmp xs trans total = (
    sort_nodes-IsSorted cmp false (λ x y. cmp y x ≡ true) (λ x y z p q. trans z y x q p)
        (λ x y e. total x y (negated (cmp x y) e)) (λ x y e. negated_true (cmp x y) e) (length xs)
        xs (omega arith),
    sort_nodes-perm cmp false (length xs) xs,
  )
    where
      negated : (r : Bool) → not r ≡ true → r ≡ false
      negated true e = sym e
      negated false e = refl

      negated_true : (r : Bool) → not r ≡ false → r ≡ true
      negated_true true e = refl
      negated_true false e = sym e
