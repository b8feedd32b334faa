-- ===== src/Mlist/Search.antt =====
-- Searching in a list of Shared/mlist.c: by a condition and by an index.
use tp_2017_2c_yatpos.Base.{
  ℕ, zero, suc, ◌+◌, ◌-◌, ◌/◌, ◌≤◌, ◌<◌, ◌≡◌, ◌∙◌, refl, ap, sym, List, [], ◌∷◌, ◌++◌, Bool, true,
  false, not, Option, none, some, length, get_elem?, arith, All, All-mono, Bool-cases, Option-cases,
  inl, inr, leb, ◌↔◌, length-append, take, map,
}
use tp_2017_2c_yatpos.Mlist.{
  mlist_append, mlist_index, mlist_find, mlist_filter, mlist_any, mlist_all, mlist_reverse,
  mlist_get,
}

module _ {ℓ} {A : Type ℓ} where
  length-mlist_reverse : (xs : List A) → length (mlist_reverse xs) ≡ length xs
  unfolding mlist_reverse mlist_append
  length-mlist_reverse [] = refl
  length-mlist_reverse (x ∷ xs) =
      omega (arith, length-append (mlist_reverse xs) (x ∷ []), length-mlist_reverse xs)

  elem-append_before :
      (xs ys : List A) (i : ℕ) → i < length xs → get_elem? (xs ++ ys) i ≡ get_elem? xs i
  elem-append_before [] ys i h = absurd (omega arith)
  elem-append_before (x ∷ xs) ys zero h = refl
  elem-append_before (x ∷ xs) ys (suc i) h = elem-append_before xs ys i (omega arith)

  elem-append_last : (xs : List A) (x : A) → get_elem? (xs ++ x ∷ []) (length xs) ≡ some x
  elem-append_last [] x = refl
  elem-append_last (y ∷ xs) x = elem-append_last xs x

  elem-mlist_reverse :
      (xs : List A) (i j : ℕ)
      → i + suc j ≡ length xs
      → get_elem? (mlist_reverse xs) j ≡ get_elem? xs i
  unfolding mlist_reverse mlist_append
  elem-mlist_reverse [] i j h = absurd (omega arith)
  elem-mlist_reverse (x ∷ xs) zero j h =
      ap (get_elem? (mlist_reverse xs ++ x ∷ [])) (omega (arith, length-mlist_reverse xs))
      ∙ elem-append_last (mlist_reverse xs) x
  elem-mlist_reverse (x ∷ xs) (suc i) j h =
      elem-append_before (mlist_reverse xs) (x ∷ []) j (omega (arith, length-mlist_reverse xs))
      ∙ elem-mlist_reverse xs i j (omega arith)

  elem-outside : (xs : List A) (i : ℕ) → length xs ≤ i → get_elem? xs i ≡ none
  elem-outside [] i h = refl
  elem-outside (x ∷ xs) zero h = absurd (omega arith)
  elem-outside (x ∷ xs) (suc i) h = elem-outside xs i (omega arith)

  -- Whichever end `get_node` starts from in a list whose two orders agree.
  pub mlist_get-elem : (xs : List A) (i : ℕ) → mlist_get xs (mlist_reverse xs) i ≡ get_elem? xs i
  unfolding mlist_get
  mlist_get-elem xs i = elim (Bool-cases (leb (length xs) i)) [
    | inl out ↦ rw out (sym (elem-outside xs i (ground arith)))
    | inr inside ↦ elim (Bool-cases (leb i (length xs / 2))) [
      | inl front ↦ rw (inside, front) refl
      | inr back ↦ rw (inside, back) (elem-mlist_reverse xs i (length xs - 1 - i) (ground arith))
    ]
  ]

  pub index_here :
      (cond : A → Bool) (x : A) (xs : List A) → cond x ≡ true → mlist_index cond (x ∷ xs) ≡ some 0
  unfolding mlist_index
  index_here cond x xs e = rw (e, mlist_index) refl

  pub index_later :
      (cond : A → Bool) (x : A) (xs : List A) {i : ℕ}
      → cond x ≡ false
      → mlist_index cond (x ∷ xs) ≡ some i
      → (j : ℕ) × (mlist_index cond xs ≡ some j) × (i ≡ suc j)
  unfolding mlist_index
  index_later cond x xs no_x e = elim (Option-cases (mlist_index cond xs)) [
    | inl none_left ↦ absurd (ground arith)
    | inr (j, at) ↦ (j, at, ground arith)
  ]

  pub index_none :
      (cond : A → Bool) (x : A) (xs : List A)
      → cond x ≡ false
      → mlist_index cond (x ∷ xs) ≡ none
      → mlist_index cond xs ≡ none
  unfolding mlist_index
  index_none cond x xs fails e = elim (Option-cases (mlist_index cond xs)) [
    | inl nothing ↦ nothing
    | inr (j, at) ↦ absurd (ground arith)
  ]

  pub find_here :
      (cond : A → Bool) (x : A) (xs : List A) → cond x ≡ true → mlist_find cond (x ∷ xs) ≡ some x
  unfolding mlist_find
  find_here cond x xs e = rw (e, mlist_find) refl

  pub find_later :
      (cond : A → Bool) (x : A) (xs : List A)
      → cond x ≡ false
      → mlist_find cond (x ∷ xs) ≡ mlist_find cond xs
  unfolding mlist_find
  find_later cond x xs e = rw (e, mlist_find) refl

  -- The index that `mlist_index` finds holds the first element with the condition, the one that
  -- `mlist_find` finds; the elements before it do not have the condition.
  pub mlist_index-find :
      (cond : A → Bool) (xs : List A) (i : ℕ)
      → mlist_index cond xs ≡ some i
      → (x : A) × (get_elem? xs i ≡ some x)
        × (cond x ≡ true)
        × (mlist_find cond xs ≡ some x)
        × (mlist_filter cond (take i xs) ≡ [])
  unfolding mlist_filter mlist_index
  mlist_index-find cond [] i e = ground arith
  mlist_index-find cond (x ∷ xs) zero e = elim (Bool-cases (cond x)) [
    | inl yes_x ↦ (x, refl, yes_x, find_here cond x xs yes_x, refl)
    | inr no_x ↦ let (j, at, less) = index_later cond x xs no_x e in absurd (omega arith)
  ]
  mlist_index-find cond (x ∷ xs) (suc i) e = elim (Bool-cases (cond x)) [
    | inl yes_x ↦ absurd (ground (arith, index_here cond x xs yes_x))
    | inr no_x ↦
        let (j, at, less) = index_later cond x xs no_x e in
        let (y, found, holds, first, before) =
          mlist_index-find cond xs i (at ∙ ap some (omega arith)) in
        (y, found, holds, find_later cond x xs no_x ∙ first, rw no_x before)
  ]

  pub mlist_filter-All :
      (cond : A → Bool) (xs : List A) → All (λ x. cond x ≡ true) (mlist_filter cond xs)
  unfolding mlist_filter
  mlist_filter-All cond [] = tt
  mlist_filter-All cond (x ∷ xs) = elim (Bool-cases (cond x)) [
    | inl e ↦ rw e (e, mlist_filter-All cond xs)
    | inr e ↦ rw e (mlist_filter-All cond xs)
  ]

  pub All-mlist_filter {κ} :
      (P : A → Type κ) (cond : A → Bool) (xs : List A) → All P xs → All P (mlist_filter cond xs)
  unfolding mlist_filter
  All-mlist_filter P cond [] h = tt
  All-mlist_filter P cond (x ∷ xs) (h, hs) = elim (Bool-cases (cond x)) [
    | inl e ↦ rw e (h, All-mlist_filter P cond xs hs)
    | inr e ↦ rw e (All-mlist_filter P cond xs hs)
  ]

  find_none :
      (cond : A → Bool) (xs : List A) → All (λ x. cond x ≡ false) xs → mlist_find cond xs ≡ none
  find_none cond [] h = unfold mlist_find in refl
  find_none cond (x ∷ xs) (h, hs) = find_later cond x xs h ∙ find_none cond xs hs

  all_positive :
      (cond : A → Bool) (xs : List A)
      → mlist_find (λ x. not (cond x)) xs ≡ none
      → All (λ x. cond x ≡ true) xs
  all_positive cond [] e = tt
  all_positive cond (x ∷ xs) e = elim (Bool-cases (cond x)) [
    | inl holds ↦
        (holds, all_positive cond xs (sym (find_later (λ x. not (cond x)) x xs (ap not holds)) ∙ e))
    | inr fails ↦
        absurd (ground (arith, sym (find_here (λ x. not (cond x)) x xs (ap not fails)) ∙ e))
  ]

  pub mlist_all-All :
      (cond : A → Bool) (xs : List A) → (mlist_all cond xs ≡ true) ↔ All (λ x. cond x ≡ true) xs
  unfolding mlist_all mlist_any
  mlist_all-All cond xs = (
    λ e. elim (Option-cases (mlist_find (λ x. not (cond x)) xs)) [
      | inl nothing ↦ all_positive cond xs nothing
      | inr (x, found) ↦ absurd (ground (arith, e, found))
    ],
    λ h.
        let nothing =
          find_none (λ x. not (cond x)) xs
            (All-mono (λ x. cond x ≡ true) (λ x. not (cond x) ≡ false) xs (λ x e. ap not e) h) in
        ap (λ (o : Option A). not (elim o [ none ↦ false | some _ ↦ true ])) nothing,
  )

-- A search by a field sees that field only.
pub mlist_index-map :
    {A B : Type 0} (f : A → B) (cond : B → Bool) (xs : List A)
    → mlist_index (λ x. cond (f x)) xs ≡ mlist_index cond (map f xs)
unfolding mlist_index
mlist_index-map f cond [] = refl
mlist_index-map f cond (x ∷ xs) =
    ap
      (λ o. elim (cond (f x)) [
        | true ↦ some 0
        | false ↦ elim o [ none ↦ none | some i ↦ some (suc i) ]
      ])
      (mlist_index-map f cond xs)
