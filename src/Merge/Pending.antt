-- ===== src/Merge/Pending.antt =====
-- What a round of `path_merge` (Shared/path.c) has to write, and leaves.
use tp_2017_2c_yatpos.Base.{
  ◌≡◌, refl, sym, subst, List, [], ◌∷◌, ◌++◌, map, true, false, Option, none, some, arith, All,
  All-append, All-mono, Bool-cases, Option-cases, inl, inr, append_assoc,
}
use mathlib.Core.Logic.{∥∥₁_elim}
use mathlib.Core.List.{Perm, Permᴰ, Perm-prop, perm_append_comm}
use mathlib.Core.List.Perm
use tp_2017_2c_yatpos.Serial.Words.{Bytes}
use tp_2017_2c_yatpos.Mlist.{mlist_filter, mlist_sort}
use tp_2017_2c_yatpos.Mlist.Sort.{IsSorted, mlist_sort-IsSorted, All-mlist_sort, All-append_inv}
use tp_2017_2c_yatpos.Merge.{
  file_readline, mstring_asc, Cont, line_set, read_file, line_of, compare_lines,
}
use tp_2017_2c_yatpos.Merge.Order.{mstring_asc_trans, mstring_asc_total}
use tp_2017_2c_yatpos.Merge.Lines.{file_lines, file_lines-none, file_lines-some}

abbrev pub InOrder : List Bytes → Type 0
InOrder ls = IsSorted (λ x y. mstring_asc x y ≡ true) ls

-- The lines of a source that are still to be written.
abbrev pub pending : Cont → List Bytes
pending c = elim c.line [ none ↦ file_lines c.file | some l ↦ l ∷ file_lines c.file ]

abbrev pub left : List Cont → List Bytes
left [] = []
left (c ∷ cs) = pending c ++ left cs

pub read_file-pending : (c : Cont) → pending (read_file c) ≡ pending c
unfolding read_file
read_file-pending c = by_line c.line
  where
    by_line :
        (line : Option Bytes)
        → pending (read_file (record { file = c.file; line = line }))
          ≡ pending (record { file = c.file; line = line })
    by_line (some l) = refl
    by_line none = elim (Option-cases (file_readline c.file)) [
      | inl e ↦ rw (e, read_file) refl
      | inr ((l, rest), e) ↦ rw (e, read_file) (sym (file_lines-some c.file rest l e))
    ]

-- A source without a line after it was read is at its end.
unset-pending : (c : Cont) → line_set (read_file c) ≡ false → pending c ≡ []
unfolding read_file line_set
unset-pending c = by_line c.line
  where
    by_line :
        (line : Option Bytes)
        → line_set (read_file (record { file = c.file; line = line })) ≡ false
        → pending (record { file = c.file; line = line }) ≡ []
    by_line (some l) e = cc
    by_line none e = elim (Option-cases (file_readline c.file)) [
      | inl f ↦ file_lines-none c.file f
      | inr ((l, rest), f) ↦ absurd (ground (arith, f, e))
    ]

pub filter-left : (list : List Cont) → left (mlist_filter line_set (map read_file list)) ≡ left list
unfolding mlist_filter
filter-left [] = refl
filter-left (c ∷ list) = elim (Bool-cases (line_set (read_file c))) [
  | inl e ↦ rw e (rw (read_file-pending c, filter-left list) refl)
  | inr e ↦ rw e (rw (unset-pending c e) (filter-left list))
]

pub filter-set : (list : List Cont) → All (λ c. line_set c ≡ true) (mlist_filter line_set list)
unfolding mlist_filter
filter-set [] = tt
filter-set (c ∷ list) = elim (Bool-cases (line_set c)) [
  | inl e ↦ rw e (e, filter-set list)
  | inr e ↦ rw e (filter-set list)
]

All-filter_read {κ} :
    (P : List Bytes → Type κ) (list : List Cont)
    → All (λ c. P (pending c)) list
    → All (λ c. P (pending c)) (mlist_filter line_set (map read_file list))
unfolding mlist_filter
All-filter_read P [] h = tt
All-filter_read P (c ∷ list) (h, hs) = elim (Bool-cases (line_set (read_file c))) [
  | inl e ↦ rw e (subst P (sym (read_file-pending c)) h, All-filter_read P list hs)
  | inr e ↦ rw e (All-filter_read P list hs)
]

append_swap : (xs ys zs : List Bytes) → Perm (xs ++ (ys ++ zs)) (ys ++ (xs ++ zs))
append_swap xs ys zs =
    subst (λ l. Perm l (ys ++ (xs ++ zs))) (append_assoc xs ys zs)
      (subst (Perm ((xs ++ ys) ++ zs)) (append_assoc ys xs zs)
        (Perm.append_right zs (perm_append_comm xs ys)))

left-permᴰ : {xs ys : List Cont} → Permᴰ xs ys → Perm (left xs) (left ys)
left-permᴰ Permᴰ.nil = Perm.rfl
left-permᴰ (Permᴰ.cons {a} {b} {l₁} {l₂} e p) =
    subst (λ b. Perm (left (a ∷ l₁)) (pending b ++ left l₂)) e
      (Perm.append_left (pending a) (left-permᴰ p))
left-permᴰ (Permᴰ.swap {a} {b} {a'} {b'} {l} e f) =
    subst (λ b'. Perm (left (a ∷ b ∷ l)) (left (a' ∷ b' ∷ l))) e
      (subst (λ a'. Perm (left (a ∷ b ∷ l)) (left (a' ∷ a ∷ l))) f
        (append_swap (pending a) (pending b) (left l)))
left-permᴰ (Permᴰ.trans p q) = Perm.trans (left-permᴰ p) (left-permᴰ q)

pub left-perm : {xs ys : List Cont} → Perm xs ys → Perm (left xs) (left ys)
left-perm p = ∥∥₁_elim p Perm-prop left-permᴰ

pub All-left {κ} :
    (P : Bytes → Type κ) (list : List Cont) → All P (left list) → All (λ c. All P (pending c)) list
All-left P [] h = tt
All-left P (c ∷ list) h =
    let (a, b) = All-append_inv P (pending c) (left list) h in (a, All-left P list b)

pub left-All {κ} :
    (P : Bytes → Type κ) (list : List Cont) → All (λ c. All P (pending c)) list → All P (left list)
left-All P [] h = tt
left-All P (c ∷ list) (h, hs) = All-append P (pending c) (left list) h (left-All P list hs)

-- What a round has in the order of its lines.
abbrev pub ready : List Cont → List Cont
ready list = mlist_sort compare_lines (mlist_filter line_set (map read_file list))

pub compare_trans :
    (x y z : Cont) → compare_lines x y ≡ true → compare_lines y z ≡ true → compare_lines x z ≡ true
unfolding compare_lines
compare_trans x y z p q = mstring_asc_trans (line_of x) (line_of y) (line_of z) p q

pub compare_total : (x y : Cont) → compare_lines x y ≡ false → compare_lines y x ≡ true
unfolding compare_lines
compare_total x y p = mstring_asc_total (line_of x) (line_of y) p

pub ready-left : (list : List Cont) → Perm (left (ready list)) (left list)
ready-left list =
    let sorted =
      mlist_sort-IsSorted compare_lines (mlist_filter line_set (map read_file list)) compare_trans
        compare_total in
    subst (Perm (left (ready list))) (filter-left list) (left-perm sorted.1)

pub ready-All {κ} :
    (P : List Bytes → Type κ) (list : List Cont)
    → All (λ c. P (pending c)) list
    → All (λ c. P (pending c)) (ready list)
ready-All P list h =
    All-mlist_sort (λ c. P (pending c)) compare_lines (mlist_filter line_set (map read_file list))
      (All-filter_read P list h)

-- The first line of all is before every line that is left.
pub first_before :
    (l : Bytes) (cs : List Cont)
    → All (λ c. mstring_asc l (line_of c) ≡ true) cs
    → All (λ c. line_set c ≡ true) cs
    → All (λ c. InOrder (pending c)) cs
    → All (λ x. mstring_asc l x ≡ true) (left cs)
unfolding line_of line_set
first_before l [] before set sorted = tt
first_before l (c ∷ cs) (b, before) (s, set) (o, sorted) =
    All-append _ (pending c) (left cs) (by_line c.line b s o) (first_before l cs before set sorted)
  where
    by_line :
        (line : Option Bytes)
        → mstring_asc l (line_of (record { file = c.file; line = line })) ≡ true
        → line_set (record { file = c.file; line = line }) ≡ true
        → InOrder (pending (record { file = c.file; line = line }))
        → All (λ x. mstring_asc l x ≡ true) (pending (record { file = c.file; line = line }))
    by_line none b s o = cc
    by_line (some m) b s (o, os) =
        (b, All-mono _ _ (file_lines c.file) (λ x h. mstring_asc_trans l m x b h) o)
