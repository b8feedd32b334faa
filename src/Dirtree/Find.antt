-- ===== src/Dirtree/Find.antt =====
-- Searching in the table of FileSystem/src/dirtree.c while directories are added.
use tp_2017_2c_yatpos.Base.{
  ℕ, zero, suc, ◌+◌, ◌≤◌, ◌<◌, ◌≡◌, ◌∙◌, refl, ap, sym, inl, inr, List, [], ◌∷◌, Bool, true, false,
  not, ◌&&◌, none, some, length, get_elem?, set, arith, lt→ltb, Bool-cases, Option-cases, some_inj,
  ap2, eq_bytes, eq_bytes→eq, eq_bytes_refl,
}
use tp_2017_2c_yatpos.Base.Int.{ℤ, pos, eq_ℤ, eq_ℤ→eq, eq_ℤ_refl}
use tp_2017_2c_yatpos.Serial.Words.{Bytes}
use tp_2017_2c_yatpos.Mlist.{mlist_index, mlist_count}
use tp_2017_2c_yatpos.Mlist.Search.{mlist_index-find, index_here, index_later, index_none}
use tp_2017_2c_yatpos.Dirtree.{Directory, dir_exists, find_dir_by_name, add_directory}

module _ {A : Type 0} (cond : A → Bool) where
  index_next :
      (x : A) (xs : List A) {i : ℕ}
      → cond x ≡ false
      → mlist_index cond xs ≡ some i
      → mlist_index cond (x ∷ xs) ≡ some (suc i)
  unfolding mlist_index
  index_next x xs e at = rw (e, mlist_index) (rw (at, mlist_index) refl)

  -- A search that an entry does not satisfy, before and after it is written.
  index-set_other :
      (xs : List A) (i j : ℕ) {old : A} (new : A)
      → get_elem? xs i ≡ some old
      → cond old ≡ false
      → cond new ≡ false
      → mlist_index cond xs ≡ some j
      → mlist_index cond (set xs i new) ≡ some j
  index-set_other [] i j new at o n e = e
  index-set_other (x ∷ xs) zero j {old = old} new at o n e =
      let fails : cond x ≡ false = ap cond (some_inj at) ∙ o in
      let (k, later, same) = index_later cond x xs fails e in
      index_next new xs n later ∙ ap some (sym same)
  index-set_other (x ∷ xs) (suc i) j new at o n e = elim (Bool-cases (cond x)) [
    | inl holds ↦ index_here cond x (set xs i new) holds ∙ sym (index_here cond x xs holds) ∙ e
    | inr fails ↦
        let (k, later, same) = index_later cond x xs fails e in
        index_next x (set xs i new) fails (index-set_other xs i k new at o n later)
        ∙ ap some (sym same)
  ]

  -- A search that nothing satisfied finds the entry that is written.
  index-set_self :
      (xs : List A) (i : ℕ) {old : A} (new : A)
      → get_elem? xs i ≡ some old
      → mlist_index cond xs ≡ none
      → cond new ≡ true
      → mlist_index cond (set xs i new) ≡ some i
  index-set_self [] i new at e n = ground arith
  index-set_self (x ∷ xs) zero new at e n = index_here cond new xs n
  index-set_self (x ∷ xs) (suc i) new at e n = elim (Bool-cases (cond x)) [
    | inl holds ↦ absurd (ground (arith, sym (index_here cond x xs holds) ∙ e))
    | inr fails ↦
        index_next x (set xs i new) fails
          (index-set_self xs i new at (index_none cond x xs fails e) n)
  ]

-- The condition of `find_dir_by_name`.
abbrev pub is_dir : Bytes → ℤ → Directory → Bool
is_dir name parent d = dir_exists d && (eq_bytes d.name name && eq_ℤ d.parent parent)

is_dir_lem :
    (n m : Bytes) (p q : ℤ) (d : Directory)
    → is_dir n p d ≡ true
    → d.name ≡ m
    → d.parent ≡ q
    → (n ≡ m) × (p ≡ q)
is_dir_lem n m p q d h e f =
    (sym (eq_bytes→eq d.name n (named _ _ _ h)) ∙ e, sym (eq_ℤ→eq d.parent p (under _ _ _ h)) ∙ f)
  where
    named : (a b c : Bool) → (a && (b && c)) ≡ true → b ≡ true
    named a b c h = ground arith

    under : (a b c : Bool) → (a && (b && c)) ≡ true → c ≡ true
    under a b c h = ground arith

-- What is found in a table is found in the other one, at the same place, and the directories of the
-- first are there as they were.
pub record Extends (dirs dirs' : List Directory) : Type 0 where
  pub found :
      (n : Bytes) (p : ℤ) (j : ℕ)
      → find_dir_by_name n p dirs ≡ some j
      → find_dir_by_name n p dirs' ≡ some j
  pub kept :
      (j : ℕ) (d : Directory)
      → get_elem? dirs j ≡ some d
      → dir_exists d ≡ true
      → get_elem? dirs' j ≡ some d

get_elem?-set_free :
    (dirs : List Directory) (i j : ℕ) {old d : Directory} (new : Directory)
    → get_elem? dirs i ≡ some old
    → dir_exists old ≡ false
    → get_elem? dirs j ≡ some d
    → dir_exists d ≡ true
    → get_elem? (set dirs i new) j ≡ some d
get_elem?-set_free [] i j new a b e h = e
get_elem?-set_free (x ∷ dirs) zero zero new a b e h =
    absurd (ground (arith, sym (ap dir_exists (some_inj a)) ∙ ap dir_exists (some_inj e), b, h))
get_elem?-set_free (x ∷ dirs) zero (suc j) new a b e h = e
get_elem?-set_free (x ∷ dirs) (suc i) zero new a b e h = e
get_elem?-set_free (x ∷ dirs) (suc i) (suc j) new a b e h = get_elem?-set_free dirs i j new a b e h

-- The number of entries that are free.
unfoldable pub free : List Directory → ℕ
unfolding mlist_count
free dirs = mlist_count (λ d. not (dir_exists d)) dirs

free-set :
    (dirs : List Directory) (i : ℕ) {old : Directory} (new : Directory)
    → get_elem? dirs i ≡ some old
    → free dirs ≤ 1 + free (set dirs i new)
unfolding free mlist_count
free-set [] i new e = ground arith
free-set (d ∷ dirs) zero new e = ground arith
free-set (d ∷ dirs) (suc i) new e = ground (arith, free-set dirs i new e)

free-index :
    (dirs : List Directory)
    → 0 < free dirs
    → (i : ℕ) × (mlist_index (λ d. not (dir_exists d)) dirs ≡ some i)
unfolding free mlist_count
free-index [] h = absurd (omega arith)
free-index (d ∷ dirs) h = elim (Bool-cases (dir_exists d)) [
  | inl used ↦
      let (i, at) = free-index dirs (ground (arith, h, used)) in
      (suc i, index_next (λ d. not (dir_exists d)) d dirs (ap not used) at)
  | inr is_free ↦ (0, index_here (λ d. not (dir_exists d)) d dirs (ap not is_free))
]

itself :
    (name : Bytes) (k : ℕ) → is_dir name (pos k) (record { name = name; parent = pos k }) ≡ true
unfolding dir_exists
itself name k = ground (arith, eq_bytes_refl name, eq_ℤ_refl (pos k))

unused : (n : Bytes) (p : ℤ) (d : Directory) → not (dir_exists d) ≡ true → is_dir n p d ≡ false
unused n p d h = ground arith

negated : (b : Bool) → not b ≡ true → b ≡ false
negated b h = ground arith

-- Adding a directory under a parent, with a free entry and a name that fits: it returns where the
-- directory is found afterwards, and every directory of before is found where it was.
pub add_directory-Extends :
    (name : Bytes) (k : ℕ) (dirs : List Directory)
    → 0 < free dirs
    → length name < 255
    → (i : ℕ) × (dirs' : List Directory) × (add_directory name (pos k) dirs ≡ some (i, dirs'))
      × (find_dir_by_name name (pos k) dirs' ≡ some i)
      × Extends dirs dirs'
      × (free dirs ≤ 1 + free dirs')
unfolding add_directory find_dir_by_name
add_directory-Extends name k dirs room fits =
    elim (Option-cases (mlist_index (is_dir name (pos k)) dirs)) [
      | inr (i, found) ↦ (
        i,
        dirs,
        rw (found, add_directory) refl,
        found,
        record { found = λ n p j e. e; kept = λ j d e h. e },
        omega arith,
      )
      | inl absent ↦
          let (i, at) = free-index dirs room in
          let (old, there, is_free, _, _) = mlist_index-find (λ d. not (dir_exists d)) dirs i at in
          let new : Directory = record { name = name; parent = pos k } in
          (
            i,
            set dirs i new,
            rw (absent, add_directory) (rw at (rw (lt→ltb (length name) 255 fits) refl)),
            index-set_self (is_dir name (pos k)) dirs i new there absent (itself name k),
            record {
              found = λ n p j e. elim (Bool-cases (is_dir n p new)) [
                | inl same ↦
                    let (en, ep) = is_dir_lem n name p (pos k) new same refl refl in
                    absurd (
                      ground
                        (arith, sym e ∙ ap2 (λ a b. mlist_index (is_dir a b) dirs) en ep ∙ absent))
                | inr other ↦
                    index-set_other (is_dir n p) dirs i j new there (unused n p old is_free) other e
              ];
              kept = λ j d e h.
                  get_elem?-set_free dirs i j new there (negated (dir_exists old) is_free) e h;
            },
            free-set dirs i new there,
          )
    ]
