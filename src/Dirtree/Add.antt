-- ===== src/Dirtree/Add.antt =====
-- A path that `dirtree_add` of FileSystem/src/dirtree.c adds is found by `dirtree_find`.
use tp_2017_2c_yatpos.Base.{
  ℕ, zero, suc, ap, sym, ◌++◌, take, ◌-◌, ◌≤◌, ◌<◌, ◌≡◌, ◌∙◌, refl, List, [], ◌∷◌, true, false,
  Option, none, some, All, length, get_elem?, drop, arith, eq_bytes,
}
use tp_2017_2c_yatpos.Base.Int.{ℤ, pos}
use tp_2017_2c_yatpos.Serial.Words.{Bytes}
use tp_2017_2c_yatpos.Dirtree.{
  bar, pref, path_create, Directory, dir_exists, find_dir_by_name, add_directory,
  create_normal_path, names_from, add_names, find_names, dirtree_add, dirtree_find,
}
use tp_2017_2c_yatpos.Dirtree.Find.{Extends, free, add_directory-Extends}

abbrev pub Fits : Bytes → Type 0
Fits name = length name < 255

Extends-trans : (a b c : List Directory) → Extends a b → Extends b c → Extends a c
Extends-trans a b c f g = record {
  found = λ n p j e. g.found n p j (f.found n p j e);
  kept = λ j d e h. g.kept j d (f.kept j d e h) h;
}

find_names_step :
    (name : Bytes) (names : List Bytes) (par : ℤ) (last : Option ℕ) (dirs : List Directory) (i : ℕ)
    → find_dir_by_name name par dirs ≡ some i
    → find_names (name ∷ names) par last dirs ≡ find_names names (pos i) (some i) dirs
unfolding find_names
find_names_step name names par last dirs i e = rw (e, find_names) refl

add_names_step :
    (name : Bytes) (names : List Bytes) (par_name : Bytes) (par_parent : ℤ) (last : Option ℕ)
    (dirs dirs' : List Directory) (k i : ℕ)
    → find_dir_by_name par_name par_parent dirs ≡ some k
    → add_directory name (pos k) dirs ≡ some (i, dirs')
    → add_names (name ∷ names) par_name par_parent last dirs
      ≡ add_names names name (pos k) (some i) dirs'
unfolding add_names
add_names_step name names par_name par_parent last dirs dirs' k i e f =
    rw (e, add_names) (rw (f, add_names) refl)

-- From a parent that is found: all names are added, and found from the parent on.
add_names-find :
    (names : List Bytes) (par_name : Bytes) (par_parent : ℤ) (k : ℕ) (last : Option ℕ)
    (dirs : List Directory)
    → find_dir_by_name par_name par_parent dirs ≡ some k
    → All Fits names
    → length names ≤ free dirs
    → (last' : Option ℕ) × (dirs' : List Directory) × (add_names names par_name par_parent last dirs
        ≡ some (last', dirs'))
      × (find_names names (pos k) last dirs' ≡ last')
      × Extends dirs dirs'
add_names-find [] par_name par_parent k last dirs e h room = (
  last,
  dirs,
  unfold add_names in refl,
  unfold find_names in refl,
  record { found = λ n p j e. e; kept = λ j d e h. e },
)
add_names-find (name ∷ names) par_name par_parent k last dirs e (fits, h) room =
    let (i, dirs1, added, there, more, cost) =
      add_directory-Extends name k dirs (omega arith) fits in
    let (last', dirs2, ran, found, still) =
      add_names-find names name (pos k) i (some i) dirs1 there h (omega (arith, cost)) in
    (
      last',
      dirs2,
      add_names_step name names par_name par_parent last dirs dirs1 k i e added ∙ ran,
      find_names_step name names (pos k) last dirs2 i (still.found name (pos k) i there) ∙ found,
      Extends-trans dirs dirs1 dirs2 more still,
    )

take_all : (n : ℕ) (xs : Bytes) → length xs ≤ n → take n xs ≡ xs
take_all zero [] h = refl
take_all zero (x ∷ xs) h = absurd (omega arith)
take_all (suc n) [] h = refl
take_all (suc n) (x ∷ xs) h = ap (◌∷◌ x) (take_all n xs (omega arith))

-- A path of yamafs that begins at the root, with less than MSTRING_MAXSIZE bytes, stays as it is.
path_create-root :
    (rest : Bytes) → length rest ≤ 1015 → path_create (pref ++ bar ∷ rest) ≡ pref ++ bar ∷ rest
unfolding path_create
path_create-root rest h =
    let inside : take 1022 rest ≡ rest = take_all 1022 rest (omega arith) in
    let whole : take 1015 rest ≡ rest = take_all 1015 rest h in
    ap (λ t. pref ++ bar ∷ take 1015 t) inside ∙ ap (λ t. pref ++ bar ∷ t) whole

-- The path of yamafs: "yamafs:/" and what follows.
abbrev pub from_root : Bytes → Bytes
from_root rest = pref ++ bar ∷ rest

path_create-whole :
    (path rest : Bytes) → path ≡ from_root rest → length rest ≤ 1015 → path_create path ≡ path
path_create-whole path rest e h = ap path_create e ∙ path_create-root rest h ∙ sym e

-- The search when the path is normal after `path_create`.
find_normal :
    (path npath : Bytes) (root : Directory) (dirs : List Directory)
    → create_normal_path (path_create path) ≡ some npath
    → get_elem? dirs 0 ≡ some root
    → dirtree_find path dirs
      ≡ find_names (root.name ∷ names_from [] (drop 1 npath)) root.parent none dirs
unfolding dirtree_find
find_normal path npath root dirs normal at =
    ap
      (λ (r : Option Bytes). elim r as (λ x. Option ℕ) [
        | none ↦ none
        | some n ↦ elim (get_elem? dirs 0) [
          | none ↦ none
          | some top ↦ find_names (top.name ∷ names_from [] (drop 1 n)) top.parent none dirs
        ]
      ])
      normal
    ∙ rw at refl

module _ (path rest npath name : Bytes) (names : List Bytes) (dirs : List Directory)
    (last root : Directory) where
  -- In a table whose first entry is the root, the first of its name and parent: a path "yamafs:/..." of
  -- less than 1024 bytes that is not the root's, whose names fit an entry, with a free entry for each
  -- of them and the last entry of the table free. `dirtree_add` returns what `dirtree_find` finds by
  -- the same path afterwards, and every directory of before is found where it was, unchanged.
  pub dirtree_find-add :
      path ≡ from_root rest
      → length rest ≤ 1015
      → create_normal_path path ≡ some npath
      → names_from [] (drop 1 npath) ≡ name ∷ names
      → get_elem? dirs (length dirs - 1) ≡ some last
      → dir_exists last ≡ false
      → get_elem? dirs 0 ≡ some root
      → dir_exists root ≡ true
      → find_dir_by_name root.name root.parent dirs ≡ some 0
      → eq_bytes path root.name ≡ false
      → All Fits (name ∷ names)
      → length (name ∷ names) ≤ free dirs
      → (found : Option ℕ) × (dirs' : List Directory) × (dirtree_add path dirs
          ≡ some (found, dirs'))
        × (dirtree_find path dirs' ≡ found)
        × Extends dirs dirs'
  unfolding dirtree_add add_names
  dirtree_find-add whole short normal split last_at last_free root_at root_used root_found other
        fits room =
      let (found, dirs', ran, at, more) =
        add_names-find (name ∷ names) root.name root.parent 0 (some 0) dirs root_found fits room in
      let kept : path_create path ≡ path = path_create-whole path rest whole short in
      let step =
        find_names_step root.name (name ∷ names) root.parent none dirs' 0
          (more.found root.name root.parent 0 root_found) in
      (
        found,
        dirs',
        rw (last_at, dirtree_add) (rw (last_free, root_at, other, normal, split) ran),
        find_normal path npath root dirs' (ap create_normal_path kept ∙ normal)
              (more.kept 0 root root_at root_used)
            ∙ rw split (step ∙ at),
        more,
      )
