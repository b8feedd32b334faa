-- ===== src/Merge/Whole.antt =====
-- What `path_merge` (Shared/path.c) makes of its sources.
use tp_2017_2c_yatpos.Base.{
  ℕ, suc, ◌*◌, ◌≤◌, ◌≡◌, ◌∙◌, refl, ap, ap2, sym, subst, List, [], ◌∷◌, ◌++◌, map, true, Option,
  none, some, arith, length, length-append, All, All-append, Bool-cases, inl, inr,
}
use mathlib.Core.List.{Perm}
use mathlib.Core.List.Perm
use tp_2017_2c_yatpos.Serial.Words.{Bytes}
use tp_2017_2c_yatpos.Mlist.{mlist_sort}
use tp_2017_2c_yatpos.Mlist.Sort.{mlist_sort-IsSorted}
use tp_2017_2c_yatpos.Mlist.Unique.{IsSorted-unique}
use tp_2017_2c_yatpos.Merge.{
  mstring_asc, new_cont, pointer_size, map_cont, map_conts, read_file, all_bytes, path_merge,
}
use tp_2017_2c_yatpos.Merge.Order.{mstring_asc_trans, mstring_asc_total, mstring_asc_antisymm}
use tp_2017_2c_yatpos.Merge.Lines.{
  size, file_lines, IsLine, file_lines-IsLine, length-file_lines, write_lines,
  file_lines-write_lines,
}
use tp_2017_2c_yatpos.Merge.Pending.{InOrder, pending, left, read_file-pending}
use tp_2017_2c_yatpos.Merge.Rounds.{Merged, merge_loop-Merged}

-- The lines of all sources, one source after another.
unfoldable pub all_lines : List (Option Bytes) → List Bytes
all_lines [] = []
all_lines (source ∷ sources) = file_lines source ++ all_lines sources

start-left :
    (sources : List (Option Bytes))
    → left (map read_file (map new_cont sources)) ≡ all_lines sources
unfolding all_lines
start-left [] = refl
start-left (source ∷ sources) =
    ap2 ◌++◌ (read_file-pending (record { file = source; line = none })) (start-left sources)

all_lines-IsLine : (sources : List (Option Bytes)) → All IsLine (all_lines sources)
unfolding all_lines
all_lines-IsLine [] = tt
all_lines-IsLine (source ∷ sources) =
    All-append IsLine (file_lines source) (all_lines sources) (file_lines-IsLine source)
      (all_lines-IsLine sources)

length-all_lines : (sources : List (Option Bytes)) → length (all_lines sources) ≤ all_bytes sources
unfolding all_lines all_bytes size
length-all_lines [] = omega arith
length-all_lines (none ∷ sources) = omega (
  arith,
  length-append (file_lines none) (all_lines sources),
  length-file_lines none,
  length-all_lines sources,
)
length-all_lines (some file ∷ sources) = omega (
  arith,
  length-append (file_lines (some file)) (all_lines sources),
  length-file_lines (some file),
  length-all_lines sources,
)

start-InOrder :
    (sources : List (Option Bytes))
    → All (λ s. InOrder (file_lines s)) sources
    → All (λ c. InOrder (pending c)) (map read_file (map new_cont sources))
start-InOrder [] h = tt
start-InOrder (source ∷ sources) (h, hs) = (
  subst InOrder (sym (read_file-pending (record { file = source; line = none }))) h,
  start-InOrder sources hs,
)

map_conts-new_cont :
    (usable : ℕ → ℕ) (sources : List (Option Bytes))
    → 2 * pointer_size ≤ usable pointer_size
    → map_conts usable sources ≡ some (map new_cont sources)
unfolding map_conts
map_conts-new_cont usable [] h = refl
map_conts-new_cont usable (source ∷ sources) h =
    rw (enough, map_conts) (rw (map_conts-new_cont usable sources h))
  where
    enough : map_cont usable source ≡ some (new_cont source)
    enough = unfold map_cont in ground arith

merged :
    (usable : ℕ → ℕ) (sources : List (Option Bytes))
    → 2 * pointer_size ≤ usable pointer_size
    → Merged (map read_file (map new_cont sources)) [] (path_merge usable sources)
unfolding path_merge
merged usable sources room =
    rw (map_conts-new_cont usable sources room, path_merge)
      (merge_loop-Merged (suc (all_bytes sources)) (map read_file (map new_cont sources)) []
        (omega (arith, ap length (start-left sources), length-all_lines sources))
        (subst (All IsLine) (sym (start-left sources)) (all_lines-IsLine sources)))

module _ (usable : ℕ → ℕ) (sources : List (Option Bytes))
    (room : 2 * pointer_size ≤ usable pointer_size) where
  lines-read :
      file_lines (some (write_lines (merged usable sources room).lines))
      ≡ (merged usable sources room).lines
  lines-read = file_lines-write_lines (merged usable sources room).lines (
      (merged usable sources room).all IsLine
        (subst (All IsLine) (sym (start-left sources)) (all_lines-IsLine sources)))

  -- Where an allocation of the size of a pointer has room for two of them: `path_merge` ends, whatever
  -- the sources hold, and the target has the lines of all of them, each as often as they have it.
  pub path_merge-perm :
      (target : Bytes) × (path_merge usable sources ≡ some target)
      × Perm (file_lines (some target)) (all_lines sources)
  path_merge-perm =
      let m = merged usable sources room in
      (
        write_lines m.lines,
        m.wrote,
        subst (λ ls. Perm ls (all_lines sources)) (sym lines-read)
            (subst (Perm m.lines) (start-left sources) m.perm),
      )

  -- Sources whose lines are in the order of `strcmp` each, where an allocation of the size of a pointer
  -- has room for two of them: `path_merge` ends, and the lines of the target are those that sorting the
  -- lines of all sources gives.
  pub path_merge-sort :
      All (λ s. InOrder (file_lines s)) sources
      → (target : Bytes) × (path_merge usable sources ≡ some target)
        × (file_lines (some target) ≡ mlist_sort mstring_asc (all_lines sources))
  path_merge-sort h =
      let m = merged usable sources room in
      let s =
        mlist_sort-IsSorted mstring_asc (all_lines sources) mstring_asc_trans mstring_asc_total in
      (
        write_lines m.lines,
        m.wrote,
        lines-read
            ∙ IsSorted-unique mstring_asc mstring_asc_antisymm itself m.lines
                (mlist_sort mstring_asc (all_lines sources)) (m.sorted (start-InOrder sources h))
                s.0 (Perm.trans (subst (Perm m.lines) (start-left sources) m.perm) (Perm.symm s.1)),
      )
    where
      itself : (x : Bytes) → mstring_asc x x ≡ true
      itself x = elim (Bool-cases (mstring_asc x x)) [ inl e ↦ e | inr e ↦ mstring_asc_total x x e ]
