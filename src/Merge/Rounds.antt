-- ===== src/Merge/Rounds.antt =====
-- The rounds of `path_merge` (Shared/path.c), and what comes out of them.
use tp_2017_2c_yatpos.Base.{
  ℕ, zero, suc, ◌<◌, ◌≡◌, ◌∙◌, refl, ap, sym, subst, List, [], ◌∷◌, ◌++◌, map, true, false, Option,
  none, some, arith, length, All, All-append, ◌==◌, append_assoc, append-nil,
}
use mathlib.Core.List.{Perm}
use mathlib.Core.List.Perm
use tp_2017_2c_yatpos.Serial.Words.{Bytes}
use tp_2017_2c_yatpos.Mlist.{mlist_filter}
use tp_2017_2c_yatpos.Mlist.Sort.{IsSorted, mlist_sort-IsSorted, All-mlist_sort, All-mlist_sort_inv}
use tp_2017_2c_yatpos.Mlist.Unique.{length-perm}
use tp_2017_2c_yatpos.Merge.{
  newline, file_writeline, mstring_asc, Cont, line_set, read_file, line_of, compare_lines,
  write_first, merge_loop,
}
use tp_2017_2c_yatpos.Merge.Lines.{file_lines, IsLine, write_lines, file_writeline-line}
use tp_2017_2c_yatpos.Merge.Pending.{
  InOrder, pending, left, ready, left-All, All-left, ready-left, ready-All, filter-left, filter-set,
  first_before, compare_trans, compare_total,
}

-- What comes out of the rounds.
pub record Merged (list : List Cont) (output : Bytes) (result : Option Bytes) : Type 1 where
  pub lines : List Bytes
  pub wrote : result ≡ some (output ++ write_lines lines)
  pub perm : Perm lines (left list)
  pub all : (P : Bytes → Type 0) → All P (left list) → All P lines
  pub sorted : All (λ c. InOrder (pending c)) list → InOrder lines

-- No source has a line: all is written.
nothing_left :
    (fuel : ℕ) (list : List Cont) (output : Bytes)
    → mlist_filter line_set (map read_file list) ≡ []
    → Merged list output (merge_loop (suc fuel) list output)
unfolding merge_loop write_lines
nothing_left fuel list output e =
    let done : left list ≡ [] = sym (filter-left list) ∙ ap left e in
    record {
      lines = [];
      wrote = rw (e, merge_loop) (ap some (sym (append-nil output)));
      perm = rw done Perm.rfl;
      all = λ P h. tt;
      sorted = λ h. tt;
    }

module _ (list : List Cont) (output l : Bytes) (file : Option Bytes) (cs : List Cont) where
  abbrev first : Cont
  first = record { file = file; line = some l }

  abbrev rest : List Cont
  rest = record { file = file; line = none } ∷ cs

  -- What a round writes stands before what the other rounds write.
  one_more :
      (result : Option Bytes)
      → IsLine l
      → ready list ≡ first ∷ cs
      → Merged rest (output ++ (l ++ newline ∷ [])) result
      → Merged list output result
  unfolding write_lines compare_lines line_of
  one_more result is_line now m =
      let here : Perm (l ∷ left rest) (left list) =
        subst (λ s. Perm (left s) (left list)) now (ready-left list) in
      record {
        lines = l ∷ m.lines;
        wrote =
            m.wrote
            ∙ ap some (
                append_assoc output (l ++ newline ∷ []) (write_lines m.lines)
                ∙ ap (◌++◌ output) (append_assoc l (newline ∷ []) (write_lines m.lines)));
        perm = Perm.trans (Perm.cons l m.perm) here;
        all = λ P h.
            let ((hl, hf), hcs) =
              subst (All (λ c. All P (pending c))) now
                (ready-All (All P) list (All-left P list h)) in
            (hl, m.all P (left-All P rest (hf, hcs)));
        sorted = λ h.
            let ((below, ordered), others) =
              subst (All (λ c. InOrder (pending c))) now (ready-All InOrder list h) in
            (
              m.all (λ x. mstring_asc l x ≡ true)
                  (All-append _ (file_lines file) (left cs) below
                    (first_before l cs before set others)),
              m.sorted (ordered, others),
            );
      }
    where
      before : All (λ c. mstring_asc l (line_of c) ≡ true) cs
      before =
          (subst (IsSorted (λ x y. compare_lines x y ≡ true)) now
            (mlist_sort-IsSorted compare_lines (mlist_filter line_set (map read_file list))
              compare_trans compare_total).0).0

      set : All (λ c. line_set c ≡ true) cs
      set =
          (subst (All (λ c. line_set c ≡ true)) now (
            All-mlist_sort (λ c. line_set c ≡ true) compare_lines
              (mlist_filter line_set (map read_file list)) (filter-set (map read_file list)))).1

  loop_step :
      (fuel : ℕ) (x : Cont) (xs : List Cont)
      → mlist_filter line_set (map read_file list) ≡ x ∷ xs
      → ready list ≡ first ∷ cs
      → merge_loop (suc fuel) list output ≡ merge_loop fuel rest (file_writeline output l)
  unfolding merge_loop write_first
  loop_step fuel x xs some_set now =
      let more : (length (mlist_filter line_set (map read_file list)) == 0) ≡ false =
        subst (λ f. (length f == 0) ≡ false) (sym some_set) (ground arith) in
      rw (more, merge_loop) (ap (λ s. write_first (merge_loop fuel) s output) now)

-- A round, whatever the sources hold.
round-Merged :
    (fuel : ℕ) (list : List Cont) (output : Bytes)
    → ((list : List Cont) (output : Bytes)
        → length (left list) < fuel
        → All IsLine (left list)
        → Merged list output (merge_loop fuel list output))
    → length (left list) < suc fuel
    → All IsLine (left list)
    → (f : List Cont) → mlist_filter line_set (map read_file list) ≡ f
    → (s : List Cont) → ready list ≡ s
    → All (λ c. line_set c ≡ true) s
    → Merged list output (merge_loop (suc fuel) list output)
unfolding line_set
round-Merged fuel list output again enough lines [] e s now set = nothing_left fuel list output e
round-Merged fuel list output again enough lines (x ∷ xs) e [] now set =
    let nothing =
      All-mlist_sort_inv (λ _. ⊥) compare_lines (mlist_filter line_set (map read_file list))
        (subst (All (λ _. ⊥)) (sym now) tt) in
    absurd (subst (All (λ _. ⊥)) e nothing).0
round-Merged fuel list output again enough lines (x ∷ xs) e (c ∷ cs) now (set, _) =
    by_line c.line now set
  where
    by_line :
        (line : Option Bytes)
        → ready list ≡ record { file = c.file; line = line } ∷ cs
        → line_set (record { file = c.file; line = line }) ≡ true
        → Merged list output (merge_loop (suc fuel) list output)
    by_line none now set = cc
    by_line (some l) now set =
        let ((hl, hf), hcs) =
          subst (All (λ c. All IsLine (pending c))) now
            (ready-All (All IsLine) list (All-left IsLine list lines)) in
        let same = length-perm (ready-left list) in
        let m =
          again (rest list output l c.file cs) (output ++ (l ++ newline ∷ []))
            (omega (arith, same, enough, ap (λ s. length (left s)) now))
            (left-All IsLine (rest list output l c.file cs) (hf, hcs)) in
        one_more list output l c.file cs (merge_loop (suc fuel) list output) hl now (
          subst (Merged (rest list output l c.file cs) (output ++ (l ++ newline ∷ [])))
            (ap (merge_loop fuel (rest list output l c.file cs))
                (sym (file_writeline-line output l hl))
              ∙ sym (loop_step list output l c.file cs fuel x xs e now))
            m)

-- The rounds end when there is one for each line, and one more.
pub merge_loop-Merged :
    (fuel : ℕ) (list : List Cont) (output : Bytes)
    → length (left list) < fuel
    → All IsLine (left list)
    → Merged list output (merge_loop fuel list output)
merge_loop-Merged zero list output enough lines = absurd (omega arith)
merge_loop-Merged (suc fuel) list output enough lines =
    round-Merged fuel list output (merge_loop-Merged fuel) enough lines
      (mlist_filter line_set (map read_file list)) refl (ready list) refl
      (All-mlist_sort (λ c. line_set c ≡ true) compare_lines
        (mlist_filter line_set (map read_file list)) (filter-set (map read_file list)))
