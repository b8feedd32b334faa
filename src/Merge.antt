-- ===== src/Merge.antt =====
-- Merging files by lines: `path_merge` of Shared/path.c, over the lines that Shared/file.c reads and
-- writes. A file is the bytes that are left to read; a source that cannot be opened (a directory) is
-- `none`, and reads as an empty one. `none` as a result is a read through NULL, a write outside the
-- memory that was allocated, or fuel that ran out.
mod Order
pub mod Lines
mod Pending
mod Rounds
pub mod Whole
mod Tests
use tp_2017_2c_yatpos.Base.{
  ℕ, zero, suc, ◌+◌, ◌*◌, List, [], ◌∷◌, ◌++◌, map, Bool, true, false, Option, none, some, length,
  ltb, ◌==◌, if◌then◌else◌,
}
use tp_2017_2c_yatpos.Serial.Words.{Bytes}
use tp_2017_2c_yatpos.Mlist.{mlist_filter, mlist_sort}

abbrev pub newline : ℕ
newline = 10

-- `getline` of libc: what comes up to the end of the line, with it, and what is left.
unfoldable pub split_line : Bytes → Bytes × Bytes
split_line [] = ([], [])
split_line (c ∷ cs) =
    let (line, rest) = split_line cs in if c == newline then (c ∷ [], cs) else (c ∷ line, rest)

-- What a `char *` shows of a buffer: the bytes before the first NUL.
unfoldable pub as_text : Bytes → Bytes
as_text [] = []
as_text (c ∷ cs) = if c == 0 then [] else c ∷ as_text cs

unfoldable pub get_line : Bytes → Option (Bytes × Bytes)
unfolding split_line as_text
get_line [] = none
get_line (c ∷ cs) = let (line, rest) = split_line (c ∷ cs) in some (as_text line, rest)

-- `*mstring_end(line) == '\n'`, which an empty line is not.
unfoldable pub ends_line : Bytes → Bool
ends_line [] = false
ends_line (c ∷ []) = c == newline
ends_line (c ∷ d ∷ cs) = ends_line (d ∷ cs)

unfoldable pub without_last : Bytes → Bytes
without_last [] = []
without_last (c ∷ []) = []
without_last (c ∷ d ∷ cs) = c ∷ without_last (d ∷ cs)

unfoldable pub file_readline : Option Bytes → Option (Bytes × Option Bytes)
unfolding get_line ends_line without_last
file_readline none = none
file_readline (some file) = elim (get_line file) [
  | none ↦ none
  | some (line, rest) ↦ some (if ends_line line then without_last line else line, some rest)
]

unfoldable pub file_writeline : Bytes → Bytes → Bytes
unfolding ends_line
file_writeline file line = file ++ (line ++ (if ends_line line then [] else newline ∷ []))

-- `strcmp(str1, str2) <= 0`
unfoldable pub mstring_asc : Bytes → Bytes → Bool
mstring_asc [] ys = true
mstring_asc (x ∷ xs) [] = false
mstring_asc (x ∷ xs) (y ∷ ys) = if x == y then mstring_asc xs ys else ltb x y

-- `t_cont`: a source and the line of it that waits to be written.
pub record Cont : Type 0 where
  pub file : Option Bytes
  pub line : Option Bytes

abbrev pub new_cont : Option Bytes → Cont
new_cont source = record { file = source; line = none }

-- A pointer has four bytes, and a `t_cont` is two of them.
abbrev pub pointer_size : ℕ
pointer_size = 4

-- `malloc(sizeof(cont))` asks for the size of the pointer `cont`. `usable n` is how many bytes may be
-- written where `malloc(n)` points to, which may be more than `n`.
unfoldable pub map_cont : (usable : ℕ → ℕ) → Option Bytes → Option Cont
map_cont usable source =
    if ltb (usable pointer_size) (2 * pointer_size) then none else some (new_cont source)

-- `mlist_map(sources, map_cont)`
unfoldable pub map_conts : (usable : ℕ → ℕ) → List (Option Bytes) → Option (List Cont)
unfolding map_cont
map_conts usable [] = some []
map_conts usable (source ∷ sources) = elim (map_cont usable source) [
  | none ↦ none
  | some cont ↦ elim (map_conts usable sources) [ none ↦ none | some conts ↦ some (cont ∷ conts) ]
]

unfoldable pub line_set : Cont → Bool
line_set cont = elim cont.line [ none ↦ false | some l ↦ true ]

-- A file at its end is read again with the same result.
unfoldable pub read_file : Cont → Cont
unfolding file_readline
read_file cont = elim cont.line [
  | some l ↦ cont
  | none ↦ elim (file_readline cont.file) [
    | none ↦ cont
    | some (l, rest) ↦ record { file = rest; line = some l }
  ]
]

-- The line of a source that has one.
unfoldable pub line_of : Cont → Bytes
line_of cont = elim cont.line [ none ↦ [] | some l ↦ l ]

unfoldable pub compare_lines : Cont → Cont → Bool
unfolding mstring_asc line_of
compare_lines cont1 cont2 = mstring_asc (line_of cont1) (line_of cont2)

-- The end of a round: the line of the first source goes out.
unfoldable pub write_first :
    (List Cont → Bytes → Option Bytes) → List Cont → (output : Bytes) → Option Bytes
unfolding file_writeline
write_first again [] output = none
write_first again (cont ∷ list) output = elim cont.line [
  | none ↦ none
  | some line ↦ again (record cont { line = none } ∷ list) (file_writeline output line)
]

-- `while(true)`
unfoldable pub merge_loop : (fuel : ℕ) → List Cont → (output : Bytes) → Option Bytes
unfolding read_file line_set compare_lines mlist_filter mlist_sort write_first
merge_loop zero list output = none
merge_loop (suc fuel) list output =
    let set = mlist_filter line_set (map read_file list) in
    elim (length set == 0) [
      | true ↦ some output
      | false ↦ write_first (merge_loop fuel) (mlist_sort compare_lines set) output
    ]

-- The bytes of all sources, of which each line takes one at least.
unfoldable pub all_bytes : List (Option Bytes) → ℕ
all_bytes [] = 0
all_bytes (none ∷ sources) = all_bytes sources
all_bytes (some file ∷ sources) = length file + all_bytes sources

-- The content of the target.
unfoldable pub path_merge : (usable : ℕ → ℕ) → List (Option Bytes) → Option Bytes
unfolding map_conts read_file merge_loop all_bytes
path_merge usable sources = elim (map_conts usable sources) [
  | none ↦ none
  | some conts ↦ merge_loop (suc (all_bytes sources)) (map read_file conts) []
]
