-- ===== src/Strings.antt =====
-- Shared/mstring.c: texts without the blanks around them. `none` is a read or write before the start of
-- the text, which `mstring_trim` does when it holds nothing but blanks.
mod Tests
use tp_2017_2c_yatpos.Base.{
  ℕ, ◌+◌, List, [], ◌∷◌, Bool, true, false, ◌&&◌, ◌||◌, Option, none, some, length, ltb, leb, ◌==◌,
  if◌then◌else◌,
}
use tp_2017_2c_yatpos.Serial.Words.{Bytes}
use tp_2017_2c_yatpos.Yfile.{Text}

-- `isspace` of libc
unfoldable pub isspace : ℕ → Bool
isspace c = c == b' ' || leb 9 c && leb c 13

-- `start`
unfoldable pub skip_blanks : Bytes → Bytes
unfolding isspace
skip_blanks [] = []
skip_blanks (c ∷ cs) = if isspace c then skip_blanks cs else c ∷ cs

-- `end`, over what follows the first byte.
unfoldable pub cut_blanks : Bytes → Bytes
unfolding isspace
cut_blanks [] = []
cut_blanks (c ∷ cs) =
    let rest = cut_blanks cs in if isspace c && length rest == 0 then [] else c ∷ rest

-- A single byte behind blanks is taken for the end of them, and goes too.
unfoldable pub mstring_trim : Bytes → Option Bytes
unfolding skip_blanks cut_blanks
mstring_trim [] = some []
mstring_trim (b ∷ bs) = elim (skip_blanks (b ∷ bs)) [
  | [] ↦ none
  | c ∷ cs ↦
      if length cs == 0 && ltb (length (c ∷ cs)) (length (b ∷ bs))
      then some []
      else some (c ∷ cut_blanks cs)
]

unfoldable pub mstring_isempty : Text → Option Bool
unfolding mstring_trim
mstring_isempty none = some true
mstring_isempty (some string) = elim (mstring_trim string) [
  | none ↦ none
  | some copy ↦ some (length copy == 0)
]
