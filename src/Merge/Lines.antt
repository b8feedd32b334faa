-- ===== src/Merge/Lines.antt =====
-- The lines of a file as Shared/file.c reads them, one `file_readline` after another, and writes them.
use tp_2017_2c_yatpos.Base.{
  ℕ, zero, suc, ◌<◌, ◌≤◌, ◌≡◌, ◌∙◌, refl, ap, sym, subst, List, [], ◌∷◌, ◌++◌, false, Option, none,
  some, some_inj, arith, length, All, ◌==◌, ==_iff, if◌then◌else◌, Bool-cases, Option-cases, inl,
  inr,
}
use tp_2017_2c_yatpos.Serial.Words.{Bytes}
use tp_2017_2c_yatpos.Merge.{
  newline, split_line, as_text, get_line, ends_line, without_last, file_readline, file_writeline,
}

unfoldable pub size : Option Bytes → ℕ
size none = 0
size (some file) = length file

-- What reading to the end gives; the bytes of the file are fuel enough.
unfoldable pub read_all : (fuel : ℕ) → Option Bytes → List Bytes
unfolding file_readline
read_all zero file = []
read_all (suc fuel) file = elim (file_readline file) [
  | none ↦ []
  | some (line, rest) ↦ line ∷ read_all fuel rest
]

unfoldable pub file_lines : Option Bytes → List Bytes
unfolding read_all size
file_lines file = read_all (size file) file

-- Every byte of a line that was read is neither the end of a line nor NUL.
abbrev pub IsLine : Bytes → Type 0
IsLine line = All (λ c. ((c == newline) ≡ false) × ((c == 0) ≡ false)) line

abbrev chop : Bytes → Bytes
chop line = if ends_line line then without_last line else line

chop-cons : (c : ℕ) (t : Bytes) → (c == newline) ≡ false → chop (c ∷ t) ≡ c ∷ chop t
unfolding ends_line without_last
chop-cons c [] e = rw e refl
chop-cons c (d ∷ t) e = elim (Bool-cases (ends_line (d ∷ t))) [
  | inl f ↦ rw f refl
  | inr f ↦ rw f refl
]

split_line-shorter : (b : Bytes) → length (split_line b).1 ≤ length b
unfolding split_line
split_line-shorter [] = omega arith
split_line-shorter (c ∷ cs) = ground (arith, split_line-shorter cs)

split_line-lt : (c : ℕ) (cs : Bytes) → length (split_line (c ∷ cs)).1 < length (c ∷ cs)
unfolding split_line
split_line-lt c cs = ground (arith, split_line-shorter cs)

chop-newline : IsLine (chop (as_text (newline ∷ [])))
unfolding as_text ends_line without_last
chop-newline = tt

chop-nothing : IsLine (chop [])
unfolding ends_line
chop-nothing = tt

chop-IsLine : (b : Bytes) → IsLine (chop (as_text (split_line b).0))
unfolding split_line as_text
chop-IsLine [] = chop-nothing
chop-IsLine (c ∷ cs) = elim (Bool-cases (c == newline)) [
  | inl e ↦
      rw e
        (subst (λ x. IsLine (chop (as_text (x ∷ [])))) (sym ((==_iff c newline).0 e)) chop-newline)
  | inr e ↦ rw e (elim (Bool-cases (c == 0)) [
    | inl z ↦ rw z chop-nothing
    | inr z ↦
        rw z
          (subst IsLine (sym (chop-cons c (as_text (split_line cs).0) e)) ((e, z), chop-IsLine cs))
  ])
]

-- What one reading gives.
pub record Reads (file : Option Bytes) (line : Bytes) (rest : Option Bytes) : Type 0 where
  pub shorter : size rest < size file
  pub is_line : IsLine line

pub file_readline-Reads :
    (file : Option Bytes) (line : Bytes) (rest : Option Bytes)
    → file_readline file ≡ some (line, rest)
    → Reads file line rest
unfolding file_readline get_line size
file_readline-Reads none line rest e = cc
file_readline-Reads (some []) line rest e = cc
file_readline-Reads (some (c ∷ cs)) line rest e =
    let p = some_inj e in
    record {
      shorter =
          subst (λ (r : Option Bytes). size r < suc (length cs))
            (ap (λ (q : Bytes × Option Bytes). q.1) p) (split_line-lt c cs);
      is_line = subst IsLine (ap (λ (q : Bytes × Option Bytes). q.0) p) (chop-IsLine (c ∷ cs));
    }

read_all-none : (n : ℕ) (file : Option Bytes) → file_readline file ≡ none → read_all n file ≡ []
unfolding read_all
read_all-none zero file e = refl
read_all-none (suc n) file e = rw (e, read_all) refl

read_all-some :
    (n : ℕ) (file rest : Option Bytes) (line : Bytes)
    → file_readline file ≡ some (line, rest)
    → read_all (suc n) file ≡ line ∷ read_all n rest
unfolding read_all
read_all-some n file rest line e = rw (e, read_all) refl

-- Fuel beyond the bytes changes nothing.
read_all-fuel :
    (n m : ℕ) (file : Option Bytes)
    → size file ≤ n
    → size file ≤ m
    → read_all n file ≡ read_all m file
unfolding read_all
read_all-fuel zero zero file p q = refl
read_all-fuel zero (suc m) file p q = elim (Option-cases (file_readline file)) [
  | inl e ↦ sym (read_all-none (suc m) file e)
  | inr ((line, rest), e) ↦ absurd (omega (arith, (file_readline-Reads file line rest e).shorter))
]
read_all-fuel (suc n) zero file p q = elim (Option-cases (file_readline file)) [
  | inl e ↦ read_all-none (suc n) file e
  | inr ((line, rest), e) ↦ absurd (omega (arith, (file_readline-Reads file line rest e).shorter))
]
read_all-fuel (suc n) (suc m) file p q = elim (Option-cases (file_readline file)) [
  | inl e ↦ read_all-none (suc n) file e ∙ sym (read_all-none (suc m) file e)
  | inr ((line, rest), e) ↦
      let less = (file_readline-Reads file line rest e).shorter in
      read_all-some n file rest line e
      ∙ ap (◌∷◌ line) (read_all-fuel n m rest (omega (arith, less, p)) (omega (arith, less, q)))
      ∙ sym (read_all-some m file rest line e)
]

pub file_lines-none : (file : Option Bytes) → file_readline file ≡ none → file_lines file ≡ []
unfolding file_lines
file_lines-none file e = read_all-none (size file) file e

pub file_lines-some :
    (file rest : Option Bytes) (line : Bytes)
    → file_readline file ≡ some (line, rest)
    → file_lines file ≡ line ∷ file_lines rest
unfolding file_lines
file_lines-some file rest line e =
    let less = (file_readline-Reads file line rest e).shorter in
    read_all-fuel (size file) (suc (size file)) file (omega arith) (omega arith)
    ∙ read_all-some (size file) file rest line e
    ∙ ap (◌∷◌ line) (read_all-fuel (size file) (size rest) rest (omega (arith, less)) (omega arith))

read_all-IsLine : (n : ℕ) (file : Option Bytes) → All IsLine (read_all n file)
unfolding read_all
read_all-IsLine zero file = tt
read_all-IsLine (suc n) file = elim (Option-cases (file_readline file)) [
  | inl e ↦ rw (e, read_all) tt
  | inr ((line, rest), e) ↦
      rw (e, read_all) ((file_readline-Reads file line rest e).is_line, read_all-IsLine n rest)
]

pub file_lines-IsLine : (file : Option Bytes) → All IsLine (file_lines file)
unfolding file_lines
file_lines-IsLine file = read_all-IsLine (size file) file

length-read_all : (n : ℕ) (file : Option Bytes) → length (read_all n file) ≤ n
unfolding read_all
length-read_all zero file = omega arith
length-read_all (suc n) file = elim (Option-cases (file_readline file)) [
  | inl e ↦ rw (e, read_all) (omega arith)
  | inr ((line, rest), e) ↦ rw (e, read_all) (omega (arith, length-read_all n rest))
]

pub length-file_lines : (file : Option Bytes) → length (file_lines file) ≤ size file
unfolding file_lines
length-file_lines file = length-read_all (size file) file

-- Lines one after another, each with its end.
unfoldable pub write_lines : List Bytes → Bytes
write_lines [] = []
write_lines (l ∷ ls) = l ++ newline ∷ write_lines ls

IsLine-ends_line : (l : Bytes) → IsLine l → ends_line l ≡ false
unfolding ends_line
IsLine-ends_line [] h = refl
IsLine-ends_line (c ∷ []) ((e, z), h) = e
IsLine-ends_line (c ∷ d ∷ cs) (e, h) = IsLine-ends_line (d ∷ cs) h

pub file_writeline-line :
    (out l : Bytes) → IsLine l → file_writeline out l ≡ out ++ (l ++ newline ∷ [])
unfolding file_writeline
file_writeline-line out l h = rw (IsLine-ends_line l h) refl

split_line-line :
    (l rest : Bytes) → IsLine l → split_line (l ++ newline ∷ rest) ≡ (l ++ newline ∷ [], rest)
unfolding split_line
split_line-line [] rest h = refl
split_line-line (c ∷ cs) rest ((e, z), h) = rw (e, split_line-line cs rest h) refl

as_text-line : (l : Bytes) → IsLine l → as_text (l ++ newline ∷ []) ≡ l ++ newline ∷ []
unfolding as_text
as_text-line [] h = refl
as_text-line (c ∷ cs) ((e, z), h) = rw (z, as_text-line cs h) refl

chop-line : (l : Bytes) → IsLine l → chop (l ++ newline ∷ []) ≡ l
unfolding ends_line without_last
chop-line [] h = refl
chop-line (c ∷ cs) ((e, z), h) = chop-cons c (cs ++ newline ∷ []) e ∙ ap (◌∷◌ c) (chop-line cs h)

some_byte : (l rest : Bytes) → (c : ℕ) × (cs : Bytes) × (l ++ newline ∷ rest ≡ c ∷ cs)
some_byte [] rest = (newline, rest, refl)
some_byte (c ∷ cs) rest = (c, cs ++ newline ∷ rest, refl)

get_line-some :
    (b : Bytes) (c : ℕ) (cs : Bytes)
    → b ≡ c ∷ cs
    → get_line b ≡ some (as_text (split_line b).0, (split_line b).1)
unfolding get_line
get_line-some b c cs e =
    subst (λ b. get_line b ≡ some (as_text (split_line b).0, (split_line b).1)) (sym e) refl

get_line-line :
    (l rest : Bytes) → IsLine l → get_line (l ++ newline ∷ rest) ≡ some (l ++ newline ∷ [], rest)
unfolding get_line
get_line-line l rest h =
    let (c, cs, e) = some_byte l rest in
    get_line-some (l ++ newline ∷ rest) c cs e
    ∙ ap (λ (p : Bytes × Bytes). some (as_text p.0, p.1)) (split_line-line l rest h)
    ∙ ap (λ t. some (t, rest)) (as_text-line l h)

file_readline-line :
    (l rest : Bytes) → IsLine l → file_readline (some (l ++ newline ∷ rest)) ≡ some (l, some rest)
unfolding file_readline
file_readline-line l rest h =
    rw (get_line-line l rest h, file_readline) (ap (λ t. some (t, some rest)) (chop-line l h))

nothing_left : file_readline (some []) ≡ none
unfolding file_readline get_line
nothing_left = refl

-- The lines that were written are read again.
pub file_lines-write_lines :
    (ls : List Bytes) → All IsLine ls → file_lines (some (write_lines ls)) ≡ ls
unfolding write_lines file_readline
file_lines-write_lines [] h = file_lines-none (some []) nothing_left
file_lines-write_lines (l ∷ ls) (h, hs) =
    file_lines-some (some (l ++ newline ∷ write_lines ls)) (some (write_lines ls)) l
      (file_readline-line l (write_lines ls) h)
    ∙ ap (◌∷◌ l) (file_lines-write_lines ls hs)
