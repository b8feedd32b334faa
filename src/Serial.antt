-- ===== src/Serial.antt =====
-- Shared/serial.c: a `t_serial` is its bytes (`size` is their number), and a format letter with
-- its variadic argument is a `Value`. The letters `f` and `d`, which no call uses, are left out.
-- `long` and `size_t` have 32 bits: the header of Shared/protocol.c is read as 12 bytes only then.
mod Tests
pub mod RoundTrip
pub mod Room
pub mod Words
use Words.{
  Bytes, packi16, packi32, packi64, unpacki16, unpacki32, unpacki64, unpacku16, unpacku32,
  unpacku64,
}
use tp_2017_2c_yatpos.Base.{
  ℕ, zero, suc, ◌+◌, ◌*◌, ◌%◌, ◌^◌, true, false, List, [], ◌∷◌, ◌++◌, Option, none, some, leb,
  length, take, drop, eq_bytes, if◌then◌else◌,
}
use tp_2017_2c_yatpos.Base.Int.{ℤ, to_unsigned, re_sign}

-- An argument of `serial_add`, by its format letter: c C h H i I l L s x. A string is its
-- content without the NUL, and `none` is a NULL pointer.
pub data Value : Type 0 where
  schar short int llong : ℤ → Value
  uchar ushort uint ullong : ℕ → Value
  str : Option Bytes → Value
  blob : Bytes → Value

pub data Format : Type 0 where
  c C h H i I l L s x : Format

unfoldable pub format : Value → Format
format (schar z) = c
format (uchar n) = C
format (short z) = h
format (ushort n) = H
format (int z) = i
format (uint n) = I
format (llong z) = l
format (ullong n) = L
format (str o) = s
format (blob b) = x

-- "__NULL__"
abbrev pub null_string : Bytes
null_string = b'_' ∷ b'_' ∷ b'N' ∷ b'U' ∷ b'L' ∷ b'L' ∷ b'_' ∷ b'_' ∷ []

-- The bytes that one argument writes at `buf`; their number is the source's `len`.
unfoldable pub encode : Value → Bytes
unfolding packi16 packi32 packi64 to_unsigned
encode (schar z) = to_unsigned 256 z ∷ []
encode (uchar n) = n % 256 ∷ []
encode (short z) = packi16 (to_unsigned (2 ^ 16) z)
encode (ushort n) = packi16 n
encode (int z) = packi32 (to_unsigned (2 ^ 32) z)
encode (uint n) = packi32 n
encode (llong z) = packi64 (to_unsigned (2 ^ 64) z)
encode (ullong n) = packi64 n
encode (str none) = null_string ++ 0 ∷ []
encode (str (some t)) = t ++ 0 ∷ []
encode (blob b) = packi32 (length b) ++ b

-- `buffer` up to `buf`, and the bytes allocated for it.
pub record Buffer : Type 0 where
  pub written : Bytes
  pub cap : ℕ

-- `while(size + len > cap) cap *= 2;`, where `cap` is a `size_t`.
pub grow : (fuel need cap : ℕ) → ℕ
grow zero need cap = cap
grow (suc fuel) need cap = elim (leb need cap) [
  | true ↦ cap
  | false ↦ grow fuel need (cap * 2 % 2 ^ 32)
]

-- `resize_buffer()` for `len` more bytes; `size + len` is a `size_t`. The number of bytes needed is
-- fuel enough up to 2 ^ 31; past that `cap` becomes 0 and the loop does not end.
pub resize_buffer : Buffer → ℕ → Buffer
unfolding grow
resize_buffer b len =
    let need = (length b.written + len) % 2 ^ 32 in
    if leb need b.cap then b else record b { cap = grow need need b.cap }

-- One case of the switch: make room for `len` bytes, a `size_t`, write, advance.
pub write_value : Buffer → Value → Buffer
unfolding resize_buffer encode
write_value b v =
    let room = resize_buffer b (length (encode v) % 2 ^ 32) in
    record room { written = room.written ++ encode v }

pub write_values : Buffer → List Value → Buffer
unfolding write_value
write_values b [] = b
write_values b (v ∷ vs) = write_values (write_value b v) vs

-- `add_variadic`, called by `serial_add` and, on an empty serial, by `serial_pack`.
unfoldable pub serial_add : Bytes → List Value → Bytes
unfolding write_values
serial_add serial vs = serial ++ (write_values (record { written = []; cap = 256 }) vs).written

unfoldable pub serial_pack : List Value → Bytes
unfolding serial_add
serial_pack vs = serial_add [] vs

-- The content of the C string at `buf`, and what follows its NUL; `none` if there is no NUL.
pub split_nul : Bytes → Option (Bytes × Bytes)
split_nul [] = none
split_nul (zero ∷ rest) = some ([], rest)
split_nul (suc n ∷ rest) = elim (split_nul rest) [
  | none ↦ none
  | some (t, after) ↦ some (suc n ∷ t, after)
]

read_str : Bytes → Value
read_str t = if eq_bytes t null_string then str none else str (some t)

-- A read past the end of the data, which C does not define, is `none`.
abbrev read1 : (ℕ → Value) → Bytes → Option (Value × Bytes)
read1 f [] = none
read1 f (b0 ∷ rest) = some (f b0, rest)

abbrev read2 : (ℕ → ℕ → Value) → Bytes → Option (Value × Bytes)
read2 f (b0 ∷ b1 ∷ rest) = some (f b0 b1, rest)
read2 f _ = none

abbrev read4 : (ℕ → ℕ → ℕ → ℕ → Value) → Bytes → Option (Value × Bytes)
read4 f (b0 ∷ b1 ∷ b2 ∷ b3 ∷ rest) = some (f b0 b1 b2 b3, rest)
read4 f _ = none

abbrev read8 : (ℕ → ℕ → ℕ → ℕ → ℕ → ℕ → ℕ → ℕ → Value) → Bytes → Option (Value × Bytes)
read8 f (b0 ∷ b1 ∷ b2 ∷ b3 ∷ b4 ∷ b5 ∷ b6 ∷ b7 ∷ rest) = some (f b0 b1 b2 b3 b4 b5 b6 b7, rest)
read8 f _ = none

read_blob : Bytes → Option (Value × Bytes)
unfolding unpacki32 re_sign to_unsigned
read_blob (b0 ∷ b1 ∷ b2 ∷ b3 ∷ rest) =
    let size = to_unsigned (2 ^ 32) (unpacki32 b0 b1 b2 b3) in
    if leb size (length rest) then some (blob (take size rest), drop size rest) else none
read_blob _ = none

-- One case of the switch of `remove_variadic`.
unfoldable pub decode : Format → Bytes → Option (Value × Bytes)
unfolding read_str read_blob split_nul re_sign unpacki16 unpacki32 unpacki64 unpacku16 unpacku32
    unpacku64
decode c bs = read1 (λ b. schar (re_sign 256 b)) bs
decode C bs = read1 uchar bs
decode h bs = read2 (λ b0 b1. short (unpacki16 b0 b1)) bs
decode H bs = read2 (λ b0 b1. ushort (unpacku16 b0 b1)) bs
decode i bs = read4 (λ b0 b1 b2 b3. int (unpacki32 b0 b1 b2 b3)) bs
decode I bs = read4 (λ b0 b1 b2 b3. uint (unpacku32 b0 b1 b2 b3)) bs
decode l bs = read8 (λ b0 b1 b2 b3 b4 b5 b6 b7. llong (unpacki64 b0 b1 b2 b3 b4 b5 b6 b7)) bs
decode L bs = read8 (λ b0 b1 b2 b3 b4 b5 b6 b7. ullong (unpacku64 b0 b1 b2 b3 b4 b5 b6 b7)) bs
decode s bs = elim (split_nul bs) [ none ↦ none | some (t, rest) ↦ some (read_str t, rest) ]
decode x bs = read_blob bs

pub decode_all : List Format → Bytes → Option (List Value × Bytes)
unfolding decode
decode_all [] bs = some ([], bs)
decode_all (f ∷ fs) bs = elim (decode f bs) [
  | none ↦ none
  | some (v, rest) ↦ elim (decode_all fs rest) [
    | none ↦ none
    | some (vs, after) ↦ some (v ∷ vs, after)
  ]
]

-- What a call of `serial_remove` does: nothing, on an empty serial; or it fills the arguments and
-- takes their bytes off the front; or it reads past the end.
pub data Removal : Type 0 where
  untouched : Removal
  removed : List Value → Bytes → Removal
  overrun : Removal

unfoldable pub serial_remove : Bytes → List Format → Removal
unfolding decode_all
serial_remove [] fs = untouched
serial_remove (b ∷ bs) fs = elim (decode_all fs (b ∷ bs)) [
  | none ↦ overrun
  | some (vs, rest) ↦ removed vs rest
]
