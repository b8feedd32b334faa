-- ===== src/Serial/RoundTrip.antt =====
-- `serial_remove` takes back what `serial_add` put in: Shared/serial.c as a queue of values.
use tp_2017_2c_yatpos.Base.{
  ℕ, zero, suc, ◌<◌, ◌^◌, ◌/◌, ◌%◌, leb, if◌then◌else◌, ◌≡◌, ◌≢◌, refl, sym, ap, ◌∙◌, ◌++◌, List,
  [], ◌∷◌, map, Option, none, some, true, arith, length, length-append, append_assoc, append-nil,
  All, take, drop, take-append_length, drop-append_length, eq_bytes, eq_bytes→eq, Bool-cases, inl,
  inr,
}
use tp_2017_2c_yatpos.Base.Int.{
  IsSigned, to_unsigned, re_sign, re_sign-to_unsigned, to_unsigned-re_sign,
}
use tp_2017_2c_yatpos.Serial.Words.{
  Bytes, unpacki32, unpacku32, unpacku16-packi16, unpacku32-packi32, unpacku64-packi64,
  unpacki16-packi16, unpacki32-packi32, unpacki64-packi64,
}
use tp_2017_2c_yatpos.Serial.{
  Value, schar, uchar, short, ushort, int, uint, llong, ullong, str, blob, Format, format,
  null_string, encode, decode, decode_all, split_nul, read_str, removed, serial_add, serial_pack,
  serial_remove,
}
use tp_2017_2c_yatpos.Serial.Room.{encode_all, write_values-encode_all}

-- A content of C strings: no byte is NUL.
abbrev pub IsText : Bytes → Type 0
IsText t = All (λ b. 0 < b) t

-- The value is one of its C type; a string is not the one that stands for NULL.
abbrev pub IsValue : Value → Type 0
IsValue (schar z) = IsSigned (2 ^ 7) z
IsValue (uchar n) = n < 2 ^ 8
IsValue (short z) = IsSigned (2 ^ 15) z
IsValue (ushort n) = n < 2 ^ 16
IsValue (int z) = IsSigned (2 ^ 31) z
IsValue (uint n) = n < 2 ^ 32
IsValue (llong z) = IsSigned (2 ^ 63) z
IsValue (ullong n) = n < 2 ^ 64
IsValue (str none) = Unit
IsValue (str (some t)) = IsText t × (t ≢ null_string)
IsValue (blob b) = length b < 2 ^ 32

split_nul-append : (t rest : Bytes) → IsText t → split_nul (t ++ 0 ∷ rest) ≡ some (t, rest)
unfolding split_nul
split_nul-append [] rest h = refl
split_nul-append (zero ∷ t) rest h = absurd (omega arith)
split_nul-append (suc n ∷ t) rest h = rw (split_nul-append t rest h.1) refl

abbrev with_rest : Value → Bytes → Option (Value × Bytes)
with_rest v rest = some (v, rest)

some_value {ℓ} :
    {A : Type ℓ} (f : A → Value) {a b : A} (rest : Bytes)
    → a ≡ b
    → with_rest (f a) rest ≡ with_rest (f b) rest
some_value f rest e = ap (λ a. with_rest (f a) rest) e

read_str-text : (t : Bytes) → t ≢ null_string → read_str t ≡ str (some t)
unfolding read_str
read_str-text t h = elim (Bool-cases (eq_bytes t null_string)) [
  | inl e ↦ absurd (h (eq_bytes→eq t null_string e))
  | inr e ↦ rw e
]

-- The length in front of a blob, as `remove_variadic` reads it.
blob_size :
    (w : ℕ)
    → w < 2 ^ 32
    → to_unsigned
        (2 ^ 32)
        (unpacki32 (w / 2 ^ 24 % 256) (w / 2 ^ 16 % 256) (w / 2 ^ 8 % 256) (w % 256))
      ≡ w
unfolding unpacki32 unpacku32
blob_size w h =
    ap (λ t. to_unsigned (2 ^ 32) (re_sign (2 ^ 32) t)) (unpacku32-packi32 w h)
    ∙ to_unsigned-re_sign (2 ^ 32) w h

take_blob :
    (b rest : Bytes) (size : ℕ)
    → size ≡ length b
    → (if leb size (length (b ++ rest))
        then with_rest (blob (take size (b ++ rest))) (drop size (b ++ rest))
        else none)
      ≡ with_rest (blob b) rest
take_blob b rest size e = rw (e, take-append_length b rest, drop-append_length b rest, fits)
  where
    fits : leb (length b) (length (b ++ rest)) ≡ true
    fits = ground (arith, length-append b rest)

-- One value: what `serial_add` writes for it, `serial_remove` reads, and no byte more.
pub decode-encode :
    (v : Value) (rest : Bytes) → IsValue v → decode (format v) (encode v ++ rest) ≡ some (v, rest)
unfolding decode encode format
decode-encode (schar z) rest h =
    some_value schar rest (re_sign-to_unsigned (2 ^ 7) z (omega arith) h)
decode-encode (uchar n) rest h = some_value uchar rest (omega arith)
decode-encode (short z) rest h = some_value short rest (unpacki16-packi16 z h)
decode-encode (ushort n) rest h = some_value ushort rest (unpacku16-packi16 n h)
decode-encode (int z) rest h = some_value int rest (unpacki32-packi32 z h)
decode-encode (uint n) rest h = some_value uint rest (unpacku32-packi32 n h)
decode-encode (llong z) rest h = some_value llong rest (unpacki64-packi64 z h)
decode-encode (ullong n) rest h = some_value ullong rest (unpacku64-packi64 n h)
decode-encode (str none) rest h = refl
decode-encode (str (some t)) rest h =
    rw (append_assoc t (0 ∷ []) rest, split_nul-append t rest h.0, decode, read_str-text t h.1)
decode-encode (blob b) rest h = take_blob b rest _ (blob_size (length b) h)

decode_all-encode_all :
    (vs : List Value) (rest : Bytes)
    → All IsValue vs
    → decode_all (map format vs) (encode_all vs ++ rest) ≡ some (vs, rest)
unfolding decode_all encode_all
decode_all-encode_all [] rest h = refl
decode_all-encode_all (v ∷ vs) rest h = rw (
  append_assoc (encode v) (encode_all vs) rest,
  decode_all,
  decode-encode v (encode_all vs ++ rest) h.0,
  decode_all-encode_all vs rest h.1,
)

pub serial_pack-encode_all : (vs : List Value) → serial_pack vs ≡ encode_all vs
unfolding serial_pack serial_add
serial_pack-encode_all vs = write_values-encode_all _ vs

pub serial_add-append :
    (serial : Bytes) (vs : List Value) → serial_add serial vs ≡ serial ++ serial_pack vs
unfolding serial_pack serial_add
serial_add-append serial vs = refl

-- Every value takes a byte at least.
length-encode : (v : Value) → 0 < length (encode v)
unfolding encode
length-encode (schar z) = omega arith
length-encode (uchar n) = omega arith
length-encode (short z) = omega arith
length-encode (ushort n) = omega arith
length-encode (int z) = omega arith
length-encode (uint n) = omega arith
length-encode (llong z) = omega arith
length-encode (ullong n) = omega arith
length-encode (str none) = omega arith
length-encode (str (some t)) = omega (arith, length-append t (0 ∷ []))
length-encode (blob b) = omega arith

pub serial_remove-removed :
    (bs : Bytes) (fs : List Format) (vs : List Value) (rest : Bytes)
    → 0 < length bs
    → decode_all fs bs ≡ some (vs, rest)
    → serial_remove bs fs ≡ removed vs rest
unfolding serial_remove
serial_remove-removed [] fs vs rest h e = elim h [ ]
serial_remove-removed (b ∷ bs) fs vs rest h e = rw (e, serial_remove)

length-encode_all :
    (v : Value) (vs : List Value) (rest : Bytes) → 0 < length (encode_all (v ∷ vs) ++ rest)
unfolding encode_all
length-encode_all v vs rest = omega (
  arith,
  length-append (encode v ++ encode_all vs) rest,
  length-append (encode v) (encode_all vs),
  length-encode v,
)

pub length-serial_pack :
    (v : Value) (vs : List Value) (rest : Bytes) → 0 < length (serial_pack (v ∷ vs) ++ rest)
length-serial_pack v vs rest = rw (serial_pack-encode_all (v ∷ vs)) (length-encode_all v vs rest)

-- Valid values in front of any bytes.
pub serial_remove-append :
    (v : Value) (vs : List Value) (fs : List Format) (rest : Bytes)
    → map format (v ∷ vs) ≡ fs
    → All IsValue (v ∷ vs)
    → serial_remove (serial_pack (v ∷ vs) ++ rest) fs ≡ removed (v ∷ vs) rest
serial_remove-append v vs fs rest e h =
    rw (sym e, serial_pack-encode_all (v ∷ vs))
      (serial_remove-removed _ _ _ _ (length-encode_all v vs rest)
        (decode_all-encode_all (v ∷ vs) rest h))

-- A serial is a queue of values: what was added first is taken off first, with the values that it
-- had and at exactly their bytes, and what was added afterwards stays as if added to an empty one.
pub serial_remove-serial_add :
    (v : Value) (vs ws : List Value)
    → All IsValue (v ∷ vs)
    → serial_remove (serial_add (serial_pack (v ∷ vs)) ws) (map format (v ∷ vs))
      ≡ removed (v ∷ vs) (serial_pack ws)
serial_remove-serial_add v vs ws h =
    rw (serial_add-append (serial_pack (v ∷ vs)) ws)
      (serial_remove-append v vs _ (serial_pack ws) refl h)

-- A packet of valid values, taken apart whole.
pub serial_remove-serial_pack :
    (v : Value) (vs : List Value) (fs : List Format)
    → map format (v ∷ vs) ≡ fs
    → All IsValue (v ∷ vs)
    → serial_remove (serial_pack (v ∷ vs)) fs ≡ removed (v ∷ vs) []
serial_remove-serial_pack v vs fs e h =
    ap (λ t. serial_remove t fs) (sym (append-nil (serial_pack (v ∷ vs))))
    ∙ serial_remove-append v vs fs [] e h
