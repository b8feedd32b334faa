-- ===== src/Layout.antt =====
-- Structures in a serial (Shared/serial.c): how the packing and unpacking functions of
-- Shared/struct.c, Shared/yfile.c and YAMA/src/struct.c lay out a record as a fixed run of values,
-- and the two loops that those functions share: a count and that many records, and records up to
-- the end of the serial.
pub mod Laws
use tp_2017_2c_yatpos.Base.{
  ℕ, zero, suc, ◌+◌, ◌≤◌, ◌<◌, ◌^◌, ◌≡◌, refl, sym, ap, ◌∙◌, ◌++◌, List, [], ◌∷◌, map, Option, none,
  some, arith, length, length-append, append_assoc, All,
}
use tp_2017_2c_yatpos.Base.Int.{ℤ, pos, negsuc}
use tp_2017_2c_yatpos.Serial.Words.{Bytes}
use tp_2017_2c_yatpos.Serial.{
  Value, int, Format, i, format, Removal, removed, untouched, overrun, serial_add, serial_pack,
  serial_remove, encode, decode_all,
}
use tp_2017_2c_yatpos.Serial.Room.{encode_all}
use tp_2017_2c_yatpos.Serial.RoundTrip.{IsValue}

-- The operations that a structure brings: the format string, the arguments of `serial_add` in its
-- order, and the assignments that `serial_remove` makes (`none` where the values do not fit).
pub record Layout (A : Type 0) : Type 1 where
  pub formats : List Format
  pub values : A → List Value
  pub read : List Value → Option A
  pub IsFit : A → Type 0

-- What every layout satisfies: the format string has a letter, and is that of the arguments; the
-- arguments of a structure in range are valid, and are assigned back to the same fields.
pub record IsLayout {A : Type 0} (L : Layout A) : Type 0 where
  pub first : Format
  pub others : List Format
  pub nonempty : L.formats ≡ first ∷ others
  pub formats-values : (a : A) → map format (L.values a) ≡ L.formats
  pub values-IsValue : (a : A) → L.IsFit a → All IsValue (L.values a)
  pub read-values : (a : A) → L.IsFit a → L.read (L.values a) ≡ some a

module _ {A : Type 0} (L : Layout A) where
  -- One `serial_remove` with the format of the structure: the structure and the rest of the serial.
  unfoldable pub take_record : Bytes → Option (A × Bytes)
  take_record serial = elim (serial_remove serial L.formats) [
    | untouched ↦ none
    | overrun ↦ none
    | removed vs rest ↦ elim (L.read vs) [ none ↦ none | some a ↦ some (a, rest) ]
  ]

  -- `mlist_traverse(list, routine)`, where the routine adds one structure to the serial.
  unfoldable pub add_records : Bytes → List A → Bytes
  add_records serial [] = serial
  add_records serial (a ∷ rs) = add_records (serial_add serial (L.values a)) rs

  -- `while(n--) { serial_remove(...); mlist_append(...); }`
  unfoldable pub take_records : ℕ → Bytes → Option (List A × Bytes)
  unfolding take_record
  take_records zero serial = some ([], serial)
  take_records (suc n) serial = elim (take_record serial) [
    | none ↦ none
    | some (a, rest) ↦ elim (take_records n rest) [
      | none ↦ none
      | some (rs, after) ↦ some (a ∷ rs, after)
    ]
  ]

  -- `while(serial->size > 0) { serial_remove(...); mlist_append(...); }`. A round takes a byte at
  -- least, so the length of the serial is fuel enough.
  unfoldable pub take_to_end : ℕ → Bytes → Option (List A)
  unfolding take_record
  take_to_end fuel [] = some []
  take_to_end zero (b ∷ bs) = none
  take_to_end (suc fuel) (b ∷ bs) = elim (take_record (b ∷ bs)) [
    | none ↦ none
    | some (a, rest) ↦ elim (take_to_end fuel rest) [ none ↦ none | some rs ↦ some (a ∷ rs) ]
  ]

  -- A count and the structures: `serial_add(serial, "i", mlist_length(list))` and the traversal.
  unfoldable pub pack_list : List A → Bytes
  unfolding add_records
  pack_list rs = add_records (serial_add [] (int (pos (length rs)) ∷ [])) rs

  -- A negative count would loop past the end of the serial.
  counted : List Value → Bytes → Option (List A × Bytes)
  unfolding take_records
  counted (int (pos n) ∷ []) rest = take_records n rest
  counted _ rest = none

  -- The inverse: the count, and that many structures.
  unfoldable pub unpack_list : Bytes → Option (List A × Bytes)
  unfolding counted
  unpack_list serial = elim (serial_remove serial (i ∷ [])) [
    | untouched ↦ none
    | overrun ↦ none
    | removed vs rest ↦ counted vs rest
  ]
