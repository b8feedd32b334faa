-- ===== src/Serial/Tests.antt =====
-- Runs of Shared/serial.c, and its theorems at concrete values.
use tp_2017_2c_yatpos.Base.{◌≡◌, refl, List, [], ◌∷◌, map, none, some, arith}
use tp_2017_2c_yatpos.Base.Int.{negsuc}
use tp_2017_2c_yatpos.Serial.Words.{Bytes}
use tp_2017_2c_yatpos.Serial.{
  Value, int, uint, str, blob, i, s, format, null_string, removed, untouched, overrun, serial_add,
  serial_pack, serial_remove, encode, Buffer, write_values,
}
use tp_2017_2c_yatpos.Serial.Room.{InBounds, encode_all, write_values-InBounds}
use tp_2017_2c_yatpos.Serial.RoundTrip.{serial_remove-serial_add}

-- "ab"
abbrev name : Bytes
name = b'a' ∷ b'b' ∷ []

abbrev sample : List Value
sample = int (negsuc 0) ∷ str (some name) ∷ blob (7 ∷ 8 ∷ []) ∷ []

packed : serial_pack sample ≡ 255 ∷ 255 ∷ 255 ∷ 255 ∷ b'a' ∷ b'b' ∷ 0 ∷ 0 ∷ 0 ∷ 0 ∷ 2 ∷ 7 ∷ 8 ∷ []
unfolding serial_pack
packed = refl

unpacked :
    serial_remove (serial_pack sample) (i ∷ s ∷ [])
    ≡ removed (int (negsuc 0) ∷ str (some name) ∷ []) (0 ∷ 0 ∷ 0 ∷ 2 ∷ 7 ∷ 8 ∷ [])
unfolding serial_pack serial_remove
unpacked = refl

emptied : serial_remove [] (i ∷ []) ≡ untouched
unfolding serial_remove
emptied = refl

short_read : serial_remove (1 ∷ 2 ∷ []) (i ∷ []) ≡ overrun
unfolding serial_remove
short_read = refl

-- The text "__NULL__" comes back as a NULL pointer.
null_text :
    serial_remove (serial_pack (str (some null_string) ∷ [])) (s ∷ []) ≡ removed (str none ∷ []) []
unfolding serial_pack serial_remove
null_text = refl

serial_remove-serial_add_example :
    serial_remove
      (serial_add
        (serial_pack (int (negsuc 0) ∷ str (some name) ∷ blob (7 ∷ 8 ∷ []) ∷ []))
        (uint 5 ∷ []))
      (map format (int (negsuc 0) ∷ str (some name) ∷ blob (7 ∷ 8 ∷ []) ∷ []))
    ≡ removed sample (serial_pack (uint 5 ∷ []))
serial_remove-serial_add_example =
    serial_remove-serial_add (int (negsuc 0)) (str (some name) ∷ blob (7 ∷ 8 ∷ []) ∷ [])
      (uint 5 ∷ []) (omega arith, ((omega arith, λ e. cc), (omega arith, tt)))

-- A buffer of four bytes has to grow twice for these arguments.
abbrev small_buffer : Buffer
small_buffer = record { written = 1 ∷ 2 ∷ []; cap = 4 }

write_values-InBounds_example : InBounds (write_values small_buffer sample)
unfolding encode_all encode
write_values-InBounds_example =
    write_values-InBounds small_buffer sample
      (record { allocated = omega arith; fits = omega arith }) (omega arith)
