-- ===== src/Layout/Laws.antt =====
-- The round trips of the loops of `Layout`, for any structure that satisfies `IsLayout`.
use tp_2017_2c_yatpos.Base.{
  ℕ, zero, suc, ◌≤◌, ◌<◌, ◌^◌, ◌≡◌, refl, sym, ap, ◌∙◌, ◌++◌, List, [], ◌∷◌, map, some, arith,
  length, length-append, append_assoc, append-nil, All,
}
use tp_2017_2c_yatpos.Base.Int.{pos}
use tp_2017_2c_yatpos.Serial.Words.{Bytes}
use tp_2017_2c_yatpos.Serial.{
  Value, int, Format, i, format, removed, serial_add, serial_pack, serial_remove,
}
use tp_2017_2c_yatpos.Serial.RoundTrip.{
  IsValue, serial_add-append, length-serial_pack, serial_remove-append,
}
use tp_2017_2c_yatpos.Layout.{
  Layout, IsLayout, take_record, add_records, take_records, take_to_end, pack_list, counted,
  unpack_list,
}

nil_ne_cons : {f : Format} {fs : List Format} → [] ≡ f ∷ fs → ⊥
nil_ne_cons e = cc

module _ {A : Type 0} (L : Layout A) (laws : IsLayout L) where
  serial_remove-values :
      (vs : List Value) (rest : Bytes)
      → map format vs ≡ L.formats
      → All IsValue vs
      → serial_remove (serial_pack vs ++ rest) L.formats ≡ removed vs rest
  serial_remove-values [] rest e h = absurd (nil_ne_cons (e ∙ laws.nonempty))
  serial_remove-values (v ∷ vs) rest e h = serial_remove-append v vs L.formats rest e h

  -- A structure in front of any bytes is taken off whole.
  pub take_record-append :
      (a : A) (rest : Bytes)
      → L.IsFit a
      → take_record L (serial_pack (L.values a) ++ rest) ≡ some (a, rest)
  unfolding take_record
  take_record-append a rest h = rw (
    serial_remove-values (L.values a) rest (laws.formats-values a) (laws.values-IsValue a h),
    take_record,
    laws.read-values a h,
  )

  -- The bytes of some structures, one after the other.
  unfoldable pub rows : List A → Bytes
  rows [] = []
  rows (a ∷ rs) = serial_pack (L.values a) ++ rows rs

  pub add_records-rows :
      (serial : Bytes) (rs : List A) → add_records L serial rs ≡ serial ++ rows rs
  unfolding add_records rows
  add_records-rows serial [] = sym (append-nil serial)
  add_records-rows serial (a ∷ rs) =
      add_records-rows (serial_add serial (L.values a)) rs
      ∙ ap (λ t. t ++ rows rs) (serial_add-append serial (L.values a))
      ∙ append_assoc serial (serial_pack (L.values a)) (rows rs)

  take_records-rows :
      (rs : List A) (rest : Bytes)
      → All L.IsFit rs
      → take_records L (length rs) (rows rs ++ rest) ≡ some (rs, rest)
  unfolding take_records rows
  take_records-rows [] rest h = refl
  take_records-rows (a ∷ rs) rest h = rw (
    append_assoc (serial_pack (L.values a)) (rows rs) rest,
    take_records,
    take_record-append a (rows rs ++ rest) h.0,
    take_records-rows rs rest h.1,
  )

  take_to_end-cons :
      (fuel : ℕ) (bs : Bytes) (a : A) (rest : Bytes) (rs : List A)
      → 0 < length bs
      → take_record L bs ≡ some (a, rest)
      → take_to_end L fuel rest ≡ some rs
      → take_to_end L (suc fuel) bs ≡ some (a ∷ rs)
  unfolding take_to_end
  take_to_end-cons fuel [] a rest rs p e f = elim p [ ]
  take_to_end-cons fuel (b ∷ bs) a rest rs p e f = rw (e, f, take_to_end)

  length-values : (a : A) (rest : Bytes) → 0 < length (serial_pack (L.values a) ++ rest)
  length-values a rest = go (L.values a) (laws.formats-values a)
    where
      go : (vs : List Value) → map format vs ≡ L.formats → 0 < length (serial_pack vs ++ rest)
      go [] e = absurd (nil_ne_cons (e ∙ laws.nonempty))
      go (v ∷ vs) e = length-serial_pack v vs rest

  pub length-rows : (rs : List A) → length rs ≤ length (rows rs)
  unfolding rows
  length-rows [] = omega arith
  length-rows (a ∷ rs) = omega (
    arith,
    length-append (serial_pack (L.values a)) (rows rs),
    length-append (serial_pack (L.values a)) [],
    length-values a [],
    length-rows rs,
  )

  -- Enough rounds, one for each structure, take all of them up to the end.
  pub take_to_end-rows :
      (fuel : ℕ) (rs : List A)
      → length rs ≤ fuel
      → All L.IsFit rs
      → take_to_end L fuel (rows rs) ≡ some rs
  unfolding take_to_end rows
  take_to_end-rows zero [] p h = refl
  take_to_end-rows (suc fuel) [] p h = refl
  take_to_end-rows zero (a ∷ rs) p h = absurd (omega arith)
  take_to_end-rows (suc fuel) (a ∷ rs) p h =
      take_to_end-cons fuel _ a (rows rs) rs (length-values a (rows rs))
        (take_record-append a (rows rs) h.0) (take_to_end-rows fuel rs (omega arith) h.1)

  -- A list of structures in range is unpacked as it was packed, and what follows it is left.
  pub unpack_list-pack_list :
      (rs : List A) (rest : Bytes)
      → length rs < 2 ^ 31
      → All L.IsFit rs
      → unpack_list L (pack_list L rs ++ rest) ≡ some (rs, rest)
  unfolding unpack_list pack_list counted serial_pack format
  unpack_list-pack_list rs rest n h =
      rw
        (
          add_records-rows (serial_pack count) rs,
          append_assoc (serial_pack count) (rows rs) rest,
          serial_remove-append (int (pos (length rs))) [] (i ∷ []) (rows rs ++ rest) refl (n, tt),
          unpack_list,
        )
        (take_records-rows rs rest h)
    where
      count : List Value
      count = int (pos (length rs)) ∷ []
