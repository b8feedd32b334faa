-- ===== src/Partition/Padding.antt =====
-- The padding of the blocks that the cutting loops of FileSystem/src/filetable.c write: less than a
-- chunk in every block but the last, when no piece is longer than a chunk.
use tp_2017_2c_yatpos.Base.{
  ℕ, zero, suc, ◌+◌, ◌*◌, ◌^◌, ◌≤◌, ◌<◌, ◌≡◌, refl, ap, sym, ◌∙◌, inl, inr, List, [], ◌∷◌, ◌++◌,
  some, arith, length, All, All-append, ltb, Bool-cases, ltb→lt, some_inj, length-set,
}
use tp_2017_2c_yatpos.Serial.Words.{Bytes}
use tp_2017_2c_yatpos.Yfile.{Block, yfile_addblock}
use tp_2017_2c_yatpos.Partition.{Output, Cutting, cut, overlay}
use tp_2017_2c_yatpos.Partition.Cut.{
  block_of, needed, needed_over, needed_fits, at, next_output, flush_lem, handle_flushes,
  handle_appends, Fits,
}
use tp_2017_2c_yatpos.Partition.Whole.{IsPadded}

module _ (chunk m : ℕ) where
  abbrev pub IsFull : Block → Type 0
  IsFull b = m * chunk < b.size + chunk

  IsPadded-all : (bs : List Block) → All IsFull bs → IsPadded chunk m bs
  unfolding IsPadded
  IsPadded-all [] h = tt
  IsPadded-all (b ∷ []) h = tt
  IsPadded-all (b ∷ b' ∷ bs) (h, hs) = (h, IsPadded-all (b' ∷ bs) hs)

  IsPadded-snoc : (bs : List Block) (b : Block) → All IsFull bs → IsPadded chunk m (bs ++ b ∷ [])
  unfolding IsPadded
  IsPadded-snoc [] b h = tt
  IsPadded-snoc (a ∷ []) b (h, hs) = (h, tt)
  IsPadded-snoc (a ∷ a' ∷ bs) b (h, hs) = (h, IsPadded-snoc (a' ∷ bs) b hs)

  next_output-IsPadded :
      (buffer : Bytes) (size count : ℕ) (o : Output)
      → All IsFull o.file.blocks
      → IsPadded chunk m (next_output (m * chunk) buffer size count o).file.blocks
  unfolding yfile_addblock
  next_output-IsPadded buffer zero count o h = IsPadded-all o.file.blocks h
  next_output-IsPadded buffer (suc k) count o h = IsPadded-snoc o.file.blocks _ h

  next_output-IsFull :
      (buffer : Bytes) (size count : ℕ) (o : Output)
      → m * chunk < size + chunk
      → All IsFull o.file.blocks
      → All IsFull (next_output (m * chunk) buffer size count o).file.blocks
  unfolding yfile_addblock
  next_output-IsFull buffer zero count o l h = h
  next_output-IsFull buffer (suc k) count o l h = All-append IsFull o.file.blocks _ h (l, tt)

  length-next_output :
      (buffer : Bytes) (size count : ℕ) (o : Output)
      → length (next_output (m * chunk) buffer size count o).target ≡ length o.target
  length-next_output buffer zero count o = refl
  length-next_output buffer (suc k) count o = length-set o.target count buffer

  module _ (terminator : Bytes) where
    abbrev pub IsShort : Bytes → Type 0
    IsShort p = length p + length terminator ≤ chunk

    pub cut-IsPadded :
        (ps : List Bytes) (buffer : Bytes) (size count : ℕ) (o o' : Output) (c : Cutting)
        → All (Fits (m * chunk) terminator) ps
        → All IsShort ps
        → All IsFull o.file.blocks
        → count + needed (m * chunk) (length terminator) size ps ≤ length o.target
        → length o.target * (m * chunk) < 2 ^ 31
        → cut (m * chunk) terminator (at (m * chunk) buffer size count o) ps ≡ some c
        → c.output ≡ some o'
        → IsPadded chunk m o'.file.blocks
    unfolding cut needed
    cut-IsPadded [] buffer size count o o' c fits short full h small ran wrote =
        let same = some_inj (sym ran ∙ flush_lem (m * chunk) buffer size count o h small) in
        let out : o' ≡ next_output (m * chunk) buffer size count o =
          some_inj (sym wrote ∙ ap (λ (x : Cutting). x.output) same) in
        rw out (next_output-IsPadded buffer size count o full)
    cut-IsPadded (p ∷ ps) buffer size count o o' c (fit, fits) (sh, short) full h small ran wrote =
        elim (Bool-cases (ltb (m * chunk) (size + (length p + length terminator)))) [
          | inl e ↦
              let over : m * chunk < size + (length p + length terminator) = ltb→lt _ _ e in
              let count_eq = needed_over (m * chunk) (length terminator) size p ps over in
              cut-IsPadded ps (overlay 0 (p ++ terminator) buffer) (0 + length p)
                (count + block_of size) (next_output (m * chunk) buffer size count o) o' c fits
                short (next_output-IsFull buffer size count o (omega arith) full)
                (omega (arith, count_eq, length-next_output buffer size count o))
                (rw (length-next_output buffer size count o) small)
                (sym (
                    rw (
                      handle_flushes (m * chunk) terminator p buffer size count o over fit
                          (omega (arith, count_eq)) small,
                      cut,
                    ))
                  ∙ ran)
                wrote
          | inr e ↦
              let within : size + (length p + length terminator) ≤ m * chunk = ground arith in
              let count_eq = needed_fits (m * chunk) (length terminator) size p ps within in
              cut-IsPadded ps (overlay size (p ++ terminator) buffer) (size + length p) count o o' c
                fits short full (omega (arith, count_eq)) small
                (sym (rw (handle_appends (m * chunk) terminator p buffer size count o within, cut))
                  ∙ ran)
                wrote
        ]
