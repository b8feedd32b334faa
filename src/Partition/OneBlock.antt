-- ===== src/Partition/OneBlock.antt =====
-- `reconstruct_file` of FileSystem/src/filetable.c over whole blocks: from the chunks of the block
-- file, the bytes that the list of blocks says.
use tp_2017_2c_yatpos.Base.{
  ℕ, zero, suc, ◌+◌, ◌-◌, ◌≤◌, ◌<◌, ◌≡◌, refl, ap, sym, ◌∙◌, List, [], ◌∷◌, ◌++◌, none, some, arith,
  length, take, get_elem?, All, ltb, append_assoc, append-nil, length-append, Bool-cases, inl, inr,
  ltb→lt,
}
use mathlib.Core.List.{flatten}
use tp_2017_2c_yatpos.Serial.Words.{Bytes}
use tp_2017_2c_yatpos.Yfile.{Block}
use tp_2017_2c_yatpos.Partition.Reconstruct.{traverse, written}
use tp_2017_2c_yatpos.Partition.Rejoin.{at, traverser_inside, traverser_ends, traverser_stops}

pub take-append_short : (n : ℕ) (xs ys : Bytes) → n ≤ length xs → take n (xs ++ ys) ≡ take n xs
take-append_short zero xs ys h = refl
take-append_short (suc n) [] ys h = absurd (omega arith)
take-append_short (suc n) (x ∷ xs) ys h = ap (◌∷◌ x) (take-append_short n xs ys (omega arith))

take-append_over : (n : ℕ) (xs ys : Bytes) → take (length xs + n) (xs ++ ys) ≡ xs ++ take n ys
take-append_over n [] ys = ap (λ m. take m ys) (omega arith)
take-append_over n (x ∷ xs) ys =
    ap (λ m. take m (x ∷ (xs ++ ys))) {y = suc (length xs + n)} (omega arith)
    ∙ ap (◌∷◌ x) (take-append_over n xs ys)

-- The text behind a chunk that a block goes on after.
joined :
    (out c rest : Bytes) (size n : ℕ)
    → size + length c ≤ n
    → (out ++ c) ++ take (n - (size + length c)) rest ≡ out ++ take (n - size) (c ++ rest)
joined out c rest size n h =
    append_assoc out c (take (n - (size + length c)) rest)
    ∙ ap (◌++◌ out) (
        sym (take-append_over (n - (size + length c)) c rest)
        ∙ ap (λ m. take m (c ++ rest)) (omega arith))

module _ (chunk block_size : ℕ) (chunk_pos : 0 < chunk) (blocks : List Block) where
  abbrev pub IsChunk : Bytes → Type 0
  IsChunk c = length c ≡ chunk

  no_chunk : (cs : List Bytes) → All IsChunk cs → length (flatten cs) < chunk → cs ≡ []
  unfolding flatten
  no_chunk [] h l = refl
  no_chunk (c ∷ cs) (e, h) l = absurd (omega (arith, length-append c (flatten cs)))

  -- A block with another behind it, the padding shorter than a chunk.
  pub traverse_block :
      (cs rest : List Bytes) (next size : ℕ) (b b' : Block) (out : Bytes)
      → get_elem? blocks next ≡ some b'
      → All IsChunk cs
      → size < b.size
      → b.size ≤ block_size
      → block_size < b.size + chunk
      → size + length (flatten cs) ≡ block_size
      → traverse block_size blocks (at block_size blocks next b size out) (cs ++ rest)
        ≡ traverse block_size blocks
            (at block_size blocks (suc next) b' 0 (out ++ take (b.size - size) (flatten cs)))
            rest
  unfolding traverse flatten
  traverse_block [] rest next size b b' out g h l u p e = absurd (omega arith)
  traverse_block (c ∷ cs) rest next size b b' out g (w, h) l u p e =
      elim (Bool-cases (ltb (size + length c) b.size)) [
        | inl e' ↦
            let inside : size + length c < b.size = ltb→lt _ _ e' in
            let text = joined out c (flatten cs) size b.size (omega arith) in
            rw
              (
                traverser_inside block_size blocks c next b size out (omega arith) inside u,
                traverse,
              )
              (traverse_block cs rest next (size + length c) b b' (out ++ c) g h inside u p
                  (omega (arith, length-append c (flatten cs)))
                ∙ ap (λ t. traverse block_size blocks (at block_size blocks (suc next) b' 0 t) rest)
                    text)
        | inr e' ↦
            let last : b.size ≤ size + length c = ground arith in
            let none_left : cs ≡ [] = no_chunk cs h (omega (arith, length-append c (flatten cs))) in
            rw (none_left) (
              rw
                (
                  traverser_ends block_size blocks c next b b' size (b.size - size) out
                      (omega arith) (omega (arith, length-append c (flatten cs))) (omega arith)
                      (omega arith) g,
                  traverse,
                  append-nil c,
                )
                refl)
      ]

  -- The last block.
  pub traverse_last :
      (cs rest : List Bytes) (next size : ℕ) (b : Block) (out : Bytes)
      → get_elem? blocks next ≡ none
      → All IsChunk cs
      → size < b.size
      → b.size ≤ block_size
      → size + length (flatten cs) ≡ block_size
      → written block_size blocks
          (traverse block_size blocks (at block_size blocks next b size out) (cs ++ rest))
        ≡ some (out ++ take (b.size - size) (flatten cs))
  unfolding traverse flatten
  traverse_last [] rest next size b out g h l u e = absurd (omega arith)
  traverse_last (c ∷ cs) rest next size b out g (w, h) l u e =
      elim (Bool-cases (ltb (size + length c) b.size)) [
        | inl e' ↦
            let inside : size + length c < b.size = ltb→lt _ _ e' in
            let text = joined out c (flatten cs) size b.size (omega arith) in
            rw
              (
                traverser_inside block_size blocks c next b size out (omega arith) inside u,
                traverse,
              )
              (traverse_last cs rest next (size + length c) b (out ++ c) g h inside u
                  (omega (arith, length-append c (flatten cs)))
                ∙ ap some text)
        | inr e' ↦
            let last : b.size ≤ size + length c = ground arith in
            let (j, stopped, same) =
              traverser_stops block_size blocks c next b size (b.size - size) out (omega arith)
                (omega (arith, length-append c (flatten cs))) (omega arith) (omega arith) g in
            rw (stopped, traverse)
              (ap some (
                same
                ∙ ap (◌++◌ out)
                    (sym (take-append_short (b.size - size) c (flatten cs) (omega arith)))))
      ]
