-- ===== src/Partition/Whole.antt =====
-- `reconstruct_file` of FileSystem/src/filetable.c over a whole block file.
use tp_2017_2c_yatpos.Base.{
  ℕ, zero, suc, ◌+◌, ◌-◌, ◌*◌, ◌≤◌, ◌<◌, ◌≡◌, refl, ap, ap2, sym, ◌∙◌, List, [], ◌∷◌, ◌++◌, none,
  some, arith, length, take, drop, get_elem?, All, append_assoc, append-nil, length-append,
  length-take, length-drop,
}
use mathlib.Core.List.{flatten}
use tp_2017_2c_yatpos.Serial.Words.{Bytes}
use tp_2017_2c_yatpos.Yfile.{Block}
use tp_2017_2c_yatpos.Partition.{read_chunks, chunks_of}
use tp_2017_2c_yatpos.Partition.Cut.{InBlock, IsBlock}
use tp_2017_2c_yatpos.Partition.Overlay.{contents}
use tp_2017_2c_yatpos.Partition.Chunks.{flatten-chunks_of}
use tp_2017_2c_yatpos.Partition.Reconstruct.{
  Joining, next_block, traverser, traverse, written, reconstruct_file,
}
use tp_2017_2c_yatpos.Partition.Rejoin.{at}
use tp_2017_2c_yatpos.Partition.OneBlock.{traverse_block, traverse_last, take-append_short}

drop-append_short : (n : ℕ) (xs ys : Bytes) → n ≤ length xs → drop n (xs ++ ys) ≡ drop n xs ++ ys
drop-append_short zero xs ys h = refl
drop-append_short (suc n) [] ys h = absurd (omega arith)
drop-append_short (suc n) (x ∷ xs) ys h = drop-append_short n xs ys (omega arith)

module _ (chunk : ℕ) (chunk_pos : 0 < chunk) where
  same_chunks :
      (fuel fuel' : ℕ) (bytes : Bytes)
      → length bytes ≤ fuel
      → length bytes ≤ fuel'
      → read_chunks chunk fuel bytes ≡ read_chunks chunk fuel' bytes
  unfolding read_chunks
  same_chunks zero zero bytes h h' = refl
  same_chunks zero (suc n) [] h h' = refl
  same_chunks zero (suc n) (b ∷ bs) h h' = absurd (omega arith)
  same_chunks (suc m) zero [] h h' = refl
  same_chunks (suc m) zero (b ∷ bs) h h' = absurd (omega arith)
  same_chunks (suc m) (suc n) [] h h' = refl
  same_chunks (suc m) (suc n) (b ∷ bs) h h' = ap (◌∷◌ (take chunk (b ∷ bs))) (
      same_chunks m n (drop chunk (b ∷ bs)) (omega (arith, length-drop chunk (b ∷ bs)))
        (omega (arith, length-drop chunk (b ∷ bs))))

  chunk_le : (k n : ℕ) → n ≡ suc k * chunk → chunk ≤ n
  chunk_le k n e = grind arith

  rest_of : (k n : ℕ) → n ≡ suc k * chunk → n - chunk ≡ k * chunk
  rest_of k n e = grind arith

  chunks_of-append :
      (k : ℕ) (t u : Bytes)
      → length t ≡ k * chunk
      → chunks_of chunk (t ++ u) ≡ chunks_of chunk t ++ chunks_of chunk u
  unfolding chunks_of read_chunks
  chunks_of-append zero [] u e = refl
  chunks_of-append zero (x ∷ t) u e = absurd (omega arith)
  chunks_of-append (suc k) [] u e = absurd (omega (arith, chunk_le k 0 e))
  chunks_of-append (suc k) (x ∷ t) u e =
      let enough : chunk ≤ length (x ∷ t) = chunk_le k _ e in
      let ih =
        chunks_of-append k (drop chunk (x ∷ t)) u (length-drop chunk (x ∷ t) ∙ rest_of k _ e) in
      ap2 (λ c (cs : List Bytes). c ∷ cs) (take-append_short chunk (x ∷ t) u enough)
        (ap (read_chunks chunk (length (t ++ u))) (drop-append_short chunk (x ∷ t) u enough)
          ∙ same_chunks (length (t ++ u)) (length (drop chunk (x ∷ t) ++ u))
              (drop chunk (x ∷ t) ++ u)
              (omega (
                arith,
                chunk_pos,
                length-append (drop chunk (x ∷ t)) u,
                length-append t u,
                length-drop chunk (x ∷ t),
              ))
              (omega arith)
          ∙ ih
          ∙ ap (λ cs. cs ++ chunks_of chunk u)
              (same_chunks (length (drop chunk (x ∷ t))) (length t) (drop chunk (x ∷ t))
                (omega arith) (omega (arith, chunk_pos, length-drop chunk (x ∷ t)))))

  All-IsChunk :
      (k : ℕ) (fuel : ℕ) (t : Bytes)
      → length t ≡ k * chunk
      → All (λ c. length c ≡ chunk) (read_chunks chunk fuel t)
  unfolding read_chunks
  All-IsChunk k zero t e = tt
  All-IsChunk k (suc fuel) [] e = tt
  All-IsChunk zero (suc fuel) (x ∷ t) e = absurd (omega arith)
  All-IsChunk (suc k) (suc fuel) (x ∷ t) e = (
    omega (arith, length-take chunk (x ∷ t), chunk_le k _ e),
    All-IsChunk k fuel (drop chunk (x ∷ t)) (length-drop chunk (x ∷ t) ∙ rest_of k _ e),
  )

module _ (chunk m : ℕ) where
  -- The padding of every block but the last is shorter than a chunk.
  unfoldable pub IsPadded : List Block → Type 0
  IsPadded [] = Unit
  IsPadded (b ∷ []) = Unit
  IsPadded (b ∷ b' ∷ bs) = (m * chunk < b.size + chunk) × IsPadded (b' ∷ bs)

module _ (chunk m : ℕ) (chunk_pos : 0 < chunk) where
  chunks_of-flatten :
      (t : Bytes) (ts : List Bytes)
      → length t ≡ m * chunk
      → chunks_of chunk (flatten (t ∷ ts)) ≡ chunks_of chunk t ++ chunks_of chunk (flatten ts)
  unfolding flatten
  chunks_of-flatten t ts e = chunks_of-append chunk chunk_pos m t (flatten ts) e

  All-chunks :
      (k : ℕ) (t : Bytes) → length t ≡ k * chunk → All (λ c. length c ≡ chunk) (chunks_of chunk t)
  unfolding chunks_of
  All-chunks k t e = All-IsChunk chunk chunk_pos k (length t) t e

  module _ (blocks : List Block) where
    abbrev Rest : ℕ → List Block → Type 0
    Rest next bs = (i : ℕ) → get_elem? blocks (next + i) ≡ get_elem? bs i

    rejoin :
        (b : Block) (bs : List Block) (t : Bytes) (ts : List Bytes) (next : ℕ) (out : Bytes)
        → Rest next bs
        → All (InBlock (m * chunk)) (b ∷ bs)
        → IsPadded chunk m (b ∷ bs)
        → All (IsBlock (m * chunk)) (t ∷ ts)
        → length bs ≤ length ts
        → written (m * chunk) blocks (
            traverse
              (m * chunk)
              blocks
              (at (m * chunk) blocks next b 0 out)
              (chunks_of chunk (flatten (t ∷ ts))))
          ≡ some (out ++ contents (b ∷ bs) (t ∷ ts))
    unfolding contents IsPadded
    rejoin b [] t ts next out r (q, _) p (e, es) l = rw (chunks_of-flatten t ts e) (
        traverse_last chunk (m * chunk) chunk_pos blocks (chunks_of chunk t)
          (chunks_of chunk (flatten ts)) next 0 b out (ap (get_elem? blocks) (omega arith) ∙ r 0)
          (All-chunks m t e) q.0 q.1
          (omega (arith, ap length (flatten-chunks_of chunk chunk_pos t)))
        ∙ ap (λ (u : Bytes). some (out ++ u))
            (ap2 take (omega arith) (flatten-chunks_of chunk chunk_pos t)
              ∙ sym (append-nil (take b.size t))))
    rejoin b (b' ∷ bs) t [] next out r is p es l = absurd (omega arith)
    rejoin b (b' ∷ bs) t (t' ∷ ts) next out r (q, is) (p, ps) (e, es) l =
        rw (chunks_of-flatten t (t' ∷ ts) e) (
          ap (written (m * chunk) blocks) (
            traverse_block chunk (m * chunk) chunk_pos blocks (chunks_of chunk t)
              (chunks_of chunk (flatten (t' ∷ ts))) next 0 b b' out
              (ap (get_elem? blocks) (omega arith) ∙ r 0) (All-chunks m t e) q.0 q.1 p
              (omega (arith, ap length (flatten-chunks_of chunk chunk_pos t))))
          ∙ rejoin b' bs t' ts (suc next) _ (λ i. ap (get_elem? blocks) (omega arith) ∙ r (suc i))
              is ps es (omega arith)
          ∙ ap some (
              append_assoc out _ (contents (b' ∷ bs) (t' ∷ ts))
              ∙ ap (λ (u : Bytes). out ++ (u ++ contents (b' ∷ bs) (t' ∷ ts)))
                  (ap2 take (omega arith) (flatten-chunks_of chunk chunk_pos t))))

  abbrev begin : Joining
  begin = record { next = 0; block = none; size = m * chunk; out = [] }

  -- The first chunk finds no block yet, and takes the first of the list.
  first_chunk :
      (b : Block) (bs : List Block) (cs : List Bytes)
      → 0 < length cs
      → 0 < m * chunk
      → traverse (m * chunk) (b ∷ bs) begin cs
        ≡ traverse (m * chunk) (b ∷ bs) (at (m * chunk) (b ∷ bs) 1 b 0 []) cs
  unfolding traverse traverser next_block
  first_chunk b bs [] l q = absurd (omega arith)
  first_chunk b bs (c ∷ cs) l q = ground arith

  no_blocks :
      (cs : List Bytes) → written (m * chunk) [] (traverse (m * chunk) [] begin cs) ≡ some []
  unfolding traverse traverser next_block
  no_blocks [] = refl
  no_blocks (c ∷ cs) = ground arith

  some_chunk : (t : Bytes) → 0 < length t → 0 < length (chunks_of chunk t)
  unfolding chunks_of read_chunks
  some_chunk [] h = absurd (omega arith)
  some_chunk (x ∷ t) h = omega arith

  -- The file that comes out is what the blocks hold.
  pub reconstruct_file-contents :
      (blocks : List Block) (target : List Bytes)
      → 0 < m
      → All (InBlock (m * chunk)) blocks
      → IsPadded chunk m blocks
      → All (IsBlock (m * chunk)) target
      → length blocks ≤ length target
      → reconstruct_file (m * chunk) blocks (chunks_of chunk (flatten target))
        ≡ some (contents blocks target)
  unfolding reconstruct_file contents flatten
  reconstruct_file-contents [] target q is p es l = no_blocks _
  reconstruct_file-contents (b ∷ bs) [] q is p es l = absurd (omega arith)
  reconstruct_file-contents (b ∷ bs) (t ∷ ts) q is p es l =
      let size : 0 < m * chunk = grind arith in
      ap (written (m * chunk) (b ∷ bs)) (
        first_chunk b bs (chunks_of chunk (flatten (t ∷ ts)))
          (some_chunk (flatten (t ∷ ts)) (omega (arith, es.0, length-append t (flatten ts)))) size)
      ∙ rejoin (b ∷ bs) b bs t ts 1 [] (λ i. ap (get_elem? (b ∷ bs)) {y = suc i} (omega arith)) is p
          es (omega arith)
