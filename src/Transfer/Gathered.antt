-- ===== src/Transfer/Gathered.antt =====
-- `receive_file` of FileSystem/src/filetable.c: when the main thread is resumed, and what the map of
-- the block file holds then.
use tp_2017_2c_yatpos.Base.{
  ℕ, ◌+◌, ◌<◌, ◌≡◌, ◌≢◌, refl, ap, sym, ◌∙◌, List, [], ◌∷◌, Bool, true, false, All, All-set, subst,
  some, length, set, ◌==◌, ==_iff, arith, Bool-cases, inl, inr, length-set,
}
use tp_2017_2c_yatpos.Serial.Words.{Bytes}
use tp_2017_2c_yatpos.Yfile.{Block}
use tp_2017_2c_yatpos.Datanode.Blocks.{concat, block_at, IsBlocks, block_at-IsBlock}
use tp_2017_2c_yatpos.Transfer.{
  Arrival, count_block, reset_block_file, Event, copying, counting, run,
}
use tp_2017_2c_yatpos.Transfer.Arrivals.{
  has, erase, indices, IsComplete, length-erase, has-erase_ne, has-lt, erase-All, IsComplete-nil,
  block_at-set_self, block_at-set_ne, blocks_ext, has-indices, length-indices, indices-All,
}
use tp_2017_2c_yatpos.Transfer.Copying.{IsSent, gathered, copy_block-gathered}

length_zero : {A : Type 0} (xs : List A) → length xs ≡ 0 → xs ≡ []
length_zero [] h = refl
length_zero (x ∷ xs) h = absurd (omega (arith, h))

module _ (block_size : ℕ) (rounds : ℕ → List (Bool × Bool)) (arrival : ℕ → Arrival)
    (blocks : List Block) (contents : List Bytes)
    (sent : IsSent block_size rounds arrival blocks contents) where
  -- What has been copied so far stands in the map.
  IsSoFar : (todo : List ℕ) → (store : List Bytes) → Type 0
  IsSoFar todo store =
      (j : ℕ) → j < length blocks → has j todo ≡ false → block_at store j ≡ block_at contents j

  IsSoFar-set :
      (todo : List ℕ) (k : ℕ) (store : List Bytes)
      → k < length store
      → IsSoFar todo store
      → IsSoFar (erase k todo) (set store k (block_at contents k))
  unfolding IsSoFar
  IsSoFar-set todo k store there h j small gone = elim (Bool-cases (j == k)) [
    | inl e ↦
        ap (block_at (set store k (block_at contents k))) ((==_iff j k).0 e)
        ∙ block_at-set_self store k (block_at contents k) there
        ∙ ap (block_at contents) (sym ((==_iff j k).0 e))
    | inr e ↦
        block_at-set_ne store j k (block_at contents k) (other e)
        ∙ h j small (sym (has-erase_ne j k todo (other e)) ∙ gone)
  ]
    where
      other : (j == k) ≡ false → j ≢ k
      other e = λ same. ground (arith, ==_iff j k)

  -- When the last block is counted nothing is left to be copied or counted, and the map is complete.
  run_last :
      (todo copied : List ℕ) (k : ℕ) (events : List Event) (current : ℕ) (store : List Bytes)
      → IsComplete todo copied (counting k ∷ events)
      → length store ≡ length blocks
      → IsSoFar todo store
      → current + length todo + length copied ≡ length blocks
      → (current + 1 == length blocks) ≡ true
      → run block_size arrival (counting k ∷ events) (gathered blocks current store)
        ≡ some (gathered blocks (length blocks) contents, concat contents ∷ [])
  unfolding run count_block IsComplete IsSoFar has
  run_last todo copied k events current store c same h total e =
      rw (over, run)
        (rw e (
          ap (λ n. some (gathered blocks n store, concat store ∷ [])) count
          ∙ ap (λ t. some (gathered blocks (length blocks) t, concat t ∷ [])) whole))
    where
      count : current + 1 ≡ length blocks
      count = (==_iff (current + 1) (length blocks)).0 e

      todo_over : todo ≡ []
      todo_over = length_zero todo (omega (arith, total, count, length-erase k copied c.0))

      copied_over : erase k copied ≡ []
      copied_over =
          length_zero (erase k copied) (omega (arith, total, count, length-erase k copied c.0))

      over : events ≡ []
      over = IsComplete-nil events (
          subst (λ t. IsComplete t [] events) todo_over
            (subst (λ t. IsComplete todo t events) copied_over c.1))

      whole : store ≡ contents
      whole =
          blocks_ext store contents (same ∙ sym sent.counted)
            (λ j p. h j (omega (arith, p, sent.counted)) (ap (has j) todo_over))

  run-gathered :
      (todo copied : List ℕ) (events : List Event) (current : ℕ) (store : List Bytes)
      → IsComplete todo copied events
      → All (λ k. k < length blocks) todo
      → IsBlocks block_size store
      → length store ≡ length blocks
      → IsSoFar todo store
      → current + length todo + length copied ≡ length blocks
      → current < length blocks
      → run block_size arrival events (gathered blocks current store)
        ≡ some (gathered blocks (length blocks) contents, concat contents ∷ [])
  unfolding run count_block IsComplete
  run-gathered todo copied [] current store c small sized same h total more =
      absurd (omega (arith, total, more, ap length c.0, ap length c.1))
  run-gathered todo copied (copying k ∷ events) current store c small sized same h total more =
      rw
        (
          copy_block-gathered block_size rounds arrival blocks contents sent current k store sized
              same there,
          run,
        )
        (run-gathered (erase k todo) (k ∷ copied) events current (set store k (block_at contents k))
          c.1 (erase-All (length blocks) k todo small)
          (All-set (λ b. length b ≡ block_size) store k (block_at contents k) sized long)
          (length-set store k (block_at contents k) ∙ same)
          (IsSoFar-set todo k store (omega (arith, there, same)) h)
          (omega (arith, total, length-erase k todo c.0)) more)
    where
      there : k < length blocks
      there = has-lt (length blocks) k todo small c.0

      long : length (block_at contents k) ≡ block_size
      long = block_at-IsBlock block_size contents k sent.sized (omega (arith, there, sent.counted))
  run-gathered todo copied (counting k ∷ events) current store c small sized same h total more =
      elim (Bool-cases (current + 1 == length blocks)) [
        | inl e ↦ run_last todo copied k events current store c same h total e
        | inr e ↦
            rw
              (
                run-gathered todo (erase k copied) events (current + 1) store c.1 small sized same h
                    (omega (arith, total, length-erase k copied c.0))
                    (ground (arith, more, ==_iff (current + 1) (length blocks))),
                run,
              )
              (rw e)
      ]

  -- A file of at least one block and of less than 2 ^ 31 bytes in blocks, whose blocks have both
  -- copies on nodes. Each block is sent for from the place of one of its copies, where no other block
  -- has a copy, and its content arrives from there. In whatever order the threads of the nodes copy
  -- the blocks into the map and count them, each block once and first copied: nothing is written
  -- outside the map, the main thread is resumed exactly once, and the map that it finds then holds
  -- every block at its place, as does the map at the end.
  pub run_resumed :
      (start : List Bytes) (events : List Event)
      → IsBlocks block_size start
      → length start ≡ length blocks
      → 0 < length blocks
      → IsComplete (indices (length blocks)) [] events
      → run block_size arrival events (reset_block_file blocks (concat start))
        ≡ some (
          record {
            blocks = blocks;
            current = length blocks;
            total = length blocks;
            map = concat contents;
          },
          concat contents ∷ [],
        )
  unfolding reset_block_file IsSoFar
  run_resumed start events sized same some_block c =
      run-gathered (indices (length blocks)) [] events 0 start c (indices-All (length blocks)) sized
        same (λ j p gone. absurd (cc (has-indices (length blocks) j p, gone)))
        (omega (arith, length-indices (length blocks))) some_block
