-- ===== src/Partition/Overlay.antt =====
-- The buffer, the block file and the list of blocks of FileSystem/src/filetable.c as text: what a
-- copy into the buffer and a new block add to it.
use tp_2017_2c_yatpos.Base.{
  ℕ, zero, suc, ◌+◌, ◌≤◌, ◌<◌, ◌≡◌, refl, ap, sym, ◌∙◌, List, [], ◌∷◌, ◌++◌, arith, length, take,
  set, append_assoc, append-nil,
}
use tp_2017_2c_yatpos.Serial.Words.{Bytes}
use tp_2017_2c_yatpos.Yfile.{Block}
use tp_2017_2c_yatpos.Partition.{overlay}

pub length-overlay : (n : ℕ) (xs ys : Bytes) → length (overlay n xs ys) ≡ length ys
unfolding overlay
length-overlay n xs [] = refl
length-overlay zero [] (y ∷ ys) = refl
length-overlay zero (x ∷ xs) (y ∷ ys) = ap suc (length-overlay zero xs ys)
length-overlay (suc n) xs (y ∷ ys) = ap suc (length-overlay n xs ys)

take-overlay_front :
    (p t ys : Bytes) → length p ≤ length ys → take (length p) (overlay 0 (p ++ t) ys) ≡ p
unfolding overlay
take-overlay_front [] t ys h = refl
take-overlay_front (x ∷ p) t [] h = absurd (omega arith)
take-overlay_front (x ∷ p) t (y ∷ ys) h = ap (◌∷◌ x) (take-overlay_front p t ys (omega arith))

zero_add : (n : ℕ) → 0 + n ≡ n
zero_add n = omega arith

suc_add : (n m : ℕ) → suc n + m ≡ suc (n + m)
suc_add n m = omega arith

-- What stands in the buffer before the copy stays, and the copy comes behind it.
pub take-overlay :
    (n : ℕ) (p t ys : Bytes)
    → n + length p ≤ length ys
    → take (n + length p) (overlay n (p ++ t) ys) ≡ take n ys ++ p
unfolding overlay
take-overlay zero p t ys h = rw (zero_add (length p)) (take-overlay_front p t ys (omega arith))
take-overlay (suc n) p t [] h = absurd (omega arith)
take-overlay (suc n) p t (y ∷ ys) h =
    rw (suc_add n (length p)) (ap (◌∷◌ y) (take-overlay n p t ys (omega arith)))

-- The bytes that the blocks stand for: of each block in the block file, as many as its size says.
unfoldable pub contents : List Block → List Bytes → Bytes
contents [] ts = []
contents (b ∷ bs) [] = []
contents (b ∷ bs) (t ∷ ts) = take b.size t ++ contents bs ts

pub contents-snoc :
    (bs : List Block) (ts : List Bytes) (b : Block) (t : Bytes)
    → length bs < length ts
    → contents (bs ++ b ∷ []) (set ts (length bs) t) ≡ contents bs ts ++ take b.size t
unfolding contents
contents-snoc [] [] b t h = absurd (omega arith)
contents-snoc [] (u ∷ ts) b t h = append-nil (take b.size t)
contents-snoc (a ∷ bs) [] b t h = absurd (omega arith)
contents-snoc (a ∷ bs) (u ∷ ts) b t h =
    ap (◌++◌ (take a.size u)) (contents-snoc bs ts b t (omega arith))
    ∙ sym (append_assoc (take a.size u) (contents bs ts) (take b.size t))
