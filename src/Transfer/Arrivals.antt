-- ===== src/Transfer/Arrivals.antt =====
-- The blocks of a file arrive, in whatever order the threads of FileSystem/src/filetable.c take their
-- steps: the list of the indices that are still to be copied, and of those copied but not counted.
use tp_2017_2c_yatpos.Base.{
  ℕ, zero, suc, ◌<◌, ◌≡◌, ◌≢◌, refl, ap, sym, ◌∙◌, List, [], ◌∷◌, Bool, true, false, ◌||◌, All,
  length, set, ◌==◌, ==_iff, if◌then◌else◌, arith, Bool-cases, inl, inr,
}
use tp_2017_2c_yatpos.Serial.Words.{Bytes}
use tp_2017_2c_yatpos.Transfer.{Event, copying, counting}
use tp_2017_2c_yatpos.Datanode.Blocks.{block_at}

unfoldable pub has : ℕ → List ℕ → Bool
has k [] = false
has k (x ∷ xs) = (x == k) || has k xs

unfoldable pub erase : ℕ → List ℕ → List ℕ
erase k [] = []
erase k (x ∷ xs) = if x == k then xs else x ∷ erase k xs

-- n - 1, ..., 1, 0
unfoldable pub indices : ℕ → List ℕ
indices zero = []
indices (suc n) = n ∷ indices n

-- Each index of `todo` is copied once and counted once after it, and each of `copied` is counted.
unfoldable pub IsComplete : (todo copied : List ℕ) → List Event → Type 0
unfolding has erase
IsComplete todo copied [] = (todo ≡ []) × (copied ≡ [])
IsComplete todo copied (copying k ∷ events) =
    (has k todo ≡ true) × IsComplete (erase k todo) (k ∷ copied) events
IsComplete todo copied (counting k ∷ events) =
    (has k copied ≡ true) × IsComplete todo (erase k copied) events

pub length-erase : (k : ℕ) (xs : List ℕ) → has k xs ≡ true → suc (length (erase k xs)) ≡ length xs
unfolding has erase
length-erase k [] h = cc
length-erase k (x ∷ xs) h = elim (Bool-cases (x == k)) [
  | inl e ↦ rw e
  | inr e ↦ rw e (ap suc (length-erase k xs (rw-has e)))
]
  where
    rw-has : (x == k) ≡ false → has k xs ≡ true
    rw-has e = ap (λ b. b || has k xs) (sym e) ∙ h

pub has-erase_ne : (j k : ℕ) (xs : List ℕ) → j ≢ k → has j (erase k xs) ≡ has j xs
unfolding has erase
has-erase_ne j k [] h = refl
has-erase_ne j k (x ∷ xs) h = elim (Bool-cases (x == k)) [
  | inl e ↦ rw e (ap (λ b. b || has j xs) (sym (other e)))
  | inr e ↦ rw e (ap (λ b. (x == j) || b) (has-erase_ne j k xs h))
]
  where
    other : (x == k) ≡ true → (x == j) ≡ false
    other e = ground (arith, ==_iff x k, ==_iff x j, h)

pub has-lt : (n k : ℕ) (xs : List ℕ) → All (λ x. x < n) xs → has k xs ≡ true → k < n
unfolding has
has-lt n k [] small h = cc
has-lt n k (x ∷ xs) small h = elim (Bool-cases (x == k)) [
  | inl e ↦ ground (arith, ==_iff x k, small.0)
  | inr e ↦ has-lt n k xs small.1 (ap (λ b. b || has k xs) (sym e) ∙ h)
]

pub erase-All : (n k : ℕ) (xs : List ℕ) → All (λ x. x < n) xs → All (λ x. x < n) (erase k xs)
unfolding erase
erase-All n k [] small = tt
erase-All n k (x ∷ xs) small = elim (Bool-cases (x == k)) [
  | inl e ↦ rw e small.1
  | inr e ↦ rw e (small.0, erase-All n k xs small.1)
]

pub IsComplete-nil : (events : List Event) → IsComplete [] [] events → events ≡ []
unfolding IsComplete has
IsComplete-nil [] h = refl
IsComplete-nil (copying k ∷ events) h = cc
IsComplete-nil (counting k ∷ events) h = cc

pub block_at-set_self :
    (blocks : List Bytes) (k : ℕ) (b : Bytes) → k < length blocks → block_at (set blocks k b) k ≡ b
unfolding block_at
block_at-set_self [] k b h = absurd (omega arith)
block_at-set_self (x ∷ blocks) zero b h = refl
block_at-set_self (x ∷ blocks) (suc k) b h = block_at-set_self blocks k b (omega arith)

pub block_at-set_ne :
    (blocks : List Bytes) (j k : ℕ) (b : Bytes)
    → j ≢ k
    → block_at (set blocks k b) j ≡ block_at blocks j
unfolding block_at
block_at-set_ne [] j k b h = refl
block_at-set_ne (x ∷ blocks) zero zero b h = absurd (h refl)
block_at-set_ne (x ∷ blocks) zero (suc k) b h = refl
block_at-set_ne (x ∷ blocks) (suc j) zero b h = refl
block_at-set_ne (x ∷ blocks) (suc j) (suc k) b h = block_at-set_ne blocks j k b (λ e. h (ap suc e))

pub blocks_ext :
    (xs ys : List Bytes)
    → length xs ≡ length ys
    → ((k : ℕ) → k < length ys → block_at xs k ≡ block_at ys k)
    → xs ≡ ys
unfolding block_at
blocks_ext [] [] e h = refl
blocks_ext [] (y ∷ ys) e h = absurd (omega (arith, e))
blocks_ext (x ∷ xs) [] e h = absurd (omega (arith, e))
blocks_ext (x ∷ xs) (y ∷ ys) e h =
    ap (λ z. z ∷ xs) (h 0 (omega arith))
    ∙ ap (◌∷◌ y) (blocks_ext xs ys (omega (arith, e)) (λ k p. h (suc k) (omega (arith, p))))

pub length-indices : (n : ℕ) → length (indices n) ≡ n
unfolding indices
length-indices zero = refl
length-indices (suc n) = ap suc (length-indices n)

pub has-indices : (n k : ℕ) → k < n → has k (indices n) ≡ true
unfolding indices has
has-indices zero k h = absurd (omega arith)
has-indices (suc n) k h = elim (Bool-cases (n == k)) [
  | inl e ↦ rw e
  | inr e ↦ rw e (has-indices n k (ground (arith, ==_iff n k)))
]

below-All : (n m : ℕ) → n < suc m → All (λ x. x < m) (indices n)
unfolding indices
below-All zero m h = tt
below-All (suc n) m h = (omega arith, below-All n m (omega arith))

pub indices-All : (n : ℕ) → All (λ x. x < n) (indices n)
indices-All n = below-All n n (omega arith)
