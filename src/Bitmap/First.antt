-- ===== src/Bitmap/First.antt =====
-- What `bitmap_firstzero` and `bitmap_firstone` of Shared/bitmap.c find.
use tp_2017_2c_yatpos.Base.{
  ℕ, zero, suc, ◌+◌, ◌<◌, ◌≤◌, ◌≡◌, ◌⊎◌, inl, inr, refl, Bool, true, false, not, subst, Option,
  none, some, arith,
}
use tp_2017_2c_yatpos.Bitmap.Bits.{BitArray}
use tp_2017_2c_yatpos.Bitmap.{Bitmap, bitmap_test, first_from, bitmap_firstzero}

le_cases : (i j : ℕ) → i ≤ j → (i ≡ j) ⊎ (i < j)
le_cases i j h = ground arith

module _ (B : BitArray) where
  -- The smallest index from `i` on and before `limit` whose bit is as wanted, or that none is.
  abbrev pub IsFirst : (Bool → Bool) → Bitmap B → (i limit : ℕ) → Option ℕ → Type 0
  IsFirst wanted b i limit none = (j : ℕ) → i ≤ j → j < limit → wanted (bitmap_test B b j) ≡ false
  IsFirst wanted b i limit (some k) =
      (i ≤ k)
      × (k < limit)
      × (wanted (bitmap_test B b k) ≡ true)
      × ((j : ℕ) → i ≤ j → j < k → wanted (bitmap_test B b j) ≡ false)

  widen :
      (wanted : Bool → Bool) (b : Bitmap B) (i limit : ℕ) (r : Option ℕ)
      → wanted (bitmap_test B b i) ≡ false
      → IsFirst wanted b (suc i) limit r
      → IsFirst wanted b i limit r
  widen wanted b i limit none e h = λ j l u. elim (le_cases i j l) [
    | inl same ↦ subst (λ n. wanted (bitmap_test B b n) ≡ false) same e
    | inr past ↦ h j past u
  ]
  widen wanted b i limit (some k) e (l, u, found, before) = (
    omega arith,
    u,
    found,
    λ j p q. elim (le_cases i j p) [
      | inl same ↦ subst (λ n. wanted (bitmap_test B b n) ≡ false) same e
      | inr past ↦ before j past q
    ],
  )

  first_from-IsFirst :
      (wanted : Bool → Bool) (b : Bitmap B) (left i : ℕ)
      → IsFirst wanted b i (i + left) (first_from B wanted b left i)
  unfolding first_from
  first_from-IsFirst wanted b zero i = λ j l u. absurd (omega arith)
  first_from-IsFirst wanted b (suc left) i =
      go (first_from-IsFirst wanted b left (suc i)) (wanted (bitmap_test B b i)) refl
    where
      go :
          IsFirst wanted b (suc i) (suc i + left) (first_from B wanted b left (suc i))
          → (r : Bool) → wanted (bitmap_test B b i) ≡ r
          → IsFirst wanted b i
              (i + suc left)
              (elim r [ true ↦ some i | false ↦ first_from B wanted b left (suc i) ])
      go rest true e = (omega arith, omega arith, e, λ j l u. absurd (omega arith))
      go rest false e = widen wanted b i (i + suc left) (first_from B wanted b left (suc i)) e (
          subst (λ n. IsFirst wanted b (suc i) n (first_from B wanted b left (suc i))) (omega arith)
            rest)

  -- `bitmap_firstzero` gives the smallest bit of the map that is 0, or -1 if all of them are 1.
  pub bitmap_firstzero-IsFirst : (b : Bitmap B) → IsFirst not b 0 b.size (bitmap_firstzero B b)
  unfolding bitmap_firstzero
  bitmap_firstzero-IsFirst b =
      subst (λ n. IsFirst not b 0 n (first_from B not b b.size 0)) (omega arith)
        (first_from-IsFirst not b b.size 0)
