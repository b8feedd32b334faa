-- ===== src/Mlist/Unique.antt =====
-- A list has one arrangement by an order, which is the one that Shared/mlist.c gives.
use tp_2017_2c_yatpos.Base.{
  suc, ◌≡◌, ◌∙◌, refl, ap, ap2, sym, subst, List, [], ◌∷◌, Bool, true, length, All,
}
use native.Mathlib.Nat.{ℕ_set}
use mathlib.Core.Logic.{∥∥₁_elim}
use mathlib.Core.Logic.Or
use mathlib.Core.Bool.{Bool-set}
use mathlib.Core.List.{Mem, mem-cons, not-mem-nil, mem-cons_self, Perm, Permᴰ}
use mathlib.Core.List.Perm
use tp_2017_2c_yatpos.Mlist.Sort.{IsSorted}

length-permᴰ {ℓ} : {A : Type ℓ} {xs ys : List A} → Permᴰ xs ys → length xs ≡ length ys
length-permᴰ Permᴰ.nil = refl
length-permᴰ (Permᴰ.cons e p) = ap suc (length-permᴰ p)
length-permᴰ (Permᴰ.swap e f) = refl
length-permᴰ (Permᴰ.trans p q) = length-permᴰ p ∙ length-permᴰ q

pub length-perm {ℓ} : {A : Type ℓ} {xs ys : List A} → Perm xs ys → length xs ≡ length ys
length-perm p = ∥∥₁_elim p (ℕ_set _ _) length-permᴰ

module _ {A : Type 0} (cmp : A → A → Bool) where
  abbrev InOrder : List A → Type 0
  InOrder xs = IsSorted (λ x y. cmp x y ≡ true) xs

  All-mem : (x y : A) (xs : List A) → All (λ y. cmp x y ≡ true) xs → Mem y xs → cmp x y ≡ true
  All-mem x y [] h m = absurd (not-mem-nil m)
  All-mem x y (z ∷ xs) (h, hs) m =
      Or.elim (Bool-set (cmp x y) true) (mem-cons.0 m) (λ e. subst (λ z. cmp x z ≡ true) (sym e) h)
        (All-mem x y xs hs)

  pub IsSorted-unique :
      ((x y : A) → cmp x y ≡ true → cmp y x ≡ true → x ≡ y)
      → ((x : A) → cmp x x ≡ true)
      → (xs ys : List A) → InOrder xs
      → InOrder ys
      → Perm xs ys
      → xs ≡ ys
  IsSorted-unique anti self [] ys p q same = Perm.nil-eq same
  IsSorted-unique anti self (x ∷ xs) [] p q same = Perm.eq-nil same
  IsSorted-unique anti self (x ∷ xs) (y ∷ ys) (px, pxs) (qy, qys) same =
      let heads : x ≡ y =
        anti x y (All-mem x y (x ∷ xs) (self x, px) ((Perm.mem_iff same).1 mem-cons_self))
          (All-mem y x (y ∷ ys) (self y, qy) ((Perm.mem_iff same).0 mem-cons_self)) in
      ap2 ◌∷◌ heads (
        IsSorted-unique anti self xs ys pxs qys
          (Perm.cons_inv (Perm.trans same (Perm.cons' (sym heads) Perm.rfl))))
