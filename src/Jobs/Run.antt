-- ===== src/Jobs/Run.antt =====
-- Running an action of Jobs/State after another that returned.
use tp_2017_2c_yatpos.Base.{◌≡◌, refl}
use tp_2017_2c_yatpos.Jobs.State.{Yama, Outcome, Action, returns, exits, faults, ◌>>=◌}

module _ {A B : Type 0} where
  pub bind-returns :
      (m : Action A) (f : A → Action B) {y y' : Yama} {a : A}
      → m y ≡ returns a y'
      → (m >>= f) y ≡ f a y'
  unfolding ◌>>=◌
  bind-returns m f e = rw (e, ◌>>=◌) refl

module _ {A B : Type 0} where
  after_outcome :
      (f : A → Action B) (o : Outcome A) {z : Yama} {b : B}
      → elim o [ returns a y' ↦ f a y' | exits y' ↦ exits y' | faults ↦ faults ] ≡ returns b z
      → (a : A) × (y' : Yama) × (o ≡ returns a y') × (f a y' ≡ returns b z)
  after_outcome f (returns a y') e = (a, y', refl, e)
  after_outcome f (exits y') e = cc
  after_outcome f faults e = cc

  -- When a sequence returns, its first action did.
  pub bind-returns_inv :
      (m : Action A) (f : A → Action B) (y : Yama) {z : Yama} {b : B}
      → (m >>= f) y ≡ returns b z
      → (a : A) × (y' : Yama) × (m y ≡ returns a y') × (f a y' ≡ returns b z)
  unfolding ◌>>=◌
  bind-returns_inv m f y e = after_outcome f (m y) e

pub returns_inj : {A : Type 0} {a b : A} {y z : Yama} → returns a y ≡ returns b z → y ≡ z
returns_inj e = cc
