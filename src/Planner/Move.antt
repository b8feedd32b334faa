-- ===== src/Planner/Move.antt =====
-- The three things that a round of `planificar` in YAMA/src/funcionesYAMA.c can do.
use tp_2017_2c_yatpos.Base.{
  ℕ, zero, suc, ◌<◌, ◌≡◌, refl, List, [], ◌∷◌, Bool, true, false, some, arith, length, get_elem?,
  ◌==◌, Bool-cases, inl, inr, Option-cases, eq_bytes, ◌||◌,
}
use tp_2017_2c_yatpos.Serial.Words.{Bytes}
use tp_2017_2c_yatpos.Yfile.{Block}
use tp_2017_2c_yatpos.Planner.{
  Worker, Clock, tiene_copia, recargo, avanzo_posicion, asigno_bloque, verificar_condicion,
}

-- One node with a copy is enough to compare the block with every other.
pub tiene_copia-total :
    (b : Block) (nombre other : Bytes)
    → tiene_copia b nombre ≡ some true
    → (r : Bool) × (tiene_copia b other ≡ some r)
unfolding tiene_copia
tiene_copia-total b nombre other h = elim (Option-cases b.copy0.node) [
  | inl e0 ↦ elim (Option-cases b.copy1.node) [
    | inl e1 ↦ ground arith
    | inr (n1, e1) ↦ (eq_bytes n1 other, rw (e0, e1))
  ]
  | inr (n0, e0) ↦ elim (Option-cases b.copy1.node) [
    | inl e1 ↦ (eq_bytes n0 other, rw (e0, e1))
    | inr (n1, e1) ↦ (eq_bytes n0 other || eq_bytes n1 other, rw (e0, e1))
  ]
]

pub get_elem?-lt :
    {A : Type 0} (xs : List A) (i : ℕ) → i < length xs → (x : A) × (get_elem? xs i ≡ some x)
get_elem?-lt [] i h = absurd (omega arith)
get_elem?-lt (x ∷ xs) zero h = (x, refl)
get_elem?-lt (x ∷ xs) (suc i) h = get_elem?-lt xs i (omega arith)

module _ (base : ℕ) (blocks : List Block) where
  pub data Move (c : Clock) : Clock → Type 0 where
    recharged :
        (w : Worker)
        → get_elem? c.planificador c.posicion ≡ some w
        → w.disponibilidad ≡ 0
        → Move c (recargo base w c)
    assigned :
        (w : Worker) (b : Block)
        → get_elem? c.planificador c.posicion ≡ some w
        → 0 < w.disponibilidad
        → get_elem? blocks c.bloque ≡ some b
        → tiene_copia b w.nombre_worker ≡ some true
        → Move c (asigno_bloque blocks w c)
    advanced :
        (w : Worker) (b : Block)
        → get_elem? c.planificador c.posicion ≡ some w
        → 0 < w.disponibilidad
        → get_elem? blocks c.bloque ≡ some b
        → tiene_copia b w.nombre_worker ≡ some false
        → Move c (avanzo_posicion base c)

  -- With a block that some node has, and a position in the array, the round does one of them.
  pub verificar_condicion-Move :
      (c : Clock) (b : Block) (nombre : Bytes)
      → c.posicion < length c.planificador
      → get_elem? blocks c.bloque ≡ some b
      → tiene_copia b nombre ≡ some true
      → (c' : Clock) × (verificar_condicion base blocks c ≡ some c') × Move c c'
  unfolding verificar_condicion
  verificar_condicion-Move c b nombre p hb t =
      let (w, hw) = get_elem?-lt c.planificador c.posicion p in
      elim (Bool-cases (w.disponibilidad == 0)) [
        | inl e ↦ (recargo base w c, rw (hw, e, verificar_condicion), recharged w hw (ground arith))
        | inr e ↦ by_copy w hw e (tiene_copia-total b nombre w.nombre_worker t)
      ]
    where
      by_copy :
          (w : Worker)
          → get_elem? c.planificador c.posicion ≡ some w
          → (w.disponibilidad == 0) ≡ false
          → (r : Bool) × (tiene_copia b w.nombre_worker ≡ some r)
          → (c' : Clock) × (verificar_condicion base blocks c ≡ some c') × Move c c'
      by_copy w hw e (true, r) = (
        asigno_bloque blocks w c,
        rw (hw, e, hb, r, verificar_condicion),
        assigned w b hw (ground arith) hb r,
      )
      by_copy w hw e (false, r) = (
        avanzo_posicion base c,
        rw (hw, e, hb, r, verificar_condicion),
        advanced w b hw (ground arith) hb r,
      )
