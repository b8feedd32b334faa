-- ===== src/Planner/Rounds.antt =====
-- One round of `planificar` (YAMA/src/funcionesYAMA.c): the block is assigned, or its node is nearer.
use tp_2017_2c_yatpos.Base.{
  ℕ, zero, suc, ◌+◌, ◌*◌, ◌^◌, ◌<◌, ◌≤◌, ◌≡◌, ◌∙◌, ap, sym, subst, List, [], ◌∷◌, true, false, some,
  arith, length, get_elem?, All, ◌==◌, if◌then◌else◌, inl, inr, ◌⊎◌,
}
use tp_2017_2c_yatpos.Serial.Words.{Bytes}
use tp_2017_2c_yatpos.Yfile.{Block}
use tp_2017_2c_yatpos.Planner.{Worker, Clock, tiene_copia, verificar_condicion, vuelta, planificar}
use tp_2017_2c_yatpos.Planner.Move.{verificar_condicion-Move, get_elem?-lt}
use tp_2017_2c_yatpos.Planner.Progress.{wait, Move-Nearer}
use tp_2017_2c_yatpos.Planner.Good.{Good, IsBelow, Move-Good}
use tp_2017_2c_yatpos.Planner.Workers.{All-get_elem?, get_elem?-map_inv, length-map}

module _ (base : ℕ) (blocks : List Block) where
  -- Some of the nodes has a copy.
  abbrev pub HasNode : List Bytes → Block → Type 0
  HasNode nombres b =
      (k : ℕ) × (nombre : Bytes) × (get_elem? nombres k ≡ some nombre)
      × (tiene_copia b nombre ≡ some true)

  -- The current block waits for worker `k`, who has it.
  abbrev pub Waits : Clock → ℕ → Worker → Block → Type 0
  Waits c k w b =
      (get_elem? c.planificador k ≡ some w)
      × (get_elem? blocks c.bloque ≡ some b)
      × (tiene_copia b w.nombre_worker ≡ some true)

  pub get_elem?-length :
      {A : Type 0} (xs : List A) (i : ℕ) {x : A} → get_elem? xs i ≡ some x → i < length xs
  get_elem?-length [] i e = ground arith
  get_elem?-length (x ∷ xs) zero e = omega arith
  get_elem?-length (x ∷ xs) (suc i) e = omega (arith, get_elem?-length xs i e)

  pub next_wait :
      (nombres : List Bytes) (fuel : ℕ) (c : Clock)
      → Good base blocks nombres fuel c
      → All (HasNode nombres) blocks
      → c.bloque < length blocks
      → (k : ℕ) × (w : Worker) × (b : Block) × Waits c k w b
  next_wait nombres fuel c g h l =
      let (b, hb) = get_elem?-lt blocks c.bloque l in
      let (k, nombre, at, t) = All-get_elem? (HasNode nombres) blocks c.bloque h hb in
      let (w, hw, same) =
        get_elem?-map_inv (λ (x : Worker). x.nombre_worker) c.planificador k
          (ap (λ ns. get_elem? ns k) g.same ∙ at) in
      (k, w, b, (hw, hb, ap (tiene_copia b) same ∙ t))

  vuelta-Good :
      (nombres : List Bytes) (fuel : ℕ) (c : Clock)
      → Good base blocks nombres fuel c
      → Good base blocks nombres fuel (vuelta base blocks c)
  vuelta-Good nombres fuel c g = record {
    same = g.same;
    below = g.below;
    served = g.served;
    once = g.once;
    bloque_le = g.bloque_le;
    position = ground arith;
    ended = g.ended;
  }

  wait-vuelta : (n p k d : ℕ) → p ≤ n → k < n → wait n (if p == n then 0 else p) k d ≡ wait n p k d
  wait-vuelta n p k d h l = ground arith

  vuelta-lt : (n p k : ℕ) → p ≤ n → k < n → (if p == n then 0 else p) < n
  vuelta-lt n p k h l = ground arith

  enough_room : (fuel d : ℕ) → d + base * suc fuel < 2 ^ 32 → d + base < 2 ^ 32
  enough_room fuel d h = grind arith

  pub workers_count :
      (nombres : List Bytes) (fuel : ℕ) (c : Clock)
      → Good base blocks nombres fuel c
      → length c.planificador ≡ length nombres
  workers_count nombres fuel c g =
      sym (length-map (λ (x : Worker). x.nombre_worker) c.planificador) ∙ ap length g.same

  -- A round assigns the current block, or brings the clock nearer to worker `k`.
  pub record Round (nombres : List Bytes) (fuel : ℕ) (c : Clock) (k : ℕ) (w : Worker) (b : Block)
      : Type 0 where
    pub after : Clock
    pub ran : planificar base blocks (suc fuel) c ≡ planificar base blocks fuel after
    pub good : Good base blocks nombres fuel after
    pub progress :
        (after.bloque ≡ suc c.bloque)
        ⊎ ((after.bloque ≡ c.bloque)
            × (w' : Worker) × Waits after k w' b
            × (wait (length nombres) after.posicion k w'.disponibilidad
                < wait (length nombres) c.posicion k w.disponibilidad))

  planificar_step :
      (fuel : ℕ) (c c' : Clock)
      → c.asigne ≡ false
      → verificar_condicion base blocks (vuelta base blocks c) ≡ some c'
      → planificar base blocks (suc fuel) c ≡ planificar base blocks fuel c'
  unfolding planificar
  planificar_step fuel c c' off ran = rw (off, planificar) (rw ran)

  nearer_vuelta :
      {n m : ℕ} (p p' k d d' : ℕ)
      → n ≡ m
      → p ≤ n
      → k < n
      → wait n p' k d' < wait n (if p == n then 0 else p) k d
      → wait m p' k d' < wait m p k d
  nearer_vuelta {n} p p' k d d' e h l less =
      subst (λ x. wait x p' k d' < wait x p k d) e
        (subst (λ x. wait n p' k d' < x) (wait-vuelta n p k d h l) less)

  pub planificar-Round :
      (nombres : List Bytes) (fuel : ℕ) (c : Clock) (k : ℕ) (w : Worker) (b : Block)
      → 0 < base
      → Good base blocks nombres (suc fuel) c
      → c.bloque < length blocks
      → Waits c k w b
      → Round nombres fuel c k w b
  planificar-Round nombres fuel c k w b q g l (hw, hb, t) =
      let k_lt = get_elem?-length c.planificador k hw in
      let off : c.asigne ≡ false = ground arith in
      let g1 = vuelta-Good nombres (suc fuel) c g in
      let p = vuelta-lt (length c.planificador) c.posicion k g.position k_lt in
      let (c2, ran, move) =
        verificar_condicion-Move base blocks (vuelta base blocks c) b w.nombre_worker p hb t in
      let room =
        enough_room fuel w.disponibilidad
          (All-get_elem? (IsBelow base blocks (suc fuel)) c.planificador k g.below hw) in
      record {
        after = c2;
        ran = planificar_step fuel c c2 off ran;
        good = Move-Good base blocks nombres fuel (vuelta base blocks c) c2 move off p l g1;
        progress =
            elim (Move-Nearer base blocks (vuelta base blocks c) c2 k w b move q p k_lt hw room hb
              t) [
                | inl e ↦ inl e
                | inr (same, still, w', hw', name, less) ↦ inr (
                  same,
                  w',
                  (hw', ap (get_elem? blocks) same ∙ hb, ap (tiene_copia b) name ∙ t),
                  nearer_vuelta c.posicion c2.posicion k w.disponibilidad w'.disponibilidad
                      (workers_count nombres (suc fuel) c g) g.position k_lt less,
                )
              ];
      }
