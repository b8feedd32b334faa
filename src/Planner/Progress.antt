-- ===== src/Planner/Progress.antt =====
-- Why the loop of `planificar` in YAMA/src/funcionesYAMA.c ends: every round that assigns no block
-- brings the clock nearer to a node that has the current one.
use tp_2017_2c_yatpos.Base.{
  ℕ, zero, suc, ◌+◌, ◌-◌, ◌*◌, ◌^◌, ◌<◌, ◌≤◌, ◌≡◌, ◌≢◌, ◌⊎◌, ◌∙◌, refl, ap, sym, List, [], ◌∷◌,
  Bool, true, false, some, arith, length, get_elem?, set, map, ◌==◌, leb, if◌then◌else◌, Bool-cases,
  inl, inr, some_inj, ap2, get_elem?-set_self, get_elem?-set_ne,
}
use tp_2017_2c_yatpos.Yfile.{Block}
use tp_2017_2c_yatpos.Planner.{
  Worker, Clock, tiene_copia, recargo, avanzo_posicion, asigno_bloque, sumo_base,
}
use tp_2017_2c_yatpos.Planner.Move.{Move, recharged, assigned, advanced}

-- The rounds until the clock of `n` workers, now at `posicion`, assigns to worker `k`.
abbrev pub wait : ℕ → ℕ → ℕ → ℕ → ℕ
wait n posicion k disponibilidad =
    (if leb posicion k then k - posicion else n + k - posicion)
    + (if disponibilidad == 0 then n else 0)

wait_elsewhere :
    (n p k d d' : ℕ) → p < n → k < n → p ≢ k → (0 < d → 0 < d') → wait n (suc p) k d' < wait n p k d
wait_elsewhere n p k d d' h l e f = ground arith

wait_here : (n k d d' : ℕ) → k < n → d ≡ 0 → 0 < d' → wait n (suc k) k d' < wait n k k d
wait_here n k d d' l e f = ground arith

pub wait-le : (n p k d : ℕ) → p ≤ n → k < n → wait n p k d < 2 * n
wait-le n p k d h l = ground arith

get_elem?-map :
    {A B : Type 0} (f : A → B) (xs : List A) (i : ℕ) {x : A}
    → get_elem? xs i ≡ some x
    → get_elem? (map f xs) i ≡ some (f x)
get_elem?-map f [] i e = ground arith
get_elem?-map f (x ∷ xs) zero e = ap (λ y. some (f y)) (some_inj e)
get_elem?-map f (x ∷ xs) (suc i) e = get_elem?-map f xs i e

module _ (base : ℕ) (blocks : List Block) where
  -- The worker `k` after the round of a worker without a copy.
  todos-worker :
      (todos : Bool) (ws : List Worker) (k : ℕ) (w : Worker)
      → 0 < base
      → w.disponibilidad + base < 2 ^ 32
      → get_elem? ws k ≡ some w
      → (w' : Worker) × (get_elem? (if todos then map (sumo_base base) ws else ws) k ≡ some w')
        × (w'.nombre_worker ≡ w.nombre_worker)
        × (0 < w.disponibilidad → 0 < w'.disponibilidad)
  unfolding sumo_base
  todos-worker true ws k w q o h =
      (sumo_base base w, get_elem?-map (sumo_base base) ws k h, refl, λ d. grind arith)
  todos-worker false ws k w q o h = (w, h, refl, λ d. d)

  -- The worker `k` after a round that assigned no block: the clock is nearer to it.
  abbrev pub Nearer : Clock → Clock → ℕ → Worker → Type 0
  Nearer c c' k w =
      (c'.bloque ≡ c.bloque)
      × (c'.asigne ≡ c.asigne)
      × (w' : Worker) × (get_elem? c'.planificador k ≡ some w')
      × (w'.nombre_worker ≡ w.nombre_worker)
      × (wait (length c.planificador) c'.posicion k w'.disponibilidad
          < wait (length c.planificador) c.posicion k w.disponibilidad)

  pub Move-Nearer :
      (c c' : Clock) (k : ℕ) (w : Worker) (b : Block)
      → Move base blocks c c'
      → 0 < base
      → c.posicion < length c.planificador
      → k < length c.planificador
      → get_elem? c.planificador k ≡ some w
      → w.disponibilidad + base < 2 ^ 32
      → get_elem? blocks c.bloque ≡ some b
      → tiene_copia b w.nombre_worker ≡ some true
      → (c'.bloque ≡ suc c.bloque) ⊎ Nearer c c' k w
  unfolding recargo asigno_bloque avanzo_posicion sumo_base
  Move-Nearer c _ k w b (recharged v hv z) q p l hw o hb t = elim (Bool-cases (c.posicion == k)) [
    | inl e ↦
        let here : c.posicion ≡ k = ground arith in
        let same : v ≡ w = some_inj (sym hv ∙ ap (get_elem? c.planificador) here ∙ hw) in
        inr (
          refl,
          refl,
          record v { disponibilidad = base },
          ap (get_elem? (set c.planificador c.posicion (record v { disponibilidad = base })))
                (sym here)
              ∙ get_elem?-set_self c.planificador c.posicion _ p,
          ap (λ (x : Worker). x.nombre_worker) same,
          rw here (
              wait_here (length c.planificador) k w.disponibilidad base l
                (ap (λ (x : Worker). x.disponibilidad) (sym same) ∙ z) q),
        )
    | inr e ↦
        let away : c.posicion ≢ k = λ x. ground arith in
        inr (
          refl,
          refl,
          w,
          get_elem?-set_ne c.planificador _ away ∙ hw,
          refl,
          wait_elsewhere (length c.planificador) c.posicion k w.disponibilidad w.disponibilidad p l
              away (λ d. d),
        )
  ]
  Move-Nearer c _ k w b (assigned v b' hv z hb' r) q p l hw o hb t = inl refl
  Move-Nearer c _ k w b (advanced v b' hv z hb' r) q p l hw o hb t =
      let (w', hw', same, more) =
        todos-worker (suc c.contador == length c.planificador) c.planificador k w q o hw in
      inr (
        refl,
        refl,
        w',
        hw',
        same,
        wait_elsewhere (length c.planificador) c.posicion k w.disponibilidad w'.disponibilidad p l
            away more,
      )
    where
      away : c.posicion ≢ k
      away e =
          let same : v ≡ w = some_inj (sym hv ∙ ap (get_elem? c.planificador) e ∙ hw) in
          let block : b' ≡ b = some_inj (sym hb' ∙ hb) in
          let no : some false ≡ some true =
            sym r ∙ ap2 tiene_copia block (ap (λ (x : Worker). x.nombre_worker) same) ∙ t in
          cc
