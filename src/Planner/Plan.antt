-- ===== src/Planner/Plan.antt =====
-- What `planificar` of YAMA/src/funcionesYAMA.c leaves in the array of workers.
use tp_2017_2c_yatpos.Base.{
  ℕ, zero, suc, ◌+◌, ◌*◌, ◌^◌, ◌<◌, ◌≤◌, ◌≡◌, ◌∙◌, refl, ap, sym, subst, List, [], ◌∷◌, true, false,
  some, arith, length, map, All, All-mono, ltb, if◌then◌else◌, inl, inr,
}
use tp_2017_2c_yatpos.Serial.Words.{Bytes}
use tp_2017_2c_yatpos.Yfile.{Block}
use tp_2017_2c_yatpos.Planner.{Worker, Clock, planificar}
use tp_2017_2c_yatpos.Planner.Progress.{wait, wait-le}
use tp_2017_2c_yatpos.Planner.Good.{Good, IsServed, IsBelow, IsCopy}
use tp_2017_2c_yatpos.Planner.Workers.{count, times, length-map}
use tp_2017_2c_yatpos.Planner.Rounds.{
  HasNode, Waits, next_wait, workers_count, get_elem?-length, planificar-Round,
}

module _ (base : ℕ) (blocks : List Block) where
  -- Each block stands exactly once in the lists of the workers, under a node with a copy of it, and
  -- no other number stands there.
  pub record IsPlan (nombres : List Bytes) (ws : List Worker) : Type 0 where
    pub same : map (λ (w : Worker). w.nombre_worker) ws ≡ nombres
    pub served : All (IsServed base blocks) ws
    pub once : (n : ℕ) → times n ws ≡ (if ltb n (length blocks) then 1 else 0)

  planificar-ends :
      (nombres : List Bytes) (fuel : ℕ) (c : Clock)
      → 0 < fuel
      → Good base blocks nombres fuel c
      → c.bloque ≡ length blocks
      → (c' : Clock) × (planificar base blocks fuel c ≡ some c') × IsPlan nombres c'.planificador
  unfolding planificar
  planificar-ends nombres zero c h g e = absurd (omega arith)
  planificar-ends nombres (suc fuel) c h g e =
      let on : c.asigne ≡ true = ground arith in
      (
        record c { asigne = false },
        rw (on, planificar),
        record {
          same = g.same;
          served = g.served;
          once = λ n. g.once n ∙ ap (λ m. if ltb n m then 1 else 0) e;
        },
      )

  abbrev Ends : List Bytes → ℕ → Clock → Type 0
  Ends nombres fuel c =
      (c' : Clock) × (planificar base blocks fuel c ≡ some c') × IsPlan nombres c'.planificador

  -- Enough fuel for the current block, and for the `r` blocks after it.
  abbrev Finishes : List Bytes → ℕ → Type 0
  Finishes nombres fuel =
      (c : Clock) (k : ℕ) (w : Worker) (b : Block) (r : ℕ)
      → Good base blocks nombres fuel c
      → Waits base blocks c k w b
      → c.bloque + suc r ≡ length blocks
      → wait (length nombres) c.posicion k w.disponibilidad + r * (2 * length nombres) + 2 ≤ fuel
      → Ends nombres fuel c

  block_fuel :
      (n r m fuel : ℕ) → m < 2 * n → suc r * (2 * n) + 2 ≤ suc fuel → m + r * (2 * n) + 2 ≤ fuel
  block_fuel n r m fuel h l = grind arith

  -- After a round that assigned a block, which was the last or not.
  after_block :
      (nombres : List Bytes) (fuel : ℕ) (c : Clock) (r : ℕ)
      → All (HasNode base blocks nombres) blocks
      → Finishes nombres fuel
      → Good base blocks nombres fuel c
      → c.bloque + r ≡ length blocks
      → r * (2 * length nombres) + 2 ≤ suc fuel
      → Ends nombres fuel c
  after_block nombres fuel c zero all again g e l =
      planificar-ends nombres fuel c (omega arith) g (omega arith)
  after_block nombres fuel c (suc r) all again g e l =
      let (k, w, b, h) = next_wait base blocks nombres fuel c g all (omega arith) in
      let n = workers_count base blocks nombres fuel c g in
      again c k w b r g h e (
        block_fuel (length nombres) r _ fuel
          (wait-le (length nombres) c.posicion k w.disponibilidad (omega (arith, n, g.position))
            (omega (arith, n, get_elem?-length base blocks c.planificador k h.0)))
          l)

  finishes :
      (nombres : List Bytes) (fuel : ℕ)
      → 0 < base
      → All (HasNode base blocks nombres) blocks
      → Finishes nombres fuel
  finishes nombres zero q all c k w b r g h e l = absurd (omega arith)
  finishes nombres (suc fuel) q all c k w b r g h e l =
      let again = finishes nombres fuel q all in
      let round = planificar-Round base blocks nombres fuel c k w b q g (omega arith) h in
      let (c', ran, plan) : Ends nombres fuel round.after = elim round.progress [
        | inl e2 ↦
            after_block nombres fuel round.after r all again round.good (omega arith) (omega arith)
        | inr (same, w', h', less) ↦
            again round.after k w' b r round.good h' (omega (arith, same)) (omega (arith, less))
      ] in
      (c', round.ran ∙ ran, plan)

  times-empty : (n : ℕ) (ws : List Worker) → All (λ (w : Worker). w.bloque ≡ []) ws → times n ws ≡ 0
  unfolding times count
  times-empty n [] h = refl
  times-empty n (w ∷ ws) (h, hs) = rw (h, times-empty n ws hs)

  -- Every block of a file is planned exactly once, on a node that has a copy of it, and the loop
  -- ends: from any position and any value of the counter, with empty lists, when DISP_BASE is
  -- positive, the file has a block, each block has a copy on one of the nodes, and the availability
  -- has room for DISP_BASE in each of the at most 2 * n rounds per block for n nodes.
  pub planificar-IsPlan :
      (c : Clock) (fuel : ℕ)
      → 0 < base
      → 0 < length blocks
      → c.bloque ≡ 0
      → c.asigne ≡ false
      → c.posicion ≤ length c.planificador
      → fuel ≡ length blocks * (2 * length c.planificador) + 1
      → All
          (λ (w : Worker). (w.bloque ≡ []) × (w.disponibilidad + base * fuel < 2 ^ 32))
          c.planificador
      → All (HasNode base blocks (map (λ (w : Worker). w.nombre_worker) c.planificador)) blocks
      → (c' : Clock) × (planificar base blocks fuel c ≡ some c')
        × IsPlan (map (λ (w : Worker). w.nombre_worker) c.planificador) c'.planificador
  planificar-IsPlan c fuel q some_block first off at e ws all =
      let nombres = map (λ (w : Worker). w.nombre_worker) c.planificador in
      after_block nombres fuel c (length blocks) all (finishes nombres fuel q all) begin
        (omega arith)
        (omega (
          arith,
          ap (λ n. length blocks * (2 * n))
              (length-map (λ (w : Worker). w.nombre_worker) c.planificador),
          e,
        ))
    where
      nothing_yet : (n : ℕ) → zero ≡ (if ltb n c.bloque then 1 else 0)
      nothing_yet n = ground arith

      begin : Good base blocks (map (λ (w : Worker). w.nombre_worker) c.planificador) fuel c
      begin = record {
        same = refl;
        below = All-mono _ (IsBelow base blocks fuel) c.planificador (λ w h. h.1) ws;
        served =
            All-mono _ (IsServed base blocks) c.planificador
              (λ w h. subst (All (IsCopy base blocks w.nombre_worker)) (sym h.0) tt) ws;
        once = λ n.
            times-empty n c.planificador
              (All-mono _ (λ (w : Worker). w.bloque ≡ []) c.planificador (λ w h. h.0) ws)
            ∙ nothing_yet n;
        bloque_le = omega arith;
        position = at;
        ended = ground arith;
      }
