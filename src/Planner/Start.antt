-- ===== src/Planner/Start.antt =====
-- From the list of active nodes to the plan: `llenarArrayPlanificador` and `planificar` of
-- YAMA/src/funcionesYAMA.c one after the other.
use tp_2017_2c_yatpos.Base.{
  ℕ, suc, ◌+◌, ◌*◌, ◌^◌, ◌<◌, ◌≡◌, ◌∙◌, ◌⊎◌, inl, inr, refl, ap, ap2, sym, subst, List, [], ◌∷◌,
  Bool, false, none, some, arith, length, map, All, ltb, ◌==◌, Bool-cases,
}
use tp_2017_2c_yatpos.Base.Int.{pos, ltb_ℤ}
use tp_2017_2c_yatpos.Serial.Words.{Bytes}
use tp_2017_2c_yatpos.Yfile.{Block}
use tp_2017_2c_yatpos.Stages.{NodeInfo}
use tp_2017_2c_yatpos.Planner.{Worker, Clock}
use tp_2017_2c_yatpos.Planner.Fill.{
  Carga, Choice, carga_de, disponibilidad, elegir, copiar_nombre, llenar, carga_max_de,
  llenar_array_planificador, planificar_archivo,
}
use tp_2017_2c_yatpos.Planner.Plan.{IsPlan, planificar-IsPlan}
use tp_2017_2c_yatpos.Planner.Rounds.{HasNode}

-- The name of a node, empty for NULL.
abbrev pub nombre_de : NodeInfo → Bytes
nombre_de n = elim n.nodo [ none ↦ [] | some t ↦ t ]

copiar_nombre_lem : (n : NodeInfo) {t : Bytes} → copiar_nombre n ≡ some t → nombre_de n ≡ t
unfolding copiar_nombre
copiar_nombre_lem n e = ground arith

-- The clock would start at a worker before `limit`.
abbrev Starts : ℕ → Choice → Type 0
Starts limit e = (p : ℕ) × (e.posicion ≡ some p) × (p < limit)

elegir_lem :
    (c : Carga) (i d : ℕ) (e : Choice)
    → 0 < d
    → Starts i e ⊎ (e.maxima ≡ 0)
    → (e' : Choice) × (elegir (some c) i d e ≡ some e') × Starts (suc i) e'
unfolding elegir
elegir_lem c i d e h s = elim (Bool-cases (ltb e.maxima d)) [
  | inl more ↦ (
    record { maxima = d; posicion = some i; historico = c.carga_historica },
    rw more,
    (i, refl, omega arith),
  )
  | inr less ↦ elim s [
    | inr z ↦ absurd (ground arith)
    | inl (p, at, l) ↦ elim (Bool-cases (d == e.maxima)) [
      | inl same ↦ elim (Bool-cases (ltb_ℤ c.carga_historica e.historico)) [
        | inl older ↦ (
          record e { posicion = some i; historico = c.carga_historica },
          rw (less, same, older),
          (i, refl, omega arith),
        )
        | inr younger ↦ (e, rw (less, same, younger), (p, at, omega arith))
      ]
      | inr other ↦ (e, rw (less, other), (p, at, omega arith))
    ]
  ]
]

module _ (equals_ignore_case : Bytes → Bytes → Bool) (algoritmo : Bytes) (base : ℕ) where
  -- The node's name fits 6 bytes, its load is known, and its availability is positive and leaves
  -- room for `extra`.
  abbrev pub IsReady : List Carga → (extra : ℕ) → NodeInfo → Type 0
  IsReady cargas extra n =
      (t : Bytes) × (c : Carga) × (d : ℕ) × (copiar_nombre n ≡ some t)
      × (carga_de equals_ignore_case cargas t ≡ some c)
      × (disponibilidad equals_ignore_case algoritmo base cargas
            (carga_max_de equals_ignore_case algoritmo base cargas) t
          ≡ some d)
      × (0 < d)
      × (d + extra < 2 ^ 32)

  record Filled (cargas : List Carga) (extra i : ℕ) (e : Choice) (ns : List NodeInfo) : Type 0 where
    workers : List Worker
    last : Choice
    ran :
        llenar equals_ignore_case algoritmo base cargas
          (carga_max_de equals_ignore_case algoritmo base cargas)
          i
          e
          ns
        ≡ some (workers, last)
    names : map (λ (w : Worker). w.nombre_worker) workers ≡ map nombre_de ns
    fresh : All (λ (w : Worker). (w.bloque ≡ []) × (w.disponibilidad + extra < 2 ^ 32)) workers
    size : length workers ≡ length ns
    starts : Starts (i + length ns) last

  llenar-Filled :
      (cargas : List Carga) (extra i : ℕ) (e : Choice) (ns : List NodeInfo)
      → All (IsReady cargas extra) ns
      → Starts i e ⊎ ((e.maxima ≡ 0) × (0 < length ns))
      → Filled cargas extra i e ns
  unfolding llenar
  llenar-Filled cargas extra i e [] h (inl (p, at, l)) = record {
    workers = [];
    last = e;
    ran = refl;
    names = refl;
    fresh = tt;
    size = refl;
    starts = (p, at, omega arith);
  }
  llenar-Filled cargas extra i e [] h (inr (z, l)) = absurd (omega arith)
  llenar-Filled cargas extra i e (n ∷ ns) ((t, c, d, copied, load, free, more, room), hs) s =
      let before : Starts i e ⊎ (e.maxima ≡ 0) = elim s [ inl x ↦ inl x | inr y ↦ inr y.0 ] in
      let (e', chosen, starts) = elegir_lem c i d e more before in
      let rest = llenar-Filled cargas extra (suc i) e' ns hs (inl starts) in
      record {
        workers = record { disponibilidad = d; nombre_worker = t; bloque = [] } ∷ rest.workers;
        last = rest.last;
        ran = rw (copied, free, load, llenar) (rw (chosen, rest.ran));
        names = ap2 (λ x (xs : List Bytes). x ∷ xs) (sym (copiar_nombre_lem n copied)) rest.names;
        fresh = ((refl, room), rest.fresh);
        size = ap suc rest.size;
        starts = subst (λ m. Starts m rest.last) (omega arith) rest.starts;
      }

  -- From the active nodes to the plan: the clock starts at one of them, and the loop ends with every
  -- block planned exactly once, on a node with a copy of it. DISP_BASE is positive, there are nodes
  -- and blocks, each node's name fits its 6 bytes, its load is known and its availability is
  -- positive and has room for DISP_BASE in each of the at most 2 * n rounds per block for n nodes,
  -- and each block has a copy on one of the nodes; the counter may hold anything.
  pub planificar_archivo-IsPlan :
      (blocks : List Block) (cargas : List Carga) (nodos : List NodeInfo) (contador fuel : ℕ)
      → 0 < base
      → 0 < length blocks
      → 0 < length nodos
      → fuel ≡ length blocks * (2 * length nodos) + 1
      → All (IsReady cargas (base * fuel)) nodos
      → All (HasNode base blocks (map nombre_de nodos)) blocks
      → (c' : Clock) × (planificar_archivo equals_ignore_case algoritmo base blocks cargas nodos
            contador fuel
          ≡ some c')
        × IsPlan base blocks (map nombre_de nodos) c'.planificador
  unfolding planificar_archivo llenar_array_planificador
  planificar_archivo-IsPlan blocks cargas nodos contador fuel q some_block some_node e ready all =
      let filled =
        llenar-Filled cargas (base * fuel) 0
          (record { maxima = 0; posicion = none; historico = pos 0 }) nodos ready
          (inr (refl, some_node)) in
      let (p, at, limit) = filled.starts in
      let (c', ran, plan) =
        planificar-IsPlan base blocks
          (record {
            planificador = filled.workers;
            posicion = p;
            bloque = 0;
            contador = contador;
            asigne = false;
          })
          fuel q some_block refl refl (omega (arith, filled.size))
          (e ∙ ap (λ n. length blocks * (2 * n) + 1) (sym filled.size)) filled.fresh
          (subst (λ ns. All (HasNode base blocks ns) blocks) (sym filled.names) all) in
      (
        c',
        rw (filled.ran, planificar_archivo) (rw at ran),
        subst (λ ns. IsPlan base blocks ns c'.planificador) filled.names plan,
      )
