-- ===== src/Jobs/Balance.antt =====
-- The load of a node is the sum of the loads of its jobs (YAMA/src/server.h), and
-- `actualizarCargaDelNodo` of YAMA/src/funcionesYAMA.c keeps it so.
use tp_2017_2c_yatpos.Base.{
  ◌≡◌, ◌∙◌, refl, ap, sym, inl, inr, List, [], ◌∷◌, ◌++◌, Bool, true, false, Option, some, All,
  All-set, set, Option-cases,
}
use tp_2017_2c_yatpos.Base.Int.{ℤ, ◌+ℤ◌, ◌-ℤ◌}
use tp_2017_2c_yatpos.Serial.Words.{Bytes}
use tp_2017_2c_yatpos.Planner.Fill.{Carga, CargaJob}
use tp_2017_2c_yatpos.Planner.Workers.{All-get_elem?, map-set}
use tp_2017_2c_yatpos.Mlist.{mlist_index, mlist_append, mlist_replace}
use tp_2017_2c_yatpos.Mlist.Search.{mlist_index-find}
use tp_2017_2c_yatpos.Jobs.State.{Yama, returns, gets, or_fault, modify, ◌>>=◌}
use tp_2017_2c_yatpos.Jobs.Loads.{
  existe_el_job_en_la_copia, eliminar_carga_job_del_nodo, quitar_carga, aumentar_job,
  aumentar_carga, poner_carga, obtener_posicion_carga_nodo, cambiar_carga,
  actualizar_carga_del_nodo,
}
use tp_2017_2c_yatpos.Jobs.Unload.{HasLoad, nombres_de}
use tp_2017_2c_yatpos.Jobs.JobLoads.{
  suma_jobs, Distinct, del_job, suma_jobs-eliminar, suma_jobs-set, suma_jobs-append,
  Distinct-eliminar, Distinct-set, Distinct-append, index_absent,
}

-- The load of a node is the sum of the loads of its jobs, and no job stands twice.
abbrev pub IsBalanced : Carga → Type 0
IsBalanced c = (c.carga_actual ≡ suma_jobs c.carga_por_job) × Distinct c.carga_por_job

-- A job's load taken away from a balanced load.
quitar_carga-IsBalanced :
    (job : ℤ) (c : Carga)
    → IsBalanced c
    → (c' : Carga) × (quitar_carga job c ≡ some c') × IsBalanced c' × (c'.nodo ≡ c.nodo)
unfolding quitar_carga existe_el_job_en_la_copia
quitar_carga-IsBalanced job c (b, d) =
    elim (Option-cases (mlist_index (del_job job) c.carga_por_job)) [
      | inl nothing ↦ (c, rw (nothing, quitar_carga) refl, (b, d), refl)
      | inr (i, at) ↦
          let (j, found, _, _, _) = mlist_index-find (del_job job) c.carga_por_job i at in
          (
            record c {
              carga_actual = c.carga_actual -ℤ j.carga_del_job;
              carga_por_job = eliminar_carga_job_del_nodo job c.carga_por_job;
            },
            rw (at, quitar_carga) (rw found refl),
            (
              ap (λ n. n -ℤ j.carga_del_job) b
                  ∙ sym (suma_jobs-eliminar job c.carga_por_job i j at found d),
              Distinct-eliminar job c.carga_por_job d,
            ),
            refl,
          )
    ]

-- More load for a job, new or not.
aumentar_job-lem :
    (job n : ℤ) (js : List CargaJob)
    → Distinct js
    → (js' : List CargaJob) × (aumentar_job job n js ≡ some js')
      × (suma_jobs js' ≡ suma_jobs js +ℤ n)
      × Distinct js'
unfolding aumentar_job existe_el_job_en_la_copia mlist_append mlist_replace
aumentar_job-lem job n js d = elim (Option-cases (mlist_index (del_job job) js)) [
  | inl nothing ↦ (
    js ++ record { job = job; carga_del_job = n } ∷ [],
    rw (nothing, aumentar_job) refl,
    suma_jobs-append js (record { job = job; carga_del_job = n }),
    Distinct-append js (record { job = job; carga_del_job = n }) (index_absent job js nothing) d,
  )
  | inr (i, at) ↦
      let (j, found, _, _, _) = mlist_index-find (del_job job) js i at in
      (
        set js i (record j { carga_del_job = j.carga_del_job +ℤ n }),
        rw (at, aumentar_job) (rw found refl),
        suma_jobs-set js i j n found,
        Distinct-set js i j (record j { carga_del_job = j.carga_del_job +ℤ n }) found refl d,
      )
]

aumentar_carga-IsBalanced :
    (job n : ℤ) (c : Carga)
    → IsBalanced c
    → (c' : Carga) × (aumentar_carga job n c ≡ some c') × IsBalanced c' × (c'.nodo ≡ c.nodo)
unfolding aumentar_carga
aumentar_carga-IsBalanced job n c (b, d) =
    let (js, made, sum, distinct) = aumentar_job-lem job n c.carga_por_job d in
    (
      record c {
        carga_actual = c.carga_actual +ℤ n;
        carga_historica = c.carga_historica +ℤ n;
        carga_por_job = js;
      },
      rw (made, aumentar_carga) refl,
      (ap (λ m. m +ℤ n) b ∙ sym sum, distinct),
      refl,
    )

module _ (igual : Bytes → Bytes → Bool) where
  -- A load changed in place by a function that succeeds and keeps loads balanced.
  cambiar_carga-IsBalanced :
      (f : Carga → Option Carga) (y : Yama) (nodo : Bytes)
      → ((c : Carga)
          → IsBalanced c
          → (c' : Carga) × (f c ≡ some c') × IsBalanced c' × (c'.nodo ≡ c.nodo))
      → HasLoad igual y.lista_carga nodo
      → All IsBalanced y.lista_carga
      → (cargas : List Carga) × (cambiar_carga igual f nodo y
          ≡ returns tt (record y { lista_carga = cargas }))
        × All IsBalanced cargas
        × (nombres_de cargas ≡ nombres_de y.lista_carga)
  unfolding cambiar_carga gets or_fault modify poner_carga mlist_replace ◌>>=◌
      obtener_posicion_carga_nodo
  cambiar_carga-IsBalanced f y nodo keep (i, at) h =
      let (c, found, _, _, _) =
        mlist_index-find (λ (c : Carga). igual c.nodo nodo) y.lista_carga i at in
      let (c', made, balanced, same) = keep c (All-get_elem? IsBalanced y.lista_carga i h found) in
      (
        set y.lista_carga i c',
        rw at (rw found (rw made refl)),
        All-set IsBalanced y.lista_carga i c' h balanced,
        map-set (λ (c : Carga). c.nodo) y.lista_carga i c' found same,
      )

  -- For a node with a load, and loads that are balanced: `actualizarCargaDelNodo` returns, changes only
  -- the loads, keeps the names of their nodes, and each load is still the sum of the loads of its jobs,
  -- none of which stands twice.
  pub actualizar_carga_del_nodo-IsBalanced :
      (y : Yama) (nodo : Bytes) (job : ℤ) (aumentar : Bool) (cantidad : ℤ)
      → HasLoad igual y.lista_carga nodo
      → All IsBalanced y.lista_carga
      → (cargas : List Carga) × (actualizar_carga_del_nodo igual nodo job aumentar cantidad y
          ≡ returns tt (record y { lista_carga = cargas }))
        × All IsBalanced cargas
        × (nombres_de cargas ≡ nombres_de y.lista_carga)
  unfolding actualizar_carga_del_nodo
  actualizar_carga_del_nodo-IsBalanced y nodo job true cantidad has h =
      cambiar_carga-IsBalanced (aumentar_carga job cantidad) y nodo
        (aumentar_carga-IsBalanced job cantidad) has h
  actualizar_carga_del_nodo-IsBalanced y nodo job false cantidad has h =
      cambiar_carga-IsBalanced (quitar_carga job) y nodo (quitar_carga-IsBalanced job) has h
