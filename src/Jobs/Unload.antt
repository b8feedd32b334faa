-- ===== src/Jobs/Unload.antt =====
-- Taking a load away (YAMA/src/funcionesYAMA.c) from a node that has one.
use tp_2017_2c_yatpos.Base.{
  ℕ, ◌≡◌, ◌∙◌, refl, ap, sym, inl, inr, List, map, Bool, false, some, set, Option-cases,
}
use tp_2017_2c_yatpos.Base.Int.{ℤ, ◌-ℤ◌, eq_ℤ}
use tp_2017_2c_yatpos.Serial.Words.{Bytes}
use tp_2017_2c_yatpos.Planner.Fill.{Carga, CargaJob}
use tp_2017_2c_yatpos.Planner.Workers.{map-set}
use tp_2017_2c_yatpos.Mlist.{mlist_index, mlist_replace}
use tp_2017_2c_yatpos.Mlist.Search.{mlist_index-find, mlist_index-map}
use tp_2017_2c_yatpos.Jobs.State.{Yama, returns, gets, or_fault, ◌>>=◌, modify}
use tp_2017_2c_yatpos.Jobs.Loads.{
  existe_el_job_en_la_copia, eliminar_carga_job_del_nodo, quitar_carga, poner_carga,
  obtener_posicion_carga_nodo, cambiar_carga, actualizar_carga_del_nodo,
}

-- Taking a job's load away leaves the name of the node.
quitar_carga_lem :
    (job : ℤ) (c : Carga) → (c' : Carga) × (quitar_carga job c ≡ some c') × (c'.nodo ≡ c.nodo)
unfolding quitar_carga existe_el_job_en_la_copia
quitar_carga_lem job c =
    elim (Option-cases (mlist_index (λ (j : CargaJob). eq_ℤ j.job job) c.carga_por_job)) [
      | inl nothing ↦ (c, rw (nothing, quitar_carga) refl, refl)
      | inr (i, at) ↦
          let (j, found, _, _, _) =
            mlist_index-find (λ (j : CargaJob). eq_ℤ j.job job) c.carga_por_job i at in
          (
            record c {
              carga_actual = c.carga_actual -ℤ j.carga_del_job;
              carga_por_job = eliminar_carga_job_del_nodo job c.carga_por_job;
            },
            rw (at, quitar_carga) (rw found refl),
            refl,
          )
    ]

abbrev pub nombres_de : List Carga → List Bytes
nombres_de cargas = map (λ (c : Carga). c.nodo) cargas

module _ (igual : Bytes → Bytes → Bool) where
  -- A load is kept for the node.
  abbrev pub HasLoad : List Carga → Bytes → Type 0
  HasLoad cargas nodo = (i : ℕ) × (obtener_posicion_carga_nodo igual nodo cargas ≡ some i)

  pub HasLoad-names :
      (cargas cargas' : List Carga) (nodo : Bytes)
      → nombres_de cargas' ≡ nombres_de cargas
      → HasLoad cargas nodo
      → HasLoad cargas' nodo
  unfolding obtener_posicion_carga_nodo
  HasLoad-names cargas cargas' nodo e (i, at) = (
    i,
    mlist_index-map (λ (c : Carga). c.nodo) (λ t. igual t nodo) cargas'
        ∙ ap (mlist_index (λ t. igual t nodo)) e
        ∙ sym (mlist_index-map (λ (c : Carga). c.nodo) (λ t. igual t nodo) cargas)
        ∙ at,
  )

  -- Taking a job's load away from a node with a load returns, and changes only loads.
  pub quitar-returns :
      (y : Yama) (nodo : Bytes) (job n : ℤ)
      → HasLoad y.lista_carga nodo
      → (cargas : List Carga) × (actualizar_carga_del_nodo igual nodo job false n y
          ≡ returns tt (record y { lista_carga = cargas }))
        × (nombres_de cargas ≡ nombres_de y.lista_carga)
  unfolding actualizar_carga_del_nodo cambiar_carga gets or_fault modify poner_carga mlist_replace
      ◌>>=◌ obtener_posicion_carga_nodo
  quitar-returns y nodo job n (i, at) =
      let (c, found, _, _, _) =
        mlist_index-find (λ (c : Carga). igual c.nodo nodo) y.lista_carga i at in
      let (c', taken, same) = quitar_carga_lem job c in
      (
        set y.lista_carga i c',
        rw at (rw found (rw taken refl)),
        map-set (λ (c : Carga). c.nodo) y.lista_carga i c' found same,
      )
