-- ===== src/Jobs/Loads.antt =====
-- The loads of the nodes in YAMA/src/funcionesYAMA.c and YAMA/src/server.c.
-- `igual` is the comparison of libc up to case, by which `string_equals_ignore_case` and
-- `mstring_equali` compare; `puntero` is the size of a pointer. A node's name is not NULL where it is
-- compared. An `int` is a whole number: loads stay far below its range.
use tp_2017_2c_yatpos.Base.{
  ℕ, List, [], Bool, false, Option, none, some, ltb, leb, if◌then◌else◌, length, get_elem?,
}
use tp_2017_2c_yatpos.Base.Int.{ℤ, pos, ◌+ℤ◌, ◌-ℤ◌, eq_ℤ}
use tp_2017_2c_yatpos.Serial.Words.{Bytes}
use tp_2017_2c_yatpos.Yfile.{Text}
use tp_2017_2c_yatpos.Stages.{NodeInfo}
use tp_2017_2c_yatpos.Planner.{Worker}
use tp_2017_2c_yatpos.Planner.Fill.{Carga, CargaJob}
use tp_2017_2c_yatpos.Mlist.{
  mlist_append, mlist_replace, mlist_index, mlist_find, mlist_remove, mlist_any,
}
use tp_2017_2c_yatpos.Jobs.State.{
  Yama, Action, pure, gets, or_fault, ◌>>=◌, ◌>>◌, modify, fault_unless, for_each,
}

unfoldable pub existe_el_job_en_la_copia : ℤ → List CargaJob → Option ℕ
unfolding mlist_index
existe_el_job_en_la_copia job jobs = mlist_index (λ (j : CargaJob). eq_ℤ j.job job) jobs

unfoldable pub eliminar_carga_job_del_nodo : ℤ → List CargaJob → List CargaJob
unfolding mlist_remove
eliminar_carga_job_del_nodo job jobs = (mlist_remove (λ (j : CargaJob). eq_ℤ j.job job) jobs).0

-- `actualizarCargaDelNodo` on the load that it finds: the load of a job taken away.
unfoldable pub quitar_carga : ℤ → Carga → Option Carga
unfolding existe_el_job_en_la_copia eliminar_carga_job_del_nodo
quitar_carga job c = elim (existe_el_job_en_la_copia job c.carga_por_job) [
  | none ↦ some c
  | some i ↦ elim (get_elem? c.carga_por_job i) [
    | none ↦ none
    | some j ↦ some (record c {
      carga_actual = c.carga_actual -ℤ j.carga_del_job;
      carga_por_job = eliminar_carga_job_del_nodo job c.carga_por_job;
    })
  ]
]

unfoldable pub aumentar_job : ℤ → ℤ → List CargaJob → Option (List CargaJob)
unfolding existe_el_job_en_la_copia mlist_replace mlist_append
aumentar_job job cantidad jobs = elim (existe_el_job_en_la_copia job jobs) [
  | none ↦ some (mlist_append jobs (record { job = job; carga_del_job = cantidad }))
  | some i ↦ elim (get_elem? jobs i) [
    | none ↦ none
    | some j ↦
        some (mlist_replace jobs i (record j { carga_del_job = j.carga_del_job +ℤ cantidad }))
  ]
]

-- The other branch: `cantidad` more.
unfoldable pub aumentar_carga : ℤ → ℤ → Carga → Option Carga
unfolding aumentar_job
aumentar_carga job cantidad c = elim (aumentar_job job cantidad c.carga_por_job) [
  | none ↦ none
  | some jobs ↦ some (record c {
    carga_actual = c.carga_actual +ℤ cantidad;
    carga_historica = c.carga_historica +ℤ cantidad;
    carga_por_job = jobs;
  })
]

-- The blocks of a plan: the load of a job is appended without a look for it.
unfoldable pub cargar_plan : ℤ → ℕ → Carga → Option Carga
unfolding mlist_append
cargar_plan job bloques c = some (record c {
  carga_actual = c.carga_actual +ℤ pos bloques;
  carga_historica = c.carga_historica +ℤ pos bloques;
  carga_por_job = mlist_append c.carga_por_job (record { job = job; carga_del_job = pos bloques });
})

-- `mlist_replace(listaCargaPorNodo, posicion, carga)`
unfoldable pub poner_carga : ℕ → Carga → Yama → Yama
unfolding mlist_replace
poner_carga posicion c y = record y { lista_carga = mlist_replace y.lista_carga posicion c }

module _ (igual : Bytes → Bytes → Bool) where
  unfoldable pub obtener_posicion_carga_nodo : Bytes → List Carga → Option ℕ
  unfolding mlist_index
  obtener_posicion_carga_nodo nodo cargas = mlist_index (λ (c : Carga). igual c.nodo nodo) cargas

  -- The load of a node changed in place.
  unfoldable pub cambiar_carga : (Carga → Option Carga) → Bytes → Action Unit
  unfolding obtener_posicion_carga_nodo poner_carga
  cambiar_carga f nodo = do
    cargas ← gets (λ y. y.lista_carga)
    posicion ← or_fault (obtener_posicion_carga_nodo nodo cargas)
    c ← or_fault (get_elem? cargas posicion)
    nueva ← or_fault (f c)
    modify (poner_carga posicion nueva)

  unfoldable pub actualizar_carga_del_nodo : Bytes → ℤ → (aumentar : Bool) → ℤ → Action Unit
  unfolding cambiar_carga quitar_carga aumentar_carga
  actualizar_carga_del_nodo nodo job aumentar cantidad =
      cambiar_carga (if aumentar then aumentar_carga job cantidad else quitar_carga job) nodo

  unfoldable pub agregar_carga_nodo_segun_lo_planificado : ℤ → List Worker → Action Unit
  unfolding cambiar_carga cargar_plan
  agregar_carga_nodo_segun_lo_planificado job planificador =
      for_each (λ (w : Worker). cambiar_carga (cargar_plan job (length w.bloque)) w.nombre_worker)
        planificador

  -- `cargaActual`
  unfoldable pub carga_actual_de : Bytes → List Carga → Option ℤ
  unfolding mlist_find
  carga_actual_de nodo cargas = elim (mlist_find (λ (c : Carga). igual nodo c.nodo) cargas) [
    | none ↦ none
    | some c ↦ some c.carga_actual
  ]

  -- A name that is not NULL, and equal to `nodo`.
  abbrev pub con_nombre : Bytes → NodeInfo → Bool
  con_nombre nodo n = elim n.nodo [ none ↦ false | some t ↦ igual t nodo ]

module _ (igual : Bytes → Bytes → Bool) (puntero : ℕ) where
  -- `strcpy` into `sizeof(char *) + 1` bytes.
  unfoldable pub crear_carga_por_nodo : Text → Action Unit
  unfolding mlist_append
  crear_carga_por_nodo nombre = do
    nodo ← or_fault nombre
    fault_unless (leb (length nodo) puntero)
    modify (λ y. record y {
      lista_carga = mlist_append y.lista_carga (record {
        nodo = nodo;
        carga_actual = pos 0;
        carga_historica = pos 0;
        carga_por_job = [];
      });
    })

  unfoldable pub completar_nodo : NodeInfo → Action Unit
  unfolding crear_carga_por_nodo mlist_any
  completar_nodo n = do
    nodo ← or_fault n.nodo
    cargas ← gets (λ y. y.lista_carga)
    if mlist_any (λ (c : Carga). igual c.nodo nodo) cargas
        then pure tt
        else crear_carga_por_nodo n.nodo

  unfoldable pub primera_carga : NodeInfo → Action Unit
  unfolding crear_carga_por_nodo
  primera_carga n = do
    crear_carga_por_nodo n.nodo
    modify (λ y. record y { es_la_primera_vez = false })

  unfoldable pub completar_primera_vez : Action Unit
  unfolding completar_nodo primera_carga
  completar_primera_vez = do
    y ← gets (λ y. y)
    if y.es_la_primera_vez
        then (do
          modify (λ y. record y { lista_carga = [] })
          for_each primera_carga y.lista_nodos_activos)
        else if ltb (length y.lista_carga) (length y.lista_nodos_activos)
        then for_each completar_nodo y.lista_nodos_activos
        else pure tt
