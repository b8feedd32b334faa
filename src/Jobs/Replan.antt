-- ===== src/Jobs/Replan.antt =====
-- `replanificacion` of YAMA/src/funcionesYAMA.c: the blocks of a job whose transformation failed on a
-- node are given to the nodes with their other copies, or the job is aborted.
use tp_2017_2c_yatpos.Base.{
  ℕ, List, [], ◌∷◌, Bool, true, false, not, ◌&&◌, ◌||◌, none, some, ◌==◌, if◌then◌else◌, length,
}
use tp_2017_2c_yatpos.Base.Int.{ℤ, pos, ◌-ℤ◌, eq_ℤ}
use tp_2017_2c_yatpos.Serial.Words.{Bytes}
use tp_2017_2c_yatpos.Yfile.{Text, BlockCopy, Block, File}
use tp_2017_2c_yatpos.Stages.{Transformation}
use tp_2017_2c_yatpos.Mlist.{mlist_append, mlist_find, mlist_filter, mlist_any}
use tp_2017_2c_yatpos.Jobs.State.{
  con_error, en_proceso, transformacion, es_transformacion, iniciar_transformacion, Yama, Action,
  pure, gets, or_fault, ◌>>=◌, ◌>>◌, modify, fault_unless, for_each, enviar,
}
use tp_2017_2c_yatpos.Jobs.Loads.{
  eliminar_carga_job_del_nodo, cambiar_carga, actualizar_carga_del_nodo, con_nombre,
}
use tp_2017_2c_yatpos.Jobs.Table.{
  Respuesta, error_replanificacion, es_del_job, agregar_a_tabla_estado,
  requerir_informacion_filesystem, actualizo_tabla_estado, abortar_job,
  recibo_informacion_solicitada, con_archivo,
}
use tp_2017_2c_yatpos.Jobs.Stages.{generar_nombre_archivo_temporal_transf, new_etapa_transformacion}

-- `copies[copia]`
abbrev pub copia_de : Block → (segunda : Bool) → BlockCopy
copia_de b segunda = if segunda then b.copy1 else b.copy0

-- A block without copies, on which the comparison reads through NULL.
abbrev pub sin_copias : Block → Bool
sin_copias b = elim b.copy0.node [
  | none ↦ elim b.copy1.node [ none ↦ true | some _ ↦ false ]
  | some _ ↦ false
]

module _ (igual : Bytes → Bytes → Bool) where
  unfoldable pub nodo_con_copia_is_active : Bytes → Yama → Bool
  unfolding mlist_any
  nodo_con_copia_is_active nodo y =
      if length y.lista_nodos_activos == 0
      then false
      else mlist_any (con_nombre igual nodo) y.lista_nodos_activos

  -- The copy is on `nodo`, and the other one on a node that is active.
  unfoldable pub nodo_esta_en_la_copia : Block → (segunda : Bool) → Bytes → Yama → Bool
  unfolding nodo_con_copia_is_active
  nodo_esta_en_la_copia b segunda nodo y = elim (copia_de b segunda).node [
    | none ↦ false
    | some aqui ↦ elim (copia_de b (not segunda)).node [
      | none ↦ false
      | some otro ↦ igual nodo aqui && nodo_con_copia_is_active otro y
    ]
  ]

  abbrev pub copia_en : Bytes → ℤ → BlockCopy → Bool
  copia_en nodo bloque c = elim c.node [
    | none ↦ false
    | some aqui ↦ igual aqui nodo && eq_ℤ c.blockno bloque
  ]

  -- `esBloqueBuscado` for blocks with a copy.
  abbrev pub es_bloque_buscado : Bytes → ℤ → Block → Bool
  es_bloque_buscado nodo bloque b = copia_en nodo bloque b.copy0 || copia_en nodo bloque b.copy1

  -- One entry of the table: the block that it stood for.
  unfoldable pub marcar_bloque : Bytes → (master job : ℤ) → List Block → ℕ → Action Block
  unfolding actualizo_tabla_estado mlist_find
  marcar_bloque nodo master job blocks p = do
    e ← gets (λ y. y.objetos p)
    actualizo_tabla_estado igual e.nodo e.block master job con_error
    b ← or_fault (mlist_find (λ b. es_bloque_buscado nodo e.block b || sin_copias b) blocks)
    fault_unless (not (sin_copias b))
    pure b

  unfoldable pub marcar_bloques :
      Bytes → (master job : ℤ) → List Block → List ℕ → List Block → Action (List Block)
  unfolding marcar_bloque mlist_append
  marcar_bloques nodo master job blocks [] lista = pure lista
  marcar_bloques nodo master job blocks (p ∷ ps) lista = do
    b ← marcar_bloque nodo master job blocks p
    marcar_bloques nodo master job blocks ps (mlist_append lista b)

module _ (igual : Bytes → Bytes → Bool) (decimal : ℤ → Bytes) where
  -- `generarEtapaTransformacionAEnviarParaCopia`
  unfoldable pub generar_etapa_para_copia :
      (segunda : Bool) → Block → (job master : ℤ) → Action Transformation
  unfolding mlist_find generar_nombre_archivo_temporal_transf new_etapa_transformacion
  generar_etapa_para_copia segunda b job master = do
    activos ← gets (λ y. y.lista_nodos_activos)
    nodo ← or_fault (copia_de b segunda).node
    n ← or_fault (mlist_find (con_nombre igual nodo) activos)
    archivo ← generar_nombre_archivo_temporal_transf decimal job master (copia_de b segunda).blockno
    pure (new_etapa_transformacion nodo n (copia_de b segunda).blockno b.size archivo)

  -- The second loop, with `aborto`.
  unfoldable pub generar_etapas :
      Bytes
      → (job master : ℤ) → List Block
      → Bool
      → List Transformation
      → Action (Bool × List Transformation)
  unfolding nodo_esta_en_la_copia generar_etapa_para_copia mlist_append
  generar_etapas nodo job master [] aborto lista = pure (aborto, lista)
  generar_etapas nodo job master (b ∷ bs) aborto lista = do
    en_primera ← gets (nodo_esta_en_la_copia igual b false nodo)
    en_segunda ← gets (nodo_esta_en_la_copia igual b true nodo)
    if en_primera && not aborto
        then (do
          et ← generar_etapa_para_copia true b job master
          generar_etapas nodo job master bs aborto (mlist_append lista et))
        else if en_segunda && not aborto
        then (do
          et ← generar_etapa_para_copia false b job master
          generar_etapas nodo job master bs aborto (mlist_append lista et))
        else generar_etapas nodo job master bs true lista

  -- The third loop, for one stage: the entry, and a load of 1 moved from the node that failed.
  unfoldable pub mover_etapa : Bytes → (job master : ℤ) → Transformation → Action Unit
  unfolding agregar_a_tabla_estado cambiar_carga actualizar_carga_del_nodo
  mover_etapa nodo job master et = do
    otro ← or_fault et.nodo
    archivo ← or_fault et.archivo_etapa
    agregar_a_tabla_estado job otro master et.bloque transformacion archivo en_proceso
    cambiar_carga igual (λ c. some (record c { carga_actual = c.carga_actual -ℤ pos 1 })) nodo
    actualizar_carga_del_nodo igual otro job true (pos 1)

  -- What follows the second loop.
  unfoldable pub mandar_o_abortar :
      Bytes → (master job : ℤ) → Bool × List Transformation → Action Unit
  unfolding cambiar_carga eliminar_carga_job_del_nodo mover_etapa enviar abortar_job
  mandar_o_abortar nodo master job (true, lista) =
      abortar_job igual job master error_replanificacion
  mandar_o_abortar nodo master job (false, lista) = do
    cambiar_carga igual
        (λ c. some (record c { carga_por_job = eliminar_carga_job_del_nodo job c.carga_por_job }))
        nodo
    for_each (mover_etapa nodo job master) lista
    modify (enviar (iniciar_transformacion master lista))

  unfoldable pub replanificar : Bytes → (master job : ℤ) → File → Action Unit
  unfolding mlist_filter marcar_bloques generar_etapas mandar_o_abortar
  replanificar nodo master job file = do
    y ← gets (λ y. y)
    bloques ←
        marcar_bloques igual nodo master job file.blocks
          (mlist_filter
            (λ p.
              igual (y.objetos p).nodo nodo
              && (es_del_job job master (y.objetos p) && es_transformacion (y.objetos p).etapa))
            y.lista_estados)
          []
    resultado ← generar_etapas nodo job master bloques false []
    mandar_o_abortar nodo master job resultado

  unfoldable pub replanificacion : Bytes → Text → (master job : ℤ) → Respuesta → Action Unit
  unfolding requerir_informacion_filesystem recibo_informacion_solicitada con_archivo replanificar
  replanificacion nodo path master job respuesta = do
    requerir_informacion_filesystem path
    recibido ← recibo_informacion_solicitada igual job master respuesta
    con_archivo (replanificar nodo master job) recibido
