-- ===== src/Jobs/Table.antt =====
-- The table of states in YAMA/src/funcionesYAMA.c: entries added and changed, jobs aborted and
-- finished, and the end of YAMA when the FileSystem is gone.
use tp_2017_2c_yatpos.Base.{
  ℕ, List, Bool, false, not, ◌&&◌, Option, none, some, ltb, ◌==◌, if◌then◌else◌, length, get_elem?,
}
use tp_2017_2c_yatpos.Base.Int.{ℤ, pos, negsuc, eq_ℤ}
use tp_2017_2c_yatpos.Serial.Words.{Bytes}
use tp_2017_2c_yatpos.Yfile.{Text, File}
use tp_2017_2c_yatpos.Stages.{NodeInfo}
use tp_2017_2c_yatpos.Mlist.{mlist_index, mlist_find, mlist_filter}
use tp_2017_2c_yatpos.Jobs.State.{
  Etapa, Progreso, con_error, es_error, es_en_proceso, es_reduccion_local, Estado, pedido_archivo,
  error_job, Yama, Action, pure, gets, or_fault, ◌>>=◌, ◌>>◌, modify, exit, for_each,
  escribir_estado, enviar, agregar, reemplazar,
}
use tp_2017_2c_yatpos.Jobs.Loads.{actualizar_carga_del_nodo}

-- The codes of Shared/protocol.h by which a job ends.
abbrev pub archivo_inexistente : ℤ
archivo_inexistente = negsuc 1

abbrev pub error_replanificacion : ℤ
error_replanificacion = negsuc 2

abbrev pub error_reduccion_local : ℤ
error_reduccion_local = negsuc 3

abbrev pub error_reduccion_global : ℤ
error_reduccion_global = negsuc 4

abbrev pub error_almacenamiento_final : ℤ
error_almacenamiento_final = negsuc 5

abbrev pub error_planificacion : ℤ
error_planificacion = negsuc 6

abbrev pub error_fs_disconnected : ℤ
error_fs_disconnected = negsuc 7

unfoldable pub agregar_a_tabla_estado : ℤ → Bytes → ℤ → ℤ → Etapa → Bytes → Progreso → Action Unit
unfolding agregar
agregar_a_tabla_estado job nodo master bloque etapa archivo_temporal estado = modify (
    agregar (record {
      job = job;
      master = master;
      nodo = nodo;
      block = bloque;
      etapa = etapa;
      archivo_temporal = archivo_temporal;
      estado = estado;
    }))

-- An entry of the job of a Master.
abbrev pub es_del_job : ℤ → ℤ → Estado → Bool
es_del_job job master e = eq_ℤ e.job job && eq_ℤ e.master master

unfoldable pub avisar_error_master : (job master codigo : ℤ) → Action Unit
unfolding enviar
avisar_error_master job master codigo = modify (enviar (error_job master codigo))

unfoldable pub requerir_informacion_filesystem : Text → Action Unit
unfolding enviar
requerir_informacion_filesystem file = modify (enviar (pedido_archivo file))

-- What the FileSystem answers: the active nodes, if the first packet has them, and the file.
pub data Archivo : Type 0 where
  no_existe : Archivo
  archivo : File → Archivo
  otra_operacion : Archivo

pub record Respuesta : Type 0 where
  pub nodos : Option (List NodeInfo)
  pub file : Archivo

-- The packet with the active nodes.
unfoldable pub recibir_nodos : Option (List NodeInfo) → Action Unit
recibir_nodos none = pure tt
recibir_nodos (some nodos) = modify (λ y. record y { lista_nodos_activos = nodos })

-- `if(Datosfile->size > 0)`
unfoldable pub con_archivo : (File → Action Unit) → Option File → Action Unit
con_archivo f none = pure tt
con_archivo f (some file) = if ltb 0 file.size then f file else pure tt

unfoldable pub buscar_sockets_activos : Yama → List ℕ
unfolding mlist_filter
buscar_sockets_activos y = mlist_filter (λ p. es_en_proceso (y.objetos p).estado) y.lista_estados

-- `cerrarMasters` for the entry at an address.
unfoldable pub cerrar_master : ℕ → Action Unit
unfolding avisar_error_master
cerrar_master p = do
  e ← gets (λ y. y.objetos p)
  avisar_error_master e.job e.master error_fs_disconnected

unfoldable pub cerrar_masters : Action Unit
unfolding buscar_sockets_activos cerrar_master
cerrar_masters = do for_each cerrar_master (← gets buscar_sockets_activos); exit

unfoldable pub finalizar_ejecucion : (socket job : ℤ) → Action Unit
unfolding cerrar_masters avisar_error_master
finalizar_ejecucion socket job = do
  if eq_ℤ socket (negsuc 0) then pure tt else avisar_error_master job socket error_fs_disconnected
  estados ← gets (λ y. y.lista_estados)
  if length estados == 0 then exit else cerrar_masters

unfoldable pub buscar_id_job_para_master_caido : ℤ → Yama → ℤ
unfolding mlist_find
buscar_id_job_para_master_caido master y =
    elim (mlist_find (λ p. eq_ℤ (y.objetos p).master master && es_en_proceso (y.objetos p).estado)
      y.lista_estados) [ none ↦ negsuc 0 | some p ↦ (y.objetos p).job ]

module _ (igual : Bytes → Bytes → Bool) where
  -- An entry of the job of a Master for a block of a node.
  abbrev pub es_del_bloque : ℤ → ℤ → Bytes → ℤ → Estado → Bool
  es_del_bloque job master nodo bloque e =
      es_del_job job master e && (igual e.nodo nodo && eq_ℤ e.block bloque)

  unfoldable pub actualizo_tabla_estado : Bytes → (bloque master job : ℤ) → Progreso → Action Unit
  unfolding mlist_index reemplazar
  actualizo_tabla_estado nodo bloque master job estado = do
    y ← gets (λ y. y)
    posicion ←
        or_fault
          (mlist_index (λ p. es_del_bloque job master nodo bloque (y.objetos p)) y.lista_estados)
    p ← or_fault (get_elem? y.lista_estados posicion)
    modify (escribir_estado p estado)
    modify (reemplazar (some posicion) p)

  -- One entry of `eliminarEstadosMultiples`. Both branches of the test on "Error" assign the same;
  -- only one of them writes to the log.
  unfoldable pub eliminar_estado : (master job : ℤ) → Progreso → ℕ → Action Unit
  unfolding mlist_index reemplazar actualizar_carga_del_nodo
  eliminar_estado master job nuevo p = do
    e ← gets (λ y. y.objetos p)
    actualizar_carga_del_nodo igual e.nodo job false (pos 1)
    y ← gets (λ y. y)
    modify (escribir_estado p nuevo)
    modify (
        reemplazar
          (mlist_index (λ q. es_del_bloque job master e.nodo e.block (y.objetos q)) y.lista_estados)
          p)

  unfoldable pub eliminar_estados_multiples : (master job : ℤ) → Progreso → Action Unit
  unfolding mlist_filter eliminar_estado
  eliminar_estados_multiples master job nuevo = do
    y ← gets (λ y. y)
    for_each (eliminar_estado master job nuevo)
        (mlist_filter (λ p. es_del_job job master (y.objetos p)) y.lista_estados)

  unfoldable pub abortar_job : (job master codigo : ℤ) → Action Unit
  unfolding eliminar_estados_multiples avisar_error_master
  abortar_job job master codigo = do
    eliminar_estados_multiples master job con_error
    avisar_error_master job master codigo

  -- The packet with the file. `none` is the `t_yfile` of which only the size, 0, was set.
  unfoldable pub recibir_archivo : (job master : ℤ) → Archivo → Action (Option File)
  unfolding abortar_job finalizar_ejecucion
  recibir_archivo job master no_existe = abortar_job job master archivo_inexistente >> pure none
  recibir_archivo job master (archivo f) = pure (some f)
  recibir_archivo job master otra_operacion = finalizar_ejecucion master job >> pure none

  unfoldable pub recibo_informacion_solicitada : (job master : ℤ) → Respuesta → Action (Option File)
  unfolding recibir_nodos recibir_archivo
  recibo_informacion_solicitada job master respuesta = do
    recibir_nodos respuesta.nodos
    recibir_archivo job master respuesta.file

  unfoldable pub eliminar_cargas_reducciones_locales : Bytes → (master job : ℤ) → Action Unit
  unfolding mlist_filter actualizar_carga_del_nodo
  eliminar_cargas_reducciones_locales nodo_global master job = do
    y ← gets (λ y. y)
    for_each
        (λ p. do
          e ← gets (λ y. y.objetos p)
          actualizar_carga_del_nodo igual e.nodo job false (pos 1))
        (mlist_filter
          (λ p.
            es_del_job job master (y.objetos p)
            && (not (igual (y.objetos p).nodo nodo_global)
                && es_reduccion_local (y.objetos p).etapa))
          y.lista_estados)

  unfoldable pub finalizar_job_global_en_tabla_estado : (master job : ℤ) → Progreso → Action Unit
  unfolding mlist_index reemplazar actualizar_carga_del_nodo eliminar_cargas_reducciones_locales
  finalizar_job_global_en_tabla_estado master job nuevo = do
    y ← gets (λ y. y)
    indice ← or_fault (
        mlist_index (λ p. es_del_job job master (y.objetos p) && es_en_proceso (y.objetos p).estado)
          y.lista_estados)
    p ← or_fault (get_elem? y.lista_estados indice)
    actualizar_carga_del_nodo igual (y.objetos p).nodo job false (pos 1)
    modify (escribir_estado p nuevo)
    modify (reemplazar (some indice) p)
    eliminar_cargas_reducciones_locales (y.objetos p).nodo master job

  unfoldable pub finalizar_job_global : (job master codigo : ℤ) → Progreso → Action Unit
  unfolding enviar finalizar_job_global_en_tabla_estado
  finalizar_job_global job master codigo nuevo = do
    if es_error nuevo && not (eq_ℤ codigo error_almacenamiento_final)
        then modify (enviar (error_job master codigo))
        else pure tt
    finalizar_job_global_en_tabla_estado master job nuevo
