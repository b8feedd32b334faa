-- ===== src/Jobs/Stages.antt =====
-- The stages that YAMA/src/server.c sends to a Master, and the tests after which it sends the next.
-- `decimal` is what `%d` prints of an `int`; `igual` is the comparison of libc up to case.
use tp_2017_2c_yatpos.Base.{
  ℕ, ◌^◌, ◌+◌, ◌-◌, ◌/◌, List, [], ◌∷◌, ◌++◌, map, Bool, true, false, not, ◌&&◌, ◌||◌, Option, none,
  some, leb, if◌then◌else◌, length, get_elem?, eq_bytes,
}
use tp_2017_2c_yatpos.Base.Int.{ℤ, pos, negsuc, eq_ℤ, leb_ℤ, re_sign}
use tp_2017_2c_yatpos.Serial.Words.{Bytes}
use tp_2017_2c_yatpos.Yfile.{Block}
use tp_2017_2c_yatpos.Stages.{NodeInfo, Transformation, GlobalReduction}
use tp_2017_2c_yatpos.Planner.{Worker}
use tp_2017_2c_yatpos.Mlist.{
  mlist_append, mlist_find, mlist_filter, mlist_all, mlist_sort, mlist_first,
}
use tp_2017_2c_yatpos.Jobs.State.{
  transformacion, reduccion_local, reduccion_global, almacenamiento_final, en_proceso, es_error,
  es_finalizado, es_transformacion, es_reduccion_local, es_reduccion_global, iniciar_transformacion,
  iniciar_reduccion_local, iniciar_reduccion_global, iniciar_almacenamiento, Yama, Action, pure,
  gets, or_fault, ◌>>=◌, ◌>>◌, modify, fault_unless, enviar,
}
use tp_2017_2c_yatpos.Jobs.Loads.{actualizar_carga_del_nodo, carga_actual_de, con_nombre}
use tp_2017_2c_yatpos.Jobs.Table.{agregar_a_tabla_estado, es_del_job}

-- `sprintf` into 21 bytes.
unfoldable pub nombre_temporal : Bytes → Action Bytes
nombre_temporal t = do fault_unless (leb (length t) 20); pure t

-- "/tmp/", "Master", "-temp", "-final"
abbrev pub tmp : Bytes
tmp = b'/' ∷ b't' ∷ b'm' ∷ b'p' ∷ b'/' ∷ []

abbrev pub master_text : Bytes
master_text = b'M' ∷ b'a' ∷ b's' ∷ b't' ∷ b'e' ∷ b'r' ∷ []

abbrev pub temp_text : Bytes
temp_text = b'-' ∷ b't' ∷ b'e' ∷ b'm' ∷ b'p' ∷ []

abbrev pub final_text : Bytes
final_text = b'-' ∷ b'f' ∷ b'i' ∷ b'n' ∷ b'a' ∷ b'l' ∷ []

-- `t_nodotemporal`
pub record NodoTemporal : Type 0 where
  pub nodo : Bytes
  pub archivo_temporal : Bytes

-- The number of the copy of a block on a node, which is the second unless the first is there.
unfoldable pub numero_de_bloque : Block → Bytes → ℤ
numero_de_bloque b nodo = elim b.copy0.node [
  | none ↦ b.copy1.blockno
  | some n0 ↦ if eq_bytes n0 nodo then b.copy0.blockno else b.copy1.blockno
]

-- `new_etapa_transformacion`, whose `int` takes the size of the block.
unfoldable pub new_etapa_transformacion : Bytes → NodeInfo → ℤ → ℕ → Bytes → Transformation
unfolding re_sign
new_etapa_transformacion nodo n bloque size archivo_etapa = record {
  nodo = some nodo;
  ip = n.ip;
  puerto = n.puerto;
  bloque = bloque;
  bytes_ocupados = re_sign (2 ^ 32) size;
  archivo_etapa = some archivo_etapa;
}

module _ (decimal : ℤ → Bytes) where
  unfoldable pub generar_nombre_archivo_temporal_transf : (job master bloque : ℤ) → Action Bytes
  unfolding nombre_temporal
  generar_nombre_archivo_temporal_transf job master bloque = nombre_temporal (
      tmp
      ++ (b'j' ∷ decimal job ++ (master_text ++ (decimal master ++ (temp_text ++ decimal bloque)))))

  unfoldable pub generar_nombre_temporal_local : Bytes → (master job : ℤ) → Action Bytes
  unfolding nombre_temporal
  generar_nombre_temporal_local nodo master job =
      nombre_temporal
        (tmp ++ (b'J' ∷ decimal job ++ (master_text ++ (decimal master ++ (b'-' ∷ nodo)))))

  unfoldable pub generar_archivo_rg : (master job : ℤ) → Action Bytes
  unfolding nombre_temporal
  generar_archivo_rg master job =
      nombre_temporal
        (tmp ++ (b'J' ∷ decimal job ++ (master_text ++ (decimal master ++ final_text))))

  -- The body of both loops of `enviarEtapa_transformacion_Master`: block `indice` for worker `i`.
  unfoldable pub etapa_del_bloque :
      (job sock : ℤ) → List Block → (i indice : ℕ) → Action Transformation
  unfolding mlist_find numero_de_bloque generar_nombre_archivo_temporal_transf
      agregar_a_tabla_estado new_etapa_transformacion
  etapa_del_bloque job sock blocks i indice = do
    activos ← gets (λ y. y.lista_nodos_activos)
    n ← or_fault (get_elem? activos i)
    b ← or_fault (mlist_find (λ (b : Block). eq_ℤ b.index (pos indice)) blocks)
    nodo ← or_fault n.nodo
    archivo ← generar_nombre_archivo_temporal_transf job sock (numero_de_bloque b nodo)
    agregar_a_tabla_estado job nodo sock (numero_de_bloque b nodo) transformacion archivo en_proceso
    pure (new_etapa_transformacion nodo n (numero_de_bloque b nodo) b.size archivo)

  unfoldable pub etapas_del_worker :
      (job sock : ℤ) → List Block → ℕ → List ℕ → List Transformation → Action (List Transformation)
  unfolding etapa_del_bloque mlist_append
  etapas_del_worker job sock blocks i [] lista = pure lista
  etapas_del_worker job sock blocks i (indice ∷ indices) lista = do
    et ← etapa_del_bloque job sock blocks i indice
    etapas_del_worker job sock blocks i indices (mlist_append lista et)

  unfoldable pub etapas_de_workers :
      (job sock : ℤ)
      → List Block
      → ℕ
      → List Worker
      → List Transformation
      → Action (List Transformation)
  unfolding etapas_del_worker
  etapas_de_workers job sock blocks i [] lista = pure lista
  etapas_de_workers job sock blocks i (w ∷ ws) lista = do
    mas ← etapas_del_worker job sock blocks i w.bloque lista
    etapas_de_workers job sock blocks (1 + i) ws mas

  unfoldable pub enviar_etapa_transformacion_master : ℤ → List Worker → List Block → ℤ → Action Unit
  unfolding etapas_de_workers enviar
  enviar_etapa_transformacion_master job planificador blocks sock = do
    lista ← etapas_de_workers job sock blocks 0 planificador []
    modify (enviar (iniciar_transformacion sock lista))

-- `listaFiltradaDelNodo` all finished.
abbrev pub todos_finalizados : Yama → List ℕ → Bool
todos_finalizados y estados = mlist_all (λ p. es_finalizado (y.objetos p).estado) estados

unfoldable pub verifico_finalizacion_rl : (job master : ℤ) → Yama → Bool
unfolding mlist_filter mlist_all
verifico_finalizacion_rl job master y = todos_finalizados y (
    mlist_filter
      (λ p.
        es_del_job job master (y.objetos p)
        && ((es_reduccion_local (y.objetos p).etapa || es_transformacion (y.objetos p).etapa)
            && not (es_error (y.objetos p).estado)))
      y.lista_estados)

unfoldable pub busco_nodos : (master job : ℤ) → Yama → List NodoTemporal
unfolding mlist_filter
busco_nodos master job y =
    map
      (λ p. record { nodo = (y.objetos p).nodo; archivo_temporal = (y.objetos p).archivo_temporal })
      (mlist_filter
        (λ p. es_del_job job master (y.objetos p) && es_reduccion_local (y.objetos p).etapa)
        y.lista_estados)

unfoldable pub busco_nodo_encargado : ℤ → Yama → Option Bytes
unfolding mlist_find
busco_nodo_encargado job y =
    elim (mlist_find (λ p. eq_ℤ (y.objetos p).job job && es_reduccion_global (y.objetos p).etapa)
      y.lista_estados) [ none ↦ none | some p ↦ some (y.objetos p).archivo_temporal ]

module _ (igual : Bytes → Bytes → Bool) where
  unfoldable pub verifico_finalizacion_transformacion : Bytes → (master job : ℤ) → Yama → Bool
  unfolding mlist_filter mlist_all
  verifico_finalizacion_transformacion nodo master job y = todos_finalizados y (
      mlist_filter
        (λ p.
          igual (y.objetos p).nodo nodo
          && (es_del_job job master (y.objetos p) && not (es_error (y.objetos p).estado)))
        y.lista_estados)

  unfoldable pub busco_ip_puerto : Bytes → Yama → Option NodeInfo
  unfolding mlist_find
  busco_ip_puerto nodo y = mlist_find (con_nombre igual nodo) y.lista_nodos_activos

  unfoldable pub busco_archivos_temporales : Bytes → (master job : ℤ) → Yama → List Bytes
  unfolding mlist_filter
  busco_archivos_temporales nodo master job y =
      map (λ p. (y.objetos p).archivo_temporal)
        (mlist_filter
          (λ p.
            igual (y.objetos p).nodo nodo
            && (es_del_job job master (y.objetos p) && es_finalizado (y.objetos p).estado))
          y.lista_estados)

  unfoldable pub mandar_etapa_reduccion_local :
      (job master : ℤ) → Bytes → Option NodeInfo → List Bytes → Bytes → Action Unit
  unfolding agregar_a_tabla_estado enviar
  mandar_etapa_reduccion_local job master nodo worker archivos archivo_local = do
    n ← or_fault worker
    agregar_a_tabla_estado job nodo master (negsuc 0) reduccion_local archivo_local en_proceso
    modify (
        enviar (
          iniciar_reduccion_local master (record {
            nodo = some nodo;
            ip = n.ip;
            puerto = n.puerto;
            archivos_temporales = archivos;
            archivo_etapa = some archivo_local;
          })))

  -- The comparison of two names by the loads of their nodes, where both have one.
  abbrev pub menos_cargado : Yama → Bytes → Bytes → Bool
  menos_cargado y a b = elim (carga_actual_de igual a y.lista_carga) [
    | none ↦ true
    | some x ↦ elim (carga_actual_de igual b y.lista_carga) [ none ↦ false | some z ↦ leb_ℤ x z ]
  ]

  abbrev pub tiene_carga : Yama → Bytes → Bool
  tiene_carga y nodo = elim (carga_actual_de igual nodo y.lista_carga) [
    | none ↦ false
    | some _ ↦ true
  ]

  -- `cargaActual` reads through NULL for a node without a load, and sorting compares every name; a
  -- name alone is looked for by `actualizarCargaDelNodo`.
  unfoldable pub seleccionar_encargado : List NodoTemporal → ℤ → Action Bytes
  unfolding carga_actual_de mlist_all mlist_sort mlist_first actualizar_carga_del_nodo
  seleccionar_encargado nodos job = do
    y ← gets (λ y. y)
    let nombres = map (λ (n : NodoTemporal). n.nodo) nodos
    fault_unless (mlist_all (tiene_carga y) nombres)
    nodo ← or_fault (mlist_first (mlist_sort (menos_cargado y) nombres))
    actualizar_carga_del_nodo igual nodo job true (pos (1 + (length nodos - 1) / 2))
    pure nodo

  -- One round of the loop of `mandarEtapaReduccionGL`; "SI" and "NO", "-1".
  unfoldable pub etapa_rg : Bytes → Bytes → NodoTemporal → Action GlobalReduction
  unfolding busco_ip_puerto
  etapa_rg encargado nombre_rg t = do
    info ← gets (busco_ip_puerto t.nodo)
    n ← or_fault info
    pure (record {
      nodo = some t.nodo;
      ip = n.ip;
      puerto = n.puerto;
      archivo_temporal_de_rl = some t.archivo_temporal;
      archivo_etapa = some (if igual t.nodo encargado then nombre_rg else b'-' ∷ b'1' ∷ []);
      encargado = some (if igual t.nodo encargado then b'S' ∷ b'I' ∷ [] else b'N' ∷ b'O' ∷ []);
    })

  unfoldable pub etapas_rg :
      Bytes → Bytes → List NodoTemporal → List GlobalReduction → Action (List GlobalReduction)
  unfolding etapa_rg mlist_append
  etapas_rg encargado nombre_rg [] lista = pure lista
  etapas_rg encargado nombre_rg (t ∷ ts) lista = do
    e ← etapa_rg encargado nombre_rg t
    etapas_rg encargado nombre_rg ts (mlist_append lista e)

  unfoldable pub mandar_etapa_reduccion_gl : (ℤ → Bytes) → (master job : ℤ) → Action Unit
  unfolding busco_nodos seleccionar_encargado generar_archivo_rg etapas_rg agregar_a_tabla_estado
      enviar
  mandar_etapa_reduccion_gl decimal master job = do
    nodos ← gets (busco_nodos master job)
    nodo ← seleccionar_encargado nodos job
    nombre_rg ← generar_archivo_rg decimal master job
    lista ← etapas_rg nodo nombre_rg nodos []
    agregar_a_tabla_estado job nodo master (negsuc 1) reduccion_global nombre_rg en_proceso
    modify (enviar (iniciar_reduccion_global master lista))

  unfoldable pub mandar_etapa_almacenado_final : Bytes → (master job : ℤ) → Action Unit
  unfolding busco_ip_puerto busco_nodo_encargado agregar_a_tabla_estado enviar
  mandar_etapa_almacenado_final nodo master job = do
    info ← gets (busco_ip_puerto nodo)
    encargado ← gets (busco_nodo_encargado job)
    archivo_af ← or_fault encargado
    n ← or_fault info
    agregar_a_tabla_estado job nodo master (negsuc 2) almacenamiento_final archivo_af en_proceso
    modify (
        enviar (
          iniciar_almacenamiento master (record {
            nodo = some nodo;
            ip = n.ip;
            puerto = n.puerto;
            archivo_etapa = some archivo_af;
          })))
