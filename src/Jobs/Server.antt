-- ===== src/Jobs/Server.antt =====
-- The server of YAMA, `listen_to_master` of YAMA/src/server.c: what one packet does. A packet of a
-- Master is given with its content unpacked, and with what the FileSystem and the configuration answer
-- while it is handled.
use tp_2017_2c_yatpos.Base.{◌^◌, ◌-◌, ℕ, Bool, true, false, not, ◌==◌, if◌then◌else◌, length}
use tp_2017_2c_yatpos.Base.Int.{ℤ, pos, negsuc, ◌+ℤ◌, eq_ℤ, ltb_ℤ}
use tp_2017_2c_yatpos.Serial.Words.{Bytes}
use tp_2017_2c_yatpos.Yfile.{Text, File}
use tp_2017_2c_yatpos.Planner.Fill.{planificar_archivo}
use tp_2017_2c_yatpos.Mlist.{mlist_append, mlist_filter}
use tp_2017_2c_yatpos.Jobs.State.{
  fault_unless, con_error, finalizado_ok, Yama, Action, pure, gets, or_fault, ◌>>=◌, ◌>>◌, modify,
  enviar, id_job,
}
use tp_2017_2c_yatpos.Jobs.Loads.{completar_primera_vez, agregar_carga_nodo_segun_lo_planificado}
use tp_2017_2c_yatpos.Jobs.Table.{
  Respuesta, error_planificacion, error_reduccion_local, error_reduccion_global,
  error_almacenamiento_final, avisar_error_master, requerir_informacion_filesystem,
  recibo_informacion_solicitada, con_archivo, abortar_job, actualizo_tabla_estado,
  eliminar_estados_multiples, finalizar_job_global, finalizar_ejecucion,
  buscar_id_job_para_master_caido,
}
use tp_2017_2c_yatpos.Jobs.Stages.{
  enviar_etapa_transformacion_master, verifico_finalizacion_transformacion,
  verifico_finalizacion_rl, busco_ip_puerto, busco_archivos_temporales,
  generar_nombre_temporal_local, mandar_etapa_reduccion_local, mandar_etapa_reduccion_gl,
  mandar_etapa_almacenado_final,
}
use tp_2017_2c_yatpos.Jobs.Replan.{replanificacion}

-- `t_pedidoTrans`
pub record PedidoTrans : Type 0 where
  pub id_job : ℤ
  pub file : Text

-- `respuestaOperacionTranf`
pub record RespuestaTransf : Type 0 where
  pub id_job : ℤ
  pub nodo : Text
  pub bloque : ℤ
  pub response : ℤ
  pub file : Text

-- `respuestaOperacion`
pub record RespuestaOperacion : Type 0 where
  pub id_job : ℤ
  pub nodo : Text
  pub response : ℤ

-- A packet of a Master, by its operation.
pub data Pedido : Type 0 where
  op_init_job : PedidoTrans → Pedido
  op_transformacion_lista : RespuestaTransf → Pedido
  op_reduccion_local_lista : RespuestaOperacion → Pedido
  op_reduccion_global_lista : RespuestaOperacion → Pedido
  op_almacenamiento_lista : RespuestaOperacion → Pedido
  otra : Pedido

-- What `select` reports: a connection, whose first packet may be the handshake of a Master; the
-- FileSystem; a Master that is gone; a packet of a Master.
pub data Evento : Type 0 where
  conexion : (cli_sock : ℤ) → (es_master : Bool) → Evento
  filesystem : Evento
  desconexion : (sock : ℤ) → Evento
  paquete : (sock : ℤ) → Pedido → Evento

-- The parameters: the comparison up to case, `%d`, the size of a pointer, the fuel of the planner,
-- DISP_BASE, and what `config_reload` reads.
pub record Entorno : Type 0 where
  pub igual : Bytes → Bytes → Bool
  pub decimal : ℤ → Bytes
  pub puntero : ℕ
  pub fuel : ℕ
  pub base : ℕ
  pub retardo : ℤ
  pub algoritmo : Bytes

-- The end of a time of planning, with the reload of the configuration that a signal asked for.
unfoldable pub dejar_de_planificar : Entorno → Yama → Yama
dejar_de_planificar en y = record y {
  retardo_planificacion = if y.recibi_senial then en.retardo else y.retardo_planificacion;
  algoritmo_balanceo = if y.recibi_senial then en.algoritmo else y.algoritmo_balanceo;
  recibi_senial = false;
  entre_a_planificar = false;
}

abbrev pub empezar_a_planificar : Yama → Yama
empezar_a_planificar y = record y { entre_a_planificar = true }

module _ (en : Entorno) where
  -- The plan of a file, made while `entreAPlanificar` holds.
  unfoldable pub planificar_job : PedidoTrans → File → ℤ → Action Unit
  unfolding completar_primera_vez planificar_archivo dejar_de_planificar
      agregar_carga_nodo_segun_lo_planificado enviar_etapa_transformacion_master
  planificar_job pedido file sock = do
    completar_primera_vez en.igual en.puntero
    modify empezar_a_planificar
    y ← gets (λ y. y)
    reloj ← or_fault (
        planificar_archivo en.igual y.algoritmo_balanceo en.base file.blocks y.lista_carga
          y.lista_nodos_activos y.contador en.fuel)
    modify (λ y. record y { contador = reloj.contador })
    modify (dejar_de_planificar en)
    agregar_carga_nodo_segun_lo_planificado en.igual pedido.id_job reloj.planificador
    enviar_etapa_transformacion_master en.decimal pedido.id_job reloj.planificador file.blocks sock

  -- With a file: the plan, if a node is active.
  unfoldable pub planificar_si_hay_nodos : PedidoTrans → ℤ → File → Action Unit
  unfolding avisar_error_master planificar_job
  planificar_si_hay_nodos pedido sock file = do
    nodos ← gets (λ y. y.lista_nodos_activos)
    if length nodos == 0
        then avisar_error_master pedido.id_job sock error_planificacion
        else planificar_job pedido file sock

  unfoldable pub init_job : ℤ → PedidoTrans → Respuesta → Action Unit
  unfolding requerir_informacion_filesystem recibo_informacion_solicitada con_archivo
      planificar_si_hay_nodos
  init_job sock pedido respuesta = do
    requerir_informacion_filesystem pedido.file
    recibido ← recibo_informacion_solicitada en.igual pedido.id_job sock respuesta
    con_archivo (planificar_si_hay_nodos pedido sock) recibido

  -- The block number 4608 is taken for a corrupt packet.
  abbrev pub bloque_corrupto : ℤ
  bloque_corrupto = pos 4608

  unfoldable pub reducir_localmente : Bytes → (sock job : ℤ) → Action Unit
  unfolding busco_ip_puerto busco_archivos_temporales generar_nombre_temporal_local
      mandar_etapa_reduccion_local
  reducir_localmente nodo sock job = do
    worker ← gets (busco_ip_puerto en.igual nodo)
    archivos ← gets (busco_archivos_temporales en.igual nodo sock job)
    temporal_local ← generar_nombre_temporal_local en.decimal nodo sock job
    mandar_etapa_reduccion_local en.igual job sock nodo worker archivos temporal_local

  unfoldable pub transformacion_terminada : Bytes → (bloque sock job : ℤ) → Action Unit
  unfolding actualizo_tabla_estado verifico_finalizacion_transformacion reducir_localmente
  transformacion_terminada nodo bloque sock job = do
    actualizo_tabla_estado en.igual nodo bloque sock job finalizado_ok
    terminaron ← gets (verifico_finalizacion_transformacion en.igual nodo sock job)
    if terminaron then reducir_localmente nodo sock job else pure tt

  unfoldable pub transformacion_lista : ℤ → RespuestaTransf → Respuesta → Action Unit
  unfolding replanificacion dejar_de_planificar abortar_job transformacion_terminada
  transformacion_lista sock r respuesta =
      if eq_ℤ r.response (negsuc 0)
      then (do
        nodo ← or_fault r.nodo
        modify empezar_a_planificar
        replanificacion en.igual en.decimal nodo r.file sock r.id_job respuesta
        modify (dejar_de_planificar en))
      else if eq_ℤ r.bloque bloque_corrupto
      then abortar_job en.igual r.id_job sock error_planificacion
      else (do nodo ← or_fault r.nodo; transformacion_terminada nodo r.bloque sock r.id_job)

  unfoldable pub reduccion_local_lista : ℤ → RespuestaOperacion → Action Unit
  unfolding abortar_job actualizo_tabla_estado verifico_finalizacion_rl mandar_etapa_reduccion_gl
  reduccion_local_lista sock r =
      if eq_ℤ r.response (negsuc 0)
      then abortar_job en.igual r.id_job sock error_reduccion_local
      else (do
        nodo ← or_fault r.nodo
        actualizo_tabla_estado en.igual nodo (negsuc 0) sock r.id_job finalizado_ok
        terminaron ← gets (verifico_finalizacion_rl r.id_job sock)
        if terminaron then mandar_etapa_reduccion_gl en.igual en.decimal sock r.id_job else pure tt)

  unfoldable pub reduccion_global_lista : ℤ → RespuestaOperacion → Action Unit
  unfolding finalizar_job_global actualizo_tabla_estado mandar_etapa_almacenado_final
  reduccion_global_lista sock r =
      if eq_ℤ r.response (negsuc 0)
      then finalizar_job_global en.igual r.id_job sock error_reduccion_global con_error
      else (do
        nodo ← or_fault r.nodo
        actualizo_tabla_estado en.igual nodo (negsuc 1) sock r.id_job finalizado_ok
        mandar_etapa_almacenado_final en.igual nodo sock r.id_job)

  unfoldable pub almacenamiento_lista : ℤ → RespuestaOperacion → Action Unit
  unfolding finalizar_job_global
  almacenamiento_lista sock r =
      finalizar_job_global en.igual r.id_job sock error_almacenamiento_final
        (if eq_ℤ r.response (pos 0) then finalizado_ok else con_error)

  unfoldable pub atender_pedido : ℤ → Pedido → Respuesta → Action Unit
  unfolding init_job transformacion_lista reduccion_local_lista reduccion_global_lista
      almacenamiento_lista
  atender_pedido sock (op_init_job r) respuesta = init_job sock r respuesta
  atender_pedido sock (op_transformacion_lista r) respuesta = transformacion_lista sock r respuesta
  atender_pedido sock (op_reduccion_local_lista r) respuesta = reduccion_local_lista sock r
  atender_pedido sock (op_reduccion_global_lista r) respuesta = reduccion_global_lista sock r
  atender_pedido sock (op_almacenamiento_lista r) respuesta = almacenamiento_lista sock r
  atender_pedido sock otra respuesta = pure tt

  -- `numeroJob++` is a fault where no `int` holds the next number.
  unfoldable pub conectar : ℤ → Action Unit
  unfolding mlist_append enviar fault_unless
  conectar cli_sock = do
    job ← gets (λ y. y.numero_job)
    modify (λ y. record y { sockets = mlist_append y.sockets cli_sock })
    modify (enviar (id_job cli_sock job))
    fault_unless (ltb_ℤ job (pos (2 ^ 31 - 1)))
    modify (λ y. record y { numero_job = y.numero_job +ℤ pos 1 })

  unfoldable pub desconectar : ℤ → Action Unit
  unfolding buscar_id_job_para_master_caido eliminar_estados_multiples mlist_filter
  desconectar sock = do
    job ← gets (buscar_id_job_para_master_caido sock)
    if ltb_ℤ (pos 0) job then eliminar_estados_multiples en.igual sock job con_error else pure tt
    modify (λ y. record y { sockets = mlist_filter (λ s. not (eq_ℤ s sock)) y.sockets })

  -- One round of the loops of `listen_to_master` for a selected socket.
  unfoldable pub atender : Evento → Respuesta → Action Unit
  unfolding conectar desconectar finalizar_ejecucion atender_pedido
  atender (conexion cli_sock es_master) respuesta = if es_master then conectar cli_sock else pure tt
  atender filesystem respuesta = finalizar_ejecucion (negsuc 0) (negsuc 0)
  atender (desconexion sock) respuesta = desconectar sock
  atender (paquete sock pedido) respuesta = atender_pedido sock pedido respuesta
