-- ===== src/Jobs/Isolation/Server.antt =====
-- What handling a packet of a Master (YAMA/src/server.c) leaves alone.
use tp_2017_2c_yatpos.Base.{ℕ, ◌≡◌, refl, subst, List, []}
use tp_2017_2c_yatpos.Base.Int.{ℤ}
use tp_2017_2c_yatpos.Serial.Words.{Bytes}
use tp_2017_2c_yatpos.Yfile.{File}
use tp_2017_2c_yatpos.Jobs.State.{Yama, Outcome, returns, modify}
use tp_2017_2c_yatpos.Jobs.Table.{Respuesta, error_almacenamiento_final}
use tp_2017_2c_yatpos.Jobs.Server.{
  PedidoTrans, RespuestaTransf, RespuestaOperacion, Pedido, op_init_job, op_transformacion_lista,
  op_reduccion_local_lista, op_reduccion_global_lista, op_almacenamiento_lista, otra, Entorno,
  dejar_de_planificar, empezar_a_planificar, planificar_job, planificar_si_hay_nodos, init_job,
  reducir_localmente, transformacion_terminada, transformacion_lista, reduccion_local_lista,
  reduccion_global_lista, almacenamiento_lista, atender_pedido,
}
use tp_2017_2c_yatpos.Jobs.Isolation.{IsValid, Isolated, Ends, Keeps}
use tp_2017_2c_yatpos.Jobs.Isolation.Rules.{Keeps-modify, Keeps-pure, keeps_rules}
use tp_2017_2c_yatpos.Jobs.Isolation.Loads.{completar_primera_vez-Keeps, agregar_carga-Keeps}
use tp_2017_2c_yatpos.Jobs.Isolation.Table.{
  requerir_informacion_filesystem-Keeps, recibo_informacion_solicitada-Keeps, con_archivo-Keeps,
  avisar_error_master-Keeps, abortar_job-Keeps, actualizo_tabla_estado-Keeps,
  finalizar_job_global-Keeps,
}
use tp_2017_2c_yatpos.Jobs.Isolation.Stages.{
  local-Keeps, enviar_etapa_transformacion-Keeps, mandar_etapa_reduccion_local-Keeps,
  mandar_etapa_reduccion_gl-Keeps, mandar_etapa_almacenado_final-Keeps, replanificacion-Keeps,
}

module _ {sock : ℤ} {ps : List ℕ} (en : Entorno) where
  empezar-Keeps : Keeps sock ps (modify empezar_a_planificar)
  empezar-Keeps =
      Keeps-modify empezar_a_planificar (λ y. refl) (λ y. refl) (λ y. refl) (λ y. refl) (λ y. refl)
        (λ y. refl)

  dejar-Keeps : Keeps sock ps (modify (dejar_de_planificar en))
  unfolding dejar_de_planificar
  dejar-Keeps =
      Keeps-modify (dejar_de_planificar en) (λ y. refl) (λ y. refl) (λ y. refl) (λ y. refl)
        (λ y. refl) (λ y. refl)

  contador-Keeps : (n : ℕ) → Keeps sock ps (modify (λ y. record y { contador = n }))
  contador-Keeps n =
      Keeps-modify (λ y. record y { contador = n }) (λ y. refl) (λ y. refl) (λ y. refl) (λ y. refl)
        (λ y. refl) (λ y. refl)

  planificar_job-Keeps :
      (pedido : PedidoTrans) (file : File) → Keeps sock ps (planificar_job en pedido file sock)
  unfolding planificar_job
  planificar_job-Keeps pedido file =
      search
        (
          keeps_rules, completar_primera_vez-Keeps, empezar-Keeps, dejar-Keeps, contador-Keeps,
          agregar_carga-Keeps, enviar_etapa_transformacion-Keeps,
        )
        depth 16 fits 4000

  planificar_si_hay_nodos-Keeps :
      (pedido : PedidoTrans) (file : File)
      → Keeps sock ps (planificar_si_hay_nodos en pedido sock file)
  unfolding planificar_si_hay_nodos
  planificar_si_hay_nodos-Keeps pedido file =
      search (keeps_rules, avisar_error_master-Keeps, planificar_job-Keeps)

  init_job-Keeps :
      (pedido : PedidoTrans) (r : Respuesta) → Keeps sock ps (init_job en sock pedido r)
  unfolding init_job
  init_job-Keeps pedido r =
      search
        (
          keeps_rules, requerir_informacion_filesystem-Keeps, recibo_informacion_solicitada-Keeps,
          con_archivo-Keeps, planificar_si_hay_nodos-Keeps,
        )
        depth 12

  reducir_localmente-Keeps :
      (nodo : Bytes) (job : ℤ) → Keeps sock ps (reducir_localmente en nodo sock job)
  unfolding reducir_localmente
  reducir_localmente-Keeps nodo job =
      search (keeps_rules, local-Keeps, mandar_etapa_reduccion_local-Keeps) depth 12

  transformacion_terminada-Keeps :
      (nodo : Bytes) (bloque job : ℤ)
      → Keeps sock ps (transformacion_terminada en nodo bloque sock job)
  unfolding transformacion_terminada
  transformacion_terminada-Keeps nodo bloque job =
      search (keeps_rules, actualizo_tabla_estado-Keeps, reducir_localmente-Keeps) depth 12

  transformacion_lista-Keeps :
      (t : RespuestaTransf) (r : Respuesta) → Keeps sock ps (transformacion_lista en sock t r)
  unfolding transformacion_lista
  transformacion_lista-Keeps t r =
      search
        (
          keeps_rules, empezar-Keeps, replanificacion-Keeps, dejar-Keeps, abortar_job-Keeps,
          transformacion_terminada-Keeps,
        )
        depth 12 fits 4000

  reduccion_local_lista-Keeps :
      (r : RespuestaOperacion) → Keeps sock ps (reduccion_local_lista en sock r)
  unfolding reduccion_local_lista
  reduccion_local_lista-Keeps r =
      search
        (
          keeps_rules, abortar_job-Keeps, actualizo_tabla_estado-Keeps,
          mandar_etapa_reduccion_gl-Keeps,
        )
        depth 12 fits 4000

  reduccion_global_lista-Keeps :
      (r : RespuestaOperacion) → Keeps sock ps (reduccion_global_lista en sock r)
  unfolding reduccion_global_lista
  reduccion_global_lista-Keeps r =
      search
        (
          keeps_rules, finalizar_job_global-Keeps, actualizo_tabla_estado-Keeps,
          mandar_etapa_almacenado_final-Keeps,
        )
        depth 12 fits 4000

  almacenamiento_lista-Keeps :
      (r : RespuestaOperacion) → Keeps sock ps (almacenamiento_lista en sock r)
  unfolding almacenamiento_lista
  almacenamiento_lista-Keeps r =
      finalizar_job_global-Keeps en.igual r.id_job error_almacenamiento_final _

  atender_pedido-Keeps : (p : Pedido) (r : Respuesta) → Keeps sock ps (atender_pedido en sock p r)
  unfolding atender_pedido
  atender_pedido-Keeps (op_init_job p) r = init_job-Keeps p r
  atender_pedido-Keeps (op_transformacion_lista t) r = transformacion_lista-Keeps t r
  atender_pedido-Keeps (op_reduccion_local_lista t) r = reduccion_local_lista-Keeps t
  atender_pedido-Keeps (op_reduccion_global_lista t) r = reduccion_global_lista-Keeps t
  atender_pedido-Keeps (op_almacenamiento_lista t) r = almacenamiento_lista-Keeps t
  atender_pedido-Keeps otra r = Keeps-pure tt

-- Handling any packet of a Master, when it returns, leaves the entries of the other Masters as they
-- were and at their places in the table, keeps entries of this Master where its entries stood, changes
-- at most the state of this Master's entries, gives no number of job, connects and disconnects nobody,
-- and sends messages to this Master and to the FileSystem only; the pointers of the table stay valid.
pub atender_pedido-Isolated :
    (en : Entorno) (sock : ℤ) (p : Pedido) (r : Respuesta) (y y' : Yama)
    → IsValid y
    → atender_pedido en sock p r y ≡ returns tt y'
    → IsValid y' × Isolated sock y y'
atender_pedido-Isolated en sock p r y y' v e =
    at_return (atender_pedido en sock p r y) e ((atender_pedido-Keeps {ps = []} en p r).at y v tt)
  where
    at_return :
        (o : Outcome Unit) → o ≡ returns tt y' → Ends sock y o → IsValid y' × Isolated sock y y'
    at_return o e h = subst (Ends sock y) e h
