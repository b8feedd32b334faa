-- ===== src/Jobs/Isolation/Stages.antt =====
-- The stages that YAMA sends (YAMA/src/server.c, `replanificacion` of YAMA/src/funcionesYAMA.c) go to the
-- Master that asked.
use tp_2017_2c_yatpos.Base.{ℕ, ◌+◌, List, [], ◌∷◌, Bool, true, false, Option, refl}
use tp_2017_2c_yatpos.Base.Int.{ℤ}
use tp_2017_2c_yatpos.Serial.Words.{Bytes}
use tp_2017_2c_yatpos.Yfile.{Text, Block, File}
use tp_2017_2c_yatpos.Stages.{NodeInfo, Transformation, GlobalReduction}
use tp_2017_2c_yatpos.Planner.{Worker}
use tp_2017_2c_yatpos.Jobs.State.{modify, enviar, iniciar_transformacion}
use tp_2017_2c_yatpos.Jobs.Stages.{
  NodoTemporal, nombre_temporal, generar_nombre_archivo_temporal_transf,
  generar_nombre_temporal_local, generar_archivo_rg, etapa_del_bloque, etapas_del_worker,
  etapas_de_workers, enviar_etapa_transformacion_master, mandar_etapa_reduccion_local,
  seleccionar_encargado, etapa_rg, etapas_rg, mandar_etapa_reduccion_gl,
  mandar_etapa_almacenado_final,
}
use tp_2017_2c_yatpos.Jobs.Table.{Respuesta}
use tp_2017_2c_yatpos.Jobs.Replan.{
  marcar_bloque, marcar_bloques, generar_etapa_para_copia, generar_etapas, mover_etapa,
  mandar_o_abortar, replanificar, replanificacion,
}
use tp_2017_2c_yatpos.Jobs.Isolation.{Keeps}
use tp_2017_2c_yatpos.Jobs.Isolation.Rules.{Keeps-enviar, Keeps-for_each, Keeps-pure, keeps_rules}
use tp_2017_2c_yatpos.Jobs.Isolation.Loads.{actualizar_carga_del_nodo-Keeps, cambiar_carga-Keeps}
use tp_2017_2c_yatpos.Jobs.Isolation.Table.{
  agregar_a_tabla_estado-Keeps, actualizo_tabla_estado-Keeps, abortar_job-Keeps,
  requerir_informacion_filesystem-Keeps, recibo_informacion_solicitada-Keeps, con_archivo-Keeps,
}

module _ {sock : ℤ} {ps : List ℕ} where
  nombre_temporal-Keeps : (t : Bytes) → Keeps sock ps (nombre_temporal t)
  unfolding nombre_temporal
  nombre_temporal-Keeps t = search keeps_rules

  enviar_transformacion-Keeps :
      (lista : List Transformation)
      → Keeps sock ps (modify (enviar (iniciar_transformacion sock lista)))
  enviar_transformacion-Keeps lista = Keeps-enviar (iniciar_transformacion sock lista) refl

  module _ (decimal : ℤ → Bytes) where
    transf-Keeps :
        (job master bloque : ℤ)
        → Keeps sock ps (generar_nombre_archivo_temporal_transf decimal job master bloque)
    unfolding generar_nombre_archivo_temporal_transf
    transf-Keeps job master bloque = nombre_temporal-Keeps _

    pub local-Keeps :
        (nodo : Bytes) (master job : ℤ)
        → Keeps sock ps (generar_nombre_temporal_local decimal nodo master job)
    unfolding generar_nombre_temporal_local
    local-Keeps nodo master job = nombre_temporal-Keeps _

    rg-Keeps : (master job : ℤ) → Keeps sock ps (generar_archivo_rg decimal master job)
    unfolding generar_archivo_rg
    rg-Keeps master job = nombre_temporal-Keeps _

    etapa_del_bloque-Keeps :
        (job : ℤ) (blocks : List Block) (i indice : ℕ)
        → Keeps sock ps (etapa_del_bloque decimal job sock blocks i indice)
    unfolding etapa_del_bloque
    etapa_del_bloque-Keeps job blocks i indice =
        search (keeps_rules, transf-Keeps, agregar_a_tabla_estado-Keeps) depth 12 fits 4000

    etapas_del_worker-Keeps :
        (job : ℤ) (blocks : List Block) (i : ℕ) (indices : List ℕ) (lista : List Transformation)
        → Keeps sock ps (etapas_del_worker decimal job sock blocks i indices lista)
    unfolding etapas_del_worker
    etapas_del_worker-Keeps job blocks i [] lista = Keeps-pure lista
    etapas_del_worker-Keeps job blocks i (n ∷ ns) lista =
        search (keeps_rules, etapa_del_bloque-Keeps, etapas_del_worker-Keeps job blocks i ns)

    etapas_de_workers-Keeps :
        (job : ℤ) (blocks : List Block) (i : ℕ) (ws : List Worker) (lista : List Transformation)
        → Keeps sock ps (etapas_de_workers decimal job sock blocks i ws lista)
    unfolding etapas_de_workers
    etapas_de_workers-Keeps job blocks i [] lista = Keeps-pure lista
    etapas_de_workers-Keeps job blocks i (w ∷ ws) lista =
        search (keeps_rules, etapas_del_worker-Keeps, etapas_de_workers-Keeps job blocks (1 + i) ws)

    pub enviar_etapa_transformacion-Keeps :
        (job : ℤ) (ws : List Worker) (blocks : List Block)
        → Keeps sock ps (enviar_etapa_transformacion_master decimal job ws blocks sock)
    unfolding enviar_etapa_transformacion_master
    enviar_etapa_transformacion-Keeps job ws blocks =
        search (keeps_rules, etapas_de_workers-Keeps, enviar_transformacion-Keeps)

  module _ (igual : Bytes → Bytes → Bool) where
    pub mandar_etapa_reduccion_local-Keeps :
        (job : ℤ) (nodo : Bytes) (worker : Option NodeInfo) (archivos : List Bytes) (a : Bytes)
        → Keeps sock ps (mandar_etapa_reduccion_local igual job sock nodo worker archivos a)
    unfolding mandar_etapa_reduccion_local
    mandar_etapa_reduccion_local-Keeps job nodo worker archivos a =
        search (keeps_rules, agregar_a_tabla_estado-Keeps, Keeps-enviar)

    seleccionar_encargado-Keeps :
        (nodos : List NodoTemporal) (job : ℤ)
        → Keeps sock ps (seleccionar_encargado igual nodos job)
    unfolding seleccionar_encargado
    seleccionar_encargado-Keeps nodos job = search (keeps_rules, actualizar_carga_del_nodo-Keeps)

    etapa_rg-Keeps :
        (encargado nombre_rg : Bytes) (t : NodoTemporal)
        → Keeps sock ps (etapa_rg igual encargado nombre_rg t)
    unfolding etapa_rg
    etapa_rg-Keeps encargado nombre_rg t = search keeps_rules

    etapas_rg-Keeps :
        (encargado nombre_rg : Bytes) (ts : List NodoTemporal) (lista : List GlobalReduction)
        → Keeps sock ps (etapas_rg igual encargado nombre_rg ts lista)
    unfolding etapas_rg
    etapas_rg-Keeps encargado nombre_rg [] lista = Keeps-pure lista
    etapas_rg-Keeps encargado nombre_rg (t ∷ ts) lista =
        search (keeps_rules, etapa_rg-Keeps, etapas_rg-Keeps encargado nombre_rg ts)

    pub mandar_etapa_reduccion_gl-Keeps :
        (decimal : ℤ → Bytes) (job : ℤ)
        → Keeps sock ps (mandar_etapa_reduccion_gl igual decimal sock job)
    unfolding mandar_etapa_reduccion_gl
    mandar_etapa_reduccion_gl-Keeps decimal job =
        search
          (
            keeps_rules, seleccionar_encargado-Keeps, rg-Keeps, etapas_rg-Keeps,
            agregar_a_tabla_estado-Keeps, Keeps-enviar,
          )
          depth 12 fits 4000

    pub mandar_etapa_almacenado_final-Keeps :
        (nodo : Bytes) (job : ℤ) → Keeps sock ps (mandar_etapa_almacenado_final igual nodo sock job)
    unfolding mandar_etapa_almacenado_final
    mandar_etapa_almacenado_final-Keeps nodo job =
        search (keeps_rules, agregar_a_tabla_estado-Keeps, Keeps-enviar) depth 12 fits 4000

    marcar_bloque-Keeps :
        (nodo : Bytes) (job : ℤ) (blocks : List Block) (p : ℕ)
        → Keeps sock ps (marcar_bloque igual nodo sock job blocks p)
    unfolding marcar_bloque
    marcar_bloque-Keeps nodo job blocks p = search (keeps_rules, actualizo_tabla_estado-Keeps)

    marcar_bloques-Keeps :
        (nodo : Bytes) (job : ℤ) (blocks : List Block) (qs : List ℕ) (lista : List Block)
        → Keeps sock ps (marcar_bloques igual nodo sock job blocks qs lista)
    unfolding marcar_bloques
    marcar_bloques-Keeps nodo job blocks [] lista = Keeps-pure lista
    marcar_bloques-Keeps nodo job blocks (q ∷ qs) lista =
        search (keeps_rules, marcar_bloque-Keeps, marcar_bloques-Keeps nodo job blocks qs)

  module _ (igual : Bytes → Bytes → Bool) (decimal : ℤ → Bytes) where
    generar_etapa_para_copia-Keeps :
        (segunda : Bool) (b : Block) (job : ℤ)
        → Keeps sock ps (generar_etapa_para_copia igual decimal segunda b job sock)
    unfolding generar_etapa_para_copia
    generar_etapa_para_copia-Keeps segunda b job = search (keeps_rules, transf-Keeps)

    generar_etapas-Keeps :
        (nodo : Bytes) (job : ℤ) (bs : List Block) (aborto : Bool) (lista : List Transformation)
        → Keeps sock ps (generar_etapas igual decimal nodo job sock bs aborto lista)
    unfolding generar_etapas
    generar_etapas-Keeps nodo job [] aborto lista = Keeps-pure (aborto, lista)
    generar_etapas-Keeps nodo job (b ∷ bs) aborto lista =
        search (keeps_rules, generar_etapa_para_copia-Keeps, generar_etapas-Keeps nodo job bs) depth
          12 fits 4000

    mover_etapa-Keeps :
        (nodo : Bytes) (job : ℤ) (et : Transformation)
        → Keeps sock ps (mover_etapa igual decimal nodo job sock et)
    unfolding mover_etapa
    mover_etapa-Keeps nodo job et =
        search (keeps_rules, agregar_a_tabla_estado-Keeps, cambiar_carga-Keeps) depth 12 fits 4000

    mandar_o_abortar-Keeps :
        (nodo : Bytes) (job : ℤ) (r : Bool × List Transformation)
        → Keeps sock ps (mandar_o_abortar igual decimal nodo sock job r)
    unfolding mandar_o_abortar
    mandar_o_abortar-Keeps nodo job (true, lista) = abortar_job-Keeps igual job _
    mandar_o_abortar-Keeps nodo job (false, lista) = search (
      keeps_rules, cambiar_carga-Keeps, Keeps-for_each, mover_etapa-Keeps,
      enviar_transformacion-Keeps,
    )

    replanificar-Keeps :
        (nodo : Bytes) (job : ℤ) (file : File)
        → Keeps sock ps (replanificar igual decimal nodo sock job file)
    unfolding replanificar
    replanificar-Keeps nodo job file =
        search (keeps_rules, marcar_bloques-Keeps, generar_etapas-Keeps, mandar_o_abortar-Keeps)
          depth 12 fits 4000

    pub replanificacion-Keeps :
        (nodo : Bytes) (path : Text) (job : ℤ) (r : Respuesta)
        → Keeps sock ps (replanificacion igual decimal nodo path sock job r)
    unfolding replanificacion
    replanificacion-Keeps nodo path job r =
        search
          (
            keeps_rules, requerir_informacion_filesystem-Keeps, recibo_informacion_solicitada-Keeps,
            con_archivo-Keeps, replanificar-Keeps,
          )
          depth 12 fits 4000
