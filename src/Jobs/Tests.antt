-- ===== src/Jobs/Tests.antt =====
-- YAMA's jobs (YAMA/src/funcionesYAMA.c, YAMA/src/server.c) on concrete states.
use tp_2017_2c_yatpos.Base.{
  map, ℕ, zero, suc, ◌+◌, ◌≡◌, refl, List, [], ◌∷◌, true, false, none, some, arith, All, eq_bytes,
}
use tp_2017_2c_yatpos.Base.Int.{ℤ, pos, negsuc, to_unsigned, ◌+ℤ◌}
use tp_2017_2c_yatpos.Serial.Words.{Bytes}
use tp_2017_2c_yatpos.Planner.Fill.{Carga}
use tp_2017_2c_yatpos.Jobs.State.{
  transformacion, reduccion_local, en_proceso, Estado, error_job, Yama, Outcome, returns, exits,
  faults, ◌>>=◌, gets, or_fault, pure, modify, fault_unless, for_each,
}
use tp_2017_2c_yatpos.Jobs.Loads.{
  obtener_posicion_carga_nodo, actualizar_carga_del_nodo, carga_actual_de,
}
use tp_2017_2c_yatpos.Jobs.Table.{Respuesta, no_existe, abortar_job}
use tp_2017_2c_yatpos.Jobs.Stages.{NodoTemporal, seleccionar_encargado}
use tp_2017_2c_yatpos.Jobs.Server.{
  RespuestaOperacion, op_reduccion_local_lista, conexion, Entorno, atender_pedido, atender,
}
use tp_2017_2c_yatpos.Jobs.Isolation.{IsValid, Isolated}
use tp_2017_2c_yatpos.Jobs.Isolation.Server.{atender_pedido-Isolated}
use tp_2017_2c_yatpos.Jobs.Abort.{Aborted, abortar_job-Aborted}
use tp_2017_2c_yatpos.Jobs.Unload.{nombres_de}
use tp_2017_2c_yatpos.Jobs.Balance.{IsBalanced, actualizar_carga_del_nodo-IsBalanced}
use tp_2017_2c_yatpos.Jobs.Encargado.{IsIn, IsLeast, seleccionar_encargado-IsLeast}
use tp_2017_2c_yatpos.Jobs.Numbers.{here, serve, IsNumbered, Reaches-IsNumbered}

abbrev entorno : Entorno
entorno = record {
  igual = eq_bytes;
  decimal = λ z. (b'0' + to_unsigned 10 z) ∷ [];
  puntero = 4;
  fuel = 20;
  base = 1;
  retardo = pos 0;
  algoritmo = [];
}

abbrev nodo1 : Bytes
nodo1 = b'N' ∷ b'1' ∷ []

abbrev nodo2 : Bytes
nodo2 = b'N' ∷ b'2' ∷ []

-- Two jobs, of the Masters at the sockets 5 and 6.
abbrev entrada : ℕ → Estado
entrada p = elim p [
  | zero ↦ record {
    job = pos 1;
    master = pos 5;
    nodo = nodo1;
    block = negsuc 0;
    etapa = reduccion_local;
    archivo_temporal = [];
    estado = en_proceso;
  }
  | suc q ↦ record {
    job = pos 2;
    master = pos 6;
    nodo = nodo2;
    block = pos 7;
    etapa = transformacion;
    archivo_temporal = [];
    estado = en_proceso;
  }
]

abbrev carga1 : Carga
carga1 = record {
  nodo = nodo1;
  carga_actual = pos 3;
  carga_historica = pos 4;
  carga_por_job = record { job = pos 1; carga_del_job = pos 3 } ∷ [];
}

abbrev carga2 : Carga
carga2 = record {
  nodo = nodo2;
  carga_actual = pos 2;
  carga_historica = pos 2;
  carga_por_job = record { job = pos 2; carga_del_job = pos 2 } ∷ [];
}

abbrev inicial : Yama
inicial = record {
  objetos = entrada;
  siguiente = 0;
  lista_estados = [];
  lista_carga = [];
  lista_nodos_activos = [];
  es_la_primera_vez = true;
  contador = 0;
  numero_job = pos 1;
  retardo_planificacion = pos 0;
  algoritmo_balanceo = [];
  recibi_senial = false;
  entre_a_planificar = false;
  sockets = [];
  enviados = [];
}

abbrev dos_jobs : Yama
dos_jobs = record inicial {
  siguiente = 2;
  lista_estados = 0 ∷ 1 ∷ [];
  lista_carga = carga1 ∷ carga2 ∷ [];
  sockets = pos 5 ∷ pos 6 ∷ [];
}

abbrev sin_respuesta : Respuesta
sin_respuesta = record { nodos = none; file = no_existe }

abbrev after : {A : Type 0} → Outcome A → Yama
after (returns a y) = y
after (exits y) = y
after faults = inicial

abbrev fallo : RespuestaOperacion
fallo = record { id_job = pos 1; nodo = some nodo1; response = negsuc 0 }

abbrev terminada : RespuestaOperacion
terminada = record { id_job = pos 1; nodo = some nodo1; response = pos 0 }

atender_pedido-Isolated_example :
    IsValid (
      after
        (atender_pedido entorno (pos 5) (op_reduccion_local_lista fallo) sin_respuesta dos_jobs))
    × Isolated (pos 5) dos_jobs (
        after
          (atender_pedido entorno (pos 5) (op_reduccion_local_lista fallo) sin_respuesta dos_jobs))
unfolding atender_pedido ◌>>=◌ gets or_fault pure modify fault_unless for_each
atender_pedido-Isolated_example =
    atender_pedido-Isolated entorno (pos 5) (op_reduccion_local_lista fallo) sin_respuesta dos_jobs
      (after
        (atender_pedido entorno (pos 5) (op_reduccion_local_lista fallo) sin_respuesta dos_jobs))
      (omega arith, (omega arith, tt)) refl

abortar_job-Aborted_example :
    (y' : Yama) × (abortar_job eq_bytes (pos 1) (pos 5) (negsuc 3) dos_jobs ≡ returns tt y')
    × Aborted eq_bytes (pos 1) (pos 5) dos_jobs y'
    × (y'.enviados ≡ error_job (pos 5) (negsuc 3) ∷ [])
unfolding obtener_posicion_carga_nodo
abortar_job-Aborted_example =
    abortar_job-Aborted eq_bytes (pos 1) (pos 5) dos_jobs (negsuc 3)
      ((λ _. (0, refl)), ((λ _. (1, refl)), tt))

balanced : All IsBalanced dos_jobs.lista_carga
unfolding ◌+ℤ◌
balanced = ((refl, (tt, tt)), ((refl, (tt, tt)), tt))

actualizar_carga_del_nodo-IsBalanced_example :
    (cargas : List Carga) × (actualizar_carga_del_nodo eq_bytes nodo2 (pos 1) true (pos 2) dos_jobs
      ≡ returns tt (record dos_jobs { lista_carga = cargas }))
    × All IsBalanced cargas
    × (nombres_de cargas ≡ nodo1 ∷ nodo2 ∷ [])
unfolding obtener_posicion_carga_nodo
actualizar_carga_del_nodo-IsBalanced_example =
    actualizar_carga_del_nodo-IsBalanced eq_bytes dos_jobs nodo2 (pos 1) true (pos 2) (1, refl)
      balanced

abbrev temporal : Bytes → NodoTemporal
temporal nodo = record { nodo = nodo; archivo_temporal = [] }

seleccionar_encargado-IsLeast_example :
    (m : Bytes) × (x : ℤ) × (cargas : List Carga) × (seleccionar_encargado eq_bytes
        (temporal nodo1 ∷ temporal nodo2 ∷ [])
        (pos 1)
        dos_jobs
      ≡ returns m (record dos_jobs { lista_carga = cargas }))
    × (carga_actual_de eq_bytes m dos_jobs.lista_carga ≡ some x)
    × IsIn eq_bytes dos_jobs m
        (map (λ (n : NodoTemporal). n.nodo) (temporal nodo1 ∷ temporal nodo2 ∷ []))
    × IsLeast eq_bytes dos_jobs x (temporal nodo1 ∷ temporal nodo2 ∷ [])
    × All IsBalanced cargas
unfolding obtener_posicion_carga_nodo carga_actual_de
seleccionar_encargado-IsLeast_example =
    seleccionar_encargado-IsLeast eq_bytes dos_jobs (temporal nodo1) (temporal nodo2 ∷ []) (pos 1)
      (((pos 3, refl), (0, refl)), (((pos 2, refl), (1, refl)), tt)) balanced

abbrev conectado : Yama
conectado = after (atender entorno (conexion (pos 5) true) sin_respuesta inicial)

abbrev otro_conectado : Yama
otro_conectado = after (atender entorno (conexion (pos 6) true) sin_respuesta conectado)

Reaches-IsNumbered_example : IsValid otro_conectado × IsNumbered otro_conectado
unfolding atender ◌>>=◌ gets modify
Reaches-IsNumbered_example = Reaches-IsNumbered entorno inicial otro_conectado refl refl refl (
    serve (serve (here refl) (conexion (pos 5) true) sin_respuesta refl) (conexion (pos 6) true)
      sin_respuesta refl)
