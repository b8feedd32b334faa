-- ===== src/Jobs/State.antt =====
-- The variables of YAMA (YAMA/src/YAMA.c, YAMA/src/server.c and their headers), and what a function
-- on them returns.
-- `listaEstados` is a list of pointers, which several variables and lists share, so a `t_Estado`
-- stands in `objetos`, and a pointer is its number there. The texts of a stage and of a state are
-- only assigned and compared as literals, of which no two are equal up to case, so they are data.
use tp_2017_2c_yatpos.Base.{
  ℕ, suc, List, [], ◌∷◌, Bool, true, false, Option, none, some, ◌==◌, if◌then◌else◌,
}
use tp_2017_2c_yatpos.Base.Int.{ℤ}
use tp_2017_2c_yatpos.Serial.Words.{Bytes}
use tp_2017_2c_yatpos.Yfile.{Text}
use tp_2017_2c_yatpos.Stages.{NodeInfo, Transformation, GlobalReduction, FinalStorage}
use tp_2017_2c_yatpos.Planner.Fill.{Carga}
use tp_2017_2c_yatpos.Mlist.{mlist_append, mlist_replace}

-- "Transformacion", "ReduccionLocal", "ReduccionGlobal" and "AlmacenamientoFinal"
pub data Etapa : Type 0 where
  transformacion reduccion_local reduccion_global almacenamiento_final : Etapa

-- "En proceso", "FinalizadoOK" and "Error"
pub data Progreso : Type 0 where
  en_proceso finalizado_ok con_error : Progreso

abbrev pub es_transformacion : Etapa → Bool
es_transformacion e = elim e [ transformacion ↦ true | _ ↦ false ]

abbrev pub es_reduccion_local : Etapa → Bool
es_reduccion_local e = elim e [ reduccion_local ↦ true | _ ↦ false ]

abbrev pub es_reduccion_global : Etapa → Bool
es_reduccion_global e = elim e [ reduccion_global ↦ true | _ ↦ false ]

abbrev pub es_en_proceso : Progreso → Bool
es_en_proceso e = elim e [ en_proceso ↦ true | _ ↦ false ]

abbrev pub es_finalizado : Progreso → Bool
es_finalizado e = elim e [ finalizado_ok ↦ true | _ ↦ false ]

abbrev pub es_error : Progreso → Bool
es_error e = elim e [ con_error ↦ true | _ ↦ false ]

-- `t_Estado`
pub record Estado : Type 0 where
  pub job : ℤ
  pub master : ℤ
  pub nodo : Bytes
  pub block : ℤ
  pub etapa : Etapa
  pub archivo_temporal : Bytes
  pub estado : Progreso

-- `tEtapaReduccionLocal`
pub record LocalReduction : Type 0 where
  pub nodo : Text
  pub ip : Text
  pub puerto : Text
  pub archivos_temporales : List Bytes
  pub archivo_etapa : Text

-- A packet that YAMA sends, to the FileSystem (`pedido_archivo`) or to the socket of a Master.
pub data Mensaje : Type 0 where
  pedido_archivo : Text → Mensaje
  id_job : (socket job : ℤ) → Mensaje
  error_job : (socket codigo : ℤ) → Mensaje
  iniciar_transformacion : (socket : ℤ) → List Transformation → Mensaje
  iniciar_reduccion_local : (socket : ℤ) → LocalReduction → Mensaje
  iniciar_reduccion_global : (socket : ℤ) → List GlobalReduction → Mensaje
  iniciar_almacenamiento : (socket : ℤ) → FinalStorage → Mensaje

-- `contador` is `contadorBloquesSeguidosNoAsignados`, `enviados` what was sent, the last first.
pub record Yama : Type 0 where
  pub objetos : ℕ → Estado
  pub siguiente : ℕ
  pub lista_estados : List ℕ
  pub lista_carga : List Carga
  pub lista_nodos_activos : List NodeInfo
  pub es_la_primera_vez : Bool
  pub contador : ℕ
  pub numero_job : ℤ
  pub retardo_planificacion : ℤ
  pub algoritmo_balanceo : Bytes
  pub recibi_senial : Bool
  pub entre_a_planificar : Bool
  pub sockets : List ℤ
  pub enviados : List Mensaje

-- `exits` is `exit(0)`; `faults` a read through NULL or a write outside a buffer.
pub data Outcome (A : Type 0) : Type 0 where
  returns : A → Yama → Outcome A
  exits : Yama → Outcome A
  faults : Outcome A

abbrev pub Action : Type 0 → Type 0
Action A = Yama → Outcome A

module _ {A : Type 0} where
  unfoldable pub pure : A → Action A
  pure a y = returns a y

  unfoldable pub gets : (Yama → A) → Action A
  gets f y = returns (f y) y

  unfoldable pub or_fault : Option A → Action A
  or_fault none y = faults
  or_fault (some a) y = returns a y

infixl 5 ◌>>=◌ ◌>>◌
unfoldable pub ◌>>=◌ : {A B : Type 0} → Action A → (A → Action B) → Action B
◌>>=◌ m f y = elim (m y) [ returns a y' ↦ f a y' | exits y' ↦ exits y' | faults ↦ faults ]

abbrev pub ◌>>◌ : {A B : Type 0} → Action A → Action B → Action B
m >> k = m >>= λ _. k

unfoldable pub modify : (Yama → Yama) → Action Unit
modify f y = returns tt (f y)

unfoldable pub exit : Action Unit
exit y = exits y

unfoldable pub fault_unless : Bool → Action Unit
fault_unless c y = if c then returns tt y else faults

unfoldable pub for_each : {A : Type 0} → (A → Action Unit) → List A → Action Unit
unfolding ◌>>=◌ pure
for_each f [] = pure tt
for_each f (x ∷ xs) = f x >> for_each f xs

-- The object at an address written.
unfoldable pub put_at : (ℕ → Estado) → ℕ → Estado → ℕ → Estado
put_at f p e q = if q == p then e else f q

unfoldable pub escribir : ℕ → Estado → Yama → Yama
unfolding put_at
escribir p e y = record y { objetos = put_at y.objetos p e }

-- `estado = mstring_duplicate(nuevo)`
abbrev pub escribir_estado : ℕ → Progreso → Yama → Yama
escribir_estado p nuevo y = escribir p (record (y.objetos p) { estado = nuevo }) y

unfoldable pub enviar : Mensaje → Yama → Yama
enviar m y = record y { enviados = m ∷ y.enviados }

-- A new `t_Estado`, appended to `listaEstados`.
unfoldable pub agregar : Estado → Yama → Yama
unfolding put_at mlist_append
agregar e y = record y {
  objetos = put_at y.objetos y.siguiente e;
  siguiente = suc y.siguiente;
  lista_estados = mlist_append y.lista_estados y.siguiente;
}

-- `mlist_replace`, which changes nothing at the index -1.
unfoldable pub reemplazar : Option ℕ → ℕ → Yama → Yama
unfolding mlist_replace
reemplazar none p y = y
reemplazar (some i) p y = record y { lista_estados = mlist_replace y.lista_estados i p }
