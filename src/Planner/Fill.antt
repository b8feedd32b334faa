-- ===== src/Planner/Fill.antt =====
-- `llenarArrayPlanificador` of YAMA/src/funcionesYAMA.c: the availability of every active node and
-- the position where the clock starts, and `planificar` after it.
-- `equals_ignore_case` is `string_equals_ignore_case` of the commons library, `algoritmo` the text
-- `algoritmoBalanceo`, `base` DISP_BASE and `cargas` the list `listaCargaPorNodo`.
use tp_2017_2c_yatpos.Base.{
  ℕ, suc, ◌%◌, ◌^◌, List, [], ◌∷◌, Bool, false, Option, none, some, length, map, ltb, ◌==◌,
  if◌then◌else◌, eq_bytes,
}
use tp_2017_2c_yatpos.Base.Int.{ℤ, pos, ◌+ℤ◌, ◌-ℤ◌, leb_ℤ, ltb_ℤ, to_unsigned}
use tp_2017_2c_yatpos.Mlist.{mlist_sort, mlist_first}
use tp_2017_2c_yatpos.Serial.Words.{Bytes}
use tp_2017_2c_yatpos.Yfile.{Block}
use tp_2017_2c_yatpos.Stages.{NodeInfo}
use tp_2017_2c_yatpos.Planner.{Worker, Clock, planificar}

-- `t_cargaPorJob`
pub record CargaJob : Type 0 where
  pub job : ℤ
  pub carga_del_job : ℤ

-- `t_cargaPorNodo`
pub record Carga : Type 0 where
  pub nodo : Bytes
  pub carga_actual : ℤ
  pub carga_historica : ℤ
  pub carga_por_job : List CargaJob

-- The variables of `llenarArrayPlanificador`; `posicion` is not initialised.
pub record Choice : Type 0 where
  pub maxima : ℕ
  pub posicion : Option ℕ
  pub historico : ℤ

-- "CLOCK" and "WCLOCK"
abbrev pub clock : Bytes
clock = b'C' ∷ b'L' ∷ b'O' ∷ b'C' ∷ b'K' ∷ []

abbrev pub wclock : Bytes
wclock = b'W' ∷ clock

-- `mlist_first` of no loads is NULL, so 0.
unfoldable pub obtener_carga_maxima : List Carga → ℤ
unfolding mlist_sort mlist_first
obtener_carga_maxima cs =
    elim (mlist_first (mlist_sort (λ a b. leb_ℤ b a) (map (λ (c : Carga). c.carga_actual) cs))) [
      | none ↦ pos 0
      | some mayor ↦ mayor
    ]

-- The two tests on the availability `d` of the worker `i`.
unfoldable pub elegir : Option Carga → (i d : ℕ) → Choice → Option Choice
elegir carga i d e =
    if ltb e.maxima d
    then elim carga [
      | none ↦ none
      | some c ↦ some (record { maxima = d; posicion = some i; historico = c.carga_historica })
    ]
    else if d == e.maxima
    then elim carga [
      | none ↦ none
      | some c ↦
          if ltb_ℤ c.carga_historica e.historico
          then some (record e { posicion = some i; historico = c.carga_historica })
          else some e
    ]
    else some e

-- `strcpy` into 6 bytes.
unfoldable pub copiar_nombre : NodeInfo → Option Bytes
copiar_nombre n = elim n.nodo [
  | none ↦ none
  | some nombre ↦ if ltb (length nombre) 6 then some nombre else none
]

module _ (equals_ignore_case : Bytes → Bytes → Bool) where
  -- `mlist_find` by the name of a node.
  unfoldable pub carga_de : List Carga → Bytes → Option Carga
  carga_de [] nodo = none
  carga_de (c ∷ cs) nodo = if equals_ignore_case nodo c.nodo then some c else carga_de cs nodo

module _ (equals_ignore_case : Bytes → Bytes → Bool) (algoritmo : Bytes) (base : ℕ) where
  -- `Disponibilidad`, an `int` that is kept in a `uint32_t`.
  unfoldable pub disponibilidad : List Carga → (carga_max : ℤ) → Bytes → Option ℕ
  unfolding carga_de to_unsigned ◌+ℤ◌ ◌-ℤ◌
  disponibilidad cargas carga_max nodo =
      if equals_ignore_case clock algoritmo
      then some (base % 2 ^ 32)
      else elim (carga_de equals_ignore_case cargas nodo) [
        | none ↦ none
        | some c ↦ some (to_unsigned (2 ^ 32) (pos base +ℤ (carga_max -ℤ c.carga_actual)))
      ]

  -- The loop, from worker `i` on.
  unfoldable pub llenar :
      List Carga → ℤ → ℕ → Choice → List NodeInfo → Option (List Worker × Choice)
  unfolding copiar_nombre disponibilidad elegir carga_de
  llenar cargas carga_max i e [] = some ([], e)
  llenar cargas carga_max i e (n ∷ ns) = elim (copiar_nombre n) [
    | none ↦ none
    | some nombre ↦ elim (disponibilidad cargas carga_max nombre) [
      | none ↦ none
      | some d ↦ elim (elegir (carga_de equals_ignore_case cargas nombre) i d e) [
        | none ↦ none
        | some e' ↦ elim (llenar cargas carga_max (suc i) e' ns) [
          | none ↦ none
          | some (ws, last) ↦
              some (record { disponibilidad = d; nombre_worker = nombre; bloque = [] } ∷ ws, last)
        ]
      ]
    ]
  ]

  -- `cargaMax`, which only the algorithm WCLOCK computes.
  unfoldable pub carga_max_de : List Carga → ℤ
  unfolding obtener_carga_maxima
  carga_max_de cargas = if eq_bytes wclock algoritmo then obtener_carga_maxima cargas else pos 0

  unfoldable pub llenar_array_planificador :
      List Carga → List NodeInfo → Option (List Worker × Choice)
  unfolding llenar carga_max_de
  llenar_array_planificador cargas nodos =
      llenar cargas (carga_max_de cargas) 0
        (record { maxima = 0; posicion = none; historico = pos 0 }) nodos

  -- `planificar` whole; `contador` is what the static variable holds from before. A start at the
  -- uninitialised position is `none`.
  unfoldable pub planificar_archivo :
      List Block → List Carga → List NodeInfo → (contador fuel : ℕ) → Option Clock
  unfolding llenar_array_planificador planificar
  planificar_archivo blocks cargas nodos contador fuel =
      elim (llenar_array_planificador cargas nodos) [
        | none ↦ none
        | some (ws, e) ↦ elim e.posicion [
          | none ↦ none
          | some p ↦ planificar base blocks fuel (record {
            planificador = ws;
            posicion = p;
            bloque = 0;
            contador = contador;
            asigne = false;
          })
        ]
      ]
