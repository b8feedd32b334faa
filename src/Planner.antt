-- ===== src/Planner.antt =====
-- The clock algorithm of YAMA/src/funcionesYAMA.c, which assigns every block of a file to one of the
-- nodes that have a copy of it: `planificar` after `llenarArrayPlanificador`, and the functions it
-- calls.
-- `base` is DISP_BASE, a positive number of the configuration, and `blocks` is `listaBloque`. The
-- static variables `contadorBloquesSeguidosNoAsignados` and `asigneBloquesDeArchivo` are fields.
-- `none` is a read outside the array or the list, or through NULL.
pub mod Move
pub mod Progress
pub mod Workers
pub mod Good
mod Rounds
pub mod Plan
pub mod Fill
pub mod Start
mod Tests
use tp_2017_2c_yatpos.Base.{
  ℕ, zero, suc, ◌+◌, ◌-◌, ◌%◌, ◌^◌, List, [], ◌∷◌, ◌++◌, Bool, true, false, ◌||◌, Option, none,
  some, length, get_elem?, set, map, ◌==◌, if◌then◌else◌, eq_bytes,
}
use tp_2017_2c_yatpos.Serial.Words.{Bytes}
use tp_2017_2c_yatpos.Yfile.{Block}

-- `t_workerPlanificacion`, whose availability is a `uint32_t`.
pub record Worker : Type 0 where
  pub disponibilidad : ℕ
  pub nombre_worker : Bytes
  pub bloque : List ℕ

pub record Clock : Type 0 where
  pub planificador : List Worker
  pub posicion : ℕ
  pub bloque : ℕ
  pub contador : ℕ
  pub asigne : Bool

-- Whether the node of a worker has a copy, for the three ways in which copies can be missing.
-- `strcmp` of NULL is `none`.
unfoldable pub tiene_copia : Block → Bytes → Option Bool
tiene_copia b nombre = elim b.copy0.node [
  | none ↦ elim b.copy1.node [ none ↦ none | some n1 ↦ some (eq_bytes n1 nombre) ]
  | some n0 ↦ elim b.copy1.node [
    | none ↦ some (eq_bytes n0 nombre)
    | some n1 ↦ some (eq_bytes n0 nombre || eq_bytes n1 nombre)
  ]
]

module _ (base : ℕ) where
  -- `disponibilidad += atoi(config_get("DISP_BASE"))`
  unfoldable pub sumo_base : Worker → Worker
  sumo_base w = record w { disponibilidad = (w.disponibilidad + base) % 2 ^ 32 }

  -- The case of a worker with no availability left.
  unfoldable pub recargo : Worker → Clock → Clock
  recargo w c = record c {
    planificador = set c.planificador c.posicion (record w { disponibilidad = base });
    posicion = suc c.posicion;
    contador = suc c.contador;
  }

  unfoldable pub avanzo_posicion : Clock → Clock
  unfolding sumo_base
  avanzo_posicion c =
      let todos = suc c.contador == length c.planificador in
      record c {
        planificador = if todos then map sumo_base c.planificador else c.planificador;
        posicion = suc c.posicion;
        contador = if todos then 0 else suc c.contador;
      }

module _ (blocks : List Block) where
  unfoldable pub asigno_bloque : Worker → Clock → Clock
  asigno_bloque w c = record c {
    planificador =
        set c.planificador c.posicion
          (record w { disponibilidad = w.disponibilidad - 1; bloque = w.bloque ++ c.bloque ∷ [] });
    bloque = suc c.bloque;
    asigne = if length blocks == suc c.bloque then true else c.asigne;
    posicion = suc c.posicion;
    contador = 0;
  }

module _ (base : ℕ) (blocks : List Block) where
  unfoldable pub verificar_condicion : Clock → Option Clock
  unfolding recargo avanzo_posicion asigno_bloque tiene_copia
  verificar_condicion c = elim (get_elem? c.planificador c.posicion) [
    | none ↦ none
    | some w ↦
        if w.disponibilidad == 0
        then some (recargo base w c)
        else elim (get_elem? blocks c.bloque) [
          | none ↦ none
          | some b ↦ elim (tiene_copia b w.nombre_worker) [
            | none ↦ none
            | some true ↦ some (asigno_bloque blocks w c)
            | some false ↦ some (avanzo_posicion base c)
          ]
        ]
  ]

  -- One round of the loop of `planificar`.
  abbrev pub vuelta : Clock → Clock
  vuelta c = record c { posicion = if c.posicion == length c.planificador then 0 else c.posicion }

  -- `while(!asigneBloquesDeArchivo)`
  unfoldable pub planificar : (fuel : ℕ) → Clock → Option Clock
  unfolding verificar_condicion
  planificar zero c = none
  planificar (suc fuel) c = elim c.asigne [
    | true ↦ some (record c { asigne = false })
    | false ↦ elim (verificar_condicion (vuelta c)) [ none ↦ none | some c' ↦ planificar fuel c' ]
  ]
