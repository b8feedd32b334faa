-- ===== src/Planner/Tests.antt =====
-- A plan for three blocks on two nodes.
use tp_2017_2c_yatpos.Base.{
  ℕ, ◌≡◌, refl, List, [], ◌∷◌, Bool, false, Option, none, some, arith, map, leb, if◌then◌else◌, ◌+◌,
  eq_bytes, ◌&&◌,
}
use tp_2017_2c_yatpos.Base.Int.{pos}
use tp_2017_2c_yatpos.Base.Int.{pos}
use tp_2017_2c_yatpos.Serial.Words.{Bytes}
use tp_2017_2c_yatpos.Yfile.{Text, Block}
use tp_2017_2c_yatpos.Planner.{Worker, Clock, tiene_copia, planificar}
use tp_2017_2c_yatpos.Stages.{NodeInfo}
use tp_2017_2c_yatpos.Planner.Fill.{
  Carga, wclock, carga_de, disponibilidad, carga_max_de, copiar_nombre, planificar_archivo,
}
use tp_2017_2c_yatpos.Planner.Plan.{IsPlan, planificar-IsPlan}
use tp_2017_2c_yatpos.Planner.Start.{planificar_archivo-IsPlan}

-- "N1" and "N2"
abbrev n1 : Bytes
n1 = 78 ∷ 49 ∷ []

abbrev n2 : Bytes
n2 = 78 ∷ 50 ∷ []

abbrev block_at : Text → Text → Block
block_at a b = record {
  index = pos 0;
  size = 10;
  copy0 = record { blockno = pos 0; node = a };
  copy1 = record { blockno = pos 0; node = b };
}

-- The second copy of the second block is lost.
abbrev blocks : List Block
blocks = block_at (some n1) (some n2) ∷ block_at (some n2) none ∷ block_at (some n2) (some n1) ∷ []

abbrev start : Clock
start = record {
  planificador =
      record { disponibilidad = 1; nombre_worker = n1; bloque = [] }
      ∷ record { disponibilidad = 0; nombre_worker = n2; bloque = [] }
      ∷ [];
  posicion = 0;
  bloque = 0;
  contador = 0;
  asigne = false;
}

planned :
    planificar 1 blocks 13 start
    ≡ some (record {
      planificador =
          record { disponibilidad = 0; nombre_worker = n1; bloque = 0 ∷ 2 ∷ [] }
          ∷ record { disponibilidad = 0; nombre_worker = n2; bloque = 1 ∷ [] }
          ∷ [];
      posicion = 1;
      bloque = 3;
      contador = 0;
      asigne = false;
    })
unfolding planificar
planned = refl

planificar-IsPlan_example :
    (c' : Clock) × (planificar 1 blocks 13 start ≡ some c')
    × IsPlan 1 blocks (n1 ∷ n2 ∷ []) c'.planificador
unfolding tiene_copia
planificar-IsPlan_example =
    planificar-IsPlan 1 blocks start 13 (omega arith) (omega arith) refl refl (omega arith) refl
      ((refl, omega arith), ((refl, omega arith), tt))
      ((0, n1, refl, refl), ((1, n2, refl, refl), ((1, n2, refl, refl), tt)))

-- Comparison of texts in ASCII without regard to case.
abbrev lower : ℕ → ℕ
lower c = if leb 65 c && leb c 90 then c + 32 else c

abbrev equals_ignore_case : Bytes → Bytes → Bool
equals_ignore_case a b = eq_bytes (map lower a) (map lower b)

abbrev node_at : Bytes → NodeInfo
node_at name = record { nodo = some name; ip = none; puerto = none }

abbrev nodes : List NodeInfo
nodes = node_at n1 ∷ node_at n2 ∷ []

abbrev load1 : Carga
load1 = record { nodo = n1; carga_actual = pos 3; carga_historica = pos 4; carga_por_job = [] }

abbrev load2 : Carga
load2 = record { nodo = n2; carga_actual = pos 1; carga_historica = pos 9; carga_por_job = [] }

abbrev cargas : List Carga
cargas = load1 ∷ load2 ∷ []

abbrev lists : Option Clock → List (List ℕ)
lists none = []
lists (some c) = map (λ (w : Worker). w.bloque) c.planificador

-- The node with the smaller load starts.
planned_by_load :
    lists (planificar_archivo equals_ignore_case wclock 1 blocks cargas nodes 7 13)
    ≡ (2 ∷ []) ∷ (0 ∷ 1 ∷ []) ∷ []
unfolding planificar_archivo
planned_by_load = refl

planificar_archivo-IsPlan_example :
    (c' : Clock) × (planificar_archivo equals_ignore_case wclock 1 blocks cargas nodes 7 13
      ≡ some c')
    × IsPlan 1 blocks (n1 ∷ n2 ∷ []) c'.planificador
unfolding tiene_copia copiar_nombre carga_de disponibilidad carga_max_de
planificar_archivo-IsPlan_example =
    planificar_archivo-IsPlan equals_ignore_case wclock 1 blocks cargas nodes 7 13 (omega arith)
      (omega arith) (omega arith) refl
      (
        (n1, load1, 1, refl, refl, refl, omega arith, omega arith),
        ((n2, load2, 3, refl, refl, refl, omega arith, omega arith), tt),
      )
      ((0, n1, refl, refl), ((1, n2, refl, refl), ((1, n2, refl, refl), tt)))
