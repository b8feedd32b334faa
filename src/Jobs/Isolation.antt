-- ===== src/Jobs/Isolation.antt =====
-- The Masters of YAMA (YAMA/src/server.c) do not disturb each other: what handling a packet of one of
-- them leaves alone, and a rule for each way to build an action.
pub mod Rules
pub mod Loads
pub mod Table
pub mod Stages
pub mod Server
use tp_2017_2c_yatpos.Base.{
  ℕ, zero, suc, ◌≤◌, ◌<◌, ◌≡◌, ◌≢◌, refl, List, [], ◌∷◌, ◌++◌, Option, none, some, All, get_elem?,
}
use tp_2017_2c_yatpos.Base.Int.{ℤ}
use tp_2017_2c_yatpos.Jobs.State.{
  Estado, Mensaje, pedido_archivo, id_job, error_job, iniciar_transformacion,
  iniciar_reduccion_local, iniciar_reduccion_global, iniciar_almacenamiento, Yama, Outcome, returns,
  exits, faults, Action,
}

-- A message to the FileSystem, or to the Master at a socket; not a new number of job.
abbrev pub IsFor : ℤ → Mensaje → Type 0
IsFor sock (pedido_archivo file) = Unit
IsFor sock (id_job socket job) = ⊥
IsFor sock (error_job socket codigo) = socket ≡ sock
IsFor sock (iniciar_transformacion socket lista) = socket ≡ sock
IsFor sock (iniciar_reduccion_local socket rl) = socket ≡ sock
IsFor sock (iniciar_reduccion_global socket lista) = socket ≡ sock
IsFor sock (iniciar_almacenamiento socket af) = socket ≡ sock

-- The pointers of the table point to entries.
abbrev pub IsValid : Yama → Type 0
IsValid y = All (λ p. p < y.siguiente) y.lista_estados

-- The place in the table points to an entry of the Master at `sock`.
abbrev pub OwnSlot : ℤ → ℕ → Yama → Type 0
OwnSlot sock i y =
    (p : ℕ) × (get_elem? y.lista_estados i ≡ some p)
    × (p < y.siguiente)
    × ((y.objetos p).master ≡ sock)

-- From `y` to `y'`, the entries of other Masters are as they were, those of the Master at `sock`
-- changed their state at most, the table has the entries of other Masters at the places where they
-- were and entries of this Master where its entries were, and messages were sent to this Master and
-- to the FileSystem only.
pub record Isolated (sock : ℤ) (y y' : Yama) : Type 0 where
  pub grows : y.siguiente ≤ y'.siguiente
  pub others : (p : ℕ) → p < y.siguiente → (y.objetos p).master ≢ sock → y'.objetos p ≡ y.objetos p
  pub kept :
      (p : ℕ)
      → p < y.siguiente
      → y'.objetos p ≡ record (y.objetos p) { estado = (y'.objetos p).estado }
  pub slots :
      (i p : ℕ)
      → get_elem? y.lista_estados i ≡ some p
      → p < y.siguiente
      → (y.objetos p).master ≢ sock
      → get_elem? y'.lista_estados i ≡ some p
  pub own_slots : (i : ℕ) → OwnSlot sock i y → OwnSlot sock i y'
  pub numbers : y'.numero_job ≡ y.numero_job
  pub connected : y'.sockets ≡ y.sockets
  pub sent : (ms : List Mensaje) × (y'.enviados ≡ ms ++ y.enviados) × All (IsFor sock) ms

-- Where an action returns, and the process goes on.
abbrev pub Ends : {A : Type 0} → ℤ → Yama → Outcome A → Type 0
Ends sock y (returns a y') = IsValid y' × Isolated sock y y'
Ends sock y (exits y') = Unit
Ends sock y faults = Unit

-- Entries of the Master at `sock`.
abbrev pub Owns : ℤ → List ℕ → Yama → Type 0
Owns sock ps y = All (λ p. (p < y.siguiente) × ((y.objetos p).master ≡ sock)) ps

-- `m` is isolated when the entries at `ps` are of the Master.
pub record Keeps {A : Type 0} (sock : ℤ) (ps : List ℕ) (m : Action A) : Type 0 where
  pub at : (y : Yama) → IsValid y → Owns sock ps y → Ends sock y (m y)
