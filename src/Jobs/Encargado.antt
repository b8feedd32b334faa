-- ===== src/Jobs/Encargado.antt =====
-- The node that is put in charge of the global reduction: `seleccionarEncargado` of YAMA/src/server.c.
use tp_2017_2c_yatpos.Base.{
  ◌+◌, ◌-◌, ◌/◌, ◌≡◌, ◌∙◌, refl, List, [], ◌∷◌, map, Bool, true, false, some, All, arith, length, ℕ,
  suc, get_elem?, All-mono,
}
use tp_2017_2c_yatpos.Base.Int.{ℤ, pos, leb_ℤ}
use tp_2017_2c_yatpos.Serial.Words.{Bytes}
use tp_2017_2c_yatpos.Planner.Fill.{Carga}
use tp_2017_2c_yatpos.Mlist.{mlist_all}
use tp_2017_2c_yatpos.Mlist.Search.{mlist_all-All}
use tp_2017_2c_yatpos.Mlist.Sort.{mlist_sort-first}
use tp_2017_2c_yatpos.Jobs.State.{Yama, returns, gets, or_fault, fault_unless, pure}
use tp_2017_2c_yatpos.Jobs.Run.{bind-returns}
use tp_2017_2c_yatpos.Jobs.Loads.{carga_actual_de, actualizar_carga_del_nodo}
use tp_2017_2c_yatpos.Jobs.Stages.{NodoTemporal, menos_cargado, tiene_carga, seleccionar_encargado}
use tp_2017_2c_yatpos.Jobs.Unload.{HasLoad}
use tp_2017_2c_yatpos.Jobs.Balance.{IsBalanced, actualizar_carga_del_nodo-IsBalanced}

module _ (igual : Bytes → Bytes → Bool) (y : Yama) where
  menos_trans :
      (a b c : Bytes)
      → menos_cargado igual y a b ≡ true
      → menos_cargado igual y b c ≡ true
      → menos_cargado igual y a c ≡ true
  menos_trans a b c p q = ground arith

  menos_total : (a b : Bytes) → menos_cargado igual y a b ≡ false → menos_cargado igual y b a ≡ true
  menos_total a b p = ground arith

  -- A node's load is `x`, and none of the nodes has less.
  abbrev pub IsLeast : ℤ → List NodoTemporal → Type 0
  IsLeast x nodos =
      All
        (λ (n : NodoTemporal).
          (z : ℤ) × (carga_actual_de igual n.nodo y.lista_carga ≡ some z) × (leb_ℤ x z ≡ true))
        nodos

  -- The node has a load, which both kinds of search find.
  abbrev pub IsLoaded : Bytes → Type 0
  IsLoaded nodo =
      ((x : ℤ) × (carga_actual_de igual nodo y.lista_carga ≡ some x))
      × HasLoad igual y.lista_carga nodo

  least :
      (m : Bytes) (x : ℤ) (nodos : List NodoTemporal)
      → carga_actual_de igual m y.lista_carga ≡ some x
      → All (λ (n : NodoTemporal). IsLoaded n.nodo) nodos
      → All (λ b. menos_cargado igual y m b ≡ true) (map (λ (n : NodoTemporal). n.nodo) nodos)
      → IsLeast x nodos
  least m x [] e h l = tt
  least m x (n ∷ nodos) e (((z, at), has), h) (l, ls) =
      ((z, at, ground arith), least m x nodos e h ls)

  names :
      (P : Bytes → Type 0) (nodos : List NodoTemporal)
      → All (λ (n : NodoTemporal). P n.nodo) nodos
      → All P (map (λ (n : NodoTemporal). n.nodo) nodos)
  names P [] h = tt
  names P (n ∷ nodos) (h, hs) = (h, names P nodos hs)

  loaded :
      (nodos : List NodoTemporal)
      → All (λ (n : NodoTemporal). IsLoaded n.nodo) nodos
      → All (λ b. tiene_carga igual y b ≡ true) (map (λ (n : NodoTemporal). n.nodo) nodos)
  loaded [] h = tt
  loaded (n ∷ nodos) (((z, at), has), h) = (rw (at, tiene_carga) refl, loaded nodos h)

  -- The text stands in the list.
  abbrev pub IsIn : Bytes → List Bytes → Type 0
  IsIn m nombres = (k : ℕ) × (get_elem? nombres k ≡ some m)

  all-IsIn : (nombres : List Bytes) → All (λ b. IsIn b nombres) nombres
  all-IsIn [] = tt
  all-IsIn (b ∷ nombres) = (
    (0, refl),
    All-mono (λ c. IsIn c nombres) (λ c. IsIn c (b ∷ nombres)) nombres (λ c (k, at). (suc k, at))
        (all-IsIn nombres),
  )

  both :
      (P Q : Bytes → Type 0) (nombres : List Bytes)
      → All P nombres
      → All Q nombres
      → All (λ b. P b × Q b) nombres
  both P Q [] p q = tt
  both P Q (b ∷ nombres) (p, ps) (q, qs) = ((p, q), both P Q nombres ps qs)

  -- With loads that are balanced and known for every node: `seleccionarEncargado` returns one of the
  -- nodes, whose load is the least of all, and changes only the loads, which stay balanced.
  pub seleccionar_encargado-IsLeast :
      (n : NodoTemporal) (nodos : List NodoTemporal) (job : ℤ)
      → All (λ (n : NodoTemporal). IsLoaded n.nodo) (n ∷ nodos)
      → All IsBalanced y.lista_carga
      → (m : Bytes) × (x : ℤ) × (cargas : List Carga) × (seleccionar_encargado igual
            (n ∷ nodos)
            job
            y
          ≡ returns m (record y { lista_carga = cargas }))
        × (carga_actual_de igual m y.lista_carga ≡ some x)
        × IsIn m (map (λ (n : NodoTemporal). n.nodo) (n ∷ nodos))
        × IsLeast x (n ∷ nodos)
        × All IsBalanced cargas
  unfolding seleccionar_encargado gets pure fault_unless or_fault
  seleccionar_encargado-IsLeast n nodos job h balanced =
      let all =
        (mlist_all-All (tiene_carga igual y) (map (λ (n : NodoTemporal). n.nodo) (n ∷ nodos))).1
          (loaded (n ∷ nodos) h) in
      let (m, first, (((x, at), has), there), before) =
        mlist_sort-first (λ b. IsLoaded b × IsIn b nombres) (menos_cargado igual y) n.nodo
          (map (λ (n : NodoTemporal). n.nodo) nodos) menos_trans menos_total
          (both IsLoaded (λ b. IsIn b nombres) nombres (names IsLoaded (n ∷ nodos) h)
            (all-IsIn nombres)) in
      let (cargas, ran, still, same) =
        actualizar_carga_del_nodo-IsBalanced igual y m job true
          (pos (1 + (length (n ∷ nodos) - 1) / 2)) has balanced in
      (
        m,
        x,
        cargas,
        bind-returns (gets (λ y. y)) _ refl
            ∙ bind-returns
                (fault_unless (
                  mlist_all (tiene_carga igual y) (map (λ (n : NodoTemporal). n.nodo) (n ∷ nodos))))
                _ {y' = y} {a = tt} (rw all refl)
            ∙ bind-returns (or_fault _) _ {y' = y} {a = m} (rw first refl)
            ∙ bind-returns (actualizar_carga_del_nodo igual m job true _) _ ran,
        at,
        there,
        least m x (n ∷ nodos) at h before,
        still,
      )
    where
      nombres : List Bytes
      nombres = map (λ (n : NodoTemporal). n.nodo) (n ∷ nodos)
