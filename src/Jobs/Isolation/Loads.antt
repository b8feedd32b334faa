-- ===== src/Jobs/Isolation/Loads.antt =====
-- The loads of the nodes (YAMA/src/funcionesYAMA.c, YAMA/src/server.c) stand apart from the entries.
use tp_2017_2c_yatpos.Base.{ℕ, List, Bool, Option, refl}
use tp_2017_2c_yatpos.Base.Int.{ℤ}
use tp_2017_2c_yatpos.Serial.Words.{Bytes}
use tp_2017_2c_yatpos.Yfile.{Text}
use tp_2017_2c_yatpos.Stages.{NodeInfo}
use tp_2017_2c_yatpos.Planner.{Worker}
use tp_2017_2c_yatpos.Planner.Fill.{Carga}
use tp_2017_2c_yatpos.Jobs.State.{Yama, modify}
use tp_2017_2c_yatpos.Jobs.Loads.{
  poner_carga, cambiar_carga, actualizar_carga_del_nodo, agregar_carga_nodo_segun_lo_planificado,
  crear_carga_por_nodo, completar_nodo, primera_carga, completar_primera_vez,
}
use tp_2017_2c_yatpos.Jobs.Isolation.{Keeps}
use tp_2017_2c_yatpos.Jobs.Isolation.Rules.{Keeps-modify, Keeps-for_each, keeps_rules}

module _ {sock : ℤ} {ps : List ℕ} where
  poner_carga-Keeps : (i : ℕ) (c : Carga) → Keeps sock ps (modify (poner_carga i c))
  unfolding poner_carga
  poner_carga-Keeps i c =
      Keeps-modify (poner_carga i c) (λ y. refl) (λ y. refl) (λ y. refl) (λ y. refl) (λ y. refl)
        (λ y. refl)

  -- The variables that are not of the table.
  pub set_lista_carga-Keeps :
      (f : Yama → List Carga) → Keeps sock ps (modify (λ y. record y { lista_carga = f y }))
  set_lista_carga-Keeps f =
      Keeps-modify (λ y. record y { lista_carga = f y }) (λ y. refl) (λ y. refl) (λ y. refl)
        (λ y. refl) (λ y. refl) (λ y. refl)

  primera_vez-Keeps : (b : Bool) → Keeps sock ps (modify (λ y. record y { es_la_primera_vez = b }))
  primera_vez-Keeps b =
      Keeps-modify (λ y. record y { es_la_primera_vez = b }) (λ y. refl) (λ y. refl) (λ y. refl)
        (λ y. refl) (λ y. refl) (λ y. refl)

  module _ (igual : Bytes → Bytes → Bool) where
    pub cambiar_carga-Keeps :
        (f : Carga → Option Carga) (nodo : Bytes) → Keeps sock ps (cambiar_carga igual f nodo)
    unfolding cambiar_carga
    cambiar_carga-Keeps f nodo = search (keeps_rules, poner_carga-Keeps)

    pub actualizar_carga_del_nodo-Keeps :
        (nodo : Bytes) (job : ℤ) (aumentar : Bool) (cantidad : ℤ)
        → Keeps sock ps (actualizar_carga_del_nodo igual nodo job aumentar cantidad)
    unfolding actualizar_carga_del_nodo
    actualizar_carga_del_nodo-Keeps nodo job aumentar cantidad = cambiar_carga-Keeps _ nodo

    pub agregar_carga-Keeps :
        (job : ℤ) (ws : List Worker)
        → Keeps sock ps (agregar_carga_nodo_segun_lo_planificado igual job ws)
    unfolding agregar_carga_nodo_segun_lo_planificado
    agregar_carga-Keeps job ws = search (Keeps-for_each, cambiar_carga-Keeps)

  module _ (igual : Bytes → Bytes → Bool) (puntero : ℕ) where
    crear-Keeps : (t : Text) → Keeps sock ps (crear_carga_por_nodo igual puntero t)
    unfolding crear_carga_por_nodo
    crear-Keeps t = search (keeps_rules, set_lista_carga-Keeps)

    completar_nodo-Keeps : (n : NodeInfo) → Keeps sock ps (completar_nodo igual puntero n)
    unfolding completar_nodo
    completar_nodo-Keeps n = search (keeps_rules, crear-Keeps)

    primera_carga-Keeps : (n : NodeInfo) → Keeps sock ps (primera_carga igual puntero n)
    unfolding primera_carga
    primera_carga-Keeps n = search (keeps_rules, crear-Keeps, primera_vez-Keeps)

    pub completar_primera_vez-Keeps : Keeps sock ps (completar_primera_vez igual puntero)
    unfolding completar_primera_vez
    completar_primera_vez-Keeps = search (
      keeps_rules, Keeps-for_each, set_lista_carga-Keeps, primera_carga-Keeps, completar_nodo-Keeps,
    )
