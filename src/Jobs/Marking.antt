-- ===== src/Jobs/Marking.antt =====
-- The loop of `eliminarEstadosMultiples` (YAMA/src/funcionesYAMA.c) over the entries of a job.
use tp_2017_2c_yatpos.Base.{
  ℕ, ◌≡◌, ◌∙◌, refl, sym, subst, List, [], ◌∷◌, Bool, true, false, All, All-mono, Option-cases, inl,
  inr, ◌&&◌, arith,
}
use tp_2017_2c_yatpos.Base.Int.{ℤ, pos}
use tp_2017_2c_yatpos.Serial.Words.{Bytes}
use tp_2017_2c_yatpos.Mlist.{mlist_index}
use tp_2017_2c_yatpos.Mlist.Search.{mlist_index-find}
use tp_2017_2c_yatpos.Jobs.State.{con_error, Yama, returns, pure, gets, ◌>>=◌, modify, for_each}
use tp_2017_2c_yatpos.Jobs.Run.{bind-returns}
use tp_2017_2c_yatpos.Jobs.Loads.{actualizar_carga_del_nodo}
use tp_2017_2c_yatpos.Jobs.Table.{es_del_job, es_del_bloque, eliminar_estado}
use tp_2017_2c_yatpos.Jobs.Unload.{HasLoad, HasLoad-names, quitar-returns}
use tp_2017_2c_yatpos.Jobs.Clears.{Clears, Clears-refl, Clears-trans, OwnIndex, marked}

both : (a b : Bool) → (a && b) ≡ true → (a ≡ true) × (b ≡ true)
both a b e = (ground arith, ground arith)

module _ (igual : Bytes → Bytes → Bool) where
  module _ (job sock : ℤ) where
    -- Where `eliminarEstado` finds an entry of the block.
    own_index :
        (y : Yama) (nodo : Bytes) (bloque : ℤ)
        → OwnIndex job sock y (
            mlist_index
              (λ q. es_del_bloque igual job sock nodo bloque (y.objetos q))
              y.lista_estados)
    own_index y nodo bloque =
        let cond : ℕ → Bool = λ q. es_del_bloque igual job sock nodo bloque (y.objetos q) in
        elim (Option-cases (mlist_index cond y.lista_estados)) [
          | inl nothing ↦ rw nothing tt
          | inr (i, at) ↦
              let (q, found, holds, first, before) = mlist_index-find cond y.lista_estados i at in
              rw at (q, found, (both _ _ holds).0)
        ]

    -- One entry of the job, whose node has a load.
    eliminar_estado-Clears :
        (y : Yama) (p : ℕ)
        → HasLoad igual y.lista_carga (y.objetos p).nodo
        → es_del_job job sock (y.objetos p) ≡ true
        → (y' : Yama) × (eliminar_estado igual sock job con_error p y ≡ returns tt y')
          × Clears job sock (p ∷ []) y y'
    unfolding eliminar_estado gets modify ◌>>=◌
    eliminar_estado-Clears y p has own =
        let cond : ℕ → Bool =
          λ q. es_del_bloque igual job sock (y.objetos p).nodo (y.objetos p).block (y.objetos q) in
        let (cargas, ran, names) = quitar-returns igual y (y.objetos p).nodo job (pos 1) has in
        (
          _,
          bind-returns (actualizar_carga_del_nodo igual (y.objetos p).nodo job false (pos 1)) _ ran,
          marked job sock y cargas p (mlist_index cond y.lista_estados) names own
              (own_index y (y.objetos p).nodo (y.objetos p).block),
        )

    -- The entries of the loop.
    abbrev pub Clearable : Yama → List ℕ → Type 0
    Clearable y ps =
        All
          (λ p.
            HasLoad igual y.lista_carga (y.objetos p).nodo
            × (es_del_job job sock (y.objetos p) ≡ true))
          ps

    Clearable-Clears :
        (p : ℕ) (ps : List ℕ) (y y' : Yama)
        → Clears job sock (p ∷ []) y y'
        → Clearable y ps
        → Clearable y' ps
    Clearable-Clears p ps y y' c h =
        All-mono _ _ ps
          (λ q (has, own). (
            subst (HasLoad igual y'.lista_carga) (sym (c.same_node q))
                (HasLoad-names igual y.lista_carga y'.lista_carga (y.objetos q).nodo c.names has),
            c.same_job q ∙ own,
          ))
          h

    pub loop-Clears :
        (ps : List ℕ) (y : Yama)
        → Clearable y ps
        → (y' : Yama) × (for_each (eliminar_estado igual sock job con_error) ps y ≡ returns tt y')
          × Clears job sock ps y y'
    unfolding for_each pure ◌>>=◌
    loop-Clears [] y h = (y, refl, Clears-refl job sock y)
    loop-Clears (p ∷ ps) y ((has, own), h) =
        let (y1, ran, first) = eliminar_estado-Clears y p has own in
        let (y2, ran2, others) = loop-Clears ps y1 (Clearable-Clears p ps y y1 first h) in
        (
          y2,
          bind-returns (eliminar_estado igual sock job con_error p)
                (λ _. for_each (eliminar_estado igual sock job con_error) ps) ran
              ∙ ran2,
          Clears-trans job sock p ps y y1 y2 first others,
        )
