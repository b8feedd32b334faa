-- ===== src/Jobs/Abort.antt =====
-- Aborting a job (`abortarJob`, `eliminarEstadosMultiples` of YAMA/src/funcionesYAMA.c).
use tp_2017_2c_yatpos.Base.{
  ℕ, ◌≡◌, ◌∙◌, ap, sym, inl, inr, List, [], ◌∷◌, Bool, true, false, All, All-mono, length,
  get_elem?, some, Bool-cases,
}
use tp_2017_2c_yatpos.Base.Int.{ℤ}
use tp_2017_2c_yatpos.Serial.Words.{Bytes}
use tp_2017_2c_yatpos.Mlist.{mlist_filter}
use tp_2017_2c_yatpos.Jobs.State.{con_error, error_job, Yama, returns, gets, ◌>>=◌, modify, enviar}
use tp_2017_2c_yatpos.Jobs.Run.{bind-returns}
use tp_2017_2c_yatpos.Jobs.Table.{
  es_del_job, avisar_error_master, eliminar_estados_multiples, abortar_job,
}
use tp_2017_2c_yatpos.Jobs.Unload.{HasLoad}
use tp_2017_2c_yatpos.Jobs.Clears.{Among, Among-filter, Among-self}
use tp_2017_2c_yatpos.Jobs.Marking.{Clearable, loop-Clears}

module _ (igual : Bytes → Bytes → Bool) (job sock : ℤ) where
  -- What aborting a job of a Master leaves: no entry of the job in the table that is not marked as
  -- failed, as many entries as before, and the entries of others as they were and where they were.
  pub record Aborted (y y' : Yama) : Type 0 where
    pub failed :
        All
          (λ p. es_del_job job sock (y'.objetos p) ≡ true → (y'.objetos p).estado ≡ con_error)
          y'.lista_estados
    pub others : (q : ℕ) → es_del_job job sock (y.objetos q) ≡ false → y'.objetos q ≡ y.objetos q
    pub size : length y'.lista_estados ≡ length y.lista_estados
    pub slots :
        (i p : ℕ)
        → get_elem? y.lista_estados i ≡ some p
        → es_del_job job sock (y.objetos p) ≡ false
        → get_elem? y'.lista_estados i ≡ some p

  -- Every entry of the job of the Master has a node with a load.
  abbrev pub HasLoads : Yama → Type 0
  HasLoads y =
      All
        (λ p.
          es_del_job job sock (y.objetos p) ≡ true → HasLoad igual y.lista_carga (y.objetos p).nodo)
        y.lista_estados

  Clearable-filter :
      (y : Yama) (ps : List ℕ)
      → All
          (λ p.
            es_del_job job sock (y.objetos p) ≡ true
            → HasLoad igual y.lista_carga (y.objetos p).nodo)
          ps
      → Clearable igual job sock y (mlist_filter (λ p. es_del_job job sock (y.objetos p)) ps)
  unfolding mlist_filter
  Clearable-filter y [] h = tt
  Clearable-filter y (p ∷ ps) (h, hs) = elim (Bool-cases (es_del_job job sock (y.objetos p))) [
    | inl e ↦ rw e ((h e, e), Clearable-filter y ps hs)
    | inr e ↦ rw e (Clearable-filter y ps hs)
  ]

  pub eliminar_estados_multiples-Aborted :
      (y : Yama)
      → HasLoads y
      → (y' : Yama) × (eliminar_estados_multiples igual sock job con_error y ≡ returns tt y')
        × Aborted y y'
        × (y'.enviados ≡ y.enviados)
  unfolding eliminar_estados_multiples gets ◌>>=◌
  eliminar_estados_multiples-Aborted y h =
      let cond : ℕ → Bool = λ p. es_del_job job sock (y.objetos p) in
      let ps = mlist_filter cond y.lista_estados in
      let (y', ran, c) = loop-Clears igual job sock ps y (Clearable-filter y y.lista_estados h) in
      (
        y',
        ran,
        record {
          failed =
              All-mono (λ q. cond q ≡ true → Among q ps) _ y'.lista_estados
                (λ q a own. c.failed q (inl (a (sym (c.same_job q) ∙ own))))
                (c.table (λ q. cond q ≡ true → Among q ps)
                  (All-mono _ _ ps (λ q a _. a) (Among-self ps))
                  (Among-filter cond y.lista_estados));
          others = c.others;
          size = c.size;
          slots = c.slots;
        },
        c.sent,
      )

  -- Aborting the job of a Master, every entry of which has a node with a load: it returns, leaves no
  -- entry of the job in the table that is not marked as failed and the table as long as it was, all
  -- entries of others as they were and at their places in the table, and sends the Master the code of
  -- the error.
  pub abortar_job-Aborted :
      (y : Yama) (codigo : ℤ)
      → HasLoads y
      → (y' : Yama) × (abortar_job igual job sock codigo y ≡ returns tt y')
        × Aborted y y'
        × (y'.enviados ≡ error_job sock codigo ∷ y.enviados)
  unfolding abortar_job avisar_error_master modify enviar
  abortar_job-Aborted y codigo h =
      let (y1, ran, a, quiet) = eliminar_estados_multiples-Aborted y h in
      (
        enviar (error_job sock codigo) y1,
        bind-returns (eliminar_estados_multiples igual sock job con_error) _ ran,
        record { failed = a.failed; others = a.others; size = a.size; slots = a.slots },
        ap (◌∷◌ (error_job sock codigo)) quiet,
      )
