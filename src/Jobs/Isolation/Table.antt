-- ===== src/Jobs/Isolation/Table.antt =====
-- The functions on the table of states in YAMA/src/funcionesYAMA.c touch the entries of one Master.
use tp_2017_2c_yatpos.Base.{
  ℕ, ◌<◌, ◌≡◌, refl, List, [], ◌∷◌, Bool, true, false, ◌&&◌, Option, none, some, All, arith,
  get_elem?, Option-cases, inl, inr,
}
use tp_2017_2c_yatpos.Base.Int.{ℤ, pos, eq_ℤ, eq_ℤ→eq}
use tp_2017_2c_yatpos.Serial.Words.{Bytes}
use tp_2017_2c_yatpos.Yfile.{Text, File}
use tp_2017_2c_yatpos.Stages.{NodeInfo}
use tp_2017_2c_yatpos.Planner.Workers.{All-get_elem?}
use tp_2017_2c_yatpos.Mlist.{mlist_index, mlist_filter}
use tp_2017_2c_yatpos.Mlist.Search.{mlist_index-find, mlist_filter-All, All-mlist_filter}
use tp_2017_2c_yatpos.Jobs.State.{
  Progreso, Etapa, Estado, Yama, Action, gets, or_fault, ◌>>=◌, modify, ◌>>◌, enviar, error_job,
  escribir_estado, reemplazar, es_en_proceso,
}
use tp_2017_2c_yatpos.Jobs.Table.{
  agregar_a_tabla_estado, es_del_job, es_del_bloque, avisar_error_master,
  requerir_informacion_filesystem, Respuesta, Archivo, no_existe, archivo, otra_operacion,
  recibir_nodos, recibir_archivo, con_archivo, cerrar_masters, finalizar_ejecucion,
  actualizo_tabla_estado, eliminar_estado, eliminar_estados_multiples, abortar_job,
  recibo_informacion_solicitada, eliminar_cargas_reducciones_locales,
  finalizar_job_global_en_tabla_estado, finalizar_job_global,
}
use tp_2017_2c_yatpos.Jobs.Loads.{actualizar_carga_del_nodo}
use tp_2017_2c_yatpos.Jobs.Isolation.{IsValid, Owns, Ends, Keeps}
use tp_2017_2c_yatpos.Jobs.Isolation.Rules.{
  Keeps-modify, Keeps-enviar, Keeps-agregar, Keeps-escribir_estado, Guarded, Guarded-Keeps,
  Guarded-bind, Guarded-reemplazar, Keeps-bind, Keeps-for_each, Keeps-for_each_own, Keeps-then_exit,
  Keeps-pure, Keeps-if, keeps_rules,
}
use tp_2017_2c_yatpos.Jobs.Isolation.Loads.{actualizar_carga_del_nodo-Keeps}

both : (a b : Bool) → (a && b) ≡ true → (a ≡ true) × (b ≡ true)
both a b e = (ground arith, ground arith)

es_del_job_lem :
    (job sock : ℤ) (e : Estado) (b : Bool) → (es_del_job job sock e && b) ≡ true → e.master ≡ sock
es_del_job_lem job sock e b h =
    let (a, c) = both _ b h in let (d, m) = both (eq_ℤ e.job job) _ a in eq_ℤ→eq e.master sock m

module _ {sock : ℤ} where
  -- The entries of a job of the Master, or some of them.
  owned :
      (y : Yama) (job : ℤ) (cond : ℕ → Bool)
      → ((p : ℕ) → cond p ≡ true → (y.objetos p).master ≡ sock)
      → IsValid y
      → Owns sock (mlist_filter cond y.lista_estados) y
  owned y job cond h v =
      together (mlist_filter cond y.lista_estados)
        (All-mlist_filter (λ p. p < y.siguiente) cond y.lista_estados v)
        (mlist_filter-All cond y.lista_estados)
    where
      together :
          (ps : List ℕ)
          → All (λ p. p < y.siguiente) ps
          → All (λ p. cond p ≡ true) ps
          → Owns sock ps y
      together [] a b = tt
      together (p ∷ ps) (a, rest) (b, more) = ((a, h p b), together ps rest more)

  -- The entry found by a search for one of the Master.
  found_owned :
      {A : Type 0} (y : Yama) (cond : ℕ → Bool) (i : ℕ) (f : ℕ → Action A)
      → ((p : ℕ) → cond p ≡ true → (y.objetos p).master ≡ sock)
      → IsValid y
      → mlist_index cond y.lista_estados ≡ some i
      → ((p : ℕ) → Guarded sock (p ∷ []) i (f p))
      → Ends sock y ((or_fault (get_elem? y.lista_estados i) >>= f) y)
  unfolding or_fault ◌>>=◌
  found_owned y cond i f h v at k =
      let (p, found, holds, first, before) = mlist_index-find cond y.lista_estados i at in
      let small = All-get_elem? (λ q. q < y.siguiente) y.lista_estados i v found in
      rw found ((k p).at y v ((small, h p holds), tt) (p, found, small, h p holds))

  -- A search, and what is done at the index that it finds.
  search_owned :
      {A : Type 0} (y : Yama) (cond : ℕ → Bool) (f : ℕ → ℕ → Action A)
      → ((p : ℕ) → cond p ≡ true → (y.objetos p).master ≡ sock)
      → IsValid y
      → ((i p : ℕ) → Guarded sock (p ∷ []) i (f i p))
      → Ends sock y (
          (or_fault (mlist_index cond y.lista_estados) >>= λ i.
          or_fault (get_elem? y.lista_estados i) >>= f i)
            y)
  unfolding or_fault ◌>>=◌
  search_owned y cond f h v k = elim (Option-cases (mlist_index cond y.lista_estados)) [
    | inl nothing ↦ rw nothing tt
    | inr (i, at) ↦ rw at (found_owned y cond i (f i) h v at (k i))
  ]

module _ {sock : ℤ} {ps : List ℕ} where
  pub agregar_a_tabla_estado-Keeps :
      (job : ℤ) (nodo : Bytes) (master bloque : ℤ) (etapa : Etapa) (a : Bytes) (estado : Progreso)
      → Keeps sock ps (agregar_a_tabla_estado job nodo master bloque etapa a estado)
  unfolding agregar_a_tabla_estado
  agregar_a_tabla_estado-Keeps job nodo master bloque etapa a estado = Keeps-agregar _

  pub avisar_error_master-Keeps :
      (job codigo : ℤ) → Keeps sock ps (avisar_error_master job sock codigo)
  unfolding avisar_error_master
  avisar_error_master-Keeps job codigo = Keeps-enviar _ refl

  pub requerir_informacion_filesystem-Keeps :
      (t : Text) → Keeps sock ps (requerir_informacion_filesystem t)
  unfolding requerir_informacion_filesystem
  requerir_informacion_filesystem-Keeps t = Keeps-enviar _ tt

  recibir_nodos-Keeps : (nodos : Option (List NodeInfo)) → Keeps sock ps (recibir_nodos nodos)
  unfolding recibir_nodos
  recibir_nodos-Keeps none = Keeps-pure tt
  recibir_nodos-Keeps (some nodos) =
      Keeps-modify (λ y. record y { lista_nodos_activos = nodos }) (λ y. refl) (λ y. refl)
        (λ y. refl) (λ y. refl) (λ y. refl) (λ y. refl)

  -- The end of the process is no return.
  cerrar_masters-Keeps : Keeps sock ps cerrar_masters
  unfolding cerrar_masters
  cerrar_masters-Keeps = search (keeps_rules, Keeps-then_exit)

  finalizar_ejecucion-Keeps : (job : ℤ) → Keeps sock ps (finalizar_ejecucion sock job)
  unfolding finalizar_ejecucion
  finalizar_ejecucion-Keeps job =
      search (keeps_rules, avisar_error_master-Keeps, cerrar_masters-Keeps)

module _ {sock : ℤ} (igual : Bytes → Bytes → Bool) where
  -- The two writes of an entry that was found.
  write_twice :
      (i p : ℕ) (nuevo : Progreso)
      → Guarded sock
          (p ∷ [])
          i
          (modify (escribir_estado p nuevo) >>= λ _. modify (reemplazar (some i) p))
  write_twice i p nuevo =
      Guarded-bind _ _ (Guarded-Keeps _ (Keeps-escribir_estado p nuevo)) (λ _. Guarded-reemplazar p)

  pub actualizo_tabla_estado-Keeps :
      {ps : List ℕ} (nodo : Bytes) (bloque job : ℤ) (nuevo : Progreso)
      → Keeps sock ps (actualizo_tabla_estado igual nodo bloque sock job nuevo)
  unfolding actualizo_tabla_estado gets ◌>>=◌
  actualizo_tabla_estado-Keeps nodo bloque job nuevo = record {
    at = λ y v o.
        search_owned y (λ p. es_del_bloque igual job sock nodo bloque (y.objetos p))
          (λ i p. modify (escribir_estado p nuevo) >>= λ _. modify (reemplazar (some i) p))
          (λ p h. es_del_job_lem job sock (y.objetos p) _ h) v (λ i p. write_twice i p nuevo);
  }

  write_none :
      (p : ℕ) (nuevo : Progreso)
      → Keeps sock (p ∷ []) (modify (escribir_estado p nuevo) >>= λ _. modify (reemplazar none p))
  unfolding reemplazar
  write_none p nuevo = Keeps-bind _ _ (Keeps-escribir_estado p nuevo) (λ _.
      Keeps-modify (λ y. y) (λ y. refl) (λ y. refl) (λ y. refl) (λ y. refl) (λ y. refl) (λ y. refl))

  -- The writes of an entry, the second where one of the Master's is found, if there is any.
  marcar-Keeps :
      (job : ℤ) (nuevo : Progreso) (nodo : Bytes) (bloque : ℤ) (p : ℕ)
      → Keeps sock (p ∷ []) (
          gets (λ y. y) >>= λ y. modify (escribir_estado p nuevo) >>= λ _. modify (
            reemplazar
              (mlist_index
                (λ q. es_del_bloque igual job sock nodo bloque (y.objetos q))
                y.lista_estados)
              p))
  unfolding gets ◌>>=◌
  marcar-Keeps job nuevo nodo bloque p = record {
    at = λ y v o.
        let cond : ℕ → Bool = λ q. es_del_bloque igual job sock nodo bloque (y.objetos q) in
        elim (Option-cases (mlist_index cond y.lista_estados)) [
          | inl nothing ↦ rw nothing ((write_none p nuevo).at y v o)
          | inr (i, at) ↦
              let (q, found, holds, first, before) = mlist_index-find cond y.lista_estados i at in
              rw at (
                (write_twice i p nuevo).at y v o (
                  q,
                  found,
                  All-get_elem? (λ r. r < y.siguiente) y.lista_estados i v found,
                  es_del_job_lem job sock (y.objetos q) _ holds,
                ))
        ];
  }

  eliminar_estado-Keeps :
      (job : ℤ) (nuevo : Progreso) (p : ℕ)
      → Keeps sock (p ∷ []) (eliminar_estado igual sock job nuevo p)
  unfolding eliminar_estado
  eliminar_estado-Keeps job nuevo p =
      search (keeps_rules, actualizar_carga_del_nodo-Keeps, marcar-Keeps)

  pub eliminar_estados_multiples-Keeps :
      {ps : List ℕ} (job : ℤ) (nuevo : Progreso)
      → Keeps sock ps (eliminar_estados_multiples igual sock job nuevo)
  unfolding eliminar_estados_multiples gets ◌>>=◌
  eliminar_estados_multiples-Keeps job nuevo = record {
    at = λ y v o.
        (Keeps-for_each_own (eliminar_estado igual sock job nuevo)
            (mlist_filter (λ p. es_del_job job sock (y.objetos p)) y.lista_estados)
            (λ p. eliminar_estado-Keeps job nuevo p)).at
          y v
          (owned y job (λ p. es_del_job job sock (y.objetos p))
            (λ p h. eq_ℤ→eq (y.objetos p).master sock (both _ _ h).1) v);
  }

  pub abortar_job-Keeps :
      {ps : List ℕ} (job codigo : ℤ) → Keeps sock ps (abortar_job igual job sock codigo)
  unfolding abortar_job
  abortar_job-Keeps job codigo =
      search (keeps_rules, eliminar_estados_multiples-Keeps, avisar_error_master-Keeps)

  recibir_archivo-Keeps :
      {ps : List ℕ} (job : ℤ) (a : Archivo) → Keeps sock ps (recibir_archivo igual job sock a)
  unfolding recibir_archivo
  recibir_archivo-Keeps job no_existe = search (keeps_rules, abortar_job-Keeps)
  recibir_archivo-Keeps job (archivo f) = Keeps-pure (some f)
  recibir_archivo-Keeps job otra_operacion = search (keeps_rules, finalizar_ejecucion-Keeps)

  pub recibo_informacion_solicitada-Keeps :
      {ps : List ℕ} (job : ℤ) (r : Respuesta)
      → Keeps sock ps (recibo_informacion_solicitada igual job sock r)
  unfolding recibo_informacion_solicitada
  recibo_informacion_solicitada-Keeps job r =
      search (keeps_rules, recibir_nodos-Keeps, recibir_archivo-Keeps)

  locales-Keeps :
      {ps : List ℕ} (nodo : Bytes) (job : ℤ)
      → Keeps sock ps (eliminar_cargas_reducciones_locales igual nodo sock job)
  unfolding eliminar_cargas_reducciones_locales
  locales-Keeps nodo job = search (keeps_rules, Keeps-for_each, actualizar_carga_del_nodo-Keeps)

  finalizar_entrada-Guarded :
      (job : ℤ) (nuevo : Progreso) (nodo : Bytes) (i p : ℕ)
      → Guarded sock (p ∷ []) i (do
        actualizar_carga_del_nodo igual nodo job false (pos 1)
        modify (escribir_estado p nuevo)
        modify (reemplazar (some i) p)
        eliminar_cargas_reducciones_locales igual nodo sock job)
  finalizar_entrada-Guarded job nuevo nodo i p =
      Guarded-bind _ _
        (Guarded-Keeps _ (actualizar_carga_del_nodo-Keeps igual nodo job false (pos 1)))
        (λ _. Guarded-bind _ _ (Guarded-Keeps _ (Keeps-escribir_estado p nuevo)) (λ _.
          Guarded-bind _ _ (Guarded-reemplazar p) (λ _. Guarded-Keeps _ (locales-Keeps nodo job))))

  finalizar_en_tabla-Keeps :
      {ps : List ℕ} (job : ℤ) (nuevo : Progreso)
      → Keeps sock ps (finalizar_job_global_en_tabla_estado igual sock job nuevo)
  unfolding finalizar_job_global_en_tabla_estado gets ◌>>=◌
  finalizar_en_tabla-Keeps job nuevo = record {
    at = λ y v o.
        search_owned y
          (λ p. es_del_job job sock (y.objetos p) && es_en_proceso (y.objetos p).estado)
          (λ i p. do
            actualizar_carga_del_nodo igual (y.objetos p).nodo job false (pos 1)
            modify (escribir_estado p nuevo)
            modify (reemplazar (some i) p)
            eliminar_cargas_reducciones_locales igual (y.objetos p).nodo sock job)
          (λ p h. es_del_job_lem job sock (y.objetos p) _ h) v
          (λ i p. finalizar_entrada-Guarded job nuevo (y.objetos p).nodo i p);
  }

  error_job-Keeps :
      {ps : List ℕ} (codigo : ℤ) → Keeps sock ps (modify (enviar (error_job sock codigo)))
  error_job-Keeps codigo = Keeps-enviar _ refl

  pub finalizar_job_global-Keeps :
      {ps : List ℕ} (job codigo : ℤ) (nuevo : Progreso)
      → Keeps sock ps (finalizar_job_global igual job sock codigo nuevo)
  unfolding finalizar_job_global
  finalizar_job_global-Keeps job codigo nuevo =
      search (keeps_rules, error_job-Keeps, finalizar_en_tabla-Keeps)

pub con_archivo-Keeps :
    {sock : ℤ} {ps : List ℕ} (f : File → Action Unit) (o : Option File)
    → ((file : File) → Keeps sock ps (f file))
    → Keeps sock ps (con_archivo f o)
unfolding con_archivo
con_archivo-Keeps f none k = Keeps-pure tt
con_archivo-Keeps f (some file) k = Keeps-if _ (f file) _ (k file) (Keeps-pure tt)
