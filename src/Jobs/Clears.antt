-- ===== src/Jobs/Clears.antt =====
-- What marking entries of a job as failed (`eliminarEstado` of YAMA/src/funcionesYAMA.c) changes.
use tp_2017_2c_yatpos.Base.{
  ℕ, ◌≡◌, ◌∙◌, refl, ap, sym, subst, ◌⊎◌, inl, inr, List, [], ◌∷◌, Bool, true, false, Option, none,
  some, All, All-set, All-mono, arith, length, length-set, get_elem?, get_elem?-set_ne, ◌==◌,
  ==_iff, Bool-cases,
}
use tp_2017_2c_yatpos.Base.Int.{ℤ}
use tp_2017_2c_yatpos.Planner.Fill.{Carga}
use tp_2017_2c_yatpos.Mlist.{mlist_filter, mlist_replace}
use tp_2017_2c_yatpos.Jobs.State.{
  con_error, Estado, Yama, put_at, escribir, escribir_estado, reemplazar,
}
use tp_2017_2c_yatpos.Jobs.Table.{es_del_job}
use tp_2017_2c_yatpos.Jobs.Unload.{nombres_de}

abbrev pub Among : ℕ → List ℕ → Type 0
Among q [] = ⊥
Among q (p ∷ ps) = (q ≡ p) ⊎ Among q ps

-- The entries that the table has from `y` to `y'`, and their states.
pub record Clears (job sock : ℤ) (ps : List ℕ) (y y' : Yama) : Type 1 where
  pub names : nombres_de y'.lista_carga ≡ nombres_de y.lista_carga
  pub others : (q : ℕ) → es_del_job job sock (y.objetos q) ≡ false → y'.objetos q ≡ y.objetos q
  pub same_job : (q : ℕ) → es_del_job job sock (y'.objetos q) ≡ es_del_job job sock (y.objetos q)
  pub same_node : (q : ℕ) → (y'.objetos q).nodo ≡ (y.objetos q).nodo
  pub failed :
      (q : ℕ) → Among q ps ⊎ ((y.objetos q).estado ≡ con_error) → (y'.objetos q).estado ≡ con_error
  pub table : (P : ℕ → Type 0) → All P ps → All P y.lista_estados → All P y'.lista_estados
  pub size : length y'.lista_estados ≡ length y.lista_estados
  pub slots :
      (i p : ℕ)
      → get_elem? y.lista_estados i ≡ some p
      → es_del_job job sock (y.objetos p) ≡ false
      → get_elem? y'.lista_estados i ≡ some p
  pub sent : y'.enviados ≡ y.enviados
  pub allocated : y'.siguiente ≡ y.siguiente

put_cases :
    (f : ℕ → Estado) (p : ℕ) (e : Estado) (q : ℕ)
    → ((q ≡ p) × (put_at f p e q ≡ e)) ⊎ (put_at f p e q ≡ f q)
unfolding put_at
put_cases f p e q = elim (Bool-cases (q == p)) [
  | inl same ↦ inl ((==_iff q p).0 same, rw same refl)
  | inr other ↦ inr (rw other refl)
]

put_same : (f : ℕ → Estado) (p : ℕ) (e : Estado) → put_at f p e p ≡ e
unfolding put_at
put_same f p e = rw ((==_iff p p).1 refl) refl

module _ (job sock : ℤ) where
  pub Clears-refl : (y : Yama) → Clears job sock [] y y
  Clears-refl y = record {
    names = refl;
    others = λ q e. refl;
    same_job = λ q. refl;
    same_node = λ q. refl;
    failed = λ q h. elim h [ inl a ↦ absurd a | inr e ↦ e ];
    table = λ P a b. b;
    size = refl;
    slots = λ i q at other. at;
    sent = refl;
    allocated = refl;
  }

  pub Clears-trans :
      (p : ℕ) (ps : List ℕ) (x y z : Yama)
      → Clears job sock (p ∷ []) x y
      → Clears job sock ps y z
      → Clears job sock (p ∷ ps) x z
  Clears-trans p ps x y z f g = record {
    names = g.names ∙ f.names;
    others = λ q e. g.others q (f.same_job q ∙ e) ∙ f.others q e;
    same_job = λ q. g.same_job q ∙ f.same_job q;
    same_node = λ q. g.same_node q ∙ f.same_node q;
    failed = λ q h. elim h [
      | inl (inl a) ↦ g.failed q (inr (f.failed q (inl (inl a))))
      | inl (inr a) ↦ g.failed q (inl a)
      | inr e ↦ g.failed q (inr (f.failed q (inr e)))
    ];
    table = λ P (a, rest) b. g.table P rest (f.table P (a, tt) b);
    size = g.size ∙ f.size;
    slots = λ i q at other. g.slots i q (f.slots i q at other) (f.same_job q ∙ other);
    sent = g.sent ∙ f.sent;
    allocated = g.allocated ∙ f.allocated;
  }

  written :
      (y : Yama) (cargas : List Carga) (p : ℕ)
      → nombres_de cargas ≡ nombres_de y.lista_carga
      → es_del_job job sock (y.objetos p) ≡ true
      → Clears job sock (p ∷ []) y (escribir_estado p con_error (record y { lista_carga = cargas }))
  unfolding escribir
  written y cargas p e own = record {
    names = e;
    others = λ q no_job. elim (at q) [
      | inl (same, w) ↦
          absurd (ground (arith, own, no_job, ap (λ r. es_del_job job sock (y.objetos r)) same))
      | inr w ↦ w
    ];
    same_job = λ q. elim (at q) [
      | inl (same, w) ↦
          ap (es_del_job job sock) w ∙ ap (λ r. es_del_job job sock (y.objetos r)) (sym same)
      | inr w ↦ ap (es_del_job job sock) w
    ];
    same_node = λ q. elim (at q) [
      | inl (same, w) ↦ ap (λ (x : Estado). x.nodo) w ∙ ap (λ r. (y.objetos r).nodo) (sym same)
      | inr w ↦ ap (λ (x : Estado). x.nodo) w
    ];
    failed = λ q h. elim h [
      | inl (inl a) ↦
          subst
            (λ r.
              (put_at y.objetos p (record (y.objetos p) { estado = con_error }) r).estado
              ≡ con_error)
            (sym a)
            (ap (λ (x : Estado). x.estado)
              (put_same y.objetos p (record (y.objetos p) { estado = con_error })))
      | inl (inr a) ↦ absurd a
      | inr e ↦ elim (at q) [
        | inl (same, w) ↦ ap (λ (x : Estado). x.estado) w
        | inr w ↦ ap (λ (x : Estado). x.estado) w ∙ e
      ]
    ];
    table = λ P a b. b;
    size = refl;
    slots = λ i q at other. at;
    sent = refl;
    allocated = refl;
  }
    where
      at :
          (q : ℕ)
          → ((q ≡ p)
              × (put_at y.objetos p (record (y.objetos p) { estado = con_error }) q
                  ≡ record (y.objetos p) { estado = con_error }))
            ⊎ (put_at y.objetos p (record (y.objetos p) { estado = con_error }) q ≡ y.objetos q)
      at q = put_cases y.objetos p (record (y.objetos p) { estado = con_error }) q

  -- The index, if there is one, is of an entry of the job.
  abbrev pub OwnIndex : Yama → Option ℕ → Type 0
  OwnIndex y none = Unit
  OwnIndex y (some i) =
      (q : ℕ) × (get_elem? y.lista_estados i ≡ some q) × (es_del_job job sock (y.objetos q) ≡ true)

  -- The entry at `p` marked, and the pointer to it written where the table has one of the job.
  pub marked :
      (y : Yama) (cargas : List Carga) (p : ℕ) (i : Option ℕ)
      → nombres_de cargas ≡ nombres_de y.lista_carga
      → es_del_job job sock (y.objetos p) ≡ true
      → OwnIndex y i
      → Clears job sock
          (p ∷ [])
          y
          (reemplazar i p (escribir_estado p con_error (record y { lista_carga = cargas })))
  unfolding reemplazar mlist_replace escribir
  marked y cargas p none e own there = written y cargas p e own
  marked y cargas p (some i) e own (r, there, mine) =
      let before = written y cargas p e own in
      record {
        names = before.names;
        others = before.others;
        same_job = before.same_job;
        same_node = before.same_node;
        failed = before.failed;
        table = λ P (a, rest) b. All-set P y.lista_estados i p b a;
        size = length-set y.lista_estados i p;
        slots = λ j q at other.
            get_elem?-set_ne y.lista_estados p (λ same.
              let one_entry : r ≡ q = cc (there, at, ap (get_elem? y.lista_estados) same) in
              ground (arith, mine, other, ap (λ t. es_del_job job sock (y.objetos t)) one_entry))
            ∙ at;
        sent = refl;
        allocated = refl;
      }

pub Among-filter :
    (cond : ℕ → Bool) (xs : List ℕ) → All (λ q. cond q ≡ true → Among q (mlist_filter cond xs)) xs
unfolding mlist_filter
Among-filter cond [] = tt
Among-filter cond (x ∷ xs) = elim (Bool-cases (cond x)) [
  | inl e ↦ (
    λ d. rw d (inl refl),
    All-mono _ (λ q. cond q ≡ true → Among q (mlist_filter cond (x ∷ xs))) xs
        (λ q h d. rw e (inr (h d))) (Among-filter cond xs),
  )
  | inr e ↦ (
    λ d. absurd (ground (arith, d, e)),
    All-mono _ (λ q. cond q ≡ true → Among q (mlist_filter cond (x ∷ xs))) xs (λ q h d. rw e (h d))
        (Among-filter cond xs),
  )
]

pub Among-self : (ps : List ℕ) → All (λ p. Among p ps) ps
Among-self [] = tt
Among-self (p ∷ ps) =
    (inl refl, All-mono _ (λ q. Among q (p ∷ ps)) ps (λ q h. inr h) (Among-self ps))
