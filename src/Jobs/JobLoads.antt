-- ===== src/Jobs/JobLoads.antt =====
-- The loads of the jobs on a node (`cargaPorJob` of YAMA/src/server.h): their sum, and that no job stands
-- twice.
use tp_2017_2c_yatpos.Base.{
  ℕ, zero, suc, ◌≡◌, ◌≢◌, ◌∙◌, refl, ap, sym, subst, inl, inr, List, [], ◌∷◌, ◌++◌, Bool, true,
  false, none, some, All, All-set, All-append, arith, get_elem?, set, Bool-cases, some_inj,
}
use tp_2017_2c_yatpos.Base.Int.{
  ℤ, pos, ◌+ℤ◌, ◌-ℤ◌, eq_ℤ, eq_ℤ→eq, eq_ℤ_refl, +ℤ_parts, -ℤ_parts, eq_of_parts,
}
use tp_2017_2c_yatpos.Planner.Fill.{CargaJob}
use tp_2017_2c_yatpos.Planner.Workers.{All-get_elem?}
use tp_2017_2c_yatpos.Mlist.{mlist_index, mlist_remove}
use tp_2017_2c_yatpos.Mlist.Search.{index_here, index_later, index_none}
use tp_2017_2c_yatpos.Jobs.Loads.{eliminar_carga_job_del_nodo}

-- The sum of the loads of the jobs.
abbrev pub suma_jobs : List CargaJob → ℤ
suma_jobs [] = pos 0
suma_jobs (j ∷ js) = j.carga_del_job +ℤ suma_jobs js

-- No job stands twice in the list.
abbrev pub Distinct : List CargaJob → Type 0
Distinct [] = Unit
Distinct (j ∷ js) = All (λ (k : CargaJob). k.job ≢ j.job) js × Distinct js

abbrev pub del_job : ℤ → CargaJob → Bool
del_job job j = eq_ℤ j.job job

eliminar_here :
    (job : ℤ) (j : CargaJob) (js : List CargaJob)
    → eq_ℤ j.job job ≡ true
    → eliminar_carga_job_del_nodo job (j ∷ js) ≡ eliminar_carga_job_del_nodo job js
unfolding eliminar_carga_job_del_nodo mlist_remove
eliminar_here job j js e = rw (e, eliminar_carga_job_del_nodo) refl

eliminar_later :
    (job : ℤ) (j : CargaJob) (js : List CargaJob)
    → eq_ℤ j.job job ≡ false
    → eliminar_carga_job_del_nodo job (j ∷ js) ≡ j ∷ eliminar_carga_job_del_nodo job js
unfolding eliminar_carga_job_del_nodo mlist_remove
eliminar_later job j js e = rw (e, eliminar_carga_job_del_nodo) refl

eliminar_absent :
    (job : ℤ) (js : List CargaJob)
    → All (λ (k : CargaJob). k.job ≢ job) js
    → eliminar_carga_job_del_nodo job js ≡ js
unfolding eliminar_carga_job_del_nodo mlist_remove
eliminar_absent job [] h = refl
eliminar_absent job (j ∷ js) (h, hs) = elim (Bool-cases (eq_ℤ j.job job)) [
  | inl e ↦ absurd (h (eq_ℤ→eq j.job job e))
  | inr e ↦ eliminar_later job j js e ∙ ap (◌∷◌ j) (eliminar_absent job js hs)
]

All-eliminar :
    (P : CargaJob → Type 0) (job : ℤ) (js : List CargaJob)
    → All P js
    → All P (eliminar_carga_job_del_nodo job js)
All-eliminar P job [] h = unfold eliminar_carga_job_del_nodo mlist_remove in tt
All-eliminar P job (j ∷ js) (h, hs) = elim (Bool-cases (eq_ℤ j.job job)) [
  | inl e ↦ rw (eliminar_here job j js e) (All-eliminar P job js hs)
  | inr e ↦ rw (eliminar_later job j js e) (h, All-eliminar P job js hs)
]

pub Distinct-eliminar :
    (job : ℤ) (js : List CargaJob) → Distinct js → Distinct (eliminar_carga_job_del_nodo job js)
Distinct-eliminar job [] h = unfold eliminar_carga_job_del_nodo mlist_remove in tt
Distinct-eliminar job (j ∷ js) (h, hs) = elim (Bool-cases (eq_ℤ j.job job)) [
  | inl e ↦ rw (eliminar_here job j js e) (Distinct-eliminar job js hs)
  | inr e ↦
      rw (eliminar_later job j js e)
        (All-eliminar (λ (k : CargaJob). k.job ≢ j.job) job js h, Distinct-eliminar job js hs)
]

back : (a b : ℤ) → b ≡ (a +ℤ b) -ℤ a
back a b = ground (arith, eq_of_parts b ((a +ℤ b) -ℤ a), +ℤ_parts a b, -ℤ_parts (a +ℤ b) a)

past : (a b n : ℤ) → a +ℤ (b -ℤ n) ≡ (a +ℤ b) -ℤ n
past a b n = ground (
  arith,
  eq_of_parts (a +ℤ (b -ℤ n)) ((a +ℤ b) -ℤ n),
  +ℤ_parts a b,
  -ℤ_parts (a +ℤ b) n,
  -ℤ_parts b n,
  +ℤ_parts a (b -ℤ n),
)

add_here : (a b n : ℤ) → (a +ℤ n) +ℤ b ≡ (a +ℤ b) +ℤ n
add_here a b n = ground (
  arith,
  eq_of_parts ((a +ℤ n) +ℤ b) ((a +ℤ b) +ℤ n),
  +ℤ_parts a b,
  +ℤ_parts a n,
  +ℤ_parts (a +ℤ b) n,
  +ℤ_parts (a +ℤ n) b,
)

add_later : (a b n : ℤ) → a +ℤ (b +ℤ n) ≡ (a +ℤ b) +ℤ n
add_later a b n = ground (
  arith,
  eq_of_parts (a +ℤ (b +ℤ n)) ((a +ℤ b) +ℤ n),
  +ℤ_parts a b,
  +ℤ_parts b n,
  +ℤ_parts (a +ℤ b) n,
  +ℤ_parts a (b +ℤ n),
)

add_last : (n : ℤ) → n +ℤ pos 0 ≡ pos 0 +ℤ n
add_last n =
    ground (arith, eq_of_parts (n +ℤ pos 0) (pos 0 +ℤ n), +ℤ_parts n (pos 0), +ℤ_parts (pos 0) n)

-- By how much the sum falls with the job that was found.
pub suma_jobs-eliminar :
    (job : ℤ) (js : List CargaJob) (i : ℕ) (j : CargaJob)
    → mlist_index (del_job job) js ≡ some i
    → get_elem? js i ≡ some j
    → Distinct js
    → suma_jobs (eliminar_carga_job_del_nodo job js) ≡ suma_jobs js -ℤ j.carga_del_job
suma_jobs-eliminar job [] i j at found h = unfold mlist_index in ground arith
suma_jobs-eliminar job (x ∷ js) zero j at found (h, hs) = elim (Bool-cases (eq_ℤ x.job job)) [
  | inl e ↦
      let none_left =
        eliminar_absent job js
          (subst (λ n. All (λ (k : CargaJob). k.job ≢ n) js) (eq_ℤ→eq x.job job e) h) in
      ap suma_jobs (eliminar_here job x js e ∙ none_left)
      ∙ back x.carga_del_job (suma_jobs js)
      ∙ ap (λ (y : CargaJob). suma_jobs (x ∷ js) -ℤ y.carga_del_job) (some_inj found)
  | inr e ↦ let (k, _, less) = index_later (del_job job) x js e at in absurd (omega arith)
]
suma_jobs-eliminar job (x ∷ js) (suc i) j at found (h, hs) = elim (Bool-cases (eq_ℤ x.job job)) [
  | inl e ↦ absurd (ground (arith, sym (index_here (del_job job) x js e) ∙ at))
  | inr e ↦
      let (k, later, less) = index_later (del_job job) x js e at in
      ap suma_jobs (eliminar_later job x js e)
      ∙ ap (◌+ℤ◌ x.carga_del_job)
          (suma_jobs-eliminar job js i j (later ∙ ap some (omega arith)) found hs)
      ∙ past x.carga_del_job (suma_jobs js) j.carga_del_job
]

-- A job's load changed in place, and a job added.
pub suma_jobs-set :
    (js : List CargaJob) (i : ℕ) (j : CargaJob) (n : ℤ)
    → get_elem? js i ≡ some j
    → suma_jobs (set js i (record j { carga_del_job = j.carga_del_job +ℤ n })) ≡ suma_jobs js +ℤ n
suma_jobs-set [] i j n found = ground arith
suma_jobs-set (x ∷ js) zero j n found =
    ap (λ (y : CargaJob). (y.carga_del_job +ℤ n) +ℤ suma_jobs js) (sym (some_inj found))
    ∙ add_here x.carga_del_job (suma_jobs js) n
suma_jobs-set (x ∷ js) (suc i) j n found =
    ap (◌+ℤ◌ x.carga_del_job) (suma_jobs-set js i j n found)
    ∙ add_later x.carga_del_job (suma_jobs js) n

pub suma_jobs-append :
    (js : List CargaJob) (j : CargaJob) → suma_jobs (js ++ j ∷ []) ≡ suma_jobs js +ℤ j.carga_del_job
suma_jobs-append [] j = add_last j.carga_del_job
suma_jobs-append (x ∷ js) j =
    ap (◌+ℤ◌ x.carga_del_job) (suma_jobs-append js j)
    ∙ add_later x.carga_del_job (suma_jobs js) j.carga_del_job

pub Distinct-set :
    (js : List CargaJob) (i : ℕ) (j j' : CargaJob)
    → get_elem? js i ≡ some j
    → j'.job ≡ j.job
    → Distinct js
    → Distinct (set js i j')
Distinct-set [] i j j' found e h = h
Distinct-set (x ∷ js) zero j j' found e (h, hs) = (
  subst (λ n. All (λ (k : CargaJob). k.job ≢ n) js)
      (ap (λ (y : CargaJob). y.job) (some_inj found) ∙ sym e) h,
  hs,
)
Distinct-set (x ∷ js) (suc i) j j' found e (h, hs) = (
  All-set (λ (k : CargaJob). k.job ≢ x.job) js i j' h
      (subst (λ n. n ≢ x.job) (sym e)
        (All-get_elem? (λ (k : CargaJob). k.job ≢ x.job) js i h found)),
  Distinct-set js i j j' found e hs,
)

pub index_absent :
    (job : ℤ) (js : List CargaJob)
    → mlist_index (del_job job) js ≡ none
    → All (λ (k : CargaJob). k.job ≢ job) js
index_absent job [] e = tt
index_absent job (x ∷ js) e = elim (Bool-cases (eq_ℤ x.job job)) [
  | inl here ↦ absurd (ground (arith, sym (index_here (del_job job) x js here) ∙ e))
  | inr later ↦ (
    λ same. absurd (ground (arith, later, sym (ap (λ n. eq_ℤ n job) same), eq_ℤ_refl job)),
    index_absent job js (index_none (del_job job) x js later e),
  )
]

pub Distinct-append :
    (js : List CargaJob) (j : CargaJob)
    → All (λ (k : CargaJob). k.job ≢ j.job) js
    → Distinct js
    → Distinct (js ++ j ∷ [])
Distinct-append [] j h d = (tt, tt)
Distinct-append (x ∷ js) j (h, hs) (d, ds) = (
  All-append (λ (k : CargaJob). k.job ≢ x.job) js (j ∷ []) d ((λ e. h (sym e)), tt),
  Distinct-append js j hs ds,
)
