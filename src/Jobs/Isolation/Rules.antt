-- ===== src/Jobs/Isolation/Rules.antt =====
-- The rules of isolation for the actions of Jobs/State: what YAMA's functions are built from.
use tp_2017_2c_yatpos.Base.{
  ℕ, zero, suc, ◌≤◌, get_elem?, get_elem?-set_ne, get_elem?-set_self, set, length, some_inj, ◌<◌,
  ◌≡◌, ◌≢◌, ◌∙◌, refl, ap, sym, subst, List, [], ◌∷◌, ◌++◌, append_assoc, Bool, true, false, Option,
  none, some, All, All-append, All-set, All-mono, arith, ◌==◌, ==_iff, if◌then◌else◌, Bool-cases,
  inl, inr,
}
use tp_2017_2c_yatpos.Base.Int.{ℤ}
use tp_2017_2c_yatpos.Mlist.{mlist_append, mlist_replace}
use tp_2017_2c_yatpos.Jobs.State.{
  Progreso, Estado, Mensaje, Yama, Outcome, returns, exits, faults, Action, pure, gets, or_fault,
  ◌>>=◌, modify, exit, fault_unless, for_each, put_at, escribir, escribir_estado, enviar, agregar,
  reemplazar,
}
use tp_2017_2c_yatpos.Jobs.Isolation.{IsFor, IsValid, OwnSlot, Isolated, Ends, Owns, Keeps}

get_elem?-append :
    (xs ys : List ℕ) (i p : ℕ) → get_elem? xs i ≡ some p → get_elem? (xs ++ ys) i ≡ some p
get_elem?-append [] ys i p e = cc
get_elem?-append (x ∷ xs) ys zero p e = e
get_elem?-append (x ∷ xs) ys (suc i) p e = get_elem?-append xs ys i p e

module _ {sock : ℤ} where
  -- What stands in the table when the table only grows at its end.
  own_kept :
      (y y' : Yama)
      → ((i p : ℕ) → get_elem? y.lista_estados i ≡ some p → get_elem? y'.lista_estados i ≡ some p)
      → y.siguiente ≤ y'.siguiente
      → ((p : ℕ)
          → p < y.siguiente
          → y'.objetos p ≡ record (y.objetos p) { estado = (y'.objetos p).estado })
      → (i : ℕ) → OwnSlot sock i y
      → OwnSlot sock i y'
  own_kept y y' h grows kept i (p, at, l, own) =
      (p, h i p at, omega (arith, l, grows), ap (λ (e : Estado). e.master) (kept p l) ∙ own)

  -- A change of neither entries nor sockets.
  pub Isolated-same :
      (y y' : Yama)
      → y'.objetos ≡ y.objetos
      → y'.siguiente ≡ y.siguiente
      → y'.lista_estados ≡ y.lista_estados
      → y'.numero_job ≡ y.numero_job
      → y'.sockets ≡ y.sockets
      → (ms : List Mensaje) × (y'.enviados ≡ ms ++ y.enviados) × All (IsFor sock) ms
      → Isolated sock y y'
  Isolated-same y y' ho hs hl hn hk sent = record {
    grows = omega (arith, hs);
    others = λ p l n. ap (λ (g : ℕ → Estado). g p) ho;
    kept = λ p l. rw ho refl;
    slots = λ i p e l n. ap (λ t. get_elem? t i) hl ∙ e;
    own_slots =
        own_kept y y' (λ i p e. ap (λ t. get_elem? t i) hl ∙ e) (omega (arith, hs))
          (λ p l. rw ho refl);
    numbers = hn;
    connected = hk;
    sent = sent;
  }

  pub Isolated-refl : (y : Yama) → Isolated sock y y
  Isolated-refl y = Isolated-same y y refl refl refl refl refl ([], refl, tt)

  pub Isolated-trans : (x y z : Yama) → Isolated sock x y → Isolated sock y z → Isolated sock x z
  Isolated-trans x y z f g = record {
    grows = omega (arith, f.grows, g.grows);
    others = λ p l o.
        let same = f.others p l o in
        g.others p (omega (arith, f.grows)) (subst (λ (e : Estado). e.master ≢ sock) (sym same) o)
        ∙ same;
    kept = λ p l. again p (g.kept p (omega (arith, f.grows))) (f.kept p l);
    slots = λ i p e l o.
        g.slots i p (f.slots i p e l o) (omega (arith, l, f.grows))
          (subst (λ (e : Estado). e.master ≢ sock) (sym (f.others p l o)) o);
    own_slots = λ i o. g.own_slots i (f.own_slots i o);
    numbers = g.numbers ∙ f.numbers;
    connected = g.connected ∙ f.connected;
    sent =
        let (ms, e, h) = f.sent in
        let (ns, e', h') = g.sent in
        (
          ns ++ ms,
          e' ∙ ap (◌++◌ ns) e ∙ sym (append_assoc ns ms x.enviados),
          All-append (IsFor sock) ns ms h' h,
        );
  }
    where
      again :
          (p : ℕ)
          → z.objetos p ≡ record (y.objetos p) { estado = (z.objetos p).estado }
          → y.objetos p ≡ record (x.objetos p) { estado = (y.objetos p).estado }
          → z.objetos p ≡ record (x.objetos p) { estado = (z.objetos p).estado }
      again p b a = b ∙ ap (λ (e : Estado). record e { estado = (z.objetos p).estado }) a

  pub Owns-Isolated :
      (ps : List ℕ) (y y' : Yama) → Isolated sock y y' → Owns sock ps y → Owns sock ps y'
  Owns-Isolated ps y y' f h =
      All-mono _ _ ps
        (λ p (l, e). (omega (arith, f.grows), ap (λ (x : Estado). x.master) (f.kept p l) ∙ e)) h

  -- What follows an action starts from where it returned.
  pub Ends-trans :
      {A : Type 0} (x y : Yama) (o : Outcome A) → Isolated sock x y → Ends sock y o → Ends sock x o
  Ends-trans x y (returns a z) f (v, g) = (v, Isolated-trans x y z f g)
  Ends-trans x y (exits z) f h = tt
  Ends-trans x y faults f h = tt

other :
    {sock : ℤ} (y : Yama) (p q : ℕ) (nuevo : Progreso)
    → (y.objetos p).master ≡ sock
    → (y.objetos q).master ≢ sock
    → put_at y.objetos p (record (y.objetos p) { estado = nuevo }) q ≡ y.objetos q
unfolding put_at
other {sock = sock} y p q nuevo own n = elim (Bool-cases (q == p)) [
  | inl same ↦ absurd (n (subst (λ r. (y.objetos r).master ≡ sock) (sym ((==_iff q p).0 same)) own))
  | inr different ↦ rw different refl
]

state_only :
    (y : Yama) (p q : ℕ) (nuevo : Progreso)
    → let e = put_at y.objetos p (record (y.objetos p) { estado = nuevo }) q in
      e ≡ record (y.objetos q) { estado = e.estado }
unfolding put_at
state_only y p q nuevo = elim (Bool-cases (q == p)) [
  | inl same ↦ rw same (
      subst (λ r. record (y.objetos p) { estado = nuevo } ≡ record (y.objetos r) { estado = nuevo })
        (sym ((==_iff q p).0 same)) refl)
  | inr different ↦ rw different refl
]

module _ {sock : ℤ} {ps : List ℕ} {A : Type 0} where
  pub Keeps-pure : (a : A) → Keeps sock ps (pure a)
  unfolding pure
  Keeps-pure a = record { at = λ y v o. (v, Isolated-refl y) }

  pub Keeps-gets : (f : Yama → A) → Keeps sock ps (gets f)
  unfolding gets
  Keeps-gets f = record { at = λ y v o. (v, Isolated-refl y) }

  pub Keeps-or_fault : (o : Option A) → Keeps sock ps (or_fault o)
  unfolding or_fault
  Keeps-or_fault none = record { at = λ y v o. tt }
  Keeps-or_fault (some a) = record { at = λ y v o. (v, Isolated-refl y) }

  pub Keeps-if :
      (b : Bool) (m n : Action A)
      → Keeps sock ps m
      → Keeps sock ps n
      → Keeps sock ps (if b then m else n)
  Keeps-if true m n km kn = km
  Keeps-if false m n km kn = kn

  pub Keeps-option :
      {B : Type 0} (o : Option B) (m : Action A) (f : B → Action A)
      → Keeps sock ps m
      → ((b : B) → Keeps sock ps (f b))
      → Keeps sock ps (elim o [ none ↦ m | some b ↦ f b ])
  Keeps-option none m f km kf = km
  Keeps-option (some b) m f km kf = kf b

module _ {sock : ℤ} {ps : List ℕ} where
  pub Keeps-bind :
      {A B : Type 0} (m : Action A) (f : A → Action B)
      → Keeps sock ps m
      → ((a : A) → Keeps sock ps (f a))
      → Keeps sock ps (m >>= f)
  unfolding ◌>>=◌
  Keeps-bind {A = A} {B = B} m f km kf = record { at = λ y v o. after y o (m y) (km.at y v o) }
    where
      after :
          (y : Yama)
          → Owns sock ps y
          → (r : Outcome A) → Ends sock y r
          → Ends sock y (elim r [ returns a y' ↦ f a y' | exits y' ↦ exits y' | faults ↦ faults ])
      after y o (returns a y') (v, g) =
          Ends-trans y y' (f a y') g ((kf a).at y' v (Owns-Isolated ps y y' g o))
      after y o (exits y') h = tt
      after y o faults h = tt

  pub Keeps-exit : Keeps sock ps exit
  unfolding exit
  Keeps-exit = record { at = λ y v o. tt }

  -- After an exit nothing returns.
  pub Keeps-then_exit : {A : Type 0} (m : Action A) → Keeps sock ps (m >>= λ _. exit)
  unfolding ◌>>=◌ exit
  Keeps-then_exit {A = A} m = record { at = λ y v o. never y (m y) }
    where
      never :
          (y : Yama) (r : Outcome A)
          → Ends {A = Unit} sock y
              (elim r [ returns a y' ↦ exits y' | exits y' ↦ exits y' | faults ↦ faults ])
      never y (returns a y') = tt
      never y (exits y') = tt
      never y faults = tt

  pub Keeps-fault_unless : (b : Bool) → Keeps sock ps (fault_unless b)
  unfolding fault_unless
  Keeps-fault_unless true = record { at = λ y v o. (v, Isolated-refl y) }
  Keeps-fault_unless false = record { at = λ y v o. tt }

  -- A change of other variables.
  pub Keeps-modify :
      (f : Yama → Yama)
      → ((y : Yama) → (f y).objetos ≡ y.objetos)
      → ((y : Yama) → (f y).siguiente ≡ y.siguiente)
      → ((y : Yama) → (f y).lista_estados ≡ y.lista_estados)
      → ((y : Yama) → (f y).numero_job ≡ y.numero_job)
      → ((y : Yama) → (f y).sockets ≡ y.sockets)
      → ((y : Yama) → (f y).enviados ≡ y.enviados)
      → Keeps sock ps (modify f)
  unfolding modify
  Keeps-modify f ho hs hl hn hk he = record {
    at = λ y v o. (
      rw (hl y, hs y) v,
      Isolated-same y (f y) (ho y) (hs y) (hl y) (hn y) (hk y) ([], he y, tt),
    );
  }

  pub Keeps-enviar : (m : Mensaje) → IsFor sock m → Keeps sock ps (modify (enviar m))
  unfolding modify enviar
  Keeps-enviar m h = record {
    at =
        λ y v o. (v, Isolated-same y (enviar m y) refl refl refl refl refl (m ∷ [], refl, (h, tt)));
  }

  pub Keeps-agregar : (e : Estado) → Keeps sock ps (modify (agregar e))
  unfolding modify agregar put_at mlist_append
  Keeps-agregar e = record {
    at = λ y v o. (
      All-append (λ p. p < suc y.siguiente) y.lista_estados (y.siguiente ∷ [])
          (All-mono _ (λ p. p < suc y.siguiente) y.lista_estados (λ p l. omega arith) v)
          (omega arith, tt),
      record {
        grows = omega arith;
        others = λ p l n. ground arith;
        kept = λ p l. ground arith;
        slots = λ i p e l n. get_elem?-append y.lista_estados (y.siguiente ∷ []) i p e;
        own_slots =
            own_kept y (agregar e y)
              (λ i p at. get_elem?-append y.lista_estados (y.siguiente ∷ []) i p at) (omega arith)
              (λ p l. ground arith);
        numbers = refl;
        connected = refl;
        sent = ([], refl, tt);
      },
    );
  }

  pub Keeps-escribir_estado :
      (p : ℕ) (nuevo : Progreso) → Keeps sock (p ∷ ps) (modify (escribir_estado p nuevo))
  unfolding modify escribir put_at
  Keeps-escribir_estado p nuevo = record {
    at = λ y v ((l, own), o). (
      v,
      record {
        grows = omega arith;
        others = λ q m n. other y p q nuevo own n;
        kept = λ q m. state_only y p q nuevo;
        slots = λ i q e m n. e;
        own_slots =
            own_kept y (escribir_estado p nuevo y) (λ i q e. e) (omega arith)
              (λ q m. state_only y p q nuevo);
        numbers = refl;
        connected = refl;
        sent = ([], refl, tt);
      },
    );
  }

  -- What needs no entry of the Master, and what needs the first.
  pub Keeps-weaken : {A : Type 0} (m : Action A) → Keeps sock [] m → Keeps sock ps m
  Keeps-weaken m k = record { at = λ y v o. k.at y v tt }

-- `m` is isolated when the entries at `ps` and the one that the table has at `i` are of the Master.
pub record Guarded {A : Type 0} (sock : ℤ) (ps : List ℕ) (i : ℕ) (m : Action A) : Type 0 where
  pub at : (y : Yama) → IsValid y → Owns sock ps y → OwnSlot sock i y → Ends sock y (m y)

module _ {sock : ℤ} {ps : List ℕ} {i : ℕ} where
  pub Guarded-Keeps : {A : Type 0} (m : Action A) → Keeps sock ps m → Guarded sock ps i m
  Guarded-Keeps m k = record { at = λ y v o g. k.at y v o }

  pub Guarded-bind :
      {A B : Type 0} (m : Action A) (f : A → Action B)
      → Guarded sock ps i m
      → ((a : A) → Guarded sock ps i (f a))
      → Guarded sock ps i (m >>= f)
  unfolding ◌>>=◌
  Guarded-bind {A = A} {B = B} m f km kf = record {
    at = λ y v o s. after y o s (m y) (km.at y v o s);
  }
    where
      after :
          (y : Yama)
          → Owns sock ps y
          → OwnSlot sock i y
          → (r : Outcome A) → Ends sock y r
          → Ends sock y (elim r [ returns a y' ↦ f a y' | exits y' ↦ exits y' | faults ↦ faults ])
      after y o s (returns a y') (v, g) =
          Ends-trans y y' (f a y') g ((kf a).at y' v (Owns-Isolated ps y y' g o) (g.own_slots i s))
      after y o s (exits y') h = tt
      after y o s faults h = tt

  -- A pointer to an entry of the Master is written where one of its entries stood.
  pub Guarded-reemplazar : (p : ℕ) → Guarded sock (p ∷ ps) i (modify (reemplazar (some i) p))
  unfolding modify reemplazar mlist_replace
  Guarded-reemplazar p = record {
    at = λ y v ((l, own), o) (old, at, old_l, old_own). (
      All-set (λ q. q < y.siguiente) y.lista_estados i p v l,
      record {
        grows = omega arith;
        others = λ q m n. refl;
        kept = λ q m. refl;
        slots = λ j q e m n.
            get_elem?-set_ne y.lista_estados p (λ same. n (replaced y j q old same at e old_own))
            ∙ e;
        own_slots = λ j (q, e, m, mine). elim (Bool-cases (i == j)) [
          | inl same ↦ (
            p,
            subst (λ k. get_elem? (set y.lista_estados i p) k ≡ some p) ((==_iff i j).0 same)
                (get_elem?-set_self y.lista_estados i p (inside y.lista_estados i old at)),
            l,
            own,
          )
          | inr other ↦ (
            q,
            get_elem?-set_ne y.lista_estados p (λ s. ground (arith, other, ==_iff i j, s)) ∙ e,
            m,
            mine,
          )
        ];
        numbers = refl;
        connected = refl;
        sent = ([], refl, tt);
      },
    );
  }
    where
      replaced :
          (y : Yama) (j q old : ℕ)
          → i ≡ j
          → get_elem? y.lista_estados i ≡ some old
          → get_elem? y.lista_estados j ≡ some q
          → (y.objetos old).master ≡ sock
          → (y.objetos q).master ≡ sock
      replaced y j q old same at e own =
          subst (λ r. (y.objetos r).master ≡ sock)
            (some_inj (sym at ∙ ap (get_elem? y.lista_estados) same ∙ e)) own

      inside : (xs : List ℕ) (k x : ℕ) → get_elem? xs k ≡ some x → k < length xs
      inside [] k x e = cc
      inside (z ∷ xs) zero x e = omega arith
      inside (z ∷ xs) (suc k) x e = omega (arith, inside xs k x e)

-- A loop over entries of the Master.
pub Keeps-for_each_own :
    {sock : ℤ} (f : ℕ → Action Unit) (ps : List ℕ)
    → ((p : ℕ) → Keeps sock (p ∷ []) (f p))
    → Keeps sock ps (for_each f ps)
unfolding for_each
Keeps-for_each_own f [] k = Keeps-pure tt
Keeps-for_each_own f (p ∷ ps) k =
    Keeps-bind (f p) (λ _. for_each f ps) (record { at = λ y v (o, os). (k p).at y v (o, tt) })
      (λ _. record { at = λ y v (o, os). (Keeps-for_each_own f ps k).at y v os })

pub Keeps-for_each :
    {sock : ℤ} {ps : List ℕ} {A : Type 0} (f : A → Action Unit) (xs : List A)
    → ((x : A) → Keeps sock ps (f x))
    → Keeps sock ps (for_each f xs)
unfolding for_each
Keeps-for_each f [] k = Keeps-pure tt
Keeps-for_each f (x ∷ xs) k =
    Keeps-bind (f x) (λ _. for_each f xs) (k x) (λ _. Keeps-for_each f xs k)

pub ruleset keeps_rules = (
  Keeps-pure, Keeps-gets, Keeps-or_fault, Keeps-if, Keeps-option, Keeps-bind, Keeps-exit,
  Keeps-fault_unless,
)
