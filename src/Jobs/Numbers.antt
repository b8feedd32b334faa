-- ===== src/Jobs/Numbers.antt =====
-- The numbers of jobs that YAMA gives to the Masters that connect (`numeroJob` in YAMA/src/server.c), over
-- any sequence of packets.
use tp_2017_2c_yatpos.Base.{
  ◌^◌, ◌-◌, ℕ, zero, suc, ◌≡◌, ◌∙◌, refl, ap, sym, subst, List, [], ◌∷◌, ◌++◌, Bool, true, false,
  not, arith, All, if◌then◌else◌, ◌==◌, length, ap2,
}
use tp_2017_2c_yatpos.Base.Int.{ℤ, pos, negsuc, ◌+ℤ◌, eq_ℤ, ltb_ℤ}
use tp_2017_2c_yatpos.Mlist.{mlist_append, mlist_filter}
use tp_2017_2c_yatpos.Jobs.State.{
  fault_unless, Mensaje, pedido_archivo, id_job, error_job, iniciar_transformacion,
  iniciar_reduccion_local, iniciar_reduccion_global, iniciar_almacenamiento, con_error, Yama,
  returns, Action, pure, gets, modify, enviar, ◌>>=◌, ◌>>◌, exit, for_each,
}
use tp_2017_2c_yatpos.Jobs.Run.{bind-returns_inv, returns_inj}
use tp_2017_2c_yatpos.Jobs.Table.{
  Respuesta, cerrar_masters, finalizar_ejecucion, eliminar_estados_multiples,
  buscar_id_job_para_master_caido, buscar_sockets_activos, cerrar_master, avisar_error_master,
  error_fs_disconnected,
}
use tp_2017_2c_yatpos.Jobs.Server.{
  Evento, conexion, filesystem, desconexion, paquete, Entorno, conectar, desconectar, atender,
}
use tp_2017_2c_yatpos.Jobs.Isolation.{IsFor, IsValid, Isolated, Ends, Keeps}
use tp_2017_2c_yatpos.Jobs.Isolation.Rules.{keeps_rules}
use tp_2017_2c_yatpos.Jobs.Isolation.Table.{eliminar_estados_multiples-Keeps}
use tp_2017_2c_yatpos.Jobs.Isolation.Server.{atender_pedido-Isolated}

-- The states that YAMA comes to from `x`, handling one packet after another.
pub data Reaches (en : Entorno) (x : Yama) : Yama → Type 0 where
  here : {y : Yama} → y ≡ x → Reaches en x y
  serve :
      {y z : Yama}
      → Reaches en x y
      → (ev : Evento) (r : Respuesta) → atender en ev r y ≡ returns tt z
      → Reaches en x z

-- The numbers of jobs that were sent, the last first.
unfoldable pub numeros : List Mensaje → List ℤ
numeros [] = []
numeros (id_job socket job ∷ ms) = job ∷ numeros ms
numeros (_ ∷ ms) = numeros ms

-- n, n - 1, …, 1
abbrev pub countdown : ℕ → List ℤ
countdown zero = []
countdown (suc n) = pos (suc n) ∷ countdown n

-- `n` Masters have connected, and got the numbers 1 to n in this order.
abbrev pub IsNumbered : Yama → Type 0
IsNumbered y = (n : ℕ) × (y.numero_job ≡ pos (suc n)) × (numeros y.enviados ≡ countdown n)

numeros-sent :
    (sock : ℤ) (ms rest : List Mensaje) → All (IsFor sock) ms → numeros (ms ++ rest) ≡ numeros rest
unfolding numeros
numeros-sent sock [] rest h = refl
numeros-sent sock (pedido_archivo f ∷ ms) rest (h, hs) = numeros-sent sock ms rest hs
numeros-sent sock (id_job s j ∷ ms) rest (h, hs) = absurd h
numeros-sent sock (error_job s c ∷ ms) rest (h, hs) = numeros-sent sock ms rest hs
numeros-sent sock (iniciar_transformacion s l ∷ ms) rest (h, hs) = numeros-sent sock ms rest hs
numeros-sent sock (iniciar_reduccion_local s l ∷ ms) rest (h, hs) = numeros-sent sock ms rest hs
numeros-sent sock (iniciar_reduccion_global s l ∷ ms) rest (h, hs) = numeros-sent sock ms rest hs
numeros-sent sock (iniciar_almacenamiento s l ∷ ms) rest (h, hs) = numeros-sent sock ms rest hs

Isolated-IsNumbered : (sock : ℤ) (y y' : Yama) → Isolated sock y y' → IsNumbered y → IsNumbered y'
Isolated-IsNumbered sock y y' f (n, at, given) =
    let (ms, sent, h) = f.sent in
    (n, f.numbers ∙ at, ap numeros sent ∙ numeros-sent sock ms y.enviados h ∙ given)

abbrev Holds : Yama → Type 0
Holds y = IsValid y × IsNumbered y

next_number : (n : ℕ) → pos (suc n) +ℤ pos 1 ≡ pos (suc (suc n))
unfolding ◌+ℤ◌
next_number n = ground arith

exit_never : (y : Yama) {z : Yama} → exit y ≡ returns tt z → ⊥
unfolding exit
exit_never y e = cc

cerrar_never : (y : Yama) {z : Yama} → cerrar_masters y ≡ returns tt z → ⊥
unfolding cerrar_masters
cerrar_never y e =
    let (ps, y1, _, rest) = bind-returns_inv (gets buscar_sockets_activos) _ y e in
    let (_, y2, _, last) = bind-returns_inv (for_each cerrar_master ps) (λ _. exit) y1 rest in
    exit_never y2 last

-- YAMA ends when the FileSystem is gone.
finalizar_never :
    (y : Yama) {z : Yama} (socket job : ℤ) → finalizar_ejecucion socket job y ≡ returns tt z → ⊥
unfolding finalizar_ejecucion
finalizar_never y socket job e =
    let (_, y1, _, rest) =
      bind-returns_inv
        (if eq_ℤ socket (negsuc 0)
          then pure tt
          else avisar_error_master job socket error_fs_disconnected)
        _ y e in
    let (estados, y2, _, last) = bind-returns_inv (gets (λ y. y.lista_estados)) _ y1 rest in
    either (length estados == 0) y2 last
  where
    either :
        (b : Bool) (y : Yama) {z : Yama} → (if b then exit else cerrar_masters) y ≡ returns tt z → ⊥
    either true y e = exit_never y e
    either false y e = cerrar_never y e

fault_unless_inv : (c : Bool) (y z : Yama) → fault_unless c y ≡ returns tt z → y ≡ z
unfolding fault_unless
fault_unless_inv true y z e = returns_inj e
fault_unless_inv false y z e = cc

module _ (en : Entorno) where
  conectar-Holds : (cli : ℤ) (y z : Yama) → Holds y → conectar en cli y ≡ returns tt z → Holds z
  unfolding conectar gets modify enviar ◌>>=◌ numeros
  conectar-Holds cli y z (v, (n, at, given)) e =
      let sent : Yama =
        enviar (id_job cli y.numero_job) (record y { sockets = mlist_append y.sockets cli }) in
      let room : Bool = ltb_ℤ y.numero_job (pos (2 ^ 31 - 1)) in
      let (_, y1, ran, last) =
        bind-returns_inv (fault_unless room)
          (λ _. modify (λ y. record y { numero_job = y.numero_job +ℤ pos 1 })) sent e in
      subst Holds (returns_inj last) (
        subst (λ y. Holds (record y { numero_job = y.numero_job +ℤ pos 1 }))
          (fault_unless_inv room sent y1 ran)
          (v, (suc n, ap (λ m. m +ℤ pos 1) at ∙ next_number n, ap2 ◌∷◌ at given)))

  inner-Keeps :
      (sock job : ℤ)
      → Keeps sock [] (
          if ltb_ℤ (pos 0) job
          then eliminar_estados_multiples en.igual sock job con_error
          else pure tt)
  inner-Keeps sock job = search (keeps_rules, eliminar_estados_multiples-Keeps)

  after_job-Holds :
      (sock job : ℤ) (f : Yama → List ℤ) (y z : Yama)
      → Holds y
      → ((if ltb_ℤ (pos 0) job
              then eliminar_estados_multiples en.igual sock job con_error
              else pure tt)
            >> modify (λ y. record y { sockets = f y }))
          y
        ≡ returns tt z
      → Holds z
  unfolding modify
  after_job-Holds sock job f y z (v, h) e =
      let inner : Action Unit =
        if ltb_ℤ (pos 0) job
        then eliminar_estados_multiples en.igual sock job con_error
        else pure tt in
      let (_, y1, ran, last) = bind-returns_inv inner _ y e in
      let (v1, kept) = subst (Ends sock y) ran ((inner-Keeps sock job).at y v tt) in
      subst Holds (returns_inj last) (v1, Isolated-IsNumbered sock y y1 kept h)

  desconectar-Holds :
      (sock : ℤ) (y z : Yama) → Holds y → desconectar en sock y ≡ returns tt z → Holds z
  unfolding desconectar gets ◌>>=◌
  desconectar-Holds sock y z h e =
      after_job-Holds sock (buscar_id_job_para_master_caido sock y)
        (λ y. mlist_filter (λ s. not (eq_ℤ s sock)) y.sockets) y z h e

  atender-Holds :
      (ev : Evento) (r : Respuesta) (y z : Yama)
      → Holds y
      → atender en ev r y ≡ returns tt z
      → Holds z
  unfolding atender pure
  atender-Holds (conexion cli true) r y z h e = conectar-Holds cli y z h e
  atender-Holds (conexion cli false) r y z h e = subst Holds (returns_inj e) h
  atender-Holds filesystem r y z h e = absurd (finalizar_never y (negsuc 0) (negsuc 0) e)
  atender-Holds (desconexion sock) r y z h e = desconectar-Holds sock y z h e
  atender-Holds (paquete sock p) r y z (v, h) e =
      let (v', kept) = atender_pedido-Isolated en sock p r y z v e in
      (v', Isolated-IsNumbered sock y z kept h)

  -- Whatever packets come, in whatever order: from a start with an empty table, the number 1 and
  -- nothing sent, the Masters that connected got the numbers 1, 2, 3 and so on, no number twice; the
  -- next is ready, and the pointers of the table are valid.
  pub Reaches-IsNumbered :
      (x y : Yama)
      → x.lista_estados ≡ []
      → x.numero_job ≡ pos 1
      → x.enviados ≡ []
      → Reaches en x y
      → IsValid y × IsNumbered y
  Reaches-IsNumbered x y a b c (here same) =
      subst Holds (sym same) (rw a tt, (0, b, ap numeros c ∙ none_yet))
    where
      none_yet : numeros [] ≡ []
      none_yet = unfold numeros in refl
  Reaches-IsNumbered x z a b c (serve {y = y} before ev r e) =
      atender-Holds ev r y z (Reaches-IsNumbered x y a b c before) e
