-- ===== src/Planner/Good.antt =====
-- What every round of `planificar` in YAMA/src/funcionesYAMA.c keeps: the workers and their names,
-- and in their lists each block so far once, under a node that has it.
use tp_2017_2c_yatpos.Base.{
  ℕ, suc, ◌+◌, ◌-◌, ◌*◌, ◌%◌, ◌^◌, ◌<◌, ◌≤◌, ◌≡◌, ◌∙◌, refl, List, [], ◌∷◌, ◌++◌, Bool, true, false,
  some, arith, length, get_elem?, map, All, All-set, All-mono, All-append, ◌==◌, ltb, if◌then◌else◌,
  length-set,
}
use tp_2017_2c_yatpos.Serial.Words.{Bytes}
use tp_2017_2c_yatpos.Yfile.{Block}
use tp_2017_2c_yatpos.Planner.{
  Worker, Clock, tiene_copia, recargo, avanzo_posicion, asigno_bloque, sumo_base,
}
use tp_2017_2c_yatpos.Planner.Move.{Move, recharged, assigned, advanced}
use tp_2017_2c_yatpos.Planner.Workers.{
  All-get_elem?, All-map, map-set, map-map_same, times, count-snoc, times-set, times-map,
  length-map,
}

module _ (base : ℕ) (blocks : List Block) where
  -- Block `n` exists, and the node has a copy of it.
  abbrev pub IsCopy : Bytes → ℕ → Type 0
  IsCopy nombre n = (b : Block) × (get_elem? blocks n ≡ some b) × (tiene_copia b nombre ≡ some true)

  abbrev pub IsServed : Worker → Type 0
  IsServed w = All (IsCopy w.nombre_worker) w.bloque

  -- `fuel` more rounds cannot overflow the availability.
  abbrev pub IsBelow : ℕ → Worker → Type 0
  IsBelow fuel w = w.disponibilidad + base * fuel < 2 ^ 32

  pub record Good (nombres : List Bytes) (fuel : ℕ) (c : Clock) : Type 0 where
    pub same : map (λ (w : Worker). w.nombre_worker) c.planificador ≡ nombres
    pub below : All (IsBelow fuel) c.planificador
    pub served : All IsServed c.planificador
    pub once : (n : ℕ) → times n c.planificador ≡ (if ltb n c.bloque then 1 else 0)
    pub bloque_le : c.bloque ≤ length blocks
    pub position : c.posicion ≤ length c.planificador
    pub ended : c.asigne ≡ (length blocks == c.bloque)

  room_less : (fuel : ℕ) (w : Worker) → IsBelow (suc fuel) w → IsBelow fuel w
  room_less fuel w h = grind arith

  room_base : (fuel d : ℕ) → d + base * suc fuel < 2 ^ 32 → base + base * fuel < 2 ^ 32
  room_base fuel d h = grind arith

  room_sum :
      (fuel d : ℕ) → d + base * suc fuel < 2 ^ 32 → (d + base) % 2 ^ 32 + base * fuel < 2 ^ 32
  room_sum fuel d h = grind arith

  once_step :
      (n bloque t t' : ℕ)
      → t ≡ (if ltb n bloque then 1 else 0)
      → t' ≡ t + (if n == bloque then 1 else 0)
      → t' ≡ (if ltb n (suc bloque) then 1 else 0)
  once_step n bloque t t' h e = ground arith

  by_todos :
      (P : List Worker → Type 0) (todos : Bool) (ws : List Worker)
      → P ws
      → P (map (sumo_base base) ws)
      → P (if todos then map (sumo_base base) ws else ws)
  by_todos P true ws a b = b
  by_todos P false ws a b = a

  pub Move-Good :
      (nombres : List Bytes) (fuel : ℕ) (c c' : Clock)
      → Move base blocks c c'
      → c.asigne ≡ false
      → c.posicion < length c.planificador
      → c.bloque < length blocks
      → Good nombres (suc fuel) c
      → Good nombres fuel c'
  unfolding recargo asigno_bloque avanzo_posicion sumo_base
  Move-Good nombres fuel c _ (recharged w hw z) a p l g = record {
    same = map-set _ c.planificador c.posicion _ hw refl ∙ g.same;
    below =
        All-set (IsBelow fuel) c.planificador c.posicion _
          (All-mono (IsBelow (suc fuel)) (IsBelow fuel) c.planificador (room_less fuel) g.below)
          (room_base fuel w.disponibilidad
            (All-get_elem? (IsBelow (suc fuel)) c.planificador c.posicion g.below hw));
    served =
        All-set IsServed c.planificador c.posicion _ g.served
          (All-get_elem? IsServed c.planificador c.posicion g.served hw);
    once = λ n. omega (
      arith,
      g.once n,
      times-set n c.planificador c.posicion (record w { disponibilidad = base }) hw,
    );
    bloque_le = g.bloque_le;
    position =
        omega (arith, length-set c.planificador c.posicion (record w { disponibilidad = base }));
    ended = g.ended;
  }
  Move-Good nombres fuel c _ (assigned w b hw z hb t) a p l g = record {
    same = map-set _ c.planificador c.posicion _ hw refl ∙ g.same;
    below =
        All-set (IsBelow fuel) c.planificador c.posicion _
          (All-mono (IsBelow (suc fuel)) (IsBelow fuel) c.planificador (room_less fuel) g.below)
          (omega (
            arith,
            room_less fuel w
                (All-get_elem? (IsBelow (suc fuel)) c.planificador c.posicion g.below hw),
          ));
    served = All-set IsServed c.planificador c.posicion _ g.served (
        All-append (IsCopy w.nombre_worker) w.bloque (c.bloque ∷ [])
          (All-get_elem? IsServed c.planificador c.posicion g.served hw) ((b, hb, t), tt));
    once = λ n. once_step n c.bloque _ _ (g.once n) (
        omega (
          arith,
          count-snoc n c.bloque w.bloque,
          times-set n c.planificador c.posicion
              (record w {
                disponibilidad = w.disponibilidad - 1;
                bloque = w.bloque ++ c.bloque ∷ [];
              })
              hw,
        ));
    bloque_le = omega arith;
    position = omega (
      arith,
      length-set c.planificador c.posicion
          (record w { disponibilidad = w.disponibilidad - 1; bloque = w.bloque ++ c.bloque ∷ [] }),
    );
    ended = ground arith;
  }
  Move-Good nombres fuel c _ (advanced w b hw z hb t) a p l g =
      let todos = suc c.contador == length c.planificador in
      record {
        same =
            by_todos (λ ws. map (λ (x : Worker). x.nombre_worker) ws ≡ nombres) todos c.planificador
              g.same
              (map-map_same (sumo_base base) (λ (x : Worker). x.nombre_worker) c.planificador
                  (λ x. refl)
                ∙ g.same);
        below =
            by_todos (All (IsBelow fuel)) todos c.planificador
              (All-mono (IsBelow (suc fuel)) (IsBelow fuel) c.planificador (room_less fuel) g.below)
              (All-map (IsBelow (suc fuel)) (IsBelow fuel) (sumo_base base) c.planificador
                (λ x h. room_sum fuel x.disponibilidad h) g.below);
        served =
            by_todos (All IsServed) todos c.planificador g.served
              (All-map IsServed IsServed (sumo_base base) c.planificador (λ x h. h) g.served);
        once = λ n.
            by_todos (λ ws. times n ws ≡ (if ltb n c.bloque then 1 else 0)) todos c.planificador
              (g.once n) (times-map n (sumo_base base) c.planificador (λ x. refl) ∙ g.once n);
        bloque_le = g.bloque_le;
        position =
            by_todos (λ ws. suc c.posicion ≤ length ws) todos c.planificador p
              (omega (arith, length-map (sumo_base base) c.planificador));
        ended = g.ended;
      }
