-- ===== src/Stages/RoundTrip.antt =====
-- Each message of Shared/struct.c and YAMA/src/struct.c arrives as it was sent.
use tp_2017_2c_yatpos.Base.{
  ◌<◌, ◌^◌, ◌≡◌, refl, ap, arith, suc, inl, inr, Bool, true, Bool-cases, map, List, [], ◌∷◌, ◌++◌,
  some, All, length,
}
use tp_2017_2c_yatpos.Base.Int.{ℤ}
use tp_2017_2c_yatpos.Mlist.{mlist_filter}
use tp_2017_2c_yatpos.Yfile.{Text}
use tp_2017_2c_yatpos.Serial.Words.{Bytes}
use tp_2017_2c_yatpos.Serial.{str, s, i, format}
use tp_2017_2c_yatpos.Serial.RoundTrip.{serial_remove-serial_pack}
use tp_2017_2c_yatpos.Layout.{IsLayout}
use tp_2017_2c_yatpos.Layout.Laws.{unpack_list-pack_list}
use tp_2017_2c_yatpos.Stages.{
  Transformation, TransformationFits, transformation_layout, list_transformacion_pack,
  list_transformacion_unpack, GlobalReduction, GlobalFits, global_layout,
  list_reduccion_global_pack, list_reduccion_global_unpack, FinalStorage, StorageFits,
  storage_values, etapa_af_pack, etapa_af_unpack, NodeFits, node_layout, NetNode, node_info,
  nodelist_active_pack, nodelist_unpack,
}

transformation-IsLayout : IsLayout transformation_layout
unfolding transformation_layout format
transformation-IsLayout = record {
  first = s;
  others = s ∷ s ∷ i ∷ i ∷ s ∷ [];
  nonempty = refl;
  formats-values = λ t. refl;
  values-IsValue =
      λ t h. (h.nodo, (h.ip, (h.puerto, (h.bloque, (h.bytes_ocupados, (h.archivo_etapa, tt))))));
  read-values = λ t h. refl;
}

global-IsLayout : IsLayout global_layout
unfolding global_layout format
global-IsLayout = record {
  first = s;
  others = s ∷ s ∷ s ∷ s ∷ s ∷ [];
  nonempty = refl;
  formats-values = λ g. refl;
  values-IsValue = λ g h. (
    h.nodo,
    (h.ip, (h.puerto, (h.archivo_temporal_de_rl, (h.archivo_etapa, (h.encargado, tt))))),
  );
  read-values = λ g h. refl;
}

node-IsLayout : IsLayout node_layout
unfolding node_layout format
node-IsLayout = record {
  first = s;
  others = s ∷ s ∷ [];
  nonempty = refl;
  formats-values = λ n. refl;
  values-IsValue = λ n h. (h.nodo, (h.ip, (h.puerto, tt)));
  read-values = λ n h. refl;
}

-- A Master unpacks the transformation stages that YAMA packed, all and in order, and leaves what
-- follows them in the serial.
pub list_transformacion_unpack-pack :
    (ts : List Transformation) (rest : Bytes)
    → length ts < 2 ^ 31
    → All TransformationFits ts
    → list_transformacion_unpack (list_transformacion_pack ts ++ rest) ≡ some (ts, rest)
unfolding list_transformacion_unpack list_transformacion_pack transformation_layout
list_transformacion_unpack-pack ts rest n h =
    unpack_list-pack_list transformation_layout transformation-IsLayout ts rest n h

-- The same for the global reduction stages.
pub list_reduccion_global_unpack-pack :
    (gs : List GlobalReduction) (rest : Bytes)
    → length gs < 2 ^ 31
    → All GlobalFits gs
    → list_reduccion_global_unpack (list_reduccion_global_pack gs ++ rest) ≡ some (gs, rest)
unfolding list_reduccion_global_unpack list_reduccion_global_pack global_layout
list_reduccion_global_unpack-pack gs rest n h =
    unpack_list-pack_list global_layout global-IsLayout gs rest n h

module _ (socket_address : ℤ → Text) (node_active : NetNode → Bool) where
  length-infos :
      (nodes : List NetNode)
      → length (map (node_info socket_address node_active) nodes) ≡ length nodes
  length-infos [] = refl
  length-infos (n ∷ nodes) = ap suc (length-infos nodes)

  active-NodeFits :
      (nodes : List NetNode)
      → All (λ n. node_active n ≡ true → NodeFits (node_info socket_address node_active n)) nodes
      → All NodeFits (map (node_info socket_address node_active) (mlist_filter node_active nodes))
  unfolding mlist_filter
  active-NodeFits [] h = tt
  active-NodeFits (n ∷ nodes) (h, hs) = elim (Bool-cases (node_active n)) [
    | inl e ↦ rw e (h e, active-NodeFits nodes hs)
    | inr e ↦ rw e (active-NodeFits nodes hs)
  ]

  -- YAMA unpacks what the FileSystem packed: the name, the address of the socket and the port of the
  -- nodes that answer a ping, of all of these and in order, and leaves what follows. This is for
  -- less than 2 ^ 31 nodes that answer, with texts that fit.
  pub nodelist_unpack-nodelist_active_pack :
      (nodes : List NetNode) (rest : Bytes)
      → length (mlist_filter node_active nodes) < 2 ^ 31
      → All (λ n. node_active n ≡ true → NodeFits (node_info socket_address node_active n)) nodes
      → nodelist_unpack (nodelist_active_pack socket_address node_active nodes ++ rest)
        ≡ some (map (node_info socket_address node_active) (mlist_filter node_active nodes), rest)
  unfolding nodelist_unpack nodelist_active_pack node_layout
  nodelist_unpack-nodelist_active_pack nodes rest n h =
      unpack_list-pack_list node_layout node-IsLayout
        (map (node_info socket_address node_active) (mlist_filter node_active nodes)) rest
        (omega (arith, n, length-infos (mlist_filter node_active nodes))) (active-NodeFits nodes h)

-- The final storage stage arrives as it was sent.
pub etapa_af_unpack-pack :
    (a : FinalStorage) → StorageFits a → etapa_af_unpack (etapa_af_pack a) ≡ some a
unfolding etapa_af_unpack etapa_af_pack storage_values format
etapa_af_unpack-pack a h = rw (
  serial_remove-serial_pack (str a.nodo) (str a.ip ∷ str a.puerto ∷ str a.archivo_etapa ∷ [])
      (s ∷ s ∷ s ∷ s ∷ []) refl (h.nodo, (h.ip, (h.puerto, (h.archivo_etapa, tt)))),
  etapa_af_unpack,
)
