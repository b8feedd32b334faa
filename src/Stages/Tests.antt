-- ===== src/Stages/Tests.antt =====
-- The messages of Shared/struct.c at concrete stages.
use tp_2017_2c_yatpos.Base.{◌≡◌, List, Bool, map, [], ◌∷◌, ◌++◌, some, arith}
use tp_2017_2c_yatpos.Base.Int.{pos, eq_ℤ}
use tp_2017_2c_yatpos.Mlist.{mlist_filter}
use tp_2017_2c_yatpos.Yfile.{Text}
use tp_2017_2c_yatpos.Stages.{
  Transformation, TransformationFits, list_transformacion_pack, list_transformacion_unpack,
  GlobalReduction, GlobalFits, list_reduccion_global_pack, list_reduccion_global_unpack,
  FinalStorage, etapa_af_pack, etapa_af_unpack, TextFits, NodeInfo, NodeFits, NetNode, node_info,
  nodelist_active_pack, nodelist_unpack,
}
use tp_2017_2c_yatpos.Stages.RoundTrip.{
  list_transformacion_unpack-pack, list_reduccion_global_unpack-pack,
  nodelist_unpack-nodelist_active_pack, etapa_af_unpack-pack,
}

-- "n1" and "80"
abbrev n1 : Text
n1 = some (b'n' ∷ b'1' ∷ [])

abbrev port : Text
port = some (b'8' ∷ b'0' ∷ [])

n1-fits : TextFits n1
n1-fits = (omega arith, λ e. cc)

port-fits : TextFits port
port-fits = (omega arith, λ e. cc)

abbrev stage : Transformation
stage = record {
  nodo = n1;
  ip = n1;
  puerto = port;
  bloque = pos 38;
  bytes_ocupados = pos 10180;
  archivo_etapa = n1;
}

abbrev reduction : GlobalReduction
reduction = record {
  nodo = n1;
  ip = n1;
  puerto = port;
  archivo_temporal_de_rl = n1;
  archivo_etapa = n1;
  encargado = n1;
}

abbrev node : NodeInfo
node = record { nodo = n1; ip = n1; puerto = port }

stage-fits : TransformationFits stage
stage-fits = record {
  nodo = n1-fits;
  ip = n1-fits;
  puerto = port-fits;
  bloque = omega arith;
  bytes_ocupados = omega arith;
  archivo_etapa = n1-fits;
}

reduction-fits : GlobalFits reduction
reduction-fits = record {
  nodo = n1-fits;
  ip = n1-fits;
  puerto = port-fits;
  archivo_temporal_de_rl = n1-fits;
  archivo_etapa = n1-fits;
  encargado = n1-fits;
}

list_transformacion_unpack-pack_example :
    list_transformacion_unpack (list_transformacion_pack (stage ∷ stage ∷ []) ++ 9 ∷ [])
    ≡ some (stage ∷ stage ∷ [], 9 ∷ [])
list_transformacion_unpack-pack_example =
    list_transformacion_unpack-pack (stage ∷ stage ∷ []) (9 ∷ []) (omega arith)
      (stage-fits, (stage-fits, tt))

list_reduccion_global_unpack-pack_example :
    list_reduccion_global_unpack (list_reduccion_global_pack (reduction ∷ []) ++ [])
    ≡ some (reduction ∷ [], [])
list_reduccion_global_unpack-pack_example =
    list_reduccion_global_unpack-pack (reduction ∷ []) [] (omega arith) (reduction-fits, tt)

node-fits : NodeFits node
node-fits = record { nodo = n1-fits; ip = n1-fits; puerto = port-fits }

-- Two nodes, of which the second does not answer.
abbrev net_nodes : List NetNode
net_nodes =
    record { name = n1; socket = pos 5; worker_port = port }
    ∷ record { name = n1; socket = pos 6; worker_port = port }
    ∷ []

abbrev answers : NetNode → Bool
answers n = eq_ℤ n.socket (pos 5)

nodelist_unpack-nodelist_active_pack_example :
    nodelist_unpack (nodelist_active_pack (λ s. n1) answers net_nodes ++ 9 ∷ [])
    ≡ some (map (node_info (λ s. n1) answers) (mlist_filter answers net_nodes), 9 ∷ [])
unfolding mlist_filter node_info
nodelist_unpack-nodelist_active_pack_example =
    nodelist_unpack-nodelist_active_pack (λ s. n1) answers net_nodes (9 ∷ []) (omega arith)
      ((λ e. node-fits), ((λ e. cc), tt))

abbrev storage : FinalStorage
storage = record { nodo = n1; ip = n1; puerto = port; archivo_etapa = n1 }

etapa_af_unpack-pack_example : etapa_af_unpack (etapa_af_pack storage) ≡ some storage
etapa_af_unpack-pack_example =
    etapa_af_unpack-pack storage
      (record { nodo = n1-fits; ip = n1-fits; puerto = port-fits; archivo_etapa = n1-fits })
