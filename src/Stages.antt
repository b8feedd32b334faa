-- ===== src/Stages.antt =====
-- Shared/struct.c and struct.h: the messages by which YAMA tells a Master what to run in each stage
-- of a job, and YAMA/src/struct.c: the active nodes that the FileSystem reports to YAMA.
mod Tests
pub mod RoundTrip
use tp_2017_2c_yatpos.Base.{ℕ, ◌^◌, List, [], ◌∷◌, Option, none, some, Bool, map}
use tp_2017_2c_yatpos.Base.Int.{ℤ, IsSigned}
use tp_2017_2c_yatpos.Serial.Words.{Bytes}
use tp_2017_2c_yatpos.Serial.{
  Value, int, str, i, s, removed, untouched, overrun, serial_pack, serial_remove,
}
use tp_2017_2c_yatpos.Serial.RoundTrip.{IsValue}
use tp_2017_2c_yatpos.Layout.{Layout, pack_list, unpack_list}
use tp_2017_2c_yatpos.Yfile.{Text}
use tp_2017_2c_yatpos.Mlist.{mlist_filter}

-- tEtapaTransformacion
pub record Transformation : Type 0 where
  pub nodo : Text
  pub ip : Text
  pub puerto : Text
  pub bloque : ℤ
  pub bytes_ocupados : ℤ
  pub archivo_etapa : Text

-- tEtapaReduccionGlobal
pub record GlobalReduction : Type 0 where
  pub nodo : Text
  pub ip : Text
  pub puerto : Text
  pub archivo_temporal_de_rl : Text
  pub archivo_etapa : Text
  pub encargado : Text

-- tAlmacenadoFinal
pub record FinalStorage : Type 0 where
  pub nodo : Text
  pub ip : Text
  pub puerto : Text
  pub archivo_etapa : Text

-- t_infoNodo
pub record NodeInfo : Type 0 where
  pub nodo : Text
  pub ip : Text
  pub puerto : Text

-- The text can be sent: it has no NUL inside and is not the one that stands for NULL.
abbrev pub TextFits : Text → Type 0
TextFits t = IsValue (str t)

transformation_values : Transformation → List Value
transformation_values t =
    str t.nodo
    ∷ str t.ip
    ∷ str t.puerto
    ∷ int t.bloque
    ∷ int t.bytes_ocupados
    ∷ str t.archivo_etapa
    ∷ []

read_transformation : List Value → Option Transformation
read_transformation (str a ∷ str b ∷ str c ∷ int d ∷ int e ∷ str f ∷ []) =
    some
      (record { nodo = a; ip = b; puerto = c; bloque = d; bytes_ocupados = e; archivo_etapa = f })
read_transformation _ = none

pub record TransformationFits (t : Transformation) : Type 0 where
  pub nodo : TextFits t.nodo
  pub ip : TextFits t.ip
  pub puerto : TextFits t.puerto
  pub bloque : IsSigned (2 ^ 31) t.bloque
  pub bytes_ocupados : IsSigned (2 ^ 31) t.bytes_ocupados
  pub archivo_etapa : TextFits t.archivo_etapa

-- `"sssiis"`
unfoldable pub transformation_layout : Layout Transformation
unfolding transformation_values read_transformation
transformation_layout = record {
  formats = s ∷ s ∷ s ∷ i ∷ i ∷ s ∷ [];
  values = transformation_values;
  read = read_transformation;
  IsFit = TransformationFits;
}

pub list_transformacion_pack : List Transformation → Bytes
list_transformacion_pack = pack_list transformation_layout

pub list_transformacion_unpack : Bytes → Option (List Transformation × Bytes)
list_transformacion_unpack = unpack_list transformation_layout

global_values : GlobalReduction → List Value
global_values g =
    str g.nodo
    ∷ str g.ip
    ∷ str g.puerto
    ∷ str g.archivo_temporal_de_rl
    ∷ str g.archivo_etapa
    ∷ str g.encargado
    ∷ []

read_global : List Value → Option GlobalReduction
read_global (str a ∷ str b ∷ str c ∷ str d ∷ str e ∷ str f ∷ []) = some (record {
  nodo = a;
  ip = b;
  puerto = c;
  archivo_temporal_de_rl = d;
  archivo_etapa = e;
  encargado = f;
})
read_global _ = none

pub record GlobalFits (g : GlobalReduction) : Type 0 where
  pub nodo : TextFits g.nodo
  pub ip : TextFits g.ip
  pub puerto : TextFits g.puerto
  pub archivo_temporal_de_rl : TextFits g.archivo_temporal_de_rl
  pub archivo_etapa : TextFits g.archivo_etapa
  pub encargado : TextFits g.encargado

-- `"ssssss"`
unfoldable pub global_layout : Layout GlobalReduction
unfolding global_values read_global
global_layout = record {
  formats = s ∷ s ∷ s ∷ s ∷ s ∷ s ∷ [];
  values = global_values;
  read = read_global;
  IsFit = GlobalFits;
}

pub list_reduccion_global_pack : List GlobalReduction → Bytes
list_reduccion_global_pack = pack_list global_layout

pub list_reduccion_global_unpack : Bytes → Option (List GlobalReduction × Bytes)
list_reduccion_global_unpack = unpack_list global_layout

storage_values : FinalStorage → List Value
storage_values a = str a.nodo ∷ str a.ip ∷ str a.puerto ∷ str a.archivo_etapa ∷ []

read_storage : List Value → Option FinalStorage
read_storage (str a ∷ str b ∷ str c ∷ str d ∷ []) =
    some (record { nodo = a; ip = b; puerto = c; archivo_etapa = d })
read_storage _ = none

pub record StorageFits (a : FinalStorage) : Type 0 where
  pub nodo : TextFits a.nodo
  pub ip : TextFits a.ip
  pub puerto : TextFits a.puerto
  pub archivo_etapa : TextFits a.archivo_etapa

pub etapa_af_pack : FinalStorage → Bytes
unfolding storage_values
etapa_af_pack a = serial_pack (storage_values a)

-- `none`: the serial is empty or too short, and fields of the result would be unset.
pub etapa_af_unpack : Bytes → Option FinalStorage
unfolding read_storage
etapa_af_unpack serial = elim (serial_remove serial (s ∷ s ∷ s ∷ s ∷ [])) [
  | untouched ↦ none
  | overrun ↦ none
  | removed vs rest ↦ read_storage vs
]

node_values : NodeInfo → List Value
node_values n = str n.nodo ∷ str n.ip ∷ str n.puerto ∷ []

read_node : List Value → Option NodeInfo
read_node (str a ∷ str b ∷ str c ∷ []) = some (record { nodo = a; ip = b; puerto = c })
read_node _ = none

pub record NodeFits (n : NodeInfo) : Type 0 where
  pub nodo : TextFits n.nodo
  pub ip : TextFits n.ip
  pub puerto : TextFits n.puerto

-- `"sss"`
unfoldable pub node_layout : Layout NodeInfo
unfolding node_values read_node
node_layout = record {
  formats = s ∷ s ∷ s ∷ [];
  values = node_values;
  read = read_node;
  IsFit = NodeFits;
}

-- What `nodelist_active_pack` of FileSystem/src/nodelist.c reads of a `t_node`.
pub record NetNode : Type 0 where
  pub name : Text
  pub socket : ℤ
  pub worker_port : Text

-- `socket_address` calls the system; `node_active` is whether a node answers a ping.
module _ (socket_address : ℤ → Text) (node_active : NetNode → Bool) where
  unfoldable pub node_info : NetNode → NodeInfo
  node_info node = record {
    nodo = node.name;
    ip = socket_address node.socket;
    puerto = node.worker_port;
  }

  unfoldable pub nodelist_active_pack : List NetNode → Bytes
  unfolding mlist_filter node_info
  nodelist_active_pack nodes =
      pack_list node_layout (map node_info (mlist_filter node_active nodes))

pub nodelist_unpack : Bytes → Option (List NodeInfo × Bytes)
nodelist_unpack = unpack_list node_layout
