-- ===== src/Datanode/Tests.antt =====
-- A DataNode of three blocks of two bytes, and the thread of yamafs that writes and reads them.
use tp_2017_2c_yatpos.Base.{◌≡◌, refl, List, [], ◌∷◌, true, some, none, arith}
use tp_2017_2c_yatpos.Base.Int.{pos, negsuc}
use tp_2017_2c_yatpos.Serial.Words.{Bytes}
use tp_2017_2c_yatpos.Datanode.{
  NodeRequest, node_ping, node_send, node_recv, node_recv_block, block_response, alive_response,
  sentblock, writeblock, connection, datanode_handler, data_set, data_get, data_blocks,
}
use tp_2017_2c_yatpos.Datanode.Exchange.{block_of, effects_of, all_performed, IsRequest, Limits}
use tp_2017_2c_yatpos.Datanode.Requests.{memory}
use tp_2017_2c_yatpos.Datanode.Conversation.{AreRequests, datanode_handler-connection}

abbrev three_blocks : List Bytes
three_blocks = (1 ∷ 2 ∷ []) ∷ (3 ∷ 4 ∷ []) ∷ (5 ∷ 6 ∷ []) ∷ []

abbrev requests : List NodeRequest
requests =
    node_recv (pos 1) ∷ node_send (pos 1) (8 ∷ 9 ∷ []) ∷ node_ping ∷ node_recv_block (pos 1) ∷ []

second_block : data_get 2 (1 ∷ 2 ∷ 3 ∷ 4 ∷ 5 ∷ []) (pos 1) ≡ some (3 ∷ 4 ∷ [])
unfolding data_get
second_block = refl

third_block : data_get 2 (1 ∷ 2 ∷ 3 ∷ 4 ∷ 5 ∷ []) (pos 2) ≡ none
unfolding data_get
third_block = refl

no_block : data_set 2 (1 ∷ 2 ∷ 3 ∷ 4 ∷ 5 ∷ []) (negsuc 0) (8 ∷ 9 ∷ []) ≡ none
unfolding data_set
no_block = refl

two_blocks : data_blocks 2 (1 ∷ 2 ∷ 3 ∷ 4 ∷ 5 ∷ []) ≡ 2
unfolding data_blocks
two_blocks = refl

effects :
    effects_of requests three_blocks
    ≡ writeblock (pos 1) (3 ∷ 4 ∷ [])
      ∷ sentblock
      ∷ alive_response true
      ∷ block_response (8 ∷ 9 ∷ [])
      ∷ []
unfolding effects_of block_of
effects = refl

limits : Limits 2 (pos 1) (pos 4) three_blocks
limits = record {
  yamafs = omega arith;
  datanode = omega arith;
  positive = omega arith;
  block = omega arith;
  map = omega arith;
  sized = (refl, (refl, (refl, tt)));
}

valid : AreRequests 2 3 requests
unfolding IsRequest
valid = (omega arith, ((omega arith, refl), (tt, (omega arith, tt))))

datanode_handler-connection_example :
    (asked answered : Bytes) × (datanode_handler 2
        (pos 1)
        true
        requests
        (record { incoming = answered; sent = []; effects = [] })
      ≡ some (record { incoming = []; sent = asked; effects = effects_of requests three_blocks }))
    × (connection 2 (pos 4) (memory three_blocks asked [])
        ≡ some (memory (all_performed requests three_blocks) [] answered))
datanode_handler-connection_example =
    datanode_handler-connection 2 (pos 1) (pos 4) requests three_blocks limits valid
