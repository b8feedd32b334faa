-- ===== src/Datanode.antt =====
-- A DataNode and the thread of yamafs that talks to it: Shared/data.c, DataNode/src/DataNode.c (the
-- requests of one connection) and `datanode_handler` of FileSystem/src/server.c.
-- `block_size` is BLOCK_SIZE (2 ^ 20 in the program); the mapped file is its bytes. A connection is
-- the bytes that one side sends and the other receives, in order. `none` is an access outside the
-- map, a read through NULL or of a variable that nothing filled, or a packet that arrives in part.
-- The connection itself (the handshake and what each side tells of itself) is not here.
pub mod Blocks
pub mod Requests
pub mod Exchange
pub mod Rounds
pub mod Conversation
mod Tests
use tp_2017_2c_yatpos.Base.{
  ℕ, zero, suc, ◌+◌, ◌*◌, ◌/◌, ◌^◌, List, [], ◌∷◌, ◌++◌, Bool, true, false, not, ◌&&◌, ◌||◌, Option,
  none, some, length, take, drop, leb, ltb, if◌then◌else◌,
}
use tp_2017_2c_yatpos.Base.Int.{ℤ, pos, negsuc}
use tp_2017_2c_yatpos.Serial.Words.{Bytes}
use tp_2017_2c_yatpos.Serial.{
  Value, int, i, removed, untouched, overrun, serial_pack, serial_remove,
}
use tp_2017_2c_yatpos.Partition.{overlay}
use tp_2017_2c_yatpos.Protocol.{
  Packet, same_code, op_undefined, content_of, protocol_packet, protocol_send_packet,
  protocol_receive_packet,
}

abbrev pub op_ping : ℤ
op_ping = pos 1

abbrev pub op_request_block : ℤ
op_request_block = pos 7

abbrev pub op_send_block : ℤ
op_send_block = pos 8

-- The process DataNode: its mapped file, what it has yet to receive and what it sent.
pub record Memory : Type 0 where
  pub map : Bytes
  pub socket : Bytes
  pub sent : Bytes

-- `t_nodeop` with its opcode; a ping has no block, and only a block to be sent has content.
pub data NodeRequest : Type 0 where
  node_ping : NodeRequest
  node_send : (blockno : ℤ) (block : Bytes) → NodeRequest
  node_recv_block : (blockno : ℤ) → NodeRequest
  node_recv : (blockno : ℤ) → NodeRequest

-- What the thread hands on: to who waits for an answer (`thread_respond`), and to the table of files
-- (`filetable_sentblock` and `filetable_writeblock`).
pub data Effect : Type 0 where
  alive_response : (alive : Bool) → Effect
  block_response : (block : Bytes) → Effect
  sentblock : Effect
  writeblock : (blockno : ℤ) (block : Bytes) → Effect

-- The thread of a node: what it has yet to receive, what it sent and what it handed on.
pub record Handler : Type 0 where
  pub incoming : Bytes
  pub sent : Bytes
  pub effects : List Effect

abbrev pub two_ints : Bytes → Option (ℤ × ℤ)
two_ints content = elim (serial_remove content (i ∷ i ∷ [])) [
  | untouched ↦ none
  | overrun ↦ none
  | removed vs rest ↦ elim vs [ int a ∷ int b ∷ [] ↦ some (a, b) | _ ↦ none ]
]

-- `if(receiving)`
unfoldable pub is_true : ℤ → Bool
is_true (pos zero) = false
is_true _ = true

-- The answer to a request to read, which `arrived` makes an effect of.
unfoldable pub receive_answer : (Bytes → Effect) → Handler → Option Handler
unfolding protocol_receive_packet same_code
receive_answer arrived h = elim (protocol_receive_packet h.incoming) [
  | none ↦ none
  | some (packet, rest) ↦
      if not (same_code packet.operation op_send_block)
      then some (record h { incoming = rest })
      else some
          (record h { incoming = rest; effects = h.effects ++ arrived (content_of packet) ∷ [] })
]

module _ (process_current : ℤ) where
  unfoldable pub ping_packet : Bytes
  unfolding protocol_send_packet protocol_packet
  ping_packet = protocol_send_packet process_current (protocol_packet process_current op_ping none)

  unfoldable pub request_packet : (blockno receiving : ℤ) → Bytes
  unfolding protocol_send_packet protocol_packet
  request_packet blockno receiving = protocol_send_packet process_current (
      protocol_packet process_current op_request_block
        (some (serial_pack (int blockno ∷ int receiving ∷ []))))

module _ (block_size : ℕ) where
  -- The place of a block in the map; the product is an `int`.
  unfoldable pub block_offset : Bytes → ℤ → Option ℕ
  block_offset map (pos n) =
      if leb (n * block_size + block_size) (length map) && ltb (n * block_size) (2 ^ 31)
      then some (n * block_size)
      else none
  block_offset map (negsuc n) = none

  unfoldable pub data_set : Bytes → ℤ → Bytes → Option Bytes
  unfolding overlay block_offset
  data_set map blockno block = elim (block_offset map blockno) [
    | none ↦ none
    | some offset ↦
        if leb block_size (length block)
        then some (overlay offset (take block_size block) map)
        else none
  ]

  -- The BLOCK_SIZE bytes at the pointer that is returned.
  unfoldable pub data_get : Bytes → ℤ → Option Bytes
  unfolding block_offset
  data_get map blockno = elim (block_offset map blockno) [
    | none ↦ none
    | some offset ↦ some (take block_size (drop offset map))
  ]

  unfoldable pub data_blocks : Bytes → ℕ
  data_blocks map = length map / block_size

  module _ (process_current : ℤ) where
    -- The packet with a block behind a request to write.
    unfoldable pub receive_block : ℤ → Memory → Option Memory
    unfolding protocol_receive_packet data_set same_code
    receive_block blockno s = elim (protocol_receive_packet s.socket) [
      | none ↦ none
      | some (packet, rest) ↦
          if not (same_code packet.operation op_send_block)
          then some (record s { socket = rest })
          else elim (data_set s.map blockno (content_of packet)) [
            | none ↦ none
            | some map ↦ some (record s { map = map; socket = rest })
          ]
    ]

    unfoldable pub answer_block : ℤ → Memory → Option Memory
    unfolding data_get protocol_send_packet protocol_packet
    answer_block blockno s = elim (data_get s.map blockno) [
      | none ↦ none
      | some block ↦ some (record s {
        sent =
            s.sent
            ++ protocol_send_packet process_current
                (protocol_packet process_current op_send_block (some block));
      })
    ]

    unfoldable pub handle_request : Packet → Memory → Option Memory
    unfolding receive_block answer_block same_code
    handle_request request s =
        if same_code request.operation op_ping || not (same_code request.operation op_request_block)
        then some s
        else elim (two_ints (content_of request)) [
          | none ↦ none
          | some (blockno, receiving) ↦
              if is_true receiving then receive_block blockno s else answer_block blockno s
        ]

    -- The loop of `main` on one connection, up to its end.
    unfoldable pub handle_requests : (fuel : ℕ) → Memory → Option Memory
    unfolding handle_request protocol_receive_packet same_code
    handle_requests zero s = none
    handle_requests (suc fuel) s = elim (protocol_receive_packet s.socket) [
      | none ↦ none
      | some (packet, rest) ↦ elim (same_code packet.operation op_undefined) [
        | true ↦ some (record s { socket = rest })
        | false ↦ elim (handle_request packet (record s { socket = rest })) [
          | none ↦ none
          | some s' ↦ handle_requests fuel s'
        ]
      ]
    ]

    -- A round takes a packet, which has bytes, so as many rounds as there are bytes are enough.
    unfoldable pub connection : Memory → Option Memory
    unfolding handle_requests
    connection s = handle_requests (suc (length s.socket)) s

  module _ (process_current : ℤ) where
    unfoldable pub block_packet : Bytes → Bytes
    unfolding protocol_send_packet protocol_packet
    block_packet block =
        protocol_send_packet process_current
          (protocol_packet process_current op_send_block (some (take block_size block)))

    -- A round of the loop: whether it goes on, and the thread after it. `alive` is what the second
    -- of the two sends of a ping returns.
    unfoldable pub handle_nodeop : (alive : Bool) → NodeRequest → Handler → Option (Bool × Handler)
    unfolding ping_packet request_packet block_packet receive_answer
    handle_nodeop alive node_ping h = some (
      alive,
      record h {
        sent = h.sent ++ (ping_packet process_current ++ ping_packet process_current);
        effects = h.effects ++ alive_response alive ∷ [];
      },
    )
    handle_nodeop alive (node_send blockno block) h =
        if leb block_size (length block)
        then some (
          true,
          record h {
            sent = h.sent ++ (request_packet process_current blockno (pos 1) ++ block_packet block);
            effects = h.effects ++ sentblock ∷ [];
          },
        )
        else none
    handle_nodeop alive (node_recv blockno) h =
        elim (receive_answer (writeblock blockno)
          (record h { sent = h.sent ++ request_packet process_current blockno (pos 0) })) [
            | none ↦ none
            | some h' ↦ some (true, h')
          ]
    handle_nodeop alive (node_recv_block blockno) h =
        elim (receive_answer block_response
          (record h { sent = h.sent ++ request_packet process_current blockno (pos 0) })) [
            | none ↦ none
            | some h' ↦ some (true, h')
          ]

    -- The loop, on the messages that the thread receives before it ends.
    unfoldable pub datanode_handler : (alive : Bool) → List NodeRequest → Handler → Option Handler
    unfolding handle_nodeop
    datanode_handler alive [] h = some h
    datanode_handler alive (op ∷ ops) h = elim (handle_nodeop alive op h) [
      | none ↦ none
      | some (true, h') ↦ datanode_handler alive ops h'
      | some (false, h') ↦ some h'
    ]
