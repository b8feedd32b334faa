-- ===== src/Datanode/Exchange.antt =====
-- What a conversation of FileSystem/src/server.c and DataNode/src/DataNode.c comes to: the abstract
-- view of a DataNode is the list of its blocks. The bytes that go each way, and the limits.
use tp_2017_2c_yatpos.Base.{
  ℕ, ◌*◌, ◌^◌, ◌<◌, ◌≡◌, refl, List, [], ◌∷◌, ◌++◌, some, true, length, set, length-set, All-set,
}
use tp_2017_2c_yatpos.Base.Int.{ℤ, pos, negsuc, IsSigned}
use tp_2017_2c_yatpos.Serial.Words.{Bytes}
use tp_2017_2c_yatpos.Protocol.{protocol_packet, protocol_send_packet}
use tp_2017_2c_yatpos.Datanode.{
  op_send_block, NodeRequest, node_ping, node_send, node_recv, node_recv_block, Effect,
  alive_response, block_response, sentblock, writeblock, ping_packet, request_packet, block_packet,
}
use tp_2017_2c_yatpos.Datanode.Blocks.{block_at, IsBlocks}

-- The blocks after a request.
unfoldable pub performed : NodeRequest → List Bytes → List Bytes
performed (node_send (pos n) block) blocks = set blocks n block
performed _ blocks = blocks

unfoldable pub block_of : List Bytes → ℤ → Bytes
unfolding block_at
block_of blocks (pos n) = block_at blocks n
block_of blocks (negsuc n) = []

-- What yamafs gets of a request: the block as it is among the blocks.
unfoldable pub effect_of : NodeRequest → List Bytes → Effect
effect_of node_ping blocks = alive_response true
effect_of (node_send blockno block) blocks = sentblock
effect_of (node_recv blockno) blocks = writeblock blockno (block_of blocks blockno)
effect_of (node_recv_block blockno) blocks = block_response (block_of blocks blockno)

unfoldable pub all_performed : List NodeRequest → List Bytes → List Bytes
unfolding performed
all_performed [] blocks = blocks
all_performed (op ∷ ops) blocks = all_performed ops (performed op blocks)

unfoldable pub effects_of : List NodeRequest → List Bytes → List Effect
unfolding performed effect_of
effects_of [] blocks = []
effects_of (op ∷ ops) blocks = effect_of op blocks ∷ effects_of ops (performed op blocks)

module _ (block_size count : ℕ) where
  unfoldable pub IsPlace : ℤ → Type 0
  IsPlace (pos n) = n < count
  IsPlace (negsuc n) = n < 0

  -- The blocks of the request exist, and its content is a block.
  unfoldable pub IsRequest : NodeRequest → Type 0
  unfolding IsPlace
  IsRequest node_ping = Unit
  IsRequest (node_send blockno block) = IsPlace blockno × (length block ≡ block_size)
  IsRequest (node_recv blockno) = IsPlace blockno
  IsRequest (node_recv_block blockno) = IsPlace blockno

module _ (block_size : ℕ) (p : ℤ) where
  unfoldable pub asked : NodeRequest → Bytes
  unfolding ping_packet request_packet block_packet
  asked node_ping = ping_packet p ++ ping_packet p
  asked (node_send blockno block) =
      request_packet p blockno (pos 1) ++ block_packet block_size p block
  asked (node_recv blockno) = request_packet p blockno (pos 0)
  asked (node_recv_block blockno) = request_packet p blockno (pos 0)

  unfoldable pub all_asked : List NodeRequest → Bytes
  unfolding asked
  all_asked [] = []
  all_asked (op ∷ ops) = asked op ++ all_asked ops

module _ (q : ℤ) where
  unfoldable pub answer : Bytes → Bytes
  unfolding protocol_send_packet protocol_packet
  answer block = protocol_send_packet q (protocol_packet q op_send_block (some block))

  unfoldable pub answered : NodeRequest → List Bytes → Bytes
  unfolding answer
  answered (node_recv blockno) blocks = answer (block_of blocks blockno)
  answered (node_recv_block blockno) blocks = answer (block_of blocks blockno)
  answered _ blocks = []

  unfoldable pub all_answered : List NodeRequest → List Bytes → Bytes
  unfolding answered performed
  all_answered [] blocks = []
  all_answered (op ∷ ops) blocks = answered op blocks ++ all_answered ops (performed op blocks)

-- Both processes are numbers of an `int`, a block has a size that fits the header of a packet, and
-- the map has less than 2 GiB.
pub record Limits (block_size : ℕ) (p q : ℤ) (blocks : List Bytes) : Type 0 where
  pub yamafs : IsSigned (2 ^ 31) p
  pub datanode : IsSigned (2 ^ 31) q
  pub positive : 0 < block_size
  pub block : block_size < 2 ^ 32
  pub map : length blocks * block_size < 2 ^ 31
  pub sized : IsBlocks block_size blocks

pub performed-Limits :
    (block_size : ℕ) (p q : ℤ) (op : NodeRequest) (blocks : List Bytes)
    → Limits block_size p q blocks
    → IsRequest block_size (length blocks) op
    → Limits block_size p q (performed op blocks)
unfolding performed IsRequest
performed-Limits block_size p q node_ping blocks l h = l
performed-Limits block_size p q (node_send (pos n) block) blocks l h = record {
  yamafs = l.yamafs;
  datanode = l.datanode;
  positive = l.positive;
  block = l.block;
  map = rw (length-set blocks n block) l.map;
  sized = All-set (λ b. length b ≡ block_size) blocks n block l.sized h.1;
}
performed-Limits block_size p q (node_send (negsuc n) block) blocks l h = l
performed-Limits block_size p q (node_recv b) blocks l h = l
performed-Limits block_size p q (node_recv_block b) blocks l h = l

pub length-performed :
    (op : NodeRequest) (blocks : List Bytes) → length (performed op blocks) ≡ length blocks
unfolding performed
length-performed node_ping blocks = refl
length-performed (node_send (pos n) block) blocks = length-set blocks n block
length-performed (node_send (negsuc n) block) blocks = refl
length-performed (node_recv b) blocks = refl
length-performed (node_recv_block b) blocks = refl
