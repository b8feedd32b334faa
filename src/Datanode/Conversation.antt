-- ===== src/Datanode/Conversation.antt =====
-- The thread of yamafs (FileSystem/src/server.c) and the DataNode (DataNode/src/DataNode.c)
-- together: what one of them sends is what the other receives.
use tp_2017_2c_yatpos.Base.{
  ℕ, zero, suc, ◌^◌, ◌<◌, ◌≡◌, refl, ap, sym, ◌∙◌, List, [], ◌∷◌, ◌++◌, All, some, true, length,
  leb, arith, append_assoc, append-nil,
}
use tp_2017_2c_yatpos.Base.Int.{ℤ, pos, negsuc, IsSigned}
use tp_2017_2c_yatpos.Serial.Words.{Bytes}
use tp_2017_2c_yatpos.Protocol.{same_code, protocol_receive_packet}
use tp_2017_2c_yatpos.Datanode.{
  NodeRequest, node_ping, node_send, node_recv, node_recv_block, Effect, block_response, writeblock,
  handle_requests, connection, request_packet, receive_answer, handle_nodeop, datanode_handler,
}
use tp_2017_2c_yatpos.Datanode.Blocks.{block_at, block_at-IsBlock}
use tp_2017_2c_yatpos.Datanode.Requests.{memory, send_block-Arrives}
use tp_2017_2c_yatpos.Datanode.Exchange.{
  performed, effect_of, all_performed, effects_of, block_of, IsPlace, IsRequest, asked, all_asked,
  answer, answered, all_answered, Limits, performed-Limits, length-performed,
}
use tp_2017_2c_yatpos.Datanode.Rounds.{request-Advances}

-- Every request names blocks that exist; their number does not change.
abbrev pub AreRequests : ℕ → ℕ → List NodeRequest → Type 0
AreRequests block_size count ops = All (IsRequest block_size count) ops

module _ (block_size : ℕ) (p q : ℤ) where
  next_requests :
      (op : NodeRequest) (ops : List NodeRequest) (blocks : List Bytes)
      → AreRequests block_size (length blocks) ops
      → AreRequests block_size (length (performed op blocks)) ops
  next_requests op ops blocks h = rw (length-performed op blocks) h

  handle_requests-all_asked :
      (fuel : ℕ) (ops : List NodeRequest) (blocks : List Bytes) (out : Bytes)
      → Limits block_size p q blocks
      → AreRequests block_size (length blocks) ops
      → length (all_asked block_size p ops) < fuel
      → handle_requests block_size q fuel (memory blocks (all_asked block_size p ops) out)
        ≡ some (memory (all_performed ops blocks) [] (out ++ all_answered q ops blocks))
  unfolding all_asked all_answered all_performed handle_requests protocol_receive_packet same_code
  handle_requests-all_asked zero ops blocks out l h enough = absurd (omega arith)
  handle_requests-all_asked (suc fuel) [] blocks out l h enough =
      ap (λ t. some (memory blocks [] t)) (sym (append-nil out))
  handle_requests-all_asked (suc fuel) (op ∷ ops) blocks out l h enough =
      let (left, room, e) =
        request-Advances block_size p q (suc fuel) op blocks (all_asked block_size p ops) out l h.0
          enough in
      e
      ∙ handle_requests-all_asked left ops (performed op blocks) (out ++ answered q op blocks)
          (performed-Limits block_size p q op blocks l h.0) (next_requests op ops blocks h.1) room
      ∙ ap (λ t. some (memory (all_performed ops (performed op blocks)) [] t))
          (append_assoc out (answered q op blocks) (all_answered q ops (performed op blocks)))

  -- The thread takes the answer for what it is.
  receive_answer-answer :
      (arrived : Bytes → Effect) (block rest : Bytes) (sent : Bytes) (effects : List Effect)
      → IsSigned (2 ^ 31) q
      → length block < 2 ^ 32
      → receive_answer arrived
          (record { incoming = answer q block ++ rest; sent = sent; effects = effects })
        ≡ some (record { incoming = rest; sent = sent; effects = effects ++ arrived block ∷ [] })
  unfolding receive_answer answer same_code
  receive_answer-answer arrived block rest sent effects hq small =
      rw (send_block-Arrives q hq block rest small, receive_answer)

  at_most :
      (n : ℕ) (blocks : List Bytes)
      → Limits block_size p q blocks
      → n < length blocks
      → length (block_at blocks n) < 2 ^ 32
  at_most n blocks l h = omega (arith, l.block, block_at-IsBlock block_size blocks n l.sized h)

  handle_nodeop-answered :
      (op : NodeRequest) (blocks : List Bytes) (rest sent : Bytes) (effects : List Effect)
      → Limits block_size p q blocks
      → IsRequest block_size (length blocks) op
      → handle_nodeop block_size p true op
          (record { incoming = answered q op blocks ++ rest; sent = sent; effects = effects })
        ≡ some (
          true,
          record {
            incoming = rest;
            sent = sent ++ asked block_size p op;
            effects = effects ++ effect_of op blocks ∷ [];
          },
        )
  unfolding handle_nodeop answered asked effect_of IsRequest IsPlace block_of
  handle_nodeop-answered node_ping blocks rest sent effects l h = refl
  handle_nodeop-answered (node_send blockno block) blocks rest sent effects l h = rw there
    where
      there : leb block_size (length block) ≡ true
      there = ground (arith, h.1)
  handle_nodeop-answered (node_recv (pos n)) blocks rest sent effects l h = rw (
    receive_answer-answer (writeblock (pos n)) (block_at blocks n) rest
        (sent ++ request_packet p (pos n) (pos 0)) effects l.datanode (at_most n blocks l h),
    handle_nodeop,
  )
  handle_nodeop-answered (node_recv (negsuc n)) blocks rest sent effects l h =
      absurd (omega (arith, h))
  handle_nodeop-answered (node_recv_block (pos n)) blocks rest sent effects l h = rw (
    receive_answer-answer block_response (block_at blocks n) rest
        (sent ++ request_packet p (pos n) (pos 0)) effects l.datanode (at_most n blocks l h),
    handle_nodeop,
  )
  handle_nodeop-answered (node_recv_block (negsuc n)) blocks rest sent effects l h =
      absurd (omega (arith, h))

  datanode_handler-all_answered :
      (ops : List NodeRequest) (blocks : List Bytes) (sent : Bytes) (effects : List Effect)
      → Limits block_size p q blocks
      → AreRequests block_size (length blocks) ops
      → datanode_handler block_size p true ops
          (record { incoming = all_answered q ops blocks; sent = sent; effects = effects })
        ≡ some (record {
          incoming = [];
          sent = sent ++ all_asked block_size p ops;
          effects = effects ++ effects_of ops blocks;
        })
  unfolding datanode_handler all_answered all_asked effects_of
  datanode_handler-all_answered [] blocks sent effects l h =
      rw (append-nil sent, append-nil effects)
  datanode_handler-all_answered (op ∷ ops) blocks sent effects l h =
      rw
        (
          handle_nodeop-answered op blocks (all_answered q ops (performed op blocks)) sent effects l
              h.0,
          datanode_handler,
        )
        (datanode_handler-all_answered ops (performed op blocks) (sent ++ asked block_size p op)
            (effects ++ effect_of op blocks ∷ []) (performed-Limits block_size p q op blocks l h.0)
            (next_requests op ops blocks h.1)
          ∙ ap
              (λ t. some (record {
                incoming = [];
                sent = t;
                effects =
                    (effects ++ effect_of op blocks ∷ []) ++ effects_of ops (performed op blocks);
              }))
              (append_assoc sent (asked block_size p op) (all_asked block_size p ops))
          ∙ ap
              (λ t. some (record {
                incoming = [];
                sent = sent ++ (asked block_size p op ++ all_asked block_size p ops);
                effects = t;
              }))
              (append_assoc effects (effect_of op blocks ∷ [])
                (effects_of ops (performed op blocks))))

  -- The thread of yamafs and the DataNode do their parts of the conversation to its end, each on the
  -- bytes that the other one sends. After it the map is the concatenation of the blocks that the
  -- requests make of the blocks before, one after the other, and yamafs has got for each request to
  -- read the block as the requests before it left it. This is for processes in the range of an
  -- `int`, requests for blocks that exist and of content of the size of a block, a block size of at
  -- least 1 and less than 2 ^ 32, a map of less than 2 ^ 31 bytes and a socket that stays open.
  pub datanode_handler-connection :
      (ops : List NodeRequest) (blocks : List Bytes)
      → Limits block_size p q blocks
      → AreRequests block_size (length blocks) ops
      → (requests answers : Bytes) × (datanode_handler block_size p true ops
            (record { incoming = answers; sent = []; effects = [] })
          ≡ some (record { incoming = []; sent = requests; effects = effects_of ops blocks }))
        × (connection block_size q (memory blocks requests [])
            ≡ some (memory (all_performed ops blocks) [] answers))
  unfolding connection
  datanode_handler-connection ops blocks l h = (
    all_asked block_size p ops,
    all_answered q ops blocks,
    datanode_handler-all_answered ops blocks [] [] l h,
    handle_requests-all_asked (suc (length (all_asked block_size p ops))) ops blocks [] l h
        (omega arith),
  )
