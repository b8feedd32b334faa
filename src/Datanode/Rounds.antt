-- ===== src/Datanode/Rounds.antt =====
-- The rounds of the loop of DataNode/src/DataNode.c that a request of yamafs takes, and what it
-- makes of the blocks.
use tp_2017_2c_yatpos.Base.{
  ℕ, zero, suc, ◌*◌, ◌^◌, ◌<◌, ◌≤◌, ◌≡◌, ap, sym, ◌∙◌, List, ◌++◌, length, set, arith, append_assoc,
  append-nil, length-append,
}
use tp_2017_2c_yatpos.Base.Int.{ℤ, pos, negsuc}
use tp_2017_2c_yatpos.Serial.Words.{Bytes}
use tp_2017_2c_yatpos.Protocol.RoundTrip.{length-protocol_send_packet}
use tp_2017_2c_yatpos.Datanode.{
  NodeRequest, node_ping, node_send, node_recv, node_recv_block, handle_requests, ping_packet,
  request_packet, block_packet,
}
use tp_2017_2c_yatpos.Datanode.Blocks.{concat, block_at, length-concat}
use tp_2017_2c_yatpos.Datanode.Requests.{
  memory, handle_requests-ping_packet, handle_requests-read, handle_requests-write,
}
use tp_2017_2c_yatpos.Datanode.Exchange.{
  performed, block_of, IsPlace, IsRequest, asked, answer, answered, Limits,
}

module _ (process : ℤ) where
  length-ping_packet : 0 < length (ping_packet process)
  unfolding ping_packet
  length-ping_packet = omega (arith, length-protocol_send_packet process _)

  length-request_packet : (a b : ℤ) → 0 < length (request_packet process a b)
  unfolding request_packet
  length-request_packet a b = omega (arith, length-protocol_send_packet process _)

module _ (block_size : ℕ) (p q : ℤ) where
  pub small_map :
      (blocks : List Bytes) → Limits block_size p q blocks → length (concat blocks) < 2 ^ 31
  small_map blocks l = rw (length-concat block_size blocks l.sized) l.map

  small_place :
      (blocks : List Bytes) (n : ℕ) → Limits block_size p q blocks → n < length blocks → n < 2 ^ 31
  small_place blocks n l h = omega (arith, l.map, h, at_least (length blocks) block_size l.positive)
    where
      at_least : (c b : ℕ) → 0 < b → c ≤ c * b
      at_least c b k = grind arith

  -- What a request makes of the DataNode. It takes a round or two, for which there is fuel.
  abbrev pub Advances : ℕ → NodeRequest → List Bytes → Bytes → Bytes → Type 0
  Advances fuel op blocks rest out =
      (left : ℕ) × (length rest < left)
      × (handle_requests block_size q fuel (memory blocks (asked block_size p op ++ rest) out)
          ≡ handle_requests block_size q left
              (memory (performed op blocks) rest (out ++ answered q op blocks)))

  read-Advances :
      (fuel n : ℕ) (blocks : List Bytes) (rest out : Bytes)
      → Limits block_size p q blocks
      → n < length blocks
      → length (request_packet p (pos n) (pos 0) ++ rest) < fuel
      → (left : ℕ) × (length rest < left)
        × (handle_requests block_size q fuel
              (memory blocks (request_packet p (pos n) (pos 0) ++ rest) out)
            ≡ handle_requests block_size q left
                (memory blocks rest (out ++ answer q (block_at blocks n))))
  unfolding answer
  read-Advances zero n blocks rest out l h enough = absurd (omega arith)
  read-Advances (suc fuel) n blocks rest out l h enough = (
    fuel,
    omega (
      arith,
      enough,
      length-append (request_packet p (pos n) (pos 0)) rest,
      length-request_packet p (pos n) (pos 0),
    ),
    handle_requests-read block_size p q l.yamafs blocks l.sized (small_map blocks l) n h
        (small_place blocks n l h) l.block fuel rest out,
  )

  write-Advances :
      (fuel n : ℕ) (block : Bytes) (blocks : List Bytes) (rest out : Bytes)
      → Limits block_size p q blocks
      → n < length blocks
      → length block ≡ block_size
      → length (asked block_size p (node_send (pos n) block) ++ rest) < fuel
      → Advances fuel (node_send (pos n) block) blocks rest out
  unfolding asked answered performed
  write-Advances zero n block blocks rest out l h e enough = absurd (omega arith)
  write-Advances (suc fuel) n block blocks rest out l h e enough = (
    fuel,
    omega (
      arith,
      enough,
      length-append (request ++ content) rest,
      length-append request content,
      length-request_packet p (pos n) (pos 1),
    ),
    ap (λ t. handle_requests block_size q (suc fuel) (memory blocks t out))
          (append_assoc request content rest)
        ∙ handle_requests-write block_size p q l.yamafs blocks l.sized (small_map blocks l) n h
            (small_place blocks n l h) l.block fuel block rest out e
        ∙ ap (λ t. handle_requests block_size q fuel (memory (set blocks n block) rest t))
            (sym (append-nil out)),
  )
    where
      request : Bytes
      request = request_packet p (pos n) (pos 1)

      content : Bytes
      content = block_packet block_size p block

  ping-Advances :
      (fuel : ℕ) (blocks : List Bytes) (rest out : Bytes)
      → Limits block_size p q blocks
      → length (asked block_size p node_ping ++ rest) < fuel
      → Advances fuel node_ping blocks rest out
  unfolding asked answered performed
  ping-Advances zero blocks rest out l enough = absurd (omega arith)
  ping-Advances (suc zero) blocks rest out l enough = absurd (
      omega (
        arith,
        enough,
        length-append (ping_packet p ++ ping_packet p) rest,
        length-append (ping_packet p) (ping_packet p),
        length-ping_packet p,
      ))
  ping-Advances (suc (suc fuel)) blocks rest out l enough = (
    fuel,
    omega (
      arith,
      enough,
      length-append (ping_packet p ++ ping_packet p) rest,
      length-append (ping_packet p) (ping_packet p),
      length-ping_packet p,
    ),
    ap (λ t. handle_requests block_size q (suc (suc fuel)) (memory blocks t out))
          (append_assoc (ping_packet p) (ping_packet p) rest)
        ∙ handle_requests-ping_packet block_size p q l.yamafs (suc fuel) (concat blocks)
            (ping_packet p ++ rest) out
        ∙ handle_requests-ping_packet block_size p q l.yamafs fuel (concat blocks) rest out
        ∙ ap (λ t. handle_requests block_size q fuel (memory blocks rest t)) (sym (append-nil out)),
  )

  pub request-Advances :
      (fuel : ℕ) (op : NodeRequest) (blocks : List Bytes) (rest out : Bytes)
      → Limits block_size p q blocks
      → IsRequest block_size (length blocks) op
      → length (asked block_size p op ++ rest) < fuel
      → Advances fuel op blocks rest out
  unfolding asked answered performed IsRequest IsPlace block_of
  request-Advances fuel node_ping blocks rest out l h enough =
      ping-Advances fuel blocks rest out l enough
  request-Advances fuel (node_send (pos n) block) blocks rest out l h enough =
      write-Advances fuel n block blocks rest out l h.0 h.1 enough
  request-Advances fuel (node_send (negsuc n) block) blocks rest out l h enough =
      absurd (omega (arith, h.0))
  request-Advances fuel (node_recv (pos n)) blocks rest out l h enough =
      read-Advances fuel n blocks rest out l h enough
  request-Advances fuel (node_recv (negsuc n)) blocks rest out l h enough =
      absurd (omega (arith, h))
  request-Advances fuel (node_recv_block (pos n)) blocks rest out l h enough =
      read-Advances fuel n blocks rest out l h enough
  request-Advances fuel (node_recv_block (negsuc n)) blocks rest out l h enough =
      absurd (omega (arith, h))
