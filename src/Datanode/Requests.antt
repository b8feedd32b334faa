-- ===== src/Datanode/Requests.antt =====
-- What DataNode/src/DataNode.c does with each packet of yamafs: the packets of
-- FileSystem/src/server.c as the loop of `main` receives them.
use tp_2017_2c_yatpos.Base.{
  ℕ, suc, ◌^◌, ◌<◌, ◌≡◌, refl, ap, sym, List, [], ◌∷◌, ◌++◌, none, some, false, length, take, set,
  arith,
}
use tp_2017_2c_yatpos.Base.Int.{ℤ, pos, IsSigned}
use tp_2017_2c_yatpos.Serial.Words.{Bytes}
use tp_2017_2c_yatpos.Serial.{int, i, format, serial_pack}
use tp_2017_2c_yatpos.Serial.Words.{packi32}
use tp_2017_2c_yatpos.Serial.{encode}
use tp_2017_2c_yatpos.Serial.Room.{encode_all}
use tp_2017_2c_yatpos.Serial.RoundTrip.{serial_remove-serial_pack, serial_pack-encode_all}
use tp_2017_2c_yatpos.Protocol.{
  Packet, same_code, op_undefined, protocol_packet, protocol_send_packet, protocol_receive_packet,
}
use tp_2017_2c_yatpos.Protocol.RoundTrip.{protocol_receive_packet-send}
use tp_2017_2c_yatpos.Datanode.{
  op_ping, op_request_block, op_send_block, Memory, two_ints, is_true, receive_block, answer_block,
  handle_request, handle_requests, ping_packet, request_packet, block_packet,
}
use tp_2017_2c_yatpos.Datanode.Blocks.{
  concat, block_at, IsBlocks, data_set-concat, data_get-concat, take-length,
}

pub two_ints-serial_pack :
    (a b : ℤ)
    → IsSigned (2 ^ 31) a
    → IsSigned (2 ^ 31) b
    → two_ints (serial_pack (int a ∷ int b ∷ [])) ≡ some (a, b)
unfolding format
two_ints-serial_pack a b p q =
    rw (serial_remove-serial_pack (int a) (int b ∷ []) (i ∷ i ∷ []) refl (p, (q, tt)), two_ints)

-- The memory whose blocks are `blocks`.
abbrev pub memory : List Bytes → Bytes → Bytes → Memory
memory blocks socket sent = record { map = concat blocks; socket = socket; sent = sent }

length-two_ints : (a b : ℤ) → length (serial_pack (int a ∷ int b ∷ [])) ≡ 8
unfolding encode_all encode packi32
length-two_ints a b = ap length (serial_pack-encode_all (int a ∷ int b ∷ []))

-- A packet with the process, the operation and the content arrives in front of `rest`.
abbrev pub Arrives : (process operation : ℤ) → Bytes → Bytes → Bytes → Type 0
Arrives process operation content bytes rest =
    protocol_receive_packet (bytes ++ rest)
    ≡ some (record { sender = process; operation = operation; content = some content }, rest)

module _ (process : ℤ) (h : IsSigned (2 ^ 31) process) where
  pub ping_packet-Arrives : (rest : Bytes) → Arrives process op_ping [] (ping_packet process) rest
  unfolding ping_packet protocol_packet same_code
  ping_packet-Arrives rest =
      protocol_receive_packet-send process (protocol_packet process op_ping none) rest
        (record { process = h; operation = omega arith; size = omega arith }) refl

  pub request_packet-Arrives :
      (a b : ℤ) (rest : Bytes)
      → Arrives process op_request_block
          (serial_pack (int a ∷ int b ∷ []))
          (request_packet process a b)
          rest
  unfolding request_packet protocol_packet same_code
  request_packet-Arrives a b rest =
      protocol_receive_packet-send process
        (protocol_packet process op_request_block (some (serial_pack (int a ∷ int b ∷ [])))) rest
        (record { process = h; operation = omega arith; size = omega (arith, length-two_ints a b) })
        refl

  pub send_block-Arrives :
      (block rest : Bytes)
      → length block < 2 ^ 32
      → Arrives process op_send_block block
          (protocol_send_packet process (protocol_packet process op_send_block (some block)))
          rest
  unfolding protocol_packet same_code
  send_block-Arrives block rest small =
      protocol_receive_packet-send process (protocol_packet process op_send_block (some block)) rest
        (record { process = h; operation = omega arith; size = small }) refl

-- `p` is yamafs and `q` the DataNode, which has some blocks of the size.
module _ (block_size : ℕ) (p q : ℤ) (hp : IsSigned (2 ^ 31) p) where
  -- A round of the loop with a packet that is handled.
  handle_requests-handled :
      (fuel : ℕ) (s s' : Memory) (packet : Packet) (rest : Bytes)
      → protocol_receive_packet s.socket ≡ some (packet, rest)
      → same_code packet.operation op_undefined ≡ false
      → handle_request block_size q packet (record s { socket = rest }) ≡ some s'
      → handle_requests block_size q (suc fuel) s ≡ handle_requests block_size q fuel s'
  unfolding handle_requests
  handle_requests-handled fuel s s' packet rest e op handled =
      rw (e, handle_requests) (rw (op, handled))

  pub handle_requests-ping_packet :
      (fuel : ℕ) (map rest out : Bytes)
      → handle_requests block_size q
          (suc fuel)
          (record { map = map; socket = ping_packet p ++ rest; sent = out })
        ≡ handle_requests block_size q fuel (record { map = map; socket = rest; sent = out })
  unfolding handle_request same_code
  handle_requests-ping_packet fuel map rest out =
      handle_requests-handled fuel _ _ _ rest (ping_packet-Arrives p hp rest) refl refl

  module _ (blocks : List Bytes) (sized : IsBlocks block_size blocks)
      (small : length (concat blocks) < 2 ^ 31) (n : ℕ) (there : n < length blocks)
      (int_n : n < 2 ^ 31) (fits : block_size < 2 ^ 32) where
    -- A request to read is answered with the block.
    pub handle_requests-read :
        (fuel : ℕ) (rest out : Bytes)
        → handle_requests block_size q
            (suc fuel)
            (memory blocks (request_packet p (pos n) (pos 0) ++ rest) out)
          ≡ handle_requests block_size q fuel (
              memory blocks rest (
                out
                ++ protocol_send_packet q
                    (protocol_packet q op_send_block (some (block_at blocks n)))))
    unfolding handle_request same_code is_true answer_block
    handle_requests-read fuel rest out =
        handle_requests-handled fuel _ _ _ rest (request_packet-Arrives p hp (pos n) (pos 0) rest)
          refl
          (rw (two_ints-serial_pack (pos n) (pos 0) int_n (omega arith))
            (rw (data_get-concat block_size blocks n sized there small, answer_block)))

    block_packet-Arrives :
        (block rest : Bytes)
        → length block ≡ block_size
        → Arrives p op_send_block block (block_packet block_size p block) rest
    unfolding block_packet
    block_packet-Arrives block rest e =
        rw (whole) (send_block-Arrives p hp block rest (omega arith))
      where
        whole : take block_size block ≡ block
        whole = rw (sym e) (take-length block)

    receive_block-block_packet :
        (block rest out : Bytes)
        → length block ≡ block_size
        → receive_block block_size q
            (pos n)
            (memory blocks (block_packet block_size p block ++ rest) out)
          ≡ some (memory (set blocks n block) rest out)
    unfolding receive_block same_code
    receive_block-block_packet block rest out e =
        rw (block_packet-Arrives block rest e, receive_block)
          (rw (data_set-concat block_size blocks n block sized there small e))

    -- A request to write takes the packet with the block as well.
    pub handle_requests-write :
        (fuel : ℕ) (block rest out : Bytes)
        → length block ≡ block_size
        → handle_requests block_size q (suc fuel) (
            memory blocks
              (request_packet p (pos n) (pos 1) ++ (block_packet block_size p block ++ rest))
              out)
          ≡ handle_requests block_size q fuel (memory (set blocks n block) rest out)
    unfolding handle_request same_code is_true
    handle_requests-write fuel block rest out e =
        handle_requests-handled fuel _ _ _ _ (request_packet-Arrives p hp (pos n) (pos 1) _) refl (
          rw (two_ints-serial_pack (pos n) (pos 1) int_n (omega arith))
            (receive_block-block_packet block rest out e))
