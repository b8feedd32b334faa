-- ===== src/Protocol/RoundTrip.antt =====
-- A packet of Shared/protocol.c arrives as it was sent.
use tp_2017_2c_yatpos.Base.{
  ◌+◌, ◌^◌, ◌<◌, ◌≡◌, ◌∙◌, refl, ap, sym, List, [], ◌∷◌, ◌++◌, map, All, Bool, true, false, ◌&&◌,
  none, some, length, take, drop, leb, ltb, arith, append_assoc, take-append_length,
  drop-append_length, length-append,
}
use tp_2017_2c_yatpos.Base.Int.{ℤ, IsSigned, re_sign-IsSigned, to_unsigned-re_sign}
use tp_2017_2c_yatpos.Serial.Words.{Bytes, packi32}
use tp_2017_2c_yatpos.Serial.{Value, int, i, format, encode, removed, serial_pack, serial_remove}
use tp_2017_2c_yatpos.Serial.Room.{encode_all}
use tp_2017_2c_yatpos.Serial.RoundTrip.{IsValue, serial_remove-serial_pack, serial_pack-encode_all}
use tp_2017_2c_yatpos.Protocol.{
  Packet, same_code, op_undefined, header_size, content_of, header_of, read_content,
  protocol_send_packet, protocol_receive_packet, protocol_packet, op_response, op_handshake,
  unpack_code, protocol_send_response, protocol_receive_response, protocol_send_handshake,
  protocol_receive_handshake,
}

and_false : (b : Bool) → (b && false) ≡ false
and_false true = refl
and_false false = refl

receive_from :
    (socket rest : Bytes) (vs : List Value)
    → leb header_size (length socket) ≡ true
    → serial_remove (take header_size socket) (i ∷ i ∷ i ∷ []) ≡ removed vs []
    → drop header_size socket ≡ rest
    → protocol_receive_packet socket ≡ read_content vs rest
unfolding protocol_receive_packet
receive_from socket rest vs there unpacked behind =
    rw (there, unpacked, protocol_receive_packet) (ap (read_content vs) behind)

module _ (process_current : ℤ) where
  -- The numbers of the header are in the range of their C types.
  pub record PacketFits (p : Packet) : Type 0 where
    pub process : IsSigned (2 ^ 31) process_current
    pub operation : IsSigned (2 ^ 31) p.operation
    pub size : length (content_of p) < 2 ^ 32

  length-header : (p : Packet) → length (serial_pack (header_of process_current p)) ≡ header_size
  unfolding header_of encode_all encode packi32
  length-header p = rw (serial_pack-encode_all (header_of process_current p)) three
    where
      three : length (encode_all (header_of process_current p)) ≡ header_size
      three = refl

  pub length-protocol_send_packet :
      (p : Packet)
      → length (protocol_send_packet process_current p) ≡ header_size + length (content_of p)
  unfolding protocol_send_packet
  length-protocol_send_packet p =
      length-append (serial_pack (header_of process_current p)) (content_of p)
      ∙ ap (λ n. n + length (content_of p)) (length-header p)

  header-format : (p : Packet) → map format (header_of process_current p) ≡ i ∷ i ∷ i ∷ []
  unfolding header_of format
  header-format p = refl

  header-IsValue : (p : Packet) → PacketFits p → All IsValue (header_of process_current p)
  unfolding header_of
  header-IsValue p h = (
    h.process,
    (h.operation, (re_sign-IsSigned (2 ^ 31) (length (content_of p)) (omega (arith, h.size)), tt)),
  )

  read_content-header :
      (p : Packet) (rest : Bytes)
      → PacketFits p
      → same_code p.operation op_undefined ≡ false
      → read_content (header_of process_current p) (content_of p ++ rest)
        ≡ some (
          record {
            sender = process_current;
            operation = p.operation;
            content = some (content_of p);
          },
          rest,
        )
  unfolding read_content header_of
  read_content-header p rest h op =
      rw (to_unsigned-re_sign (2 ^ 32) (length (content_of p)) h.size, read_content)
        (rw
          (
            op,
            there,
            take-append_length (content_of p) rest,
            drop-append_length (content_of p) rest,
          )
          (rw (and_false (ltb 0 (length (content_of p))))))
    where
      there : ltb (length (content_of p ++ rest)) (length (content_of p)) ≡ false
      there = ground (arith, length-append (content_of p) rest)

  -- A packet with an operation arrives whole, with the sending process as its sender and NULL content
  -- as an empty one, and leaves what follows it, for a process and an operation in the range of an
  -- `int` and a content shorter than 2 ^ 32 bytes.
  pub protocol_receive_packet-send :
      (p : Packet) (rest : Bytes)
      → PacketFits p
      → same_code p.operation op_undefined ≡ false
      → protocol_receive_packet (protocol_send_packet process_current p ++ rest)
        ≡ some (
          record {
            sender = process_current;
            operation = p.operation;
            content = some (content_of p);
          },
          rest,
        )
  unfolding protocol_send_packet
  protocol_receive_packet-send p rest h op =
      ap protocol_receive_packet joined
      ∙ receive_from (header ++ (content_of p ++ rest)) (content_of p ++ rest)
          (header_of process_current p) there
          (ap (λ t. serial_remove t (i ∷ i ∷ i ∷ [])) first ∙ unpacked) behind
      ∙ read_content-header p rest h op
    where
      header : Bytes
      header = serial_pack (header_of process_current p)

      joined : (header ++ content_of p) ++ rest ≡ header ++ (content_of p ++ rest)
      joined = append_assoc header (content_of p) rest

      there : leb header_size (length (header ++ (content_of p ++ rest))) ≡ true
      there = ground (arith, length-header p, length-append header (content_of p ++ rest))

      first : take header_size (header ++ (content_of p ++ rest)) ≡ header
      first =
          ap (λ n. take n (header ++ (content_of p ++ rest))) (sym (length-header p))
          ∙ take-append_length header (content_of p ++ rest)

      behind : drop header_size (header ++ (content_of p ++ rest)) ≡ content_of p ++ rest
      behind =
          ap (λ n. drop n (header ++ (content_of p ++ rest))) (sym (length-header p))
          ∙ drop-append_length header (content_of p ++ rest)

      unpacked : serial_remove header (i ∷ i ∷ i ∷ []) ≡ removed (header_of process_current p) []
      unpacked =
          serial_remove-serial_pack _ _ (i ∷ i ∷ i ∷ []) (header-format p) (header-IsValue p h)

  length-code : (code : ℤ) → length (serial_pack (int code ∷ [])) ≡ 4
  unfolding encode_all encode packi32
  length-code code = ap length (serial_pack-encode_all (int code ∷ []))

  unpack_code-serial_pack :
      (code : ℤ) → IsSigned (2 ^ 31) code → unpack_code (serial_pack (int code ∷ [])) ≡ some code
  unfolding unpack_code format
  unpack_code-serial_pack code h =
      rw (serial_remove-serial_pack (int code) [] (i ∷ []) refl (h, tt), unpack_code)

  -- A response arrives with its code, and leaves what follows it, for a process and a code in the
  -- range of an `int`.
  pub protocol_receive_response-send :
      (code : ℤ) (rest : Bytes)
      → IsSigned (2 ^ 31) process_current
      → IsSigned (2 ^ 31) code
      → protocol_receive_response (protocol_send_response process_current code ++ rest)
        ≡ some (code, rest)
  unfolding protocol_receive_response protocol_send_response protocol_packet same_code
  protocol_receive_response-send code rest h c =
      rw
        (
          protocol_receive_packet-send
              (protocol_packet process_current op_response (some (serial_pack (int code ∷ []))))
              rest
              (record {
                process = h;
                operation = omega arith;
                size = omega (arith, length-code code);
              })
              refl,
          protocol_receive_response,
        )
        (rw (unpack_code-serial_pack code c))

  -- A handshake is accepted exactly by who expects the process that sent it, and leaves what follows
  -- it, for a process in the range of an `int`.
  pub protocol_receive_handshake-send :
      (process : ℤ) (rest : Bytes)
      → IsSigned (2 ^ 31) process_current
      → protocol_receive_handshake (protocol_send_handshake process_current ++ rest) process
        ≡ some (same_code process_current process, rest)
  unfolding protocol_receive_handshake protocol_send_handshake protocol_packet same_code
  protocol_receive_handshake-send process rest h = rw (
    protocol_receive_packet-send (protocol_packet process_current op_handshake none) rest
        (record { process = h; operation = omega arith; size = omega arith }) refl,
    protocol_receive_handshake,
  )
