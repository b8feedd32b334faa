-- ===== src/Protocol.antt =====
-- Shared/protocol.c: the packets between the processes, a header of three numbers and the content.
-- A socket is the bytes on their way, which arrive all and in order; `none` is a content of which
-- bytes are missing, because they did not arrive or were not asked for.
pub mod RoundTrip
mod Tests
use tp_2017_2c_yatpos.Base.{
  ℕ, zero, suc, ◌+◌, ◌^◌, ◌≡◌, List, [], ◌∷◌, ◌++◌, Bool, true, false, ◌&&◌, Option, none, some,
  length, take, drop, leb, ltb, ◌||◌, if◌then◌else◌,
}
use tp_2017_2c_yatpos.Base.Int.{ℤ, pos, negsuc, to_unsigned, re_sign}
use tp_2017_2c_yatpos.Serial.Words.{Bytes}
use tp_2017_2c_yatpos.Serial.{
  Value, int, i, removed, untouched, overrun, serial_pack, serial_remove,
}
use tp_2017_2c_yatpos.Yfile.{size_arg, size_of}

-- `t_packet`; a content that is NULL is `none`.
pub record Packet : Type 0 where
  pub sender : ℤ
  pub operation : ℤ
  pub content : Option Bytes

-- Two codes of the enumerations, compared.
unfoldable pub same_code : ℤ → ℤ → Bool
same_code (pos zero) (pos zero) = true
same_code (pos (suc a)) (pos (suc b)) = same_code (pos a) (pos b)
same_code (negsuc zero) (negsuc zero) = true
same_code (negsuc (suc a)) (negsuc (suc b)) = same_code (negsuc a) (negsuc b)
same_code _ _ = false

abbrev pub op_undefined : ℤ
op_undefined = pos 0

abbrev pub op_handshake : ℤ
op_handshake = pos 2

abbrev pub op_response : ℤ
op_response = pos 3

-- HEADER_SIZE: three numbers of four bytes.
abbrev pub header_size : ℕ
header_size = 12

abbrev pub content_of : Packet → Bytes
content_of p = elim p.content [ none ↦ [] | some bytes ↦ bytes ]

module _ (process_current : ℤ) where
  unfoldable pub protocol_packet : ℤ → Option Bytes → Packet
  protocol_packet operation content = record {
    sender = process_current;
    operation = operation;
    content = content;
  }

  header_of : Packet → List Value
  header_of packet =
      int process_current ∷ int packet.operation ∷ size_arg (length (content_of packet)) ∷ []

  -- The bytes that go out, whose sender is always the process itself.
  unfoldable pub protocol_send_packet : Packet → Bytes
  unfolding header_of re_sign
  protocol_send_packet packet = serial_pack (header_of packet) ++ content_of packet

-- The fields that `serial_unpack(header, "iii", ...)` fills, and the content.
read_content : List Value → Bytes → Option (Packet × Bytes)
unfolding same_code to_unsigned
read_content (int sender ∷ int operation ∷ int size ∷ []) rest =
    let n = size_of size in
    if ltb 0 n && (same_code operation op_undefined || ltb (length rest) n)
    then none
    else some (
      record { sender = sender; operation = operation; content = some (take n rest) },
      drop n rest,
    )
read_content _ rest = none

-- The packet and the bytes behind it. Where the header does not arrive the packet is all 0.
unfoldable pub protocol_receive_packet : Bytes → Option (Packet × Bytes)
unfolding read_content
protocol_receive_packet socket =
    if leb header_size (length socket)
    then elim (serial_remove (take header_size socket) (i ∷ i ∷ i ∷ [])) [
      | untouched ↦ none
      | overrun ↦ none
      | removed vs rest ↦ read_content vs (drop header_size socket)
    ]
    else some (record { sender = pos 0; operation = op_undefined; content = some [] }, [])

unfoldable pub protocol_send_handshake : ℤ → Bytes
unfolding protocol_send_packet protocol_packet
protocol_send_handshake process_current =
    protocol_send_packet process_current (protocol_packet process_current op_handshake none)

unfoldable pub protocol_receive_handshake : Bytes → ℤ → Option (Bool × Bytes)
unfolding protocol_receive_packet same_code
protocol_receive_handshake socket process = elim (protocol_receive_packet socket) [
  | none ↦ none
  | some (packet, rest) ↦
      some (same_code packet.operation op_handshake && same_code packet.sender process, rest)
]

unfoldable pub protocol_send_response : ℤ → ℤ → Bytes
unfolding protocol_send_packet protocol_packet
protocol_send_response process_current code =
    protocol_send_packet process_current
      (protocol_packet process_current op_response (some (serial_pack (int code ∷ []))))

-- `serial_unpack(packet.content, "i", &code)`, where `code` is -1 before.
unpack_code : Bytes → Option ℤ
unpack_code content = elim (serial_remove content (i ∷ [])) [
  | untouched ↦ some (negsuc 0)
  | overrun ↦ none
  | removed vs rest ↦ first_code vs
]
  where
    first_code : List Value → Option ℤ
    first_code (int code ∷ vs) = some code
    first_code _ = none

unfoldable pub protocol_receive_response : Bytes → Option (ℤ × Bytes)
unfolding protocol_receive_packet same_code unpack_code
protocol_receive_response socket = elim (protocol_receive_packet socket) [
  | none ↦ none
  | some (packet, rest) ↦
      if same_code packet.operation op_response
      then elim (unpack_code (content_of packet)) [ none ↦ none | some code ↦ some (code, rest) ]
      else some (negsuc 0, rest)
]
