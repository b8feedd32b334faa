-- ===== src/Protocol/Tests.antt =====
-- Packets of Shared/protocol.c at concrete contents.
use tp_2017_2c_yatpos.Base.{◌≡◌, refl, [], ◌∷◌, ◌++◌, false, some, arith}
use tp_2017_2c_yatpos.Base.Int.{pos, negsuc}
use tp_2017_2c_yatpos.Protocol.{
  Packet, same_code, protocol_send_packet, protocol_receive_packet, protocol_send_response,
  protocol_receive_response, protocol_send_handshake, protocol_receive_handshake,
}
use tp_2017_2c_yatpos.Protocol.RoundTrip.{
  protocol_receive_packet-send, protocol_receive_response-send, protocol_receive_handshake-send,
}

abbrev packet : Packet
packet = record { sender = pos 0; operation = pos 8; content = some (7 ∷ 8 ∷ []) }

protocol_receive_packet-send_example :
    protocol_receive_packet (protocol_send_packet (pos 2) packet ++ 9 ∷ [])
    ≡ some (record { sender = pos 2; operation = pos 8; content = some (7 ∷ 8 ∷ []) }, 9 ∷ [])
unfolding same_code
protocol_receive_packet-send_example =
    protocol_receive_packet-send (pos 2) packet (9 ∷ [])
      (record { process = omega arith; operation = omega arith; size = omega arith }) refl

protocol_receive_response-send_example :
    protocol_receive_response (protocol_send_response (pos 2) (negsuc 4) ++ 9 ∷ [])
    ≡ some (negsuc 4, 9 ∷ [])
protocol_receive_response-send_example =
    protocol_receive_response-send (pos 2) (negsuc 4) (9 ∷ []) (omega arith) (omega arith)

protocol_receive_handshake-send_example :
    protocol_receive_handshake (protocol_send_handshake (pos 2) ++ 9 ∷ []) (pos 3)
    ≡ some (false, 9 ∷ [])
unfolding same_code
protocol_receive_handshake-send_example =
    protocol_receive_handshake-send (pos 2) (pos 3) (9 ∷ []) (omega arith)
