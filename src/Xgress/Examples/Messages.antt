-- ===== src/Xgress/Examples/Messages.antt =====
-- The properties of the messages at concrete ones.
use sdk_golang.Common.{ℕ, ◌≡◌, refl, List, [], ◌∷◌, ◌++◌, arith}
use sdk_golang.Common.Outcome.{ok}
use sdk_golang.Xgress.Messages.{Payload, Acknowledgement}
use sdk_golang.Xgress.Messages.Codec.{
  marshall_ack, unmarshall_acknowledgement, marshall_fields, unmarshall_payload,
}
use sdk_golang.Xgress.Messages.Acks
use sdk_golang.Xgress.Messages.Payloads
use sdk_golang.Xgress.Wire.Write.{write_u8_to_bytes_map, write_entries}
use sdk_golang.Common.Binary.{uvarint_bytes}
use sdk_golang.Xgress.Wire.Read.{read_u8_to_bytes_map}
use sdk_golang.Xgress.Wire.HeaderMap.{read-write_u8_to_bytes_map}
use sdk_golang.Xgress.Examples.{test_channel, test_payload}

abbrev test_ack : Acknowledgement
test_ack = record {
  circuit_id = 7 ∷ [];
  flags = 2;
  recv_buffer_size = 4096;
  rtt = 99;
  sequences = 0 ∷ 0xffff_fffe ∷ [];
}

test_ack-IsInRange : Acks.IsInRange test_ack
test_ack-IsInRange = record {
  flags = omega arith;
  recv_buffer_size = omega arith;
  rtt = omega arith;
  sequences = (omega arith, (omega arith, tt));
}

unmarshall-marshall_ack_example :
    unmarshall_acknowledgement test_channel (marshall_ack test_channel test_ack) ≡ ok test_ack
unmarshall-marshall_ack_example =
    Acks.unmarshall-marshall_ack test_channel test_ack test_ack-IsInRange

abbrev headed_payload : Payload
headed_payload = record (test_payload 0xffff_ffff) { headers = (200, 1 ∷ 2 ∷ []) ∷ (3, []) ∷ [] }

headed_payload-IsInRange : Payloads.IsInRange headed_payload
headed_payload-IsInRange = record {
  flags = omega arith;
  sequence = omega arith;
  byte_keys = (omega arith, (omega arith, tt));
  distinct = ((λ h. omega arith, tt), (tt, tt));
}

unmarshall-marshall_fields_example :
    unmarshall_payload test_channel (marshall_fields test_channel 1234 headed_payload)
    ≡ ok (record headed_payload { rtt = 1234 })
unmarshall-marshall_fields_example =
    Payloads.unmarshall-marshall_fields test_channel 1234 headed_payload refl (omega arith)
      headed_payload-IsInRange

abbrev two_headers : List (ℕ × List ℕ)
two_headers = (5, 9 ∷ []) ∷ (6, []) ∷ []

written_headers : write_u8_to_bytes_map two_headers 100 ≡ ok (2 ∷ 5 ∷ 1 ∷ 9 ∷ 6 ∷ 0 ∷ [])
unfolding write_u8_to_bytes_map write_entries uvarint_bytes
written_headers = refl

read-write_u8_to_bytes_map_example :
    read_u8_to_bytes_map ((2 ∷ 5 ∷ 1 ∷ 9 ∷ 6 ∷ 0 ∷ []) ++ 77 ∷ []) ≡ ok (two_headers, 77 ∷ [])
read-write_u8_to_bytes_map_example =
    read-write_u8_to_bytes_map two_headers 100 (2 ∷ 5 ∷ 1 ∷ 9 ∷ 6 ∷ 0 ∷ []) (77 ∷ []) (omega arith)
      (omega arith) ((λ h. omega arith, tt), (tt, tt)) written_headers
