-- ===== src/Xgress/Wire.antt =====
-- The packet form of a payload: the errors, masks and header keys of xgress/xgress.go and
-- xgress/messages.go. `Write` lays a chunk out and `Read` takes a packet apart.
pub mod Write
pub mod Read
pub mod Fields
pub mod HeaderMap
pub mod RoundTrip
pub mod Packets
pub mod Layout
pub mod PacketMessage
use sdk_golang.Common.{
  ℕ, zero, suc, ◌+◌, ◌-◌, ◌*◌, ◌/◌, ◌%◌, ◌^◌, Bool, true, false, ◌&&◌, ◌||◌, not, Option, none,
  some, List, [], ◌∷◌, ◌++◌, bit_and, bit_or, ltb, leb, ◌==◌, if◌then◌else◌, length, take, drop,
  replicate,
}
use sdk_golang.Common.Map.{insert}
use sdk_golang.Common.Outcome.{Outcome, ok, err, panic, ◌>>=◌, ◌>>◌, in_bounds}
use sdk_golang.Common.Binary.{Uvarint, got, short, overflowed, uvarint, uvarint_bytes}
use sdk_golang.Xgress.Messages.{
  Originator, initiator, terminator, Payload, set_originator_flag, set_payload_flag, flag_chunk,
  flag_originator,
}
use sdk_golang.Xgress.Channel.{Channel, Message, put_header, new_message}

pub data WireError : Type 0 where
  header_key_no_space header_value_no_space : WireError
  unsupported_version : ℕ → WireError
  header_map_length header_entry : WireError
  no_circuit_id no_sequence bad_sequence_length : WireError
  channel_read : WireError

abbrev pub version_mask : ℕ
version_mask = 0b00000110

abbrev pub terminator_flag_mask : ℕ
terminator_flag_mask = 0b00001000

abbrev pub rtt_flag_mask : ℕ
rtt_flag_mask = 0b00010000

abbrev pub chunk_flag_mask : ℕ
chunk_flag_mask = 0b00100000

abbrev pub headers_flag_mask : ℕ
headers_flag_mask = 0b01000000

abbrev pub heartbeat_flag_mask : ℕ
heartbeat_flag_mask = 0b10000000

abbrev pub circuit_id_size_mask : ℕ
circuit_id_size_mask = 0b00001111

abbrev pub min_header_key : ℕ
min_header_key = 2000

abbrev pub max_header_key : ℕ
max_header_key = 2255

abbrev pub header_key_circuit_id : ℕ
header_key_circuit_id = 2256

abbrev pub header_key_sequence : ℕ
header_key_sequence = 2257

abbrev pub header_key_flags : ℕ
header_key_flags = 2258

abbrev pub header_key_recv_buffer_size : ℕ
header_key_recv_buffer_size = 2259

abbrev pub header_key_rtt : ℕ
header_key_rtt = 2260

abbrev pub header_payload_raw : ℕ
header_payload_raw = 2261

abbrev pub content_type_payload : ℕ
content_type_payload = 1100

abbrev pub content_type_acknowledgement : ℕ
content_type_acknowledgement = 1101

abbrev pub is_set : ℕ → ℕ → Bool
is_set field mask = not (bit_and field mask == 0)
