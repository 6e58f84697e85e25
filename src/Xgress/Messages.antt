-- ===== src/Xgress/Messages.antt =====
-- xgress/messages.go: the originator, the flags, payloads and acknowledgements.
pub mod Flags
pub mod Codec
pub mod Acks
pub mod Payloads
use sdk_golang.Common.{
  ℕ, ◌+◌, ◌*◌, ◌^◌, ◌≡◌, Bool, true, false, Option, none, some, List, [], ◌∷◌, bit_and, bit_or,
  ◌==◌, if◌then◌else◌,
}

pub data Originator : Type 0 where
  initiator terminator : Originator

unfoldable pub invert : Originator → Originator
invert initiator = terminator
invert terminator = initiator

-- Flag is a uint32 with one bit set.
abbrev pub flag_circuit_end : ℕ
flag_circuit_end = 1

abbrev pub flag_originator : ℕ
flag_originator = 2

abbrev pub flag_circuit_start : ℕ
flag_circuit_start = 4

abbrev pub flag_chunk : ℕ
flag_chunk = 8

abbrev pub flag_retransmit : ℕ
flag_retransmit = 16

abbrev pub flag_eof : ℕ
flag_eof = 32

abbrev pub flag_write_failed : ℕ
flag_write_failed = 64

unfoldable pub is_flag_set : ℕ → ℕ → Bool
is_flag_set flags flag = bit_and flags flag == flag

unfoldable pub set_payload_flag : ℕ → ℕ → ℕ
set_payload_flag flags flag = bit_or flags flag

-- `^uint32(PayloadFlagOriginator)` is 0xfffffffd.
unfoldable pub set_originator_flag : ℕ → Originator → ℕ
set_originator_flag flags initiator = bit_and 0xffff_fffd flags
set_originator_flag flags terminator = bit_or flag_originator flags

unfoldable pub originator_of : ℕ → Originator
originator_of flags = if is_flag_set flags flag_originator then terminator else initiator

-- A byte slice is a list of numbers; `raw` is `none` for nil. A header map is a list of entries.
pub record Payload : Type 0 where
  pub circuit_id : List ℕ
  pub flags : ℕ
  pub rtt : ℕ
  pub sequence : ℕ
  pub headers : List (ℕ × List ℕ)
  pub payload_data : List ℕ
  pub raw : Option (List ℕ)

pub record Acknowledgement : Type 0 where
  pub circuit_id : List ℕ
  pub flags : ℕ
  pub recv_buffer_size : ℕ
  pub rtt : ℕ
  pub sequences : List ℕ

unfoldable pub new_acknowledgement : List ℕ → Originator → Acknowledgement
unfolding set_originator_flag
new_acknowledgement circuit_id originator = record {
  circuit_id = circuit_id;
  flags = set_originator_flag 0 originator;
  recv_buffer_size = 0;
  rtt = 0;
  sequences = [];
}

-- Payload.GetOriginator
unfoldable pub get_originator : Payload → Originator
unfolding originator_of
get_originator p = originator_of p.flags

-- Acknowledgement.GetOriginator
unfoldable pub ack_originator : Acknowledgement → Originator
unfolding originator_of
ack_originator a = originator_of a.flags

unfoldable pub is_circuit_end_flag_set : Payload → Bool
unfolding is_flag_set
is_circuit_end_flag_set p = is_flag_set p.flags flag_circuit_end

unfoldable pub is_flag_eof_set : Payload → Bool
unfolding is_flag_set
is_flag_eof_set p = is_flag_set p.flags flag_eof

unfoldable pub is_flag_write_failed_set : Payload → Bool
unfolding is_flag_set
is_flag_write_failed_set p = is_flag_set p.flags flag_write_failed

unfoldable pub is_circuit_start_flag_set : Payload → Bool
unfolding is_flag_set
is_circuit_start_flag_set p = is_flag_set p.flags flag_circuit_start

unfoldable pub is_retransmit_flag_set : Payload → Bool
unfolding is_flag_set
is_retransmit_flag_set p = is_flag_set p.flags flag_retransmit

unfoldable pub mark_as_retransmit : Payload → Payload
unfolding set_payload_flag
mark_as_retransmit p = record p { flags = set_payload_flag p.flags flag_retransmit }
