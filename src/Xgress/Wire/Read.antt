-- ===== src/Xgress/Wire/Read.antt =====
-- The reader's side of a packet: UnmarshallPacketPayload in xgress/xgress.go and the header map's
-- reader.
use sdk_golang.Common.{
  ℕ, zero, suc, ◌+◌, ◌-◌, ◌*◌, ◌/◌, ◌^◌, Bool, true, false, Option, none, some, List, [], ◌∷◌,
  bit_and, bit_or, ltb, leb, ◌==◌, if◌then◌else◌, length, take, drop,
}
use sdk_golang.Common.Map.{insert}
use sdk_golang.Common.Outcome.{Outcome, ok, err, panic, ◌>>=◌, ◌>>◌, in_bounds}
use sdk_golang.Common.Binary.{got, short, overflowed, uvarint}
use sdk_golang.Xgress.Messages.{set_payload_flag, flag_chunk, flag_originator}
use sdk_golang.Xgress.Channel.{Channel, Message, put_header}
use sdk_golang.Xgress.Wire.{
  WireError, unsupported_version, header_map_length, header_entry, version_mask,
  terminator_flag_mask, rtt_flag_mask, chunk_flag_mask, headers_flag_mask, heartbeat_flag_mask,
  circuit_id_size_mask, min_header_key, header_key_circuit_id, header_key_sequence,
  header_key_flags, header_key_rtt, header_payload_raw, content_type_payload, is_set,
}

-- The loop of readU8ToBytesMap. A size of 2 ^ 63 or more is negative as an int: it passes the length
-- test, and the slice panics.
unfoldable pub read_entries :
    ℕ → List ℕ → List (ℕ × List ℕ) → Outcome WireError (List (ℕ × List ℕ) × List ℕ)
read_entries zero buf result = ok (result, buf)
read_entries (suc count) [] result = err header_entry
read_entries (suc count) (k ∷ []) result = err header_entry
read_entries (suc count) (k ∷ b ∷ bs) result = elim (uvarint (b ∷ bs)) [
  | got size n ↦
      if ltb size (2 ^ 63)
      then if ltb (length (drop n (b ∷ bs))) size
        then err header_entry
        else read_entries count (drop size (drop n (b ∷ bs)))
            (insert k (take size (drop n (b ∷ bs))) result)
      else panic
  | short ↦ err header_entry
  | overflowed n ↦ err header_entry
]

unfoldable pub read_u8_to_bytes_map : List ℕ → Outcome WireError (List (ℕ × List ℕ) × List ℕ)
read_u8_to_bytes_map buf = elim (uvarint buf) [
  | got count n ↦ read_entries count (drop n buf) []
  | short ↦ err header_map_length
  | overflowed n ↦ err header_map_length
]

-- UnmarshallPacketPayload, from the bytes behind the two header bytes.
pub record Packet : Type 0 where
  pub packet_rtt : Option ℕ
  pub heartbeat : Option ℕ
  pub circuit_id : List ℕ
  pub seq : ℕ
  pub headers : List (ℕ × List ℕ)
  pub body : List ℕ

unfoldable pub read_rtt : Bool → List ℕ → Outcome WireError (Option ℕ × List ℕ)
read_rtt false rest = ok (none, rest)
read_rtt true (b0 ∷ b1 ∷ rest) = ok (some (bit_or b0 (b1 * 2 ^ 8)), rest)
read_rtt true _ = panic

-- binary.BigEndian.Uint64
unfoldable pub big_endian : List ℕ → ℕ → ℕ
big_endian [] acc = acc
big_endian (b ∷ bs) acc = big_endian bs (acc * 256 + b)

unfoldable pub read_heartbeat : Bool → List ℕ → Outcome WireError (Option ℕ × List ℕ)
unfolding big_endian
read_heartbeat false rest = ok (none, rest)
read_heartbeat true rest = do
  in_bounds (leb 8 (length rest))
  ok (some (big_endian (drop (length rest - 8) rest) 0), take (length rest - 8) rest)

-- A sequence that does not decode is not refused: Uvarint's count 0 leaves `rest` as it is, and a
-- negative count panics.
unfoldable pub read_sequence : List ℕ → Outcome WireError (ℕ × List ℕ)
read_sequence rest = elim (uvarint rest) [
  | got seq n ↦ ok (seq, drop n rest)
  | short ↦ ok (0, rest)
  | overflowed n ↦ panic
]

unfoldable pub read_headers : Bool → List ℕ → Outcome WireError (List (ℕ × List ℕ) × List ℕ)
unfolding read_u8_to_bytes_map
read_headers false rest = ok ([], rest)
read_headers true rest = read_u8_to_bytes_map rest

unfoldable pub read_packet : ℕ → ℕ → List ℕ → Outcome WireError Packet
read_packet flags_field size_field buf = do
  let circuit_id_size = bit_and circuit_id_size_mask size_field
  (rtt, timed) ← read_rtt (is_set flags_field rtt_flag_mask) buf
  (beat, trimmed) ← read_heartbeat (is_set flags_field heartbeat_flag_mask) timed
  in_bounds (leb circuit_id_size (length trimmed))
  (seq, behind) ← read_sequence (drop circuit_id_size trimmed)
  (headers, body) ← read_headers (is_set flags_field headers_flag_mask) behind
  ok (record {
    packet_rtt = rtt;
    heartbeat = beat;
    circuit_id = take circuit_id_size trimmed;
    seq = seq;
    headers = headers;
    body = body;
  })

unfoldable pub add_payload_headers : List (ℕ × List ℕ) → List (ℕ × List ℕ) → List (ℕ × List ℕ)
add_payload_headers [] into = into
add_payload_headers ((k, v) ∷ hs) into = add_payload_headers hs (insert (min_header_key + k) v into)

abbrev pub packet_flags : ℕ → ℕ
packet_flags flags_field =
    let chunk = if is_set flags_field chunk_flag_mask then set_payload_flag 0 flag_chunk else 0 in
    if is_set flags_field terminator_flag_mask
    then set_payload_flag chunk flag_originator
    else chunk

module _ (ch : Channel) where
  open ch use {heartbeat_header, bytes_of_uint16, bytes_of_uint32, bytes_of_uint64, bytes_of_string}

  unfoldable pub put_heartbeat : Option ℕ → Message → Message
  put_heartbeat none msg = msg
  put_heartbeat (some beat) msg = put_header heartbeat_header (bytes_of_uint64 beat) msg

  unfoldable pub put_flags : ℕ → Message → Message
  put_flags flags msg =
      if flags == 0 then msg else put_header header_key_flags (bytes_of_uint32 flags) msg

  unfoldable pub put_rtt : Option ℕ → Message → Message
  put_rtt none msg = msg
  put_rtt (some rtt) msg = put_header header_key_rtt (bytes_of_uint16 rtt) msg

  -- The message that UnmarshallPacketPayload makes of what it read.
  unfoldable pub packet_message : ℕ → List ℕ → Packet → Message
  packet_message flags_field buf p =
      let named = put_header header_key_circuit_id (bytes_of_string p.circuit_id) (record {
        content_type = content_type_payload;
        headers = add_payload_headers p.headers [];
        body = p.body;
      }) in
      let numbered = put_header header_key_sequence (bytes_of_uint64 p.seq) named in
      let beating = put_heartbeat p.heartbeat numbered in
      let whole = put_header header_payload_raw buf beating in
      put_rtt p.packet_rtt (put_flags (packet_flags flags_field) whole)

  -- `read_v2` is channel.ReadV2, which takes the packets that this format does not describe.
  unfoldable pub unmarshall_packet_payload :
      (List ℕ → Outcome WireError Message) → List ℕ → Outcome WireError Message
  unfolding read_packet packet_message
  unmarshall_packet_payload read_v2 [] = panic
  unmarshall_packet_payload read_v2 (flags_field ∷ []) =
      if is_set flags_field 1
      then read_v2 (flags_field ∷ [])
      else if bit_and flags_field version_mask / 2 ^ 1 == 1
      then panic
      else err (unsupported_version (bit_and flags_field version_mask / 2 ^ 1))
  unmarshall_packet_payload read_v2 (flags_field ∷ size_field ∷ buf) =
      if is_set flags_field 1
      then read_v2 (flags_field ∷ size_field ∷ buf)
      else if bit_and flags_field version_mask / 2 ^ 1 == 1
      then read_packet flags_field size_field buf
        >>= (λ p. ok (packet_message flags_field (flags_field ∷ size_field ∷ buf) p))
      else err (unsupported_version (bit_and flags_field version_mask / 2 ^ 1))
