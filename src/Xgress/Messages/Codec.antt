-- ===== src/Xgress/Messages/Codec.antt =====
-- xgress/messages.go: payloads and acknowledgements as channel messages.
use sdk_golang.Common.{
  ℕ, ◌+◌, ◌-◌, ◌*◌, ◌/◌, ◌%◌, ◌^◌, ◌&&◌, Option, none, some, List, [], ◌∷◌, ◌++◌, ltb, leb, ◌==◌,
  if◌then◌else◌, length,
}
use sdk_golang.Common.Words.{max_uint32}
use sdk_golang.Common.Map.{lookup, insert}
use sdk_golang.Common.Outcome.{Outcome, ok, err, panic, ◌>>=◌}
use sdk_golang.Xgress.Messages.{Payload, Acknowledgement}
use sdk_golang.Xgress.Channel.{Channel, Message, get_header, put_header, new_message}
use sdk_golang.Xgress.Wire.{
  WireError, no_circuit_id, no_sequence, bad_sequence_length, is_set, rtt_flag_mask, min_header_key,
  max_header_key, header_key_circuit_id, header_key_sequence, header_key_flags,
  header_key_recv_buffer_size, header_key_rtt, header_payload_raw, content_type_payload,
  content_type_acknowledgement,
}
use sdk_golang.Xgress.Wire.Read.{add_payload_headers}

abbrev pub or_zero : Option ℕ → ℕ
or_zero none = 0
or_zero (some v) = v

-- The current time goes into bytes 2 and 3 of a packet with the RTT flag, in place.
pub stamp_bytes : ℕ → List ℕ → Outcome WireError (List ℕ)
stamp_bytes rtt (f ∷ s ∷ _ ∷ _ ∷ rest) = ok (f ∷ s ∷ (rtt % 256) ∷ (rtt / 2 ^ 8 % 256) ∷ rest)
stamp_bytes rtt _ = panic

unfoldable pub stamp_raw : ℕ → List ℕ → Outcome WireError (List ℕ)
unfolding stamp_bytes
stamp_raw rtt [] = panic
stamp_raw rtt (f ∷ rest) =
    if is_set f rtt_flag_mask then stamp_bytes rtt (f ∷ rest) else ok (f ∷ rest)

-- uint64(s) of an int32 extends the sign.
abbrev pub extend_int32 : ℕ → ℕ
extend_int32 s = if ltb s (2 ^ 31) then s else s + (2 ^ 64 - 2 ^ 32)

-- The range over the message's headers in UnmarshallPayload.
unfoldable pub collect_headers : List (ℕ × List ℕ) → List (ℕ × List ℕ) → List (ℕ × List ℕ)
collect_headers [] headers = headers
collect_headers ((key, val) ∷ m) headers = collect_headers m (
    if leb min_header_key key && leb key max_header_key
    then insert (key - min_header_key) val headers
    else headers)

-- The four bytes of binary.BigEndian.PutUint32.
abbrev pub put_uint32 : ℕ → List ℕ
put_uint32 v = (v / 2 ^ 24 % 256) ∷ (v / 2 ^ 16 % 256) ∷ (v / 2 ^ 8 % 256) ∷ (v % 256) ∷ []

unfoldable pub marshall_sequence : List ℕ → List ℕ
marshall_sequence [] = []
marshall_sequence (seq ∷ seqs) = put_uint32 seq ++ marshall_sequence seqs

-- The loop that reads len(data)/4 words.
unfoldable pub read_sequences : List ℕ → List ℕ
read_sequences (a ∷ b ∷ c ∷ d ∷ rest) = (((a * 256 + b) * 256 + c) * 256 + d) ∷ read_sequences rest
read_sequences _ = []

unfoldable pub unmarshall_sequence : List ℕ → Outcome WireError (List ℕ)
unfolding read_sequences
unmarshall_sequence body =
    if length body % 4 == 0 then ok (read_sequences body) else err bad_sequence_length

module _ (ch : Channel) where
  open ch use {
    content_type_raw, bytes_of_uint16, bytes_of_uint32, bytes_of_uint64, uint16_of_bytes,
    uint32_of_bytes, uint64_of_bytes,
  }

  abbrev put_flags : ℕ → Message → Message
  put_flags flags msg =
      if flags == 0 then msg else put_header header_key_flags (bytes_of_uint32 flags) msg

  -- Payload.Marshall where there is no raw packet. `now` is uint16(info.NowInMilliseconds()).
  unfoldable pub marshall_fields : ℕ → Payload → Message
  marshall_fields now p =
      let headed : Message = record {
        content_type = content_type_payload;
        headers = add_payload_headers p.headers [];
        body = p.payload_data;
      } in
      let named = put_header header_key_circuit_id p.circuit_id headed in
      let flagged = put_flags p.flags named in
      let numbered =
        put_header header_key_sequence (bytes_of_uint64 (extend_int32 p.sequence)) flagged in
      put_header header_key_rtt (bytes_of_uint16 now) numbered

  -- Payload.Marshall, with the payload as it leaves it.
  unfoldable pub marshall : ℕ → Payload → Outcome WireError (Message × Payload)
  marshall now p = elim p.raw [
    | none ↦ ok (marshall_fields now p, p)
    | some raw ↦ do
      stamped ← stamp_raw now raw
      ok (new_message content_type_raw stamped, record p { raw = some stamped })
  ]

  unfoldable pub unmarshall_payload : Message → Outcome WireError Payload
  unmarshall_payload msg = elim (lookup header_key_circuit_id msg.headers) [
    | none ↦ err no_circuit_id
    | some circuit_id ↦ elim (get_header uint64_of_bytes header_key_sequence msg) [
      | none ↦ err no_sequence
      | some sequence ↦ ok (record {
        circuit_id = circuit_id;
        flags = or_zero (get_header uint32_of_bytes header_key_flags msg);
        rtt = or_zero (get_header uint16_of_bytes header_key_rtt msg);
        sequence = sequence % 2 ^ 32;
        headers = collect_headers msg.headers [];
        payload_data = msg.body;
        raw = lookup header_payload_raw msg.headers;
      })
    ]
  ]

  -- Acknowledgement.Marshall
  unfoldable pub marshall_ack : Acknowledgement → Message
  marshall_ack a =
      let timed =
        put_header header_key_rtt (bytes_of_uint16 a.rtt)
          (new_message content_type_acknowledgement (marshall_sequence a.sequences)) in
      let named = put_header header_key_circuit_id a.circuit_id timed in
      put_header header_key_recv_buffer_size (bytes_of_uint32 a.recv_buffer_size)
        (put_flags a.flags named)

  abbrev or_max : Option ℕ → ℕ
  or_max none = max_uint32
  or_max (some v) = v

  unfoldable pub unmarshall_acknowledgement : Message → Outcome WireError Acknowledgement
  unmarshall_acknowledgement msg = elim (lookup header_key_circuit_id msg.headers) [
    | none ↦ err no_circuit_id
    | some circuit_id ↦ do
      sequences ← unmarshall_sequence msg.body
      ok (record {
        circuit_id = circuit_id;
        flags = or_zero (get_header uint32_of_bytes header_key_flags msg);
        recv_buffer_size = or_max (get_header uint32_of_bytes header_key_recv_buffer_size msg);
        rtt = or_zero (get_header uint16_of_bytes header_key_rtt msg);
        sequences = sequences;
      })
  ]
