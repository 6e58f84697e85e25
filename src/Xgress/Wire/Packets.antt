-- ===== src/Xgress/Wire/Packets.antt =====
-- The packet form end to end: Write lays a chunk out, Marshall stamps it, and UnmarshallPacketPayload
-- and UnmarshallPayload give the payload back.
use sdk_golang.Common.{
  ℕ, ◌-◌, ◌%◌, ◌^◌, ◌≤◌, ◌<◌, ◌≡◌, refl, sym, ◌∙◌, Bool, true, false, ◌&&◌, List, [], ◌∷◌, ◌++◌,
  arith, ◌==◌, if◌then◌else◌, length, none, some, bit_and, replicate,
}
use sdk_golang.Common.Words.{IsU16, IsU64}
use sdk_golang.Common.Map.{Distinct}
use sdk_golang.Common.Outcome.{Outcome, ok, ◌>>=◌, ok-injective}
use sdk_golang.Common.Binary.{uvarint_bytes}
use sdk_golang.Xgress.Channel.{Channel, Message}
use sdk_golang.Xgress.Messages.{
  Payload, Originator, set_payload_flag, set_originator_flag, flag_chunk,
}
use sdk_golang.Xgress.Messages.Codec.{stamp_raw, marshall, unmarshall_payload, or_zero}
use sdk_golang.Xgress.Messages.Payloads.{ByteKeys}
use sdk_golang.Xgress.Wire.{WireError, is_set, rtt_flag_mask, circuit_id_size_mask}
use sdk_golang.Xgress.Wire.Write.{
  ChunkInput, ChunkOutput, build_chunk, chunk_payload, raw_chunk, flags_header,
  write_u8_to_bytes_map, non_empty,
}
use sdk_golang.Xgress.Wire.Read.{
  Packet, read_headers, read_packet, packet_flags, unmarshall_packet_payload,
}
use sdk_golang.Xgress.Wire.Fields.{flags_header_fields}
use sdk_golang.Xgress.Wire.HeaderMap.{read-write_u8_to_bytes_map}
use sdk_golang.Xgress.Wire.Layout.{
  Layout, build_chunk-Layout, room_for_headers, size_part, body_part,
}
use sdk_golang.Xgress.Wire.PacketMessage.{unmarshall-packet_message}
use sdk_golang.Xgress.Wire.RoundTrip.{
  packet_bytes, rtt_field, rtt_read, read_packet_bytes, circuit_id_size,
}
use mathlib.Core.List.{append_assoc}
use mathlib.Core.Path.{subst}

-- Marshall writes the time into the two bytes that the RTT flag announces.
stamp_raw_field :
    (f s now : ℕ) (timed : Bool) (rest : List ℕ)
    → is_set f rtt_flag_mask ≡ timed
    → stamp_raw now (f ∷ s ∷ ((if timed then 0 ∷ 0 ∷ [] else []) ++ rest))
      ≡ ok (f ∷ s ∷ (rtt_field timed now ++ rest))
unfolding stamp_raw
stamp_raw_field f s now true rest e = rw e
stamp_raw_field f s now false rest e = rw e

-- The header part is read back as the payload's headers.
read_head :
    (first : Bool) (headers : List (ℕ × List ℕ)) (room : ℕ) (head rest : List ℕ)
    → room < 2 ^ 63
    → length headers < 2 ^ 64
    → Distinct headers
    → (if first && non_empty headers then write_u8_to_bytes_map headers room else ok []) ≡ ok head
    → read_headers (first && non_empty headers) (head ++ rest)
      ≡ ok ((if first then headers else []), rest)
unfolding read_headers
read_head false headers room head rest fit many d e = ground (arith, ok-injective e)
read_head true [] room head rest fit many d e = ground (arith, ok-injective e)
read_head true (h ∷ hs) room head rest fit many d e =
    read-write_u8_to_bytes_map (h ∷ hs) room head rest fit many d e

-- The flag word of the message is the payload's.
packet_flags-flags_header :
    (o : Originator) (rtt headers chunked heartbeat : Bool)
    → packet_flags (flags_header o rtt headers chunked heartbeat) ≡ (
        if chunked
        then set_payload_flag (set_originator_flag 0 o) flag_chunk
        else set_originator_flag 0 o)
unfolding flags_header set_payload_flag set_originator_flag
packet_flags-flags_header o rtt headers chunked heartbeat = ground arith

raw_chunk-packet_bytes :
    (id seq head size body z : List ℕ)
    → id ++ (seq ++ (head ++ (size ++ (body ++ z))))
      ≡ (id ++ (seq ++ (head ++ (size ++ body)))) ++ z
raw_chunk-packet_bytes id seq head size body z = simp append_assoc

-- The bytes of a chunk as they go out at time `now`.
abbrev sent : ChunkInput → ℕ → List ℕ → List ℕ → List ℕ → Bool → Bool → List ℕ
sent c now head size body chunked beat =
    flags_header c.originator (c.seq % 5 == 0) (c.first && non_empty c.headers) chunked beat
    ∷ (bit_and circuit_id_size_mask (length c.circuit_id % 256)
        ∷ packet_bytes (c.seq % 5 == 0) now c.circuit_id c.seq head (size ++ body) beat)

-- What receives the packet: UnmarshallPacketPayload, then UnmarshallPayload.
abbrev pub receive :
    Channel → (List ℕ → Outcome WireError Message) → List ℕ → Outcome WireError Payload
receive ch read_v2 packet =
    unmarshall_packet_payload ch read_v2 packet >>= (λ msg. unmarshall_payload ch msg)

-- The payload that arrives.
abbrev pub arrived : ChunkInput → ℕ → Payload → List ℕ → Payload
arrived c now p packet = record p { rtt = if c.seq % 5 == 0 then now else 0; raw = some packet }

when {ℓ} :
    (P : List (ℕ × List ℕ) → Type ℓ) (b : Bool) (hs : List (ℕ × List ℕ))
    → P hs
    → P []
    → P (if b then hs else [])
when P true hs h z = h
when P false hs h z = z

rtt_read-IsU16 : (timed : Bool) (now v : ℕ) → IsU16 now → rtt_read timed now ≡ some v → IsU16 v
rtt_read-IsU16 true now v h e = ground arith
rtt_read-IsU16 false now v h e = cc

or_zero-rtt_read :
    (timed : Bool) (now : ℕ) → or_zero (rtt_read timed now) ≡ (if timed then now else 0)
or_zero-rtt_read true now = refl
or_zero-rtt_read false now = refl

pub record IsSendable (c : ChunkInput) (now : ℕ) : Type 0 where
  pub mtu : c.mtu < 2 ^ 31
  pub circuit_id : length c.circuit_id ≤ 15
  pub seq : IsU64 c.seq
  pub now_in_range : IsU16 now
  pub headers : length c.headers < 2 ^ 64
  pub byte_keys : ByteKeys c.headers
  pub distinct : Distinct c.headers

module _ (c : ChunkInput) (now : ℕ) (ok_c : IsSendable c now) (head size body : List ℕ)
    (chunked beat : Bool) where
  abbrev held : Packet
  held = record {
    packet_rtt = rtt_read (c.seq % 5 == 0) now;
    heartbeat = if beat then some 0 else none;
    circuit_id = c.circuit_id;
    seq = c.seq;
    headers = if c.first then c.headers else [];
    body = size ++ body;
  }

  abbrev flags_byte : ℕ
  flags_byte =
      flags_header c.originator (c.seq % 5 == 0) (c.first && non_empty c.headers) chunked beat

  abbrev size_byte : ℕ
  size_byte = bit_and circuit_id_size_mask (length c.circuit_id % 256)

  stamp-raw_chunk :
      stamp_raw now (raw_chunk c c.circuit_id head size body chunked beat)
      ≡ ok (sent c now head size body chunked beat)
  stamp-raw_chunk =
      let fields =
        flags_header_fields c.originator (c.seq % 5 == 0) (c.first && non_empty c.headers) chunked
          beat in
      stamp_raw_field flags_byte size_byte now (c.seq % 5 == 0) _ fields.2
      ∙ rw (
          raw_chunk-packet_bytes c.circuit_id (uvarint_bytes c.seq) head size body
            (if beat then replicate 8 0 else []))

  read-sent :
      (room : ℕ)
      → room < 2 ^ 63
      → (if c.first && non_empty c.headers then write_u8_to_bytes_map c.headers room else ok [])
        ≡ ok head
      → read_packet flags_byte size_byte
          (packet_bytes (c.seq % 5 == 0) now c.circuit_id c.seq head (size ++ body) beat)
        ≡ ok held
  read-sent room fit e =
      let fields =
        flags_header_fields c.originator (c.seq % 5 == 0) (c.first && non_empty c.headers) chunked
          beat in
      read_packet_bytes flags_byte size_byte (c.seq % 5 == 0) beat now c.seq c.circuit_id head
        (size ++ body) _ ok_c.now_in_range ok_c.seq fields.2 fields.3
        (circuit_id_size (length c.circuit_id) ok_c.circuit_id)
        (rw fields.4
          (read_head c.first c.headers room head (size ++ body) fit ok_c.headers ok_c.distinct e))

  receive-sent :
      (ch : Channel) (read_v2 : List ℕ → Outcome WireError Message) (room : ℕ)
      → room < 2 ^ 63
      → (if c.first && non_empty c.headers then write_u8_to_bytes_map c.headers room else ok [])
        ≡ ok head
      → receive ch read_v2 (sent c now head size body chunked beat)
        ≡ ok (
            arrived c now
              (chunk_payload c c.circuit_id head size body chunked beat)
              (sent c now head size body chunked beat))
  unfolding unmarshall_packet_payload
  receive-sent ch read_v2 room fit e =
      let fields =
        flags_header_fields c.originator (c.seq % 5 == 0) (c.first && non_empty c.headers) chunked
          beat in
      rw (fields.0, fields.1, read-sent room fit e)
        (unmarshall-packet_message ch flags_byte _ held
            (when ByteKeys c.first c.headers ok_c.byte_keys tt)
            (when Distinct c.first c.headers ok_c.distinct tt) ok_c.seq
            (λ v. rtt_read-IsU16 (c.seq % 5 == 0) now v ok_c.now_in_range)
          ∙ rw (
            packet_flags-flags_header c.originator (c.seq % 5 == 0) (c.first && non_empty c.headers)
                chunked beat,
            or_zero-rtt_read (c.seq % 5 == 0) now,
          ))

marshall-chunk_payload :
    (ch : Channel) (c : ChunkInput) (now : ℕ)
    → IsSendable c now
    → (head size body : List ℕ) (chunked beat : Bool)
    → let p = chunk_payload c c.circuit_id head size body chunked beat in
      let packet = sent c now head size body chunked beat in
      marshall ch now p
      ≡ ok (
        record { content_type = ch.content_type_raw; headers = []; body = packet },
        record p { raw = some packet },
      )
unfolding marshall
marshall-chunk_payload ch c now ok_c head size body chunked beat =
    rw (stamp-raw_chunk c now ok_c head size body chunked beat)

-- The packet of a chunk that Write laid out, stamped by Marshall, is unmarshalled to the same
-- payload: circuit id, flags, sequence, headers and data come back, the RTT is the stamp on every
-- fifth packet and 0 on the others, and `raw` is the packet. The MTU is below 2^31, the circuit id
-- has at most 15 bytes, the sequence and the time fit their words, and the header keys are distinct
-- bytes.
pub receive-build_chunk :
    (ch : Channel) (read_v2 : List ℕ → Outcome WireError Message) (c : ChunkInput)
    (out : ChunkOutput) (now : ℕ)
    → IsSendable c now
    → build_chunk c ≡ ok out
    → (packet : List ℕ) × (marshall ch now out.payload
        ≡ ok (
          record { content_type = ch.content_type_raw; headers = []; body = packet },
          record out.payload { raw = some packet },
        ))
      × (receive ch read_v2 packet ≡ ok (arrived c now out.payload packet))
receive-build_chunk ch read_v2 c out now ok_c e =
    let l : Layout c out = build_chunk-Layout c out e in
    let room = room_for_headers c - length l.head in
    let size = size_part c room in
    let body = body_part c room in
    let beat = l.filled.heartbeat in
    let packet = sent c now l.head size body out.chunked beat in
    (
      packet,
      subst
          (λ p.
            marshall ch now p
            ≡ ok (
              record { content_type = ch.content_type_raw; headers = []; body = packet },
              record p { raw = some packet },
            ))
          (sym l.filled.is_payload)
          (marshall-chunk_payload ch c now ok_c l.head size body out.chunked beat),
      subst (λ p. receive ch read_v2 packet ≡ ok (arrived c now p packet)) (sym l.filled.is_payload)
          (receive-sent c now ok_c l.head size body out.chunked beat ch read_v2 (room_for_headers c)
            (omega (arith, l.headers_fit, ok_c.mtu)) l.is_head),
    )
