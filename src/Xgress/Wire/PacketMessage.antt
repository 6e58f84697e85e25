-- ===== src/Xgress/Wire/PacketMessage.antt =====
-- UnmarshallPayload on the message that UnmarshallPacketPayload makes.
use sdk_golang.Common.{
  ℕ, ◌%◌, ◌^◌, ◌≤◌, ◌<◌, ◌≡◌, refl, ◌∙◌, false, List, [], inl, inr, arith, ◌==◌, if◌then◌else◌,
  Bool-cases, Option, none, some,
}
use sdk_golang.Common.Words.{IsU16, IsU32, IsU64}
use sdk_golang.Common.Map.{lookup, insert, lookup-insert, Distinct}
use sdk_golang.Common.Outcome.{ok}
use sdk_golang.Xgress.Channel.{Channel, Message, get_header, put_header}
use sdk_golang.Xgress.Messages.{set_payload_flag}
use sdk_golang.Xgress.Messages.Codec.{collect_headers, unmarshall_payload, or_zero}
use sdk_golang.Xgress.Messages.Payloads.{
  ByteKeys, collect_headers-insert, collect-add_payload_headers, lookup-add_payload_headers,
  unmarshall_known,
}
use sdk_golang.Xgress.Wire.{
  header_key_circuit_id, header_key_sequence, header_key_flags, header_key_rtt, header_payload_raw,
  content_type_payload,
}
use sdk_golang.Xgress.Wire.Read.{
  Packet, packet_message, packet_flags, put_heartbeat, put_flags, put_rtt, add_payload_headers,
}

packet_flags_small : (f : ℕ) → IsU32 (packet_flags f)
packet_flags_small f = unfold set_payload_flag in ground arith

module _ (ch : Channel) where
  heartbeat_elsewhere : (k : ℕ) → 2000 ≤ k → k ≤ 2261 → (ch.heartbeat_header == k) ≡ false
  heartbeat_elsewhere k lo hi = ground (arith, ch.heartbeat_apart)

  lookup-put_heartbeat :
      (k : ℕ) (h : Option ℕ) (msg : Message)
      → 2000 ≤ k
      → k ≤ 2261
      → lookup k (put_heartbeat ch h msg).headers ≡ lookup k msg.headers
  unfolding put_heartbeat
  lookup-put_heartbeat k none msg lo hi = refl
  lookup-put_heartbeat k (some beat) msg lo hi =
      simp lookup-insert (rw (heartbeat_elsewhere k lo hi))

  lookup-put_flags :
      (k flags : ℕ) (msg : Message)
      → lookup k (put_flags ch flags msg).headers ≡ (
          if flags == 0
          then lookup k msg.headers
          else if header_key_flags == k
          then some (ch.bytes_of_uint32 flags)
          else lookup k msg.headers)
  unfolding put_flags
  lookup-put_flags k flags msg = elim (Bool-cases (flags == 0)) [
    | inl unset ↦ rw unset
    | inr set ↦ rw set (simp lookup-insert)
  ]

  lookup-put_rtt :
      (k : ℕ) (r : Option ℕ) (msg : Message)
      → (header_key_rtt == k) ≡ false
      → lookup k (put_rtt ch r msg).headers ≡ lookup k msg.headers
  unfolding put_rtt
  lookup-put_rtt k none msg other = refl
  lookup-put_rtt k (some rtt) msg other = simp lookup-insert (rw other)

  collect-put_heartbeat :
      (h : Option ℕ) (msg : Message) (acc : List (ℕ × List ℕ))
      → collect_headers (put_heartbeat ch h msg).headers acc ≡ collect_headers msg.headers acc
  unfolding put_heartbeat
  collect-put_heartbeat none msg acc = refl
  collect-put_heartbeat (some beat) msg acc =
      collect_headers-insert ch.heartbeat_header _ msg.headers acc
        (ground (arith, ch.heartbeat_apart))

  collect-put_flags :
      (flags : ℕ) (msg : Message) (acc : List (ℕ × List ℕ))
      → collect_headers (put_flags ch flags msg).headers acc ≡ collect_headers msg.headers acc
  unfolding put_flags
  collect-put_flags flags msg acc = elim (Bool-cases (flags == 0)) [
    | inl unset ↦ rw unset
    | inr set ↦ rw set (collect_headers-insert header_key_flags _ msg.headers acc refl)
  ]

  collect-put_rtt :
      (r : Option ℕ) (msg : Message) (acc : List (ℕ × List ℕ))
      → collect_headers (put_rtt ch r msg).headers acc ≡ collect_headers msg.headers acc
  unfolding put_rtt
  collect-put_rtt none msg acc = refl
  collect-put_rtt (some rtt) msg acc = collect_headers-insert header_key_rtt _ msg.headers acc refl

  or_zero_rtt :
      (r : Option ℕ) (msg : Message)
      → lookup header_key_rtt msg.headers ≡ none
      → ((v : ℕ) → r ≡ some v → IsU16 v)
      → or_zero (get_header ch.uint16_of_bytes header_key_rtt (put_rtt ch r msg)) ≡ or_zero r
  unfolding put_rtt
  or_zero_rtt none msg e small = rw (e, or_zero)
  or_zero_rtt (some rtt) msg e small = ground (
    arith,
    lookup-insert header_key_rtt header_key_rtt (ch.bytes_of_uint16 rtt) msg.headers,
    ch.get_put_uint16 rtt (small rtt refl),
  )

  or_zero_flags :
      (flags : ℕ) (msg : Message)
      → IsU32 flags
      → lookup header_key_flags msg.headers ≡ none
      → or_zero (get_header ch.uint32_of_bytes header_key_flags (put_flags ch flags msg)) ≡ flags
  unfolding put_flags
  or_zero_flags flags msg small e = elim (Bool-cases (flags == 0)) [
    | inl unset ↦ rw (unset, or_zero) (rw (e, or_zero) (ground arith))
    | inr set ↦ rw set (
        ground (
          arith,
          lookup-insert header_key_flags header_key_flags (ch.bytes_of_uint32 flags) msg.headers,
          ch.get_put_uint32 flags small,
        ))
  ]

-- The headers that every packet has.
numbered : Channel → Packet → Message
numbered ch p = put_header header_key_sequence (ch.bytes_of_uint64 p.seq) (
    put_header header_key_circuit_id (ch.bytes_of_string p.circuit_id) (record {
      content_type = content_type_payload;
      headers = add_payload_headers p.headers [];
      body = p.body;
    }))

whole : Channel → List ℕ → Packet → Message
whole ch buf p = put_header header_payload_raw buf (put_heartbeat ch p.heartbeat (numbered ch p))

module _ (ch : Channel) (f : ℕ) (buf : List ℕ) (p : Packet) where
  packet_message-layers :
      packet_message ch f buf p
      ≡ put_rtt ch p.packet_rtt (put_flags ch (packet_flags f) (whole ch buf p))
  unfolding packet_message whole numbered
  packet_message-layers = refl

  lookup-flagged :
      (k : ℕ)
      → (header_key_flags == k) ≡ false
      → lookup k (put_flags ch (packet_flags f) (whole ch buf p)).headers
        ≡ lookup k (whole ch buf p).headers
  lookup-flagged k other =
      lookup-put_flags ch k (packet_flags f) (whole ch buf p) ∙ rw other (ground arith)

  lookup-packet_message :
      (k : ℕ)
      → (header_key_rtt == k) ≡ false
      → (header_key_flags == k) ≡ false
      → lookup k (packet_message ch f buf p).headers ≡ lookup k (whole ch buf p).headers
  lookup-packet_message k hr hf =
      rw packet_message-layers (lookup-put_rtt ch k p.packet_rtt _ hr ∙ lookup-flagged k hf)

  lookup-whole :
      (k : ℕ)
      → 2000 ≤ k
      → k < 2261
      → lookup k (whole ch buf p).headers ≡ lookup k (numbered ch p).headers
  unfolding whole
  lookup-whole k lo hi =
      lookup-insert header_payload_raw k buf (put_heartbeat ch p.heartbeat (numbered ch p)).headers
      ∙ ground (arith, lookup-put_heartbeat ch k p.heartbeat (numbered ch p) lo (omega arith))

  lookup-numbered :
      (k : ℕ) → ByteKeys p.headers → 2258 ≤ k → lookup k (numbered ch p).headers ≡ none
  unfolding numbered
  lookup-numbered k b hi = ground (
    arith,
    lookup-insert header_key_sequence k (ch.bytes_of_uint64 p.seq) (
        insert header_key_circuit_id (ch.bytes_of_string p.circuit_id)
          (add_payload_headers p.headers [])),
    lookup-insert header_key_circuit_id k (ch.bytes_of_string p.circuit_id)
        (add_payload_headers p.headers []),
    lookup-add_payload_headers p.headers [] k b (inr (omega arith)),
  )

  collect-packet_message :
      ByteKeys p.headers
      → Distinct p.headers
      → collect_headers (packet_message ch f buf p).headers [] ≡ p.headers
  unfolding whole numbered
  collect-packet_message b d = rw packet_message-layers (
      collect-put_rtt ch p.packet_rtt _ []
      ∙ collect-put_flags ch (packet_flags f) _ []
      ∙ collect_headers-insert header_payload_raw buf _ [] refl
      ∙ collect-put_heartbeat ch p.heartbeat _ []
      ∙ collect_headers-insert header_key_sequence _ _ [] refl
      ∙ collect_headers-insert header_key_circuit_id _ _ [] refl
      ∙ collect-add_payload_headers p.headers b d)

  body-packet_message : (packet_message ch f buf p).body ≡ p.body
  unfolding packet_message put_heartbeat put_flags put_rtt
  body-packet_message = ground arith

held_circuit_id :
    (ch : Channel) (p : Packet)
    → lookup header_key_circuit_id (numbered ch p).headers ≡ some p.circuit_id
unfolding numbered
held_circuit_id ch p = simp lookup-insert (rw (ch.string_as_bytes p.circuit_id))

held_sequence :
    (ch : Channel) (p : Packet)
    → lookup header_key_sequence (numbered ch p).headers ≡ some (ch.bytes_of_uint64 p.seq)
unfolding numbered
held_sequence ch p = simp lookup-insert

held_raw :
    (ch : Channel) (buf : List ℕ) (p : Packet)
    → lookup header_payload_raw (whole ch buf p).headers ≡ some buf
unfolding whole
held_raw ch buf p = simp lookup-insert

-- A packet with a heartbeat or not, an RTT or not, gives a payload with the fields that it holds.
pub unmarshall-packet_message :
    (ch : Channel) (f : ℕ) (buf : List ℕ) (p : Packet)
    → ByteKeys p.headers
    → Distinct p.headers
    → IsU64 p.seq
    → ((v : ℕ) → p.packet_rtt ≡ some v → IsU16 v)
    → unmarshall_payload ch (packet_message ch f buf p)
      ≡ ok (record {
        circuit_id = p.circuit_id;
        flags = packet_flags f;
        rtt = or_zero p.packet_rtt;
        sequence = p.seq % 2 ^ 32;
        headers = p.headers;
        payload_data = p.body;
        raw = some buf;
      })
unmarshall-packet_message ch f buf p b d small timed =
    unmarshall_known ch (packet_message ch f buf p) p.circuit_id (ch.bytes_of_uint64 p.seq) p.seq
      (packet_flags f) (or_zero p.packet_rtt) p.headers (some buf)
      (lookup-packet_message ch f buf p _ refl refl
        ∙ lookup-whole ch f buf p _ (omega arith) (omega arith)
        ∙ held_circuit_id ch p)
      (lookup-packet_message ch f buf p _ refl refl
        ∙ lookup-whole ch f buf p _ (omega arith) (omega arith)
        ∙ held_sequence ch p)
      (ch.get_put_uint64 p.seq small) flags rtt (collect-packet_message ch f buf p b d)
      (lookup-packet_message ch f buf p _ refl refl ∙ held_raw ch buf p)
    ∙ rw (body-packet_message ch f buf p)
  where
    absent : (k : ℕ) → 2258 ≤ k → k < 2261 → lookup k (whole ch buf p).headers ≡ none
    absent k lo hi = lookup-whole ch f buf p k (omega arith) hi ∙ lookup-numbered ch f buf p k b lo

    flags :
        or_zero (get_header ch.uint32_of_bytes header_key_flags (packet_message ch f buf p))
        ≡ packet_flags f
    flags =
        rw
          (
            packet_message-layers ch f buf p,
            lookup-put_rtt ch header_key_flags p.packet_rtt _ refl,
            get_header,
          )
          (or_zero_flags ch (packet_flags f) (whole ch buf p) (packet_flags_small f)
            (absent header_key_flags (omega arith) (omega arith)))

    rtt :
        or_zero (get_header ch.uint16_of_bytes header_key_rtt (packet_message ch f buf p))
        ≡ or_zero p.packet_rtt
    rtt = rw (packet_message-layers ch f buf p) (
        or_zero_rtt ch p.packet_rtt _
          (lookup-flagged ch f buf p header_key_rtt refl
            ∙ absent header_key_rtt (omega arith) (omega arith))
          timed)
