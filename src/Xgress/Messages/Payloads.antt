-- ===== src/Xgress/Messages/Payloads.antt =====
-- A payload without a packet form goes through Marshall and UnmarshallPayload: all but the round
-- trip time, which Marshall takes from the clock, comes back.
use sdk_golang.Common.{
  ℕ, ◌+◌, ◌-◌, ◌%◌, ◌^◌, ◌<◌, ◌≡◌, refl, ap, List, [], ◌∷◌, ◌++◌, All, ◌==◌, if◌then◌else◌, arith,
  Bool-cases, Option, none, some, ◌&&◌, leb, true, false, ◌∙◌, map, sym, ◌⊎◌, inl, inr,
}
use sdk_golang.Common.Words.{IsU16, IsU32}
use sdk_golang.Common.Map.{
  lookup, insert, lookup-insert, Distinct, Apart, insert_absent, Apart-append_one, Apart-nil,
}
use sdk_golang.Common.Outcome.{Outcome, ok}
use sdk_golang.Xgress.Messages.{Payload}
use sdk_golang.Xgress.Channel.{Channel, Message, get_header}
use sdk_golang.Xgress.Wire.{
  WireError, min_header_key, max_header_key, header_key_circuit_id, header_key_sequence,
  header_key_flags, header_key_rtt, header_payload_raw,
}
use sdk_golang.Xgress.Wire.Read.{add_payload_headers}
use sdk_golang.Xgress.Messages.Codec.{
  collect_headers, marshall_fields, unmarshall_payload, extend_int32, or_zero,
}
use mathlib.Core.List.{append_assoc, append-nil, map-append}

-- Keys of Payload.Headers are bytes.
abbrev pub ByteKeys : List (ℕ × List ℕ) → Type 0
ByteKeys = All (λ e. e.0 < 256)

-- A header that is not one of the payload's own is passed over.
pub collect_headers-insert :
    (k : ℕ) (v : List ℕ) (m acc : List (ℕ × List ℕ))
    → (leb min_header_key k && leb k max_header_key) ≡ false
    → collect_headers (insert k v m) acc ≡ collect_headers m acc
unfolding collect_headers
collect_headers-insert k v [] acc h = rw h
collect_headers-insert k v ((j, w) ∷ m) acc h = ground (
  arith,
  collect_headers-insert k v m acc h,
  collect_headers-insert k v m (insert (j - min_header_key) w acc) h,
)

abbrev shift : ℕ × List ℕ → ℕ × List ℕ
shift e = (min_header_key + e.0, e.1)

lookup-shift :
    (k : ℕ) (m : List (ℕ × List ℕ)) → lookup (min_header_key + k) (map shift m) ≡ lookup k m
lookup-shift k [] = refl
lookup-shift k ((j, w) ∷ m) = ground (arith, lookup-shift k m)

-- On a fresh message the headers go behind those that are there.
add_payload_headers-shift :
    (hs pre : List (ℕ × List ℕ))
    → Distinct hs
    → Apart pre hs
    → add_payload_headers hs (map shift pre) ≡ map shift (pre ++ hs)
unfolding add_payload_headers
add_payload_headers-shift [] pre d a = rw (append-nil pre)
add_payload_headers-shift ((k, v) ∷ hs) pre d a =
    let grown : insert (min_header_key + k) v (map shift pre) ≡ map shift (pre ++ (k, v) ∷ []) =
      insert_absent (min_header_key + k) v (map shift pre) (lookup-shift k pre ∙ a.0)
      ∙ sym (map-append shift pre ((k, v) ∷ [])) in
    ap (add_payload_headers hs) grown
    ∙ add_payload_headers-shift hs (pre ++ (k, v) ∷ []) d.1 (Apart-append_one k v pre hs d.0 a.1)
    ∙ ap (map shift) (append_assoc pre ((k, v) ∷ []) hs)

collect_headers-shift :
    (hs acc : List (ℕ × List ℕ))
    → ByteKeys hs
    → Distinct hs
    → Apart acc hs
    → collect_headers (map shift hs) acc ≡ acc ++ hs
unfolding collect_headers
collect_headers-shift [] acc b d a = rw (append-nil acc)
collect_headers-shift ((k, v) ∷ hs) acc b d a =
    let own : (leb 2000 (2000 + k) && leb (2000 + k) 2255) ≡ true = ground (arith, b.0) in
    let key : 2000 + k - 2000 ≡ k = omega arith in
    let kept : (if leb 2000 (2000 + k) && leb (2000 + k) 2255
          then insert (2000 + k - 2000) v acc
          else acc)
        ≡ acc ++ (k, v) ∷ [] =
      rw (own, key) (insert_absent k v acc a.0) in
    ap (collect_headers (map shift hs)) kept
    ∙ collect_headers-shift hs (acc ++ (k, v) ∷ []) b.1 d.1 (Apart-append_one k v acc hs d.0 a.1)
    ∙ append_assoc acc ((k, v) ∷ []) hs

-- The headers of a payload survive the message's header map.
pub collect-add_payload_headers :
    (hs : List (ℕ × List ℕ))
    → ByteKeys hs
    → Distinct hs
    → collect_headers (add_payload_headers hs []) [] ≡ hs
collect-add_payload_headers hs b d =
    ap (λ m. collect_headers m []) (add_payload_headers-shift hs [] d (Apart-nil hs))
    ∙ collect_headers-shift hs [] b d (Apart-nil hs)

-- Keys outside the range are not there.
pub lookup-add_payload_headers :
    (hs into : List (ℕ × List ℕ)) (k : ℕ)
    → ByteKeys hs
    → k < 2000 ⊎ (2255 < k)
    → lookup k (add_payload_headers hs into) ≡ lookup k into
unfolding add_payload_headers
lookup-add_payload_headers [] into k b h = refl
lookup-add_payload_headers ((j, v) ∷ hs) into k b h =
    lookup-add_payload_headers hs (insert (min_header_key + j) v into) k b.1 h
    ∙ ground (arith, lookup-insert (min_header_key + j) k v into, b.0)

pub record IsInRange (p : Payload) : Type 0 where
  pub flags : IsU32 p.flags
  pub sequence : IsU32 p.sequence
  pub byte_keys : ByteKeys p.headers
  pub distinct : Distinct p.headers

-- UnmarshallPayload on a message whose headers are known.
pub unmarshall_known :
    (ch : Channel) (msg : Message) (id seq : List ℕ) (n flags rtt : ℕ) (hs : List (ℕ × List ℕ))
    (packet : Option (List ℕ))
    → lookup header_key_circuit_id msg.headers ≡ some id
    → lookup header_key_sequence msg.headers ≡ some seq
    → ch.uint64_of_bytes seq ≡ some n
    → or_zero (get_header ch.uint32_of_bytes header_key_flags msg) ≡ flags
    → or_zero (get_header ch.uint16_of_bytes header_key_rtt msg) ≡ rtt
    → collect_headers msg.headers [] ≡ hs
    → lookup header_payload_raw msg.headers ≡ packet
    → unmarshall_payload ch msg
      ≡ ok (record {
        circuit_id = id;
        flags = flags;
        rtt = rtt;
        sequence = n % 2 ^ 32;
        headers = hs;
        payload_data = msg.body;
        raw = packet;
      })
unfolding unmarshall_payload
unmarshall_known ch msg id seq n flags rtt hs packet eid eseq en eflags ertt ehs epacket =
    rw (eid, unmarshall_payload) (rw (eseq, get_header) (rw (en, eflags, ertt, ehs, epacket)))

abbrev written : Channel → ℕ → Payload → ℕ → Option (List ℕ)
written ch now p k = lookup k (marshall_fields ch now p).headers

module _ (ch : Channel) (now : ℕ) (p : Payload) (b : ByteKeys p.headers) where
  written_circuit_id : written ch now p header_key_circuit_id ≡ some p.circuit_id
  unfolding marshall_fields
  written_circuit_id = elim (Bool-cases (p.flags == 0)) [
    | inl unset ↦ rw unset (simp lookup-insert)
    | inr set ↦ rw set (simp lookup-insert)
  ]

  written_sequence :
      written ch now p header_key_sequence ≡ some (ch.bytes_of_uint64 (extend_int32 p.sequence))
  unfolding marshall_fields
  written_sequence = simp lookup-insert

  written_rtt : written ch now p header_key_rtt ≡ some (ch.bytes_of_uint16 now)
  unfolding marshall_fields
  written_rtt = simp lookup-insert

  written_flags :
      written ch now p header_key_flags
      ≡ (if p.flags == 0 then none else some (ch.bytes_of_uint32 p.flags))
  unfolding marshall_fields
  written_flags = elim (Bool-cases (p.flags == 0)) [
    | inl unset ↦
        rw unset (simp lookup-insert (lookup-add_payload_headers p.headers [] _ b (omega arith)))
    | inr set ↦ rw set (simp lookup-insert)
  ]

  written_raw : written ch now p header_payload_raw ≡ none
  unfolding marshall_fields
  written_raw = elim (Bool-cases (p.flags == 0)) [
    | inl unset ↦
        rw unset (simp lookup-insert (lookup-add_payload_headers p.headers [] _ b (omega arith)))
    | inr set ↦
        rw set (simp lookup-insert (lookup-add_payload_headers p.headers [] _ b (omega arith)))
  ]

  written_headers :
      Distinct p.headers → collect_headers (marshall_fields ch now p).headers [] ≡ p.headers
  unfolding marshall_fields
  written_headers d = elim (Bool-cases (p.flags == 0)) [
    | inl unset ↦
        rw
          (
            unset,
            collect_headers-insert header_key_rtt,
            collect_headers-insert header_key_sequence,
            collect_headers-insert header_key_circuit_id,
          )
          (collect-add_payload_headers p.headers b d)
    | inr set ↦
        rw
          (
            set,
            collect_headers-insert header_key_rtt,
            collect_headers-insert header_key_sequence,
            collect_headers-insert header_key_flags,
            collect_headers-insert header_key_circuit_id,
          )
          (collect-add_payload_headers p.headers b d)
  ]

extend_int32-lt : (s : ℕ) → IsU32 s → extend_int32 s < 2 ^ 64
extend_int32-lt s h = ground arith

extend_int32-mod : (s : ℕ) → IsU32 s → extend_int32 s % 2 ^ 32 ≡ s
extend_int32-mod s h = ground arith

-- A payload without raw bytes whose fields fit their Go types, with distinct bytes as header keys,
-- is unmarshalled as it was marshalled, with the 16-bit time of the marshalling as its round trip
-- time.
pub unmarshall-marshall_fields :
    (ch : Channel) (now : ℕ) (p : Payload)
    → p.raw ≡ none
    → IsU16 now
    → IsInRange p
    → unmarshall_payload ch (marshall_fields ch now p) ≡ ok (record p { rtt = now })
unmarshall-marshall_fields ch now p unpacked small r =
    unmarshall_known ch (marshall_fields ch now p) p.circuit_id _ (extend_int32 p.sequence) p.flags
      now p.headers none (written_circuit_id ch now p r.byte_keys)
      (written_sequence ch now p r.byte_keys)
      (ch.get_put_uint64 (extend_int32 p.sequence) (extend_int32-lt p.sequence r.sequence)) flags
      rtt (written_headers ch now p r.byte_keys r.distinct) (written_raw ch now p r.byte_keys)
    ∙ same_fields
  where
    flags :
        or_zero (get_header ch.uint32_of_bytes header_key_flags (marshall_fields ch now p))
        ≡ p.flags
    flags =
        rw (written_flags ch now p r.byte_keys, get_header)
          (ground (arith, ch.get_put_uint32 p.flags r.flags))

    rtt : or_zero (get_header ch.uint16_of_bytes header_key_rtt (marshall_fields ch now p)) ≡ now
    rtt =
        rw (written_rtt ch now p r.byte_keys, get_header)
          (ground (arith, ch.get_put_uint16 now small))

    same_fields :
        ◌≡◌ {A = Outcome WireError Payload}
          (ok (record {
            circuit_id = p.circuit_id;
            flags = p.flags;
            rtt = now;
            sequence = extend_int32 p.sequence % 2 ^ 32;
            headers = p.headers;
            payload_data = (marshall_fields ch now p).body;
            raw = none;
          }))
          (ok (record p { rtt = now }))
    same_fields =
        unfold marshall_fields in ground (arith, unpacked, extend_int32-mod p.sequence r.sequence)
