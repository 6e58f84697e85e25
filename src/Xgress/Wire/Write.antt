-- ===== src/Xgress/Wire/Write.antt =====
-- The writer's side of a packet: the part of Xgress.Write in xgress/xgress.go that lays a chunk
-- out, and the header map's writer.
use sdk_golang.Common.{
  ℕ, ◌-◌, ◌*◌, ◌%◌, ◌^◌, Bool, true, false, ◌&&◌, ◌||◌, some, List, [], ◌∷◌, ◌++◌, bit_and, bit_or,
  ltb, leb, ◌==◌, if◌then◌else◌, length, take, drop, replicate,
}
use sdk_golang.Common.Outcome.{Outcome, ok, err, ◌>>=◌, ◌>>◌, in_bounds}
use sdk_golang.Common.Binary.{uvarint_bytes}
use sdk_golang.Xgress.Messages.{
  Originator, initiator, terminator, Payload, set_originator_flag, set_payload_flag, flag_chunk,
}
use sdk_golang.Xgress.Wire.{
  WireError, header_key_no_space, header_value_no_space, version_mask, terminator_flag_mask,
  rtt_flag_mask, chunk_flag_mask, headers_flag_mask, heartbeat_flag_mask, circuit_id_size_mask,
}

-- `cap` is what is left of the buffer; PutUvarint panics where it does not fit.
unfoldable pub write_entries : List (ℕ × List ℕ) → ℕ → Outcome WireError (List ℕ)
write_entries [] cap = ok []
write_entries ((k, v) ∷ m) cap =
    let size = uvarint_bytes (length v) in
    let rest = write_entries m (cap - 1 - length size - length v) in
    if ltb cap 10 then err header_key_no_space else do
      in_bounds (leb (length size) (cap - 1))
      if ltb (cap - 1 - length size) (length v)
          then err header_value_no_space
          else rest >>= λ bytes. ok (k ∷ (size ++ (v ++ bytes)))

-- writeU8ToBytesMap, with the bytes that it writes.
unfoldable pub write_u8_to_bytes_map : List (ℕ × List ℕ) → ℕ → Outcome WireError (List ℕ)
write_u8_to_bytes_map m cap = do
  let count = uvarint_bytes (length m)
  in_bounds (leb (length count) cap)
  entries ← write_entries m (cap - length count)
  ok (count ++ entries)

originator_mask : Originator → ℕ → ℕ
originator_mask initiator flags = flags
originator_mask terminator flags = bit_or flags terminator_flag_mask

-- The first byte of a packet. It starts from `VersionMask & (PayloadProtocolV1 << 1)`.
unfoldable pub flags_header : Originator → Bool → Bool → Bool → Bool → ℕ
unfolding originator_mask
flags_header o rtt headers chunked heartbeat =
    let version = bit_and version_mask (1 * 2 ^ 1) in
    let origin = originator_mask o version in
    let with_rtt = if rtt then bit_or origin rtt_flag_mask else origin in
    let with_headers = if headers then bit_or with_rtt headers_flag_mask else with_rtt in
    let with_chunk = if chunked then bit_or with_headers chunk_flag_mask else with_headers in
    if heartbeat then bit_or with_chunk heartbeat_flag_mask else with_chunk

-- What a chunk is made from: the fields of the Xgress and the variables of the loop in Write.
pub record ChunkInput : Type 0 where
  pub mtu : ℕ
  pub originator : Originator
  pub circuit_id : List ℕ
  pub seq : ℕ
  pub first : Bool
  pub chunked : Bool
  pub total : ℕ
  pub headers : List (ℕ × List ℕ)
  pub buffer : List ℕ

-- The payload of the chunk, whether the write is chunked from here on, and the buffer that is left.
pub record ChunkOutput : Type 0 where
  pub payload : Payload
  pub chunked : Bool
  pub buffer : List ℕ

abbrev pub non_empty {ℓ} : {A : Type ℓ} → List A → Bool
non_empty [] = false
non_empty (x ∷ xs) = true

-- The raw bytes of a chunk from its parts.
abbrev pub raw_chunk : ChunkInput → List ℕ → List ℕ → List ℕ → List ℕ → Bool → Bool → List ℕ
raw_chunk c id head size body chunked heartbeat =
    flags_header c.originator (c.seq % 5 == 0) (c.first && non_empty c.headers) chunked heartbeat
    ∷ (bit_and circuit_id_size_mask (length id % 256)
        ∷ ((if c.seq % 5 == 0 then 0 ∷ 0 ∷ [] else [])
            ++ (id
                ++ (uvarint_bytes c.seq
                    ++ (head ++ (size ++ (body ++ (if heartbeat then replicate 8 0 else []))))))))

abbrev pub chunk_payload : ChunkInput → List ℕ → List ℕ → List ℕ → List ℕ → Bool → Bool → Payload
chunk_payload c id head size body chunked heartbeat = record {
  circuit_id = c.circuit_id;
  flags =
      if chunked
      then set_payload_flag (set_originator_flag 0 c.originator) flag_chunk
      else set_originator_flag 0 c.originator;
  rtt = 0;
  sequence = c.seq % 2 ^ 32;
  headers = if c.first then c.headers else [];
  payload_data = size ++ body;
  raw = some (raw_chunk c id head size body chunked heartbeat);
}

-- Behind the header map: the size of the whole buffer on a first chunk that cannot hold it, the
-- data, and a heartbeat where eight bytes are left. `cap` is what is left of the chunk.
unfoldable pub fill_chunk : ChunkInput → List ℕ → List ℕ → ℕ → Outcome WireError ChunkOutput
fill_chunk c id head cap = do
  let split = c.first && ltb cap (length c.buffer)
  let size = if split then uvarint_bytes c.total else []
  in_bounds (leb (length size) cap)
  let body = take (cap - length size) c.buffer
  let heartbeat = leb 8 (cap - length size - length body)
  ok (record {
    payload = chunk_payload c id head size body (split || c.chunked) heartbeat;
    chunked = split || c.chunked;
    buffer = drop (length body) c.buffer;
  })

-- The header map and what stands behind it, with `room` bytes left.
unfoldable pub chunk_tail : ChunkInput → List ℕ → ℕ → Outcome WireError ChunkOutput
chunk_tail c id room = do
  head ← if c.first && non_empty c.headers then write_u8_to_bytes_map c.headers room else ok []
  fill_chunk c id head (room - length head)

-- One round of the loop in Write, up to forwardPayload. `make([]byte, Mtu)` and each slice of it
-- panics where the MTU is too small.
unfoldable pub build_chunk : ChunkInput → Outcome WireError ChunkOutput
build_chunk c = do
  in_bounds (leb 2 c.mtu)
  let cap = c.mtu - 2
  let rtt : ℕ = if c.seq % 5 == 0 then 2 else 0
  in_bounds (leb rtt cap)
  let id = take (cap - rtt) c.circuit_id
  let after_id = cap - rtt - length id
  in_bounds (leb (length (uvarint_bytes c.seq)) after_id)
  chunk_tail c id (after_id - length (uvarint_bytes c.seq))
