-- ===== src/Xgress/Chunks.antt =====
-- xgress/xgress.go: Xgress.Write splits a buffer into chunks, and the loop of Xgress.tx puts the
-- chunks of a buffer together again.
pub mod Layouts
pub mod Pieces
pub mod Reassembly
pub mod WholeWrite
use sdk_golang.Common.{
  ℕ, zero, suc, ◌+◌, ◌-◌, ◌*◌, ◌%◌, ◌^◌, Bool, true, false, ◌&&◌, ◌||◌, Option, none, some, List,
  [], ◌∷◌, ◌++◌, ltb, leb, ◌==◌, if◌then◌else◌, length, take, drop, replicate,
}
use sdk_golang.Common.Outcome.{Outcome, ok, err, panic, stuck, ◌>>=◌, ◌>>◌, in_bounds}
use sdk_golang.Common.Binary.{got, short, overflowed, uvarint}
use sdk_golang.Xgress.Messages.{Originator, Payload, is_flag_set, set_originator_flag, flag_chunk}
use sdk_golang.Xgress.Wire.{WireError}
use sdk_golang.Xgress.Wire.Write.{ChunkInput, ChunkOutput, build_chunk, non_empty}

-- The fields of the Xgress that Write reads.
pub record Writer : Type 0 where
  pub mtu : ℕ
  pub originator : Originator
  pub circuit_id : List ℕ

pub data WriteError : Type 0 where
  write_closed deadline_exceeded : WriteError
  encoding : WireError → WriteError

-- The receive sequence, the payloads that were forwarded, in order, and how the write ended.
pub record WriteRun : Type 0 where
  pub rx_sequence : ℕ
  pub forwarded : List Payload
  pub status : Outcome WriteError (Unit {0})

-- nextReceiveSequence: the sequence to use, and the counter behind it.
unfoldable pub next_receive_sequence : ℕ → ℕ × ℕ
next_receive_sequence seq = (seq, (seq + 1) % 2 ^ 64)

abbrev pub chunk_input : Writer → List (ℕ × List ℕ) → ℕ → ℕ → Bool → Bool → List ℕ → ChunkInput
chunk_input w headers total seq first chunked buffer = record {
  mtu = w.mtu;
  originator = w.originator;
  circuit_id = w.circuit_id;
  seq = seq;
  first = first;
  chunked = chunked;
  total = total;
  headers = headers;
  buffer = buffer;
}

module _ (forward : Payload → Outcome WriteError (Unit {0})) where
  -- The loop of Write. `forward` is forwardPayload: it buffers the payload and hands it to the data
  -- plane, or says why it cannot.
  unfoldable pub write_loop :
      ℕ → Writer → List (ℕ × List ℕ) → ℕ → Bool → Bool → List ℕ → ℕ → List Payload → WriteRun
  write_loop zero w headers total first chunked buffer seq sent = record {
    rx_sequence = seq;
    forwarded = sent;
    status = stuck;
  }
  write_loop (suc fuel) w headers total first chunked buffer seq sent =
      let (this, later) = next_receive_sequence seq in
      let round : WriteRun =
        elim (build_chunk (chunk_input w headers total this first chunked buffer)) [
          | ok out ↦ elim (forward out.payload) [
            | ok _ ↦
                write_loop fuel w headers total false out.chunked out.buffer later
                  (sent ++ out.payload ∷ [])
            | err e ↦ record { rx_sequence = later; forwarded = sent; status = err e }
            | panic ↦ record { rx_sequence = later; forwarded = sent; status = panic }
            | stuck ↦ record { rx_sequence = later; forwarded = sent; status = stuck }
          ]
          | err e ↦ record { rx_sequence = later; forwarded = sent; status = err (encoding e) }
          | panic ↦ record { rx_sequence = later; forwarded = sent; status = panic }
          | stuck ↦ record { rx_sequence = later; forwarded = sent; status = stuck }
        ] in
      if non_empty buffer || (first && non_empty headers)
      then round
      else record { rx_sequence = seq; forwarded = sent; status = ok tt }

  -- sendUnchunkedBuffer
  unfoldable pub send_unchunked_buffer : Writer → List ℕ → List (ℕ × List ℕ) → ℕ → WriteRun
  send_unchunked_buffer w buffer headers seq =
      let (this, later) = next_receive_sequence seq in
      let payload : Payload = record {
        circuit_id = w.circuit_id;
        flags = set_originator_flag 0 w.originator;
        rtt = 0;
        sequence = this % 2 ^ 32;
        headers = headers;
        payload_data = buffer;
        raw = none;
      } in
      elim (forward payload) [
        | ok _ ↦ record { rx_sequence = later; forwarded = payload ∷ []; status = ok tt }
        | err e ↦ record { rx_sequence = later; forwarded = []; status = err e }
        | panic ↦ record { rx_sequence = later; forwarded = []; status = panic }
        | stuck ↦ record { rx_sequence = later; forwarded = []; status = stuck }
      ]

  -- Xgress.Write. The first round may move no byte of the buffer, each later one at least one, so
  -- two rounds more than the buffer's length are enough.
  unfoldable pub write : Bool → Writer → List ℕ → List (ℕ × List ℕ) → ℕ → WriteRun
  write closed w buffer headers seq =
      if closed
      then record { rx_sequence = seq; forwarded = []; status = err write_closed }
      else if w.mtu == 0
      then send_unchunked_buffer w buffer headers seq
      else write_loop (suc (suc (length buffer))) w headers (length buffer) true false buffer seq []

-- The variables of the loop in tx that live from one chunk to the next; payloadComplete is false
-- between the rounds.
pub record Assembly : Type 0 where
  pub started : Bool
  pub size : ℕ
  pub write_offset : ℕ
  pub payload : Option Payload

abbrev pub idle : Assembly
idle = record { started = false; size = 0; write_offset = 0; payload = none }

-- What a round of tx does: the new variables, the payload that it sends, if it is complete, and how
-- many bytes it takes off the receive buffer's size.
pub record TxRound : Type 0 where
  pub assembly : Assembly
  pub sent : Option Payload
  pub cleared : ℕ

-- copy(dst[k:], src): the slice panics where k is past the end.
abbrev pub copy_at : ℕ → List ℕ → List ℕ → List ℕ
copy_at k dst src = take k dst ++ (take (length (drop k dst)) src ++ drop (length src) (drop k dst))

-- A chunk's bytes go into the payload at the write offset; the payload is sent once the offset has
-- reached its size.
unfoldable pub absorb : Payload → ℕ → ℕ → Payload → List ℕ → Outcome WireError TxRound
absorb payload size offset chunk bytes = do
  in_bounds (leb offset (length payload.payload_data))
  let filled = record payload { payload_data = copy_at offset payload.payload_data bytes }
  let reached = offset + length bytes
  ok (
      if reached == size
      then record { assembly = idle; sent = some filled; cleared = length chunk.payload_data }
      else record {
        assembly = record {
          started = true;
          size = size;
          write_offset = reached;
          payload = some filled;
        };
        sent = none;
        cleared = length chunk.payload_data;
      })

-- The first chunk of a buffer announces the buffer's size. Where the chunk holds all of it, the
-- payload is the chunk itself, cut in place: `payload.Data = payload.Data[payloadReadOffset:]` also
-- shortens what is cleared. `max_alloc` is what make([]byte, n) can give.
unfoldable pub begin : ℕ → Payload → ℕ → ℕ → Outcome WireError TxRound
unfolding absorb
begin max_alloc chunk size read_offset =
    let cut : Payload = record chunk { payload_data = drop read_offset chunk.payload_data } in
    if length chunk.payload_data == 0
      || ((size + read_offset) % 2 ^ 64 == length chunk.payload_data)
    then in_bounds (leb read_offset (length chunk.payload_data))
      >> ok (record { assembly = idle; sent = some cut; cleared = length cut.payload_data })
    else in_bounds (leb size max_alloc)
      >> absorb (record chunk { payload_data = replicate size 0; raw = none }) size 0 chunk
          cut.payload_data

-- One round of the loop in tx up to sendPayload and clearPayloadFromSendBuffer.
unfoldable pub tx_round : ℕ → Assembly → Payload → Outcome WireError TxRound
unfolding is_flag_set begin absorb
tx_round max_alloc a chunk =
    if is_flag_set chunk.flags flag_chunk
    then elim a.started [
      | true ↦ elim a.payload [
        | none ↦ panic
        | some payload ↦ absorb payload a.size a.write_offset chunk chunk.payload_data
      ]
      | false ↦ elim (uvarint chunk.payload_data) [
        | got size n ↦ begin max_alloc chunk size n
        | short ↦ begin max_alloc chunk 0 0
        | overflowed n ↦ panic
      ]
    ]
    else ok (record { assembly = a; sent = some chunk; cleared = length chunk.payload_data })

abbrev pub append_sent : Option Payload → List Payload → List Payload
append_sent none sent = sent
append_sent (some p) sent = p ∷ sent

-- The payloads that tx sends to the peer for a sequence of chunks, and the variables at the end.
unfoldable pub tx_all : ℕ → Assembly → List Payload → Outcome WireError (Assembly × List Payload)
unfolding tx_round
tx_all max_alloc a [] = ok (a, [])
tx_all max_alloc a (chunk ∷ chunks) = tx_round max_alloc a chunk >>= (λ r.
    tx_all max_alloc r.assembly chunks >>= (λ done. ok (done.0, append_sent r.sent done.1)))
