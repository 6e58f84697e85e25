-- ===== src/Xgress/Chunks/WholeWrite.antt =====
-- A buffer goes through Write and tx and arrives as one payload.
use sdk_golang.Common.{
  ℕ, suc, ◌+◌, ◌-◌, ◌%◌, ◌^◌, ◌≤◌, ◌<◌, ◌≡◌, refl, sym, ap, ◌∙◌, inl, inr, Bool, true, false, ◌||◌,
  none, List, [], ◌∷◌, ◌++◌, arith, ltb, leb, ◌==◌, length, take_all, length-append, length-take,
  Bool-cases, ltb→lt, drop-append,
}
use sdk_golang.Common.Outcome.{ok}
use sdk_golang.Common.Binary.{uvarint_bytes, uvarint-uvarint_bytes, length-uvarint_bytes}
use sdk_golang.Xgress.Messages.{Payload, is_flag_set, flag_chunk}
use sdk_golang.Xgress.Wire.Write.{ChunkInput, ChunkOutput, build_chunk, non_empty}
use sdk_golang.Xgress.Wire.Layout.{size_part}
use sdk_golang.Xgress.Chunks.{
  Writer, WriteRun, write_loop, write, chunk_input, idle, begin, tx_round, tx_all,
}
use sdk_golang.Xgress.Chunks.Layouts.{build_chunk_returns}
use sdk_golang.Xgress.Chunks.Pieces.{
  Piece, build_chunk-Piece, with_data, open_assembly, absorb_piece, accept,
}
use sdk_golang.Xgress.Chunks.Reassembly.{write_loop_round, Rest, Rest-of_write}

-- The first chunk of a buffer that it cannot hold opens a payload of the announced size.
tx_round_opening :
    (max_alloc n : ℕ) (q : Payload) (body : List ℕ)
    → is_flag_set q.flags flag_chunk ≡ true
    → length body < n
    → n < 2 ^ 63
    → n ≤ max_alloc
    → tx_round max_alloc idle (with_data q (uvarint_bytes n ++ body))
      ≡ ok (record {
        assembly = open_assembly (record q { raw = none }) body (n - length body);
        sent = none;
        cleared = length (uvarint_bytes n ++ body);
      })
unfolding tx_round begin
tx_round_opening max_alloc n q body flagged partial small fits =
    let size = uvarint_bytes n in
    let (lo, hi) = length-uvarint_bytes n in
    let long : length (size ++ body) ≡ length size + length body = length-append size body in
    let some_data : (length (size ++ body) == 0) ≡ false = ground arith in
    let not_whole : ((n + length size) % 2 ^ 64 == length (size ++ body)) ≡ false = ground arith in
    let enough : leb n max_alloc ≡ true = ground arith in
    let part : (length body == n) ≡ false = ground arith in
    rw (flagged, uvarint-uvarint_bytes n body (omega arith))
      (rw (some_data, not_whole, enough, drop-append size body)
        (absorb_piece (record q { raw = none }) (with_data q (size ++ body)) [] body n n
            (omega arith) (omega arith)
          ∙ rw part))

tx_round_first :
    (max_alloc n : ℕ) (chunk : Payload) (body : List ℕ)
    → is_flag_set chunk.flags flag_chunk ≡ true
    → chunk.payload_data ≡ uvarint_bytes n ++ body
    → length body < n
    → n < 2 ^ 63
    → n ≤ max_alloc
    → (cleared : ℕ) × (tx_round max_alloc idle chunk
        ≡ ok (record {
          assembly = open_assembly (record chunk { raw = none }) body (n - length body);
          sent = none;
          cleared = cleared;
        }))
tx_round_first max_alloc n chunk body flagged is_data partial small fits = (
  length (uvarint_bytes n ++ body),
  ap (λ d. tx_round max_alloc idle (with_data chunk d)) is_data
      ∙ tx_round_opening max_alloc n chunk body flagged partial small fits,
)

pub record Arrives (run : WriteRun) (max_alloc : ℕ) (w : Writer) (buffer : List ℕ)
    (headers : List (ℕ × List ℕ)) : Type 0 where
  pub status : run.status ≡ ok tt
  pub payload : Payload
  pub received : tx_all max_alloc idle run.forwarded ≡ ok (idle, payload ∷ [])
  pub is_data : payload.payload_data ≡ buffer
  pub is_headers : payload.headers ≡ headers
  pub is_circuit_id : payload.circuit_id ≡ w.circuit_id

tx_all_plain :
    (max_alloc : ℕ) (chunk : Payload)
    → is_flag_set chunk.flags flag_chunk ≡ false
    → tx_all max_alloc idle (chunk ∷ []) ≡ ok (idle, chunk ∷ [])
unfolding tx_all
tx_all_plain max_alloc chunk plain = rw plain

empty_of_length : (l : List ℕ) → length l ≡ 0 → l ≡ []
empty_of_length [] h = refl
empty_of_length (x ∷ xs) h = absurd (omega arith)

write_loop_done :
    (fuel : ℕ) (w : Writer) (headers : List (ℕ × List ℕ)) (total : ℕ) (chunked : Bool) (seq : ℕ)
    (sent : List Payload)
    → write_loop accept (suc fuel) w headers total false chunked [] seq sent
      ≡ record { rx_sequence = seq; forwarded = sent; status = ok tt }
unfolding write_loop
write_loop_done fuel w headers total chunked seq sent = refl

abbrev pub first_input : Writer → List (ℕ × List ℕ) → List ℕ → ℕ → ChunkInput
first_input w headers buffer seq = chunk_input w headers (length buffer) seq true false buffer

-- The rounds behind the first.
abbrev rest_run : ℕ → Writer → List (ℕ × List ℕ) → List ℕ → ℕ → ChunkOutput → WriteRun
rest_run fuel w headers buffer seq out =
    write_loop accept (suc fuel) w headers (length buffer) false out.chunked out.buffer
      ((seq + 1) % 2 ^ 64) (out.payload ∷ [])

split_lengths :
    (c : ChunkInput) (out : ChunkOutput) (q : Piece c out)
    → length q.body + length out.buffer ≡ length c.buffer
split_lengths c out q = sym (length-append q.body out.buffer) ∙ ap length q.is_split

-- The first chunk holds the whole buffer: it is the payload.
Arrives-unchunked :
    (fuel max_alloc : ℕ) (w : Writer) (headers : List (ℕ × List ℕ)) (buffer : List ℕ) (seq : ℕ)
    (out : ChunkOutput) (q : Piece (first_input w headers buffer seq) out)
    → ltb q.room (length buffer) ≡ false
    → Arrives (rest_run fuel w headers buffer seq out) max_alloc w buffer headers
Arrives-unchunked fuel max_alloc w headers buffer seq out q whole =
    let c = first_input w headers buffer seq in
    let all : q.body ≡ buffer = q.is_body ∙ rw whole (take_all _ buffer (ground (arith, whole))) in
    let empty : out.buffer ≡ [] =
      empty_of_length out.buffer (omega (arith, split_lengths c out q, ap length all)) in
    let plain : out.chunked ≡ false = q.is_chunked ∙ rw whole in
    rw (empty, write_loop_done fuel w headers (length buffer) out.chunked)
      (record {
        status = refl;
        payload = out.payload;
        received = tx_all_plain max_alloc out.payload (q.is_flag ∙ plain);
        is_data = q.is_data ∙ rw whole all;
        is_headers = q.is_headers;
        is_circuit_id = q.is_circuit_id;
      })

-- The round that opens a payload, in front of the rounds that complete it.
tx_all_opened :
    (max_alloc : ℕ) (p chunk : Payload) (chunks : List Payload) (body later : List ℕ) (cleared : ℕ)
    → tx_round max_alloc idle chunk
      ≡ ok (record {
        assembly = open_assembly p body (length later);
        sent = none;
        cleared = cleared;
      })
    → tx_all max_alloc (open_assembly p body (length later)) chunks
      ≡ ok (idle, with_data p (body ++ later) ∷ [])
    → tx_all max_alloc idle (chunk ∷ chunks) ≡ ok (idle, with_data p (body ++ later) ∷ [])
unfolding tx_all
tx_all_opened max_alloc p chunk chunks body later cleared opened rest = rw (opened, rest)

-- The first chunk announces the size, and later ones bring the rest.
Arrives-chunked :
    (fuel max_alloc : ℕ) (w : Writer) (headers : List (ℕ × List ℕ)) (buffer : List ℕ) (seq : ℕ)
    (out : ChunkOutput) (q : Piece (first_input w headers buffer seq) out)
    → length buffer ≤ fuel
    → length buffer < 2 ^ 63
    → length buffer ≤ max_alloc
    → length w.circuit_id + 25 ≤ w.mtu
    → ltb q.room (length buffer) ≡ true
    → Arrives (rest_run fuel w headers buffer seq out) max_alloc w buffer headers
Arrives-chunked fuel max_alloc w headers buffer seq out q enough small fits wide split =
    let c = first_input w headers buffer seq in
    let n = length buffer in
    let p : Payload = record out.payload { raw = none } in
    let partial : length q.body < n = omega (
      arith,
      ap length q.is_body,
      length-take (q.room - length (size_part c q.room)) buffer,
      ltb→lt _ _ split,
    ) in
    let chunked : out.chunked ≡ true = q.is_chunked ∙ rw split in
    let left : n - length q.body ≡ length out.buffer = omega (arith, split_lengths c out q) in
    let (cleared, opened) =
      tx_round_first max_alloc n out.payload q.body (q.is_flag ∙ chunked) (q.is_data ∙ rw split)
        partial small fits in
    let r : Rest _ (out.payload ∷ []) out.buffer max_alloc p q.body =
      Rest-of_write (suc fuel) w headers n out.buffer ((seq + 1) % 2 ^ 64) (out.payload ∷ [])
        max_alloc p q.body (omega (arith, split_lengths c out q)) wide in
    rw (chunked, r.forwarded)
      (record {
        status = r.status;
        payload = with_data p (q.body ++ out.buffer);
        received =
            tx_all_opened max_alloc p out.payload r.chunks q.body out.buffer cleared
              (opened ∙ rw left)
              (r.some_left (λ h. absurd (omega (arith, split_lengths c out q, ap length h))));
        is_data = q.is_split;
        is_headers = q.is_headers;
        is_circuit_id = q.is_circuit_id;
      })

-- For an Xgress that is not closed and forwards every payload: when there is a buffer or a header,
-- the first chunk can be laid out, the circuit id leaves 25 bytes of the MTU, and the buffer has
-- fewer than 2^63 bytes and can be allocated, then Write succeeds, and the chunks that it forwards
-- make an idle tx send one payload, with the buffer, the headers and the circuit id, and be idle
-- again.
pub arrives :
    (max_alloc : ℕ) (w : Writer) (headers : List (ℕ × List ℕ)) (buffer : List ℕ) (seq : ℕ)
    (out : ChunkOutput)
    → build_chunk (first_input w headers buffer seq) ≡ ok out
    → (non_empty buffer || non_empty headers) ≡ true
    → length w.circuit_id + 25 ≤ w.mtu
    → length buffer < 2 ^ 63
    → length buffer ≤ max_alloc
    → Arrives (write accept false w buffer headers seq) max_alloc w buffer headers
unfolding write
arrives max_alloc w headers buffer seq out laid_out some_work wide small fits =
    let q : Piece (first_input w headers buffer seq) out =
      build_chunk-Piece (first_input w headers buffer seq) out laid_out in
    let split_on : (w.mtu == 0) ≡ false = ground arith in
    rw
      (
        split_on,
        write_loop_round (suc (length buffer)) w headers (length buffer) true false buffer seq []
            out some_work laid_out,
      )
      (elim (Bool-cases (ltb q.room (length buffer))) [
        | inl split ↦
            Arrives-chunked (length buffer) max_alloc w headers buffer seq out q (omega arith) small
              fits wide split
        | inr whole ↦ Arrives-unchunked (length buffer) max_alloc w headers buffer seq out q whole
      ])

-- Without headers the first chunk can always be laid out: for an Xgress that is not closed and
-- forwards every payload, Write of a buffer that is not empty, has fewer than 2^63 bytes and can be
-- allocated succeeds when the circuit id leaves 25 bytes of the MTU, and tx sends one payload for
-- it, with the buffer and the circuit id.
pub Arrives-bare :
    (max_alloc : ℕ) (w : Writer) (buffer : List ℕ) (seq : ℕ)
    → non_empty buffer ≡ true
    → length w.circuit_id + 25 ≤ w.mtu
    → length buffer < 2 ^ 63
    → length buffer ≤ max_alloc
    → Arrives (write accept false w buffer [] seq) max_alloc w buffer []
Arrives-bare max_alloc w buffer seq some_work wide small fits =
    let (out, laid_out) = build_chunk_returns (first_input w [] buffer seq) refl wide in
    arrives max_alloc w [] buffer seq out laid_out (rw some_work) wide small fits
