-- ===== src/Xgress/Chunks/Reassembly.antt =====
-- What Write splits, tx puts together: the whole of a buffer arrives as one payload.
use sdk_golang.Common.{
  ℕ, zero, suc, ◌+◌, ◌-◌, ◌%◌, ◌^◌, ◌≤◌, ◌<◌, ◌≡◌, refl, sym, ap, ◌∙◌, Bool, true, false, ◌&&◌,
  ◌||◌, none, List, [], ◌∷◌, ◌++◌, arith, ◌==◌, length, length-append, ◌≢◌,
}
use sdk_golang.Common.Outcome.{ok, ◌>>=◌}
use sdk_golang.Xgress.Messages.{Payload, is_flag_set, flag_chunk}
use sdk_golang.Xgress.Wire.Write.{ChunkOutput, build_chunk, non_empty}
use sdk_golang.Xgress.Chunks.{
  Writer, WriteRun, write_loop, chunk_input, idle, tx_all, append_sent, next_receive_sequence,
}
use sdk_golang.Xgress.Chunks.Layouts.{build_chunk_returns}
use sdk_golang.Xgress.Chunks.Pieces.{
  Piece, build_chunk-Piece, with_data, open_assembly, absorb_piece, accept, later_data,
  later_chunked, later_progress, tx_round_open,
}
use mathlib.Core.List.{append_assoc, append-nil}

-- One round of Write whose chunk is laid out and forwarded.
pub write_loop_round :
    (fuel : ℕ) (w : Writer) (headers : List (ℕ × List ℕ)) (total : ℕ) (first chunked : Bool)
    (buffer : List ℕ) (seq : ℕ) (sent : List Payload) (out : ChunkOutput)
    → (non_empty buffer || (first && non_empty headers)) ≡ true
    → build_chunk (chunk_input w headers total seq first chunked buffer) ≡ ok out
    → write_loop accept (suc fuel) w headers total first chunked buffer seq sent
      ≡ write_loop accept fuel w headers total false out.chunked out.buffer
          ((seq + 1) % 2 ^ 64)
          (sent ++ out.payload ∷ [])
unfolding write_loop next_receive_sequence
write_loop_round fuel w headers total first chunked buffer seq sent out more e =
    rw (more, e, write_loop)

-- What is left of a chunked write: the chunks that it forwards complete an open payload.
pub record Rest (run : WriteRun) (sent : List Payload) (buffer : List ℕ) (max_alloc : ℕ)
    (p : Payload) (done : List ℕ) : Type 0 where
  pub chunks : List Payload
  pub forwarded : run.forwarded ≡ sent ++ chunks
  pub status : run.status ≡ ok tt
  pub none_left : buffer ≡ [] → chunks ≡ []
  pub some_left :
      buffer ≢ []
      → tx_all max_alloc (open_assembly p done (length buffer)) chunks
        ≡ ok (idle, with_data p (done ++ buffer) ∷ [])

-- The piece that closes the payload.
tx_all_last :
    (max_alloc : ℕ) (p chunk : Payload) (done bytes : List ℕ)
    → is_flag_set chunk.flags flag_chunk ≡ true
    → chunk.payload_data ≡ bytes
    → tx_all max_alloc (open_assembly p done (length bytes)) (chunk ∷ [])
      ≡ ok (idle, with_data p (done ++ bytes) ∷ [])
unfolding tx_all
tx_all_last max_alloc p chunk done bytes flagged is_bytes =
    let all : (length bytes == length bytes) ≡ true = ground arith in
    rw (
      tx_round_open max_alloc p chunk done bytes (length bytes) flagged is_bytes,
      absorb_piece p chunk done bytes (length bytes) (length done + length bytes) (omega arith)
          refl,
      all,
    )

-- A piece with more to come.
tx_all_piece :
    (max_alloc : ℕ) (p chunk : Payload) (chunks : List Payload) (done bytes : List ℕ) (m : ℕ)
    → is_flag_set chunk.flags flag_chunk ≡ true
    → chunk.payload_data ≡ bytes
    → 0 < m
    → tx_all max_alloc (open_assembly p done (length bytes + m)) (chunk ∷ chunks) ≡ (
        tx_all max_alloc (open_assembly p (done ++ bytes) m) chunks
        >>= (λ r. ok (r.0, append_sent none r.1)))
unfolding tx_all
tx_all_piece max_alloc p chunk chunks done bytes m flagged is_bytes some_more =
    let part : (length bytes == length bytes + m) ≡ false = ground arith in
    let left : length bytes + m - length bytes ≡ m = omega arith in
    rw (
      tx_round_open max_alloc p chunk done bytes (length bytes + m) flagged is_bytes,
      absorb_piece p chunk done bytes (length bytes + m) (length done + (length bytes + m))
          (omega arith) refl,
      part,
      left,
    )

-- A piece in front of a rest.
join-Rest :
    (run : WriteRun) (sent : List Payload) (b : List ℕ) (max_alloc : ℕ) (p : Payload)
    (done : List ℕ) (chunk : Payload) (body later : List ℕ)
    → is_flag_set chunk.flags flag_chunk ≡ true
    → chunk.payload_data ≡ body
    → body ++ later ≡ b
    → b ≢ []
    → Rest run (sent ++ chunk ∷ []) later max_alloc p (done ++ body)
    → Rest run sent b max_alloc p done
join-Rest run sent b max_alloc p done chunk body [] flagged is_body split non_nil r = record {
  chunks = chunk ∷ r.chunks;
  forwarded = r.forwarded ∙ append_assoc sent (chunk ∷ []) r.chunks;
  status = r.status;
  none_left = λ e. absurd (non_nil e);
  some_left = λ ne.
      let same : body ≡ b = sym (append-nil body) ∙ split in
      rw (r.none_left refl, ← same) (tx_all_last max_alloc p chunk done body flagged is_body);
}
join-Rest run sent b max_alloc p done chunk body (y ∷ ys) flagged is_body split non_nil r = record {
  chunks = chunk ∷ r.chunks;
  forwarded = r.forwarded ∙ append_assoc sent (chunk ∷ []) r.chunks;
  status = r.status;
  none_left = λ e. absurd (non_nil e);
  some_left = λ ne.
      rw (← split, length-append body (y ∷ ys))
        (tx_all_piece max_alloc p chunk r.chunks done body (length (y ∷ ys)) flagged is_body
            (omega arith)
          ∙ rw (r.some_left (λ h. cc), append_assoc done body (y ∷ ys)));
}

pub Rest-of_write :
    (fuel : ℕ) (w : Writer) (headers : List (ℕ × List ℕ)) (total : ℕ) (b : List ℕ) (seq : ℕ)
    (sent : List Payload) (max_alloc : ℕ) (p : Payload) (done : List ℕ)
    → length b < fuel
    → length w.circuit_id + 25 ≤ w.mtu
    → Rest (write_loop accept fuel w headers total false true b seq sent) sent b max_alloc p done
Rest-of_write zero w headers total b seq sent max_alloc p done enough wide = elim enough [ ]
Rest-of_write (suc fuel) w headers total [] seq sent max_alloc p done enough wide =
    unfold write_loop in
    record {
      chunks = [];
      forwarded = sym (append-nil sent);
      status = refl;
      none_left = λ _. refl;
      some_left = λ ne. absurd (ne refl);
    }
Rest-of_write (suc fuel) w headers total (x ∷ xs) seq sent max_alloc p done enough wide =
    let b = x ∷ xs in
    let c = chunk_input w headers total seq false true b in
    let (out, e) = build_chunk_returns c refl wide in
    let q : Piece c out = build_chunk-Piece c out e in
    let chunked : out.chunked ≡ true = later_chunked c out q refl in
    let progress : 0 < length q.body = later_progress c out q refl wide (omega arith) in
    let lengths : length q.body + length out.buffer ≡ length b =
      sym (length-append q.body out.buffer) ∙ ap length q.is_split in
    let rest : Rest _ _ _ _ _ _ =
      Rest-of_write fuel w headers total out.buffer ((seq + 1) % 2 ^ 64) (sent ++ out.payload ∷ [])
        max_alloc p (done ++ q.body) (omega arith) wide in
    rw (write_loop_round fuel w headers total false true b seq sent out refl e, chunked)
      (join-Rest _ sent b max_alloc p done out.payload q.body out.buffer (q.is_flag ∙ chunked)
        (later_data c out q refl) q.is_split (λ h. cc) rest)
