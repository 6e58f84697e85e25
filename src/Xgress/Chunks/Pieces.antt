-- ===== src/Xgress/Chunks/Pieces.antt =====
-- A chunk of Write as a piece of its buffer, and what a round of tx does with such a piece.
use sdk_golang.Common.{
  ℕ, zero, suc, ◌+◌, ◌-◌, ◌≤◌, ◌<◌, ◌≡◌, refl, ap, ◌∙◌, inl, inr, Bool, true, false, ◌&&◌, ◌||◌,
  none, some, List, [], ◌∷◌, ◌++◌, arith, ltb, leb, ◌==◌, if◌then◌else◌, length, take, drop,
  replicate, take_all, length-take, length-append, take-append, drop-append, length-replicate,
  Bool-cases,
}
use sdk_golang.Common.Outcome.{Outcome, ok, ok-injective}
use sdk_golang.Common.Binary.{length-uvarint_bytes}
use sdk_golang.Xgress.Messages.{
  Payload, Originator, is_flag_set, set_payload_flag, set_originator_flag, flag_chunk,
}
use sdk_golang.Xgress.Wire.Write.{ChunkInput, ChunkOutput, build_chunk, non_empty}
use sdk_golang.Xgress.Wire.Layout.{
  Layout, Filled, build_chunk-Layout, rtt_size, room_for_headers, size_part, body_part,
}
use sdk_golang.Xgress.Chunks.{WriteError, Assembly, idle, copy_at, absorb, tx_round}
use mathlib.Core.List.{append_assoc, append-nil}

pub take_split {ℓ} :
    {A : Type ℓ} (k : ℕ) (xs : List A) → take k xs ++ drop (length (take k xs)) xs ≡ xs
take_split zero xs = refl
take_split (suc k) [] = refl
take_split (suc k) (x ∷ xs) = rw (take_split k xs)

-- A chunk takes a piece off the front of the buffer, behind the size on a first chunk that cannot
-- hold the buffer.
pub record Piece (c : ChunkInput) (out : ChunkOutput) : Type 0 where
  pub room : ℕ
  pub body : List ℕ
  pub is_body : body ≡ body_part c room
  pub is_data : out.payload.payload_data ≡ size_part c room ++ body
  pub is_split : body ++ out.buffer ≡ c.buffer
  pub is_chunked : out.chunked ≡ (c.first && ltb room (length c.buffer) || c.chunked)
  pub is_flag : is_flag_set out.payload.flags flag_chunk ≡ out.chunked
  pub is_headers : out.payload.headers ≡ (if c.first then c.headers else [])
  pub is_circuit_id : out.payload.circuit_id ≡ c.circuit_id
  pub size_fits : length (size_part c room) ≤ room
  pub has_room :
      (c.first && non_empty c.headers) ≡ false → length c.circuit_id + 25 ≤ c.mtu → 11 ≤ room

chunk_flag :
    (o : Originator) (chunked : Bool)
    → is_flag_set
        (if chunked
          then set_payload_flag (set_originator_flag 0 o) flag_chunk
          else set_originator_flag 0 o)
        flag_chunk
      ≡ chunked
unfolding is_flag_set set_payload_flag set_originator_flag
chunk_flag o chunked = ground arith

pub build_chunk-Piece : (c : ChunkInput) (out : ChunkOutput) → build_chunk c ≡ ok out → Piece c out
build_chunk-Piece c out e =
    let l : Layout c out = build_chunk-Layout c out e in
    let room = room_for_headers c - length l.head in
    let f : Filled c l.head room out = l.filled in
    record {
      room = room;
      body = body_part c room;
      is_body = refl;
      is_data = ap (λ (p : Payload). p.payload_data) f.is_payload;
      is_split = rw f.is_buffer (take_split _ c.buffer);
      is_chunked = f.is_chunked;
      is_flag =
          ap (λ (p : Payload). is_flag_set p.flags flag_chunk) f.is_payload
          ∙ chunk_flag c.originator out.chunked;
      is_headers = ap (λ (p : Payload). p.headers) f.is_payload;
      is_circuit_id = ap (λ (p : Payload). p.circuit_id) f.is_payload;
      size_fits = f.size_fits;
      has_room = λ bare wide.
          let empty : [] ≡ l.head = ok-injective (rw bare at l.is_head) in
          let rtt : rtt_size c ≤ 2 = ground arith in
          omega (arith, ap length empty, length-uvarint_bytes c.seq, rtt);
    }

drop-replicate : (k m : ℕ) → drop {A = ℕ} k (replicate m 0) ≡ replicate (m - k) 0
drop-replicate zero m = let e : m - 0 ≡ m = omega arith in rw e
drop-replicate (suc k) zero = let e : 0 - suc k ≡ 0 = omega arith in rw e
drop-replicate (suc k) (suc m) =
    let e : suc m - suc k ≡ m - k = omega arith in rw e (drop-replicate k m)

-- Bytes that fit behind what is there.
pub copy_at_lem :
    (done bytes : List ℕ) (m : ℕ)
    → length bytes ≤ m
    → copy_at (length done) (done ++ replicate m 0) bytes
      ≡ (done ++ bytes) ++ replicate (m - length bytes) 0
copy_at_lem done bytes m h =
    let whole : take (length {A = ℕ} (replicate m 0)) bytes ≡ bytes =
      take_all _ bytes (omega (arith, length-replicate {A = ℕ} m 0)) in
    rw (
      take-append done (replicate m 0),
      drop-append done (replicate m 0),
      whole,
      drop-replicate (length bytes) m,
      append_assoc done bytes (replicate (m - length bytes) 0),
    )

abbrev pub with_data : Payload → List ℕ → Payload
with_data p d = record p { payload_data = d }

-- The variables of tx when `done` is written of a buffer that has `m` bytes more.
abbrev pub open_assembly : Payload → List ℕ → ℕ → Assembly
open_assembly p done m = record {
  started = true;
  size = length done + m;
  write_offset = length done;
  payload = some (with_data p (done ++ replicate m 0));
}

-- A piece that fits goes behind what is done, and the payload is sent when it is the last.
pub absorb_piece :
    (p chunk : Payload) (done bytes : List ℕ) (m size : ℕ)
    → length bytes ≤ m
    → size ≡ length done + m
    → absorb (with_data p (done ++ replicate m 0)) size (length done) chunk bytes
      ≡ ok (
          if length bytes == m
          then record {
            assembly = idle;
            sent = some (with_data p (done ++ bytes));
            cleared = length chunk.payload_data;
          }
          else record {
            assembly = open_assembly p (done ++ bytes) (m - length bytes);
            sent = none;
            cleared = length chunk.payload_data;
          })
unfolding absorb
absorb_piece p chunk done bytes m size h whole = elim (Bool-cases (length bytes == m)) [
  | inl last ↦
      let test : (length done + length bytes == size) ≡ true = ground arith in
      let none_left : m - length bytes ≡ 0 = ground arith in
      rw (fits, test, last, copy_at_lem done bytes m h, none_left, append-nil (done ++ bytes))
  | inr more ↦
      let test : (length done + length bytes == size) ≡ false = ground arith in
      let offset : length (done ++ bytes) ≡ length done + length bytes = length-append done bytes in
      let total : length done + length bytes + (m - length bytes) ≡ size = ground arith in
      rw (fits, test, more, copy_at_lem done bytes m h, offset, total)
]
  where
    fits : leb (length done) (length (done ++ replicate m 0)) ≡ true
    fits = ground (arith, length-append done (replicate m 0))

abbrev pub accept : Payload → Outcome WriteError (Unit {0})
accept p = ok tt

-- A later chunk is a piece of the buffer and nothing else.
pub later_data :
    (c : ChunkInput) (out : ChunkOutput) (q : Piece c out)
    → c.first ≡ false
    → out.payload.payload_data ≡ q.body
later_data c out q later = q.is_data ∙ rw later

pub later_chunked :
    (c : ChunkInput) (out : ChunkOutput) (q : Piece c out) → c.chunked ≡ true → out.chunked ≡ true
later_chunked c out q h = ground (arith, q.is_chunked)

-- Each later chunk takes something of what is left.
pub later_progress :
    (c : ChunkInput) (out : ChunkOutput) (q : Piece c out)
    → c.first ≡ false
    → length c.circuit_id + 25 ≤ c.mtu
    → 0 < length c.buffer
    → 0 < length q.body
later_progress c out q later wide some_left =
    let roomy : 11 ≤ q.room = q.has_room (rw later) wide in
    let no_size : size_part c q.room ≡ [] = rw later in
    omega (
      arith,
      ap length q.is_body,
      length-take (q.room - length (size_part c q.room)) c.buffer,
      ap length no_size,
    )

pub tx_round_open :
    (max_alloc : ℕ) (p chunk : Payload) (done bytes : List ℕ) (m : ℕ)
    → is_flag_set chunk.flags flag_chunk ≡ true
    → chunk.payload_data ≡ bytes
    → tx_round max_alloc (open_assembly p done m) chunk
      ≡ absorb (with_data p (done ++ replicate m 0)) (length done + m) (length done) chunk bytes
unfolding tx_round
tx_round_open max_alloc p chunk done bytes m flagged is_bytes = rw (flagged, is_bytes)
