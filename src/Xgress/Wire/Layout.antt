-- ===== src/Xgress/Wire/Layout.antt =====
-- What a chunk that Write lays out is made of.
use sdk_golang.Common.{
  ℕ, ◌-◌, ◌%◌, ◌≤◌, ◌<◌, ◌≡◌, refl, Bool, ◌&&◌, ◌||◌, List, [], arith, ltb, leb, ◌==◌,
  if◌then◌else◌, length, take, drop, take_all, length-take, leb→le,
}
use mathlib.Core.Path.{subst}
use sdk_golang.Common.Outcome.{ok, >>=-eq-ok, in_bounds-eq-ok, ok-injective}
use sdk_golang.Common.Binary.{uvarint_bytes, length-uvarint_bytes}
use sdk_golang.Xgress.Wire.Write.{
  ChunkInput, ChunkOutput, build_chunk, chunk_tail, fill_chunk, chunk_payload,
  write_u8_to_bytes_map, non_empty,
}

abbrev pub rtt_size : ChunkInput → ℕ
rtt_size c = if c.seq % 5 == 0 then 2 else 0

-- What is left of a chunk behind its fixed fields.
abbrev pub room_for_headers : ChunkInput → ℕ
room_for_headers c = c.mtu - 2 - rtt_size c - length c.circuit_id - length (uvarint_bytes c.seq)

-- The header part: the written map on a first chunk with headers, and nothing otherwise.
abbrev pub HeadOf : ChunkInput → ℕ → List ℕ → Type 0
HeadOf c room head =
    (if c.first && non_empty c.headers then write_u8_to_bytes_map c.headers room else ok [])
    ≡ ok head

abbrev pub size_part : ChunkInput → ℕ → List ℕ
size_part c room = if c.first && ltb room (length c.buffer) then uvarint_bytes c.total else []

-- The data of a chunk with `room` bytes for it.
abbrev pub body_part : ChunkInput → ℕ → List ℕ
body_part c room = take (room - length (size_part c room)) c.buffer

-- What `fill_chunk` returns where it does.
pub record Filled (c : ChunkInput) (head : List ℕ) (room : ℕ) (out : ChunkOutput) : Type 0 where
  pub heartbeat : Bool
  pub size_fits : length (size_part c room) ≤ room
  pub is_chunked : out.chunked ≡ (c.first && ltb room (length c.buffer) || c.chunked)
  pub is_payload :
      out.payload
      ≡ chunk_payload c c.circuit_id head
          (size_part c room)
          (body_part c room)
          out.chunked
          heartbeat
  pub is_buffer : out.buffer ≡ drop (length (body_part c room)) c.buffer

pub record Layout (c : ChunkInput) (out : ChunkOutput) : Type 0 where
  pub head : List ℕ
  pub headers_fit : room_for_headers c < c.mtu
  pub is_head : HeadOf c (room_for_headers c) head
  pub filled : Filled c head (room_for_headers c - length head) out

fill_chunk-Filled :
    (c : ChunkInput) (head : List ℕ) (room : ℕ) (out : ChunkOutput)
    → fill_chunk c c.circuit_id head room ≡ ok out
    → Filled c head room out
unfolding fill_chunk
fill_chunk-Filled c head room out e =
    let (fits, made) = in_bounds-eq-ok (leb (length (size_part c room)) room) _ e in
    subst (Filled c head room) (ok-injective made) (record {
      heartbeat = leb 8 (room - length (size_part c room) - length (body_part c room));
      size_fits = leb→le _ _ fits;
      is_chunked = refl;
      is_payload = refl;
      is_buffer = refl;
    })

pub whole_circuit_id :
    (room n : ℕ) (id : List ℕ) → 1 ≤ n → n ≤ room - length (take room id) → take room id ≡ id
whole_circuit_id room n id lo h = take_all room id (omega (arith, length-take room id))

abbrev pub id_part : ChunkInput → List ℕ
id_part c = take (c.mtu - 2 - rtt_size c) c.circuit_id

chunk_tail-Layout :
    (c : ChunkInput) (out : ChunkOutput)
    → room_for_headers c < c.mtu
    → chunk_tail c c.circuit_id (room_for_headers c) ≡ ok out
    → Layout c out
unfolding chunk_tail
chunk_tail-Layout c out fit e =
    let start =
      if c.first && non_empty c.headers
      then write_u8_to_bytes_map c.headers (room_for_headers c)
      else ok [] in
    let (head, is_head, filled) =
      >>=-eq-ok start (λ head. fill_chunk c c.circuit_id head (room_for_headers c - length head))
        e in
    record {
      head = head;
      headers_fit = fit;
      is_head = is_head;
      filled = fill_chunk-Filled c head (room_for_headers c - length head) out filled;
    }

-- A chunk that Write makes holds the whole circuit id, and has this layout.
pub build_chunk-Layout :
    (c : ChunkInput) (out : ChunkOutput) → build_chunk c ≡ ok out → Layout c out
unfolding build_chunk
build_chunk-Layout c out e =
    let (two, e1) = in_bounds-eq-ok (leb 2 c.mtu) _ e in
    let (_, e2) = in_bounds-eq-ok (leb (rtt_size c) (c.mtu - 2)) _ e1 in
    let (seq_fits, e3) =
      in_bounds-eq-ok
        (leb (length (uvarint_bytes c.seq)) (c.mtu - 2 - rtt_size c - length (id_part c))) _ e2 in
    let whole : id_part c ≡ c.circuit_id =
      whole_circuit_id (c.mtu - 2 - rtt_size c) _ c.circuit_id (length-uvarint_bytes c.seq).0
        (leb→le _ _ seq_fits) in
    chunk_tail-Layout c out (omega (arith, leb→le _ _ two)) (rw whole at e3)
