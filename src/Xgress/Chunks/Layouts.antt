-- ===== src/Xgress/Chunks/Layouts.antt =====
-- When Write lays a chunk out, and how far a chunk takes it.
use sdk_golang.Common.{
  ℕ, ◌+◌, ◌-◌, ◌≤◌, ◌≡◌, true, false, ◌&&◌, List, [], arith, leb, length, take_all,
}
use sdk_golang.Common.Outcome.{ok, in_bounds-returns}
use sdk_golang.Common.Binary.{uvarint_bytes, length-uvarint_bytes}
use sdk_golang.Xgress.Wire.Write.{
  ChunkInput, ChunkOutput, build_chunk, chunk_tail, fill_chunk, non_empty,
}
use sdk_golang.Xgress.Wire.Layout.{rtt_size, room_for_headers, size_part, id_part}

size_part-le : (c : ChunkInput) (room : ℕ) → length (size_part c room) ≤ 10
size_part-le c room = ground (arith, length-uvarint_bytes c.total)

fill_chunk_returns :
    (c : ChunkInput) (id head : List ℕ) (room : ℕ)
    → 10 ≤ room
    → (out : ChunkOutput) × (fill_chunk c id head room ≡ ok out)
unfolding fill_chunk
fill_chunk_returns c id head room h =
    in_bounds-returns (leb (length (size_part c room)) room) _ (ground (arith, size_part-le c room))

chunk_tail_returns :
    (c : ChunkInput) (id : List ℕ) (room : ℕ)
    → (c.first && non_empty c.headers) ≡ false
    → 10 ≤ room
    → (out : ChunkOutput) × (chunk_tail c id room ≡ ok out)
unfolding chunk_tail
chunk_tail_returns c id room bare h =
    let (out, e) = fill_chunk_returns c id [] (room - 0) (omega arith) in (out, rw bare e)

-- With room for the fixed fields, a size and one byte, a chunk without headers is laid out.
pub build_chunk_returns :
    (c : ChunkInput)
    → (c.first && non_empty c.headers) ≡ false
    → length c.circuit_id + 25 ≤ c.mtu
    → (out : ChunkOutput) × (build_chunk c ≡ ok out)
unfolding build_chunk
build_chunk_returns c bare h =
    let rtt : rtt_size c ≤ 2 = ground arith in
    let whole : id_part c ≡ c.circuit_id = take_all _ c.circuit_id (omega arith) in
    let (_, short) = length-uvarint_bytes c.seq in
    let (out, e) = chunk_tail_returns c c.circuit_id (room_for_headers c) bare (omega arith) in
    let two : leb 2 c.mtu ≡ true = ground arith in
    let rtt_fits : leb (rtt_size c) (c.mtu - 2) ≡ true = ground arith in
    let seq_fits : leb (length (uvarint_bytes c.seq)) (c.mtu - 2 - rtt_size c - length c.circuit_id)
        ≡ true =
      ground arith in
    (out, rw (two, rtt_fits, whole, seq_fits) e)
