-- ===== src/Xgress/Wire/HeaderMap.antt =====
-- The header map of a packet: readU8ToBytesMap undoes writeU8ToBytesMap.
use sdk_golang.Common.{
  ℕ, suc, ◌-◌, ◌^◌, ◌<◌, ◌≡◌, ◌∙◌, List, [], ◌∷◌, ◌++◌, arith, leb, length, take, drop, take-append,
  drop-append, length-append,
}
use sdk_golang.Common.Map.{insert, Distinct, Apart, insert_absent, Apart-append_one, Apart-nil}
use sdk_golang.Common.Outcome.{ok, >>=-eq-ok, in_bounds-eq-ok}
use sdk_golang.Common.Binary.{got, uvarint, uvarint_bytes, uvarint-uvarint_bytes}
use sdk_golang.Xgress.Wire.Write.{write_entries, write_u8_to_bytes_map}
use sdk_golang.Xgress.Wire.Read.{read_entries, read_u8_to_bytes_map}
use mathlib.Core.List.{append_assoc, append-nil}

read_entry :
    (count k size n : ℕ) (bs : List ℕ) (result : List (ℕ × List ℕ))
    → uvarint bs ≡ got size n
    → size < 2 ^ 63
    → size < suc (length (drop n bs))
    → read_entries (suc count) (k ∷ bs) result
      ≡ read_entries count (drop size (drop n bs)) (insert k (take size (drop n bs)) result)
unfolding read_entries
read_entry count k size n [] result e small fits = unfold uvarint in cc
read_entry count k size n (b ∷ bs) result e small fits = rw (e, read_entries) (ground arith)

-- One entry of the map as the writer lays it out.
read_written :
    (count k : ℕ) (v rest : List ℕ) (result : List (ℕ × List ℕ))
    → length v < 2 ^ 63
    → read_entries (suc count) (k ∷ (uvarint_bytes (length v) ++ (v ++ rest))) result
      ≡ read_entries count rest (insert k v result)
read_written count k v rest result small =
    let size = uvarint_bytes (length v) in
    let tail : drop (length size) (size ++ (v ++ rest)) ≡ v ++ rest =
      drop-append size (v ++ rest) in
    read_entry count k (length v) (length size) (size ++ (v ++ rest)) result
      (uvarint-uvarint_bytes (length v) (v ++ rest) (omega arith)) small
      (rw (tail, length-append v rest) (omega arith))
    ∙ rw (tail, take-append v rest, drop-append v rest)

-- What a successful write of one entry was made of.
write_entry :
    (k room : ℕ) (v : List ℕ) (m : List (ℕ × List ℕ)) (bytes : List ℕ)
    → write_entries ((k, v) ∷ m) room ≡ ok bytes
    → (behind : List ℕ) × (write_entries m (room - 1 - length (uvarint_bytes (length v)) - length v)
        ≡ ok behind)
      × (bytes ≡ k ∷ (uvarint_bytes (length v) ++ (v ++ behind)))
      × (length v < suc room)
unfolding write_entries
write_entry k room v m bytes e = ground (arith)

pub read_entries-write_entries :
    (m : List (ℕ × List ℕ)) (room : ℕ) (bytes rest : List ℕ) (result : List (ℕ × List ℕ))
    → room < 2 ^ 63
    → Distinct m
    → Apart result m
    → write_entries m room ≡ ok bytes
    → read_entries (length m) (bytes ++ rest) result ≡ ok (result ++ m, rest)
read_entries-write_entries [] room bytes rest result small d a e =
    unfold write_entries read_entries in ground (arith, append-nil result)
read_entries-write_entries ((k, v) ∷ m) room bytes rest result small d a e =
    let (behind, w, shape, fits) = write_entry k room v m bytes e in
    let size = uvarint_bytes (length v) in
    rw (shape, append_assoc size (v ++ behind) rest, append_assoc v behind rest)
      (read_written (length m) k v (behind ++ rest) result (omega arith)
        ∙ rw (insert_absent k v result a.0) (
            read_entries-write_entries m _ behind rest (result ++ (k, v) ∷ []) (omega arith) d.1
              (Apart-append_one k v result m d.0 a.1) w
            ∙ rw (append_assoc result ((k, v) ∷ []) m)))

written_map :
    (m : List (ℕ × List ℕ)) (room : ℕ) (bytes : List ℕ)
    → write_u8_to_bytes_map m room ≡ ok bytes
    → (entries : List ℕ) × (write_entries m (room - length (uvarint_bytes (length m))) ≡ ok entries)
      × (bytes ≡ uvarint_bytes (length m) ++ entries)
unfolding write_u8_to_bytes_map
written_map m room bytes e =
    let (_, body) = in_bounds-eq-ok (leb (length (uvarint_bytes (length m))) room) _ e in
    let (entries, w, f) = >>=-eq-ok _ _ body in (entries, w, ground arith)

-- Reading a header map that was written into fewer than 2^63 bytes gives the map and what stands
-- behind it, for a map with distinct keys and fewer than 2^64 entries.
pub read-write_u8_to_bytes_map :
    (m : List (ℕ × List ℕ)) (room : ℕ) (bytes rest : List ℕ)
    → room < 2 ^ 63
    → length m < 2 ^ 64
    → Distinct m
    → write_u8_to_bytes_map m room ≡ ok bytes
    → read_u8_to_bytes_map (bytes ++ rest) ≡ ok (m, rest)
unfolding write_u8_to_bytes_map read_u8_to_bytes_map
read-write_u8_to_bytes_map m room bytes rest small many d e =
    let (entries, w, shape) = written_map m room bytes e in
    let count = uvarint_bytes (length m) in
    rw
      (
        shape,
        append_assoc count entries rest,
        uvarint-uvarint_bytes (length m) (entries ++ rest) many,
        read_u8_to_bytes_map,
      )
      (rw (shape, append_assoc count entries rest, drop-append count (entries ++ rest))
        (read_entries-write_entries m _ entries rest [] (omega arith) d (Apart-nil m) w))
