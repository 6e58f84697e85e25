-- ===== src/Xgress/Wire/RoundTrip.antt =====
-- UnmarshallPacketPayload and UnmarshallPayload undo the packet that Write lays out and Marshall
-- stamps.
use sdk_golang.Common.{
  ℕ, ◌+◌, ◌-◌, ◌*◌, ◌/◌, ◌%◌, ◌^◌, ◌≤◌, ◌≡◌, refl, ◌∙◌, Bool, true, false, List, [], ◌∷◌, ◌++◌,
  arith, leb, ◌==◌, if◌then◌else◌, length, take-append, drop-append, length-append, Option, none,
  some, bit_and, bit_or, replicate, ==_iff,
}
use sdk_golang.Common.Words.{IsU16, IsU64}
use sdk_golang.Common.Bits.{every_below, every_below_at, bit_or-shift}
use sdk_golang.Common.Outcome.{ok}
use sdk_golang.Common.Binary.{uvarint_bytes, uvarint-uvarint_bytes}
use sdk_golang.Xgress.Wire.{
  is_set, rtt_flag_mask, heartbeat_flag_mask, headers_flag_mask, circuit_id_size_mask,
}
use sdk_golang.Xgress.Wire.Read.{read_packet, read_rtt, read_heartbeat, read_sequence, read_headers}
use mathlib.Core.List.{append-nil}

read_sequence-uvarint_bytes :
    (seq : ℕ) (behind : List ℕ)
    → IsU64 seq
    → read_sequence (uvarint_bytes seq ++ behind) ≡ ok (seq, behind)
unfolding read_sequence
read_sequence-uvarint_bytes seq behind small =
    rw (uvarint-uvarint_bytes seq behind small, read_sequence)
      (rw (drop-append (uvarint_bytes seq) behind))

-- The packet reader on a buffer whose parts are known.
read_parts :
    (f s : ℕ) (buf timed : List ℕ) (rtt beat : Option ℕ) (id behind : List ℕ) (seq : ℕ)
    (hs : List (ℕ × List ℕ)) (body : List ℕ)
    → IsU64 seq
    → read_rtt (is_set f rtt_flag_mask) buf ≡ ok (rtt, timed)
    → read_heartbeat (is_set f heartbeat_flag_mask) timed
      ≡ ok (beat, id ++ (uvarint_bytes seq ++ behind))
    → bit_and circuit_id_size_mask s ≡ length id
    → read_headers (is_set f headers_flag_mask) behind ≡ ok (hs, body)
    → read_packet f s buf
      ≡ ok (record {
        packet_rtt = rtt;
        heartbeat = beat;
        circuit_id = id;
        seq = seq;
        headers = hs;
        body = body;
      })
unfolding read_packet
read_parts f s buf timed rtt beat id behind seq hs body small er eh es ehs =
    let rest = uvarint_bytes seq ++ behind in
    let enough : leb (length id) (length (id ++ rest)) ≡ true =
      ground (arith, length-append id rest) in
    rw (er, eh, es, enough, drop-append id rest, read_sequence-uvarint_bytes seq behind small)
      (rw (ehs, take-append id rest))

-- The heartbeat field is the last eight bytes.
read_zero_heartbeat :
    (beat : Bool) (rest : List ℕ)
    → read_heartbeat beat (rest ++ (if beat then replicate 8 0 else []))
      ≡ ok ((if beat then some 0 else none), rest)
unfolding read_heartbeat
read_zero_heartbeat false rest = rw (append-nil rest)
read_zero_heartbeat true rest =
    let whole = rest ++ replicate 8 0 in
    let count : length whole ≡ length rest + 8 = length-append rest (replicate 8 0) in
    let enough : leb 8 (length whole) ≡ true = ground (arith, count) in
    let trimmed : length whole - 8 ≡ length rest = omega (arith, count) in
    rw (enough, trimmed) (rw (drop-append rest (replicate 8 0), take-append rest (replicate 8 0)))

low_four_table :
    every_below (λ n. bit_and circuit_id_size_mask (bit_and circuit_id_size_mask (n % 256)) == n) 16
    ≡ true
unfolding every_below
low_four_table = refl

-- The size byte holds the length of a circuit id of up to 15 bytes.
pub circuit_id_size :
    (n : ℕ) → n ≤ 15 → bit_and circuit_id_size_mask (bit_and circuit_id_size_mask (n % 256)) ≡ n
circuit_id_size n h = (==_iff _ _).0 (every_below_at _ 16 n (omega arith) low_four_table)

-- uint16(b0) | uint16(b1) << 8
two_bytes : (rtt : ℕ) → IsU16 rtt → bit_or (rtt % 256) (rtt / 2 ^ 8 % 256 * 2 ^ 8) ≡ rtt
two_bytes rtt small = bit_or-shift 8 (rtt % 256) (rtt / 2 ^ 8 % 256) (omega arith) ∙ omega arith

-- The RTT field: two bytes where the flag is set.
abbrev pub rtt_field : Bool → ℕ → List ℕ
rtt_field false rtt = []
rtt_field true rtt = (rtt % 256) ∷ (rtt / 2 ^ 8 % 256) ∷ []

abbrev pub rtt_read : Bool → ℕ → Option ℕ
rtt_read false rtt = none
rtt_read true rtt = some rtt

read_rtt_field :
    (b : Bool) (rtt : ℕ) (rest : List ℕ)
    → IsU16 rtt
    → read_rtt b (rtt_field b rtt ++ rest) ≡ ok (rtt_read b rtt, rest)
unfolding read_rtt
read_rtt_field false rtt rest small = refl
read_rtt_field true rtt rest small = ground (arith, two_bytes rtt small)

-- The bytes of a chunk behind its two header bytes, with the round trip time stamped.
abbrev pub packet_bytes : Bool → ℕ → List ℕ → ℕ → List ℕ → List ℕ → Bool → List ℕ
packet_bytes timed rtt id seq head body beat =
    rtt_field timed rtt
    ++ ((id ++ (uvarint_bytes seq ++ (head ++ body))) ++ (if beat then replicate 8 0 else []))

-- The reader on such a packet.
pub read_packet_bytes :
    (f s : ℕ) (timed beat : Bool) (rtt seq : ℕ) (id head body : List ℕ) (hs : List (ℕ × List ℕ))
    → IsU16 rtt
    → IsU64 seq
    → is_set f rtt_flag_mask ≡ timed
    → is_set f heartbeat_flag_mask ≡ beat
    → bit_and circuit_id_size_mask s ≡ length id
    → read_headers (is_set f headers_flag_mask) (head ++ body) ≡ ok (hs, body)
    → read_packet f s (packet_bytes timed rtt id seq head body beat)
      ≡ ok (record {
        packet_rtt = rtt_read timed rtt;
        heartbeat = if beat then some 0 else none;
        circuit_id = id;
        seq = seq;
        headers = hs;
        body = body;
      })
read_packet_bytes f s timed beat rtt seq id head body hs hr hq ef eb es eh =
    read_parts f s (packet_bytes timed rtt id seq head body beat)
      ((id ++ (uvarint_bytes seq ++ (head ++ body))) ++ (if beat then replicate 8 0 else []))
      (rtt_read timed rtt) (if beat then some 0 else none) id (head ++ body) seq hs body hq
      (rw ef (read_rtt_field timed rtt _ hr)) (rw eb (read_zero_heartbeat beat _)) es eh
