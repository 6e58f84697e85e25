-- ===== src/Xgress/Examples.antt =====
-- Concrete libraries and data for the tests: header codecs that keep a number in one list entry, an
-- ordered list for the B-tree, and natural numbers for the floats.
mod Messages
mod Chunks
mod Receive
mod Send
mod Lifecycle
mod Retransmitter
mod Config
mod Deadlines
use sdk_golang.Common.{
  ℕ, zero, suc, ◌+◌, ◌-◌, ◌*◌, ◌^◌, ◌<◌, ◌≤◌, ◌≡◌, refl, inl, Bool, true, false, Option, none, some,
  List, [], ◌∷◌, ltb, length, arith, replicate,
}
use sdk_golang.Xgress.Messages.{Originator, Payload}
use sdk_golang.Xgress.Channel.{Channel}
use sdk_golang.Xgress.Receive.{Btree, put_sorted, remove_sorted, left_entry}
use sdk_golang.Xgress.Send.{Floats, Options}

abbrev pub only : List ℕ → Option ℕ
only (v ∷ []) = some v
only [] = none
only (v ∷ w ∷ vs) = none

abbrev pub test_channel : Channel
test_channel = record {
  content_type_raw = 1;
  heartbeat_header = 10;
  bytes_of_uint16 = λ v. v ∷ [];
  bytes_of_uint32 = λ v. v ∷ [];
  bytes_of_uint64 = λ v. v ∷ [];
  bytes_of_string = λ s. s;
  uint16_of_bytes = only;
  uint32_of_bytes = only;
  uint64_of_bytes = only;
  get_put_uint16 = λ v h. refl;
  get_put_uint32 = λ v h. refl;
  get_put_uint64 = λ v h. refl;
  string_as_bytes = λ s. refl;
  heartbeat_apart = inl (omega arith);
}

abbrev pub test_tree : Btree
test_tree = record {
  Tree = List (ℕ × Payload);
  empty = [];
  put = put_sorted;
  remove = remove_sorted;
  left_value = left_entry;
  size = length;
  items = λ t. t;
  items-empty = refl;
  items-put = λ k p t. refl;
  items-remove = λ k t. refl;
  left_value-items = λ t. refl;
  size-items = λ t. refl;
}

pub product_shrinks : (w factor : ℕ) → ltb 1 factor ≡ false → w * factor ≤ w
product_shrinks w zero h = omega arith
product_shrinks w (suc zero) h = omega arith
product_shrinks w (suc (suc n)) h = absurd (ground (arith, h))

abbrev pub test_floats : Floats
test_floats = record {
  Float = ℕ;
  of_uint32 = λ w. w;
  to_uint32 = λ x. x;
  mul = ◌*◌;
  plus = ◌+◌;
  minus = ◌-◌;
  less = ltb;
  one = 1;
  fifth = 0;
  hundredth = 0;
  shrinks = λ w factor small h. product_shrinks w factor h;
}

abbrev pub test_options : Options test_floats
test_options = record {
  tx_portal_start_size = 4096;
  tx_portal_max_size = 8192;
  tx_portal_min_size = 1024;
  tx_portal_increase_thresh = 1;
  tx_portal_increase_scale = 1;
  tx_portal_retx_thresh = 2;
  tx_portal_retx_scale = 0;
  tx_portal_dup_ack_thresh = 64;
  retx_start_ms = 200;
  retx_scale = 1;
  retx_add_ms = 0;
  max_close_wait = 30_000_000_000;
}

-- A payload of the initiator, with three bytes.
abbrev pub test_payload : ℕ → Payload
test_payload sequence = record {
  circuit_id = 7 ∷ [];
  flags = 0;
  rtt = 5;
  sequence = sequence;
  headers = [];
  payload_data = 1 ∷ 2 ∷ 3 ∷ [];
  raw = none;
}
