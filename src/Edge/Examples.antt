-- ===== src/Edge/Examples.antt =====
-- The properties of the multiplexer at one with a connection.
mod Addresses
mod Connections
mod PostureChecks
mod Hosted
use sdk_golang.Common.{
  ℕ, ◌≡◌, refl, inl, false, Option, none, some, List, [], ◌∷◌, arith, length, if◌then◌else◌,
}
use sdk_golang.Common.Map.{lookup, insert, erase}
use sdk_golang.Common.Outcome.{ok, ◌>>=◌}
use sdk_golang.Xgress.Channel.{Message, Channel}
use sdk_golang.Xgress.Messages.{Payload}
use sdk_golang.Edge.Mux.{
  ConcurrentMap, ConnMux, is_none, add, get_next_id, handle_receive, remove_by_conn_id,
}
use sdk_golang.Edge.Mux.NextId.{Fresh, get_next_id-Fresh}
use sdk_golang.Edge.Mux.Registry.{redirect, remove-get, get_next_id-add-receive}

abbrev test_map : ConcurrentMap ℕ
test_map = record {
  Map = List (ℕ × ℕ);
  new_map = [];
  get = lookup;
  set_if_absent = λ k v m. (is_none (lookup k m), if is_none (lookup k m) then insert k v m else m);
  remove = erase;
  items = λ m. m;
  count = length;
  items-new_map = refl;
  get-items = λ k m. refl;
  set_if_absent-items = λ k v m. (refl, refl);
  remove-items = λ k m. refl;
  count-items = λ m. refl;
}

-- A channel library that keeps a number in one list entry.
abbrev only : List ℕ → Option ℕ
only (v ∷ []) = some v
only [] = none
only (v ∷ w ∷ vs) = none

abbrev test_channel : Channel
test_channel = record {
  content_type_raw = 1;
  heartbeat_header = 10;
  bytes_of_uint16 = λ v. v ∷ [];
  bytes_of_uint32 = λ v. v ∷ [];
  bytes_of_uint64 = λ v. v ∷ [];
  bytes_of_string = λ s. s;
  uint16_of_bytes = only;
  uint32_of_bytes = only;
  uint64_of_bytes = only;
  get_put_uint16 = λ v h. refl;
  get_put_uint32 = λ v h. refl;
  get_put_uint64 = λ v h. refl;
  string_as_bytes = λ s. refl;
  heartbeat_apart = inl (omega arith);
}

-- The next id of this mux is in use.
abbrev test_mux : ConnMux test_map
test_mux = record { closed = false; sinks = (5, 50) ∷ []; next_id = 4; min_id = 0; max_id = 8 }

get_next_id-Fresh_example : Fresh test_map test_mux (get_next_id test_map test_mux)
get_next_id-Fresh_example =
    get_next_id-Fresh test_map test_mux (omega arith) (omega arith) (omega arith)

-- A payload that ends circuit 7, for connection 9.
abbrev end_message : Message
end_message = record {
  content_type = 1100;
  headers = (1000, 9 ∷ []) ∷ (2256, 7 ∷ []) ∷ (2257, 3 ∷ []) ∷ (2258, 1 ∷ []) ∷ [];
  body = [];
}

get_next_id-add-receive_example :
    (id : ℕ) × (after : ConnMux test_map) × ((get_next_id test_map test_mux >>= λ r.
    add test_map r.0 60 r.1)
      ≡ ok after)
    × (handle_receive test_map test_channel after end_message
        ≡ redirect test_map id 60 end_message
            (some 9)
            (handle_receive test_map test_channel test_mux end_message))
get_next_id-add-receive_example =
    get_next_id-add-receive test_map test_channel test_mux 60 end_message refl (omega arith)
      (omega arith) (omega arith)

abbrev end_payload : Payload
end_payload = record {
  circuit_id = 7 ∷ [];
  flags = 1;
  rtt = 0;
  sequence = 3;
  headers = [];
  payload_data = [];
  raw = none;
}
