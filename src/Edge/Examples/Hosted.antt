-- ===== src/Edge/Examples/Hosted.antt =====
-- Dials to a hosting connection whose multiplexer has a connection with id 5.
use sdk_golang.Common.{ℕ, ◌*◌, ◌≡◌, refl, true, false, none, some, [], ◌∷◌, suc}
use sdk_golang.Common.Outcome.{ok}
use sdk_golang.Edge.Examples.{test_map, test_mux}
use sdk_golang.Edge.Hosting.{HostConn, HostEnv, DialRequest, state_connected, new_child_connection}
use sdk_golang.Edge.Hosting.Dials.{sink_of, replies}
use sdk_golang.Edge.Hosting.Accepts.{new_child_connection-evicts}

abbrev tenfold : ℕ → ℕ
tenfold id = id * 10

abbrev test_host : HostConn test_map tenfold
test_host = record {
  id = 1;
  mux = test_mux;
  token = b's' ∷ [];
  crypto = true;
  manual_start = false;
  closed = false;
  established = true;
  events = [];
}

abbrev test_host_env : HostEnv
test_host_env = record {
  default_connections = 1;
  server_header = λ key. some key;
  start_reply = state_connected;
  header_written = true;
}

abbrev test_dial : ℕ → DialRequest
test_dial id = record {
  token = b's' ∷ [];
  router_provided_id = some id;
  use_xgress = false;
  ctrl_id = none;
  address = none;
  client_key = some (3 ∷ []);
}

new_child_connection-evicts_example :
    (after : HostConn test_map tenfold) × (new_child_connection test_map tenfold test_host_env
        (test_dial 5)
        test_host
      ≡ ok after)
    × (sink_of test_map tenfold 5 after ≡ none)
    × (replies after.events ≡ suc (replies test_host.events))
new_child_connection-evicts_example =
    new_child_connection-evicts test_map tenfold test_host_env (test_dial 5) 5 50 test_host (tt, tt)
      refl refl refl refl
