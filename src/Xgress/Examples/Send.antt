-- ===== src/Xgress/Examples/Send.antt =====
-- The properties of the send buffer with one payload in it.
use sdk_golang.Common.{◌≡◌, none, [], ◌∷◌}
use sdk_golang.Common.Map.{lookup}
use sdk_golang.Xgress.Messages.{Acknowledgement}
use sdk_golang.Xgress.Send.{
  SendBuffer, new_send_buffer, add_payload, new_tx_payload, receive_acknowledgement,
}
use sdk_golang.Xgress.Send.Accounts.{Accounts}
use sdk_golang.Xgress.Send.Acked.{receive_acknowledgement-lookup}
use sdk_golang.Xgress.Examples.{test_floats, test_options, test_payload}

abbrev empty_buffer : SendBuffer test_floats
empty_buffer = new_send_buffer test_floats test_options

abbrev one_payload : SendBuffer test_floats
one_payload = add_payload test_floats (new_tx_payload test_floats (test_payload 0)) empty_buffer

abbrev ack_of_zero : Acknowledgement
ack_of_zero = record {
  circuit_id = 7 ∷ [];
  flags = 0;
  recv_buffer_size = 12;
  rtt = 9;
  sequences = 0 ∷ [];
}

receive_acknowledgement-lookup_example :
    lookup 0 (receive_acknowledgement test_floats test_options 100 ack_of_zero one_payload).0.buffer
    ≡ none
unfolding add_payload new_send_buffer
receive_acknowledgement-lookup_example =
    receive_acknowledgement-lookup test_floats test_options 100 ack_of_zero 0 one_payload (tt, tt)
