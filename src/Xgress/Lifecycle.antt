-- ===== src/Xgress/Lifecycle.antt =====
-- xgress/xgress.go: how an Xgress ends, Close, CloseXgToClient, PeerClosed, Unrouted and what they
-- call, with LinkSendBuffer.Close of xgress/link_send_buffer.go.
pub mod Log
pub mod Close
pub mod Ends
use sdk_golang.Common.{
  ℕ, zero, suc, ◌+◌, ◌%◌, ◌^◌, ◌≡◌, Bool, true, false, ◌&&◌, List, [], ◌∷◌, ◌++◌, if◌then◌else◌,
  none,
}
use sdk_golang.Common.Outcome.{Outcome, ok, err, panic, stuck, ◌>>=◌}
use sdk_golang.Xgress.Messages.{
  Originator, Payload, set_originator_flag, flag_circuit_start, flag_circuit_end, flag_eof,
  flag_write_failed,
}
use sdk_golang.Xgress.Chunks.{next_receive_sequence}

-- What the Xgress does to its surroundings as it ends.
pub data Event : Type 0 where
  forwarded : Payload → Event
  closed_peer ran_close_handlers closed_notify : Event

-- The flags of the Xgress and of its send buffer, its receive sequence and what it has done.
pub record Life : Type 0 where
  pub circuit_id : List ℕ
  pub originator : Originator
  pub rx_sequence : ℕ
  pub closed : Bool
  pub closed_txer : Bool
  pub circuit_end_received : Bool
  pub circuit_end_sent : Bool
  pub buffer_closed : Bool
  pub close_when_empty : Bool
  pub events : List Event

unfoldable pub new_life : List ℕ → Originator → Life
new_life circuit_id originator = record {
  circuit_id = circuit_id;
  originator = originator;
  rx_sequence = 0;
  closed = false;
  closed_txer = false;
  circuit_end_received = false;
  circuit_end_sent = false;
  buffer_closed = false;
  close_when_empty = false;
  events = [];
}

abbrev pub emit : Event → Life → Life
emit e s = record s { events = s.events ++ e ∷ [] }

-- A payload without data and with one flag: GetStartCircuit, GetEndCircuit, and the payloads of
-- sendEOF and sendWriteFailed.
unfoldable pub flag_payload : ℕ → Life → Payload × Life
unfolding next_receive_sequence
flag_payload flag s =
    let (sequence, following) = next_receive_sequence s.rx_sequence in
    (
      record {
        circuit_id = s.circuit_id;
        flags = set_originator_flag flag s.originator;
        rtt = 0;
        sequence = sequence % 2 ^ 32;
        headers = [];
        payload_data = [];
        raw = none;
      },
      record s { rx_sequence = following },
    )

abbrev pub get_start_circuit : Life → Payload × Life
get_start_circuit s = flag_payload flag_circuit_start s

abbrev pub get_end_circuit : Life → Payload × Life
get_end_circuit s = flag_payload flag_circuit_end s

-- sendEOF and sendWriteFailed send nothing once the send buffer is closed.
unfoldable pub send_eof : Life → Life
send_eof s =
    let (payload, counted) = flag_payload flag_eof s in
    if s.buffer_closed then s else emit (forwarded payload) counted

unfoldable pub send_write_failed : Life → Life
send_write_failed s =
    let (payload, counted) = flag_payload flag_write_failed s in
    if s.buffer_closed then s else emit (forwarded payload) counted

unfoldable pub send_end_of_circuit : Life → Life
send_end_of_circuit s =
    let (payload, counted) = get_end_circuit s in emit (forwarded payload) counted

-- ForwardEndOfCircuit
unfoldable pub forward_end_of_circuit : Life → Life
forward_end_of_circuit s =
    if s.circuit_end_sent then s else send_end_of_circuit (record s { circuit_end_sent = true })

-- flags.CompareAndSet(closedTxer, false, true) with close(closeNotify) behind it.
unfoldable pub close_txer : Life → Life
close_txer s = if s.closed_txer then s else emit closed_notify (record s { closed_txer = true })

-- Close calls LinkSendBuffer.Close, which calls Close again through closeIfRxAndTxDone, on fuel.
unfoldable pub close : ℕ → Life → Outcome (Unit {0}) Life
close zero s = stuck
close (suc fuel) s =
    let ended = emit closed_peer (send_end_of_circuit (record s { closed = true })) in
    let buffered : Life = record (close_txer ended) { buffer_closed = true } in
    let again = close fuel buffered in
    if s.closed
    then ok s
    else ((if buffered.closed_txer then again else ok buffered) >>= λ r.
        ok (emit ran_close_handlers r))

-- The second call finds the Xgress closed.
abbrev pub close_xgress : Life → Outcome (Unit {0}) Life
close_xgress s = close 2 s

-- LinkSendBuffer.Close
unfoldable pub close_send_buffer : Life → Outcome (Unit {0}) Life
close_send_buffer s =
    let buffered : Life = record s { buffer_closed = true } in
    if buffered.closed_txer then close_xgress buffered else ok buffered

-- CloseXgToClient
unfoldable pub close_xg_to_client : Life → Outcome (Unit {0}) Life
close_xg_to_client s =
    let stopped = close_txer s in if stopped.buffer_closed then close_xgress stopped else ok stopped

-- CloseRxTimeout
unfoldable pub close_rx_timeout : Life → Life
close_rx_timeout s = record (send_eof s) { close_when_empty = true }

-- PeerClosed
unfoldable pub peer_closed : Life → Outcome (Unit {0}) Life
peer_closed s = close_xg_to_client s >>= λ r. ok (close_rx_timeout r)

-- Unrouted
unfoldable pub unrouted : Life → Outcome (Unit {0}) Life
unrouted s = close_xg_to_client s >>= close_send_buffer

-- What sendPayload in tx does with a payload that ends the circuit or its data.
unfoldable pub receive_end : Life → Outcome (Unit {0}) Life
receive_end s = close_xg_to_client (record s { circuit_end_received = true })

-- The deferred part of tx: sendWriteFailed unless the end of the circuit has been received.
unfoldable pub tx_exit : Life → Life
tx_exit s = if s.circuit_end_received then s else send_write_failed s

-- The calls that end an Xgress, in any order.
pub data Call : Type 0 where
  calls_close calls_close_send_buffer calls_close_xg_to_client calls_close_rx_timeout : Call
  calls_peer_closed calls_unrouted calls_receive_end calls_tx_exit : Call
  calls_forward_end_of_circuit : Call

unfoldable pub call : Call → Life → Outcome (Unit {0}) Life
call calls_close s = close_xgress s
call calls_close_send_buffer s = close_send_buffer s
call calls_close_xg_to_client s = close_xg_to_client s
call calls_close_rx_timeout s = ok (close_rx_timeout s)
call calls_peer_closed s = peer_closed s
call calls_unrouted s = unrouted s
call calls_receive_end s = receive_end s
call calls_tx_exit s = ok (tx_exit s)
call calls_forward_end_of_circuit s = ok (forward_end_of_circuit s)

unfoldable pub call_all : List Call → Life → Outcome (Unit {0}) Life
call_all [] s = ok s
call_all (c ∷ cs) s = call c s >>= call_all cs
