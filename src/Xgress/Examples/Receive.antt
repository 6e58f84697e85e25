-- ===== src/Xgress/Examples/Receive.antt =====
-- The properties of the receive buffer after payloads that arrive out of order.
use sdk_golang.Common.{◌+◌, ◌-◌, ◌%◌, ◌^◌, ◌≡◌, refl, true, false, some, [], ◌∷◌, ◌++◌, arith, map}
use sdk_golang.Common.Words.{add32}
use sdk_golang.Xgress.Messages.{
  Originator, Payload, Acknowledgement, get_originator, new_acknowledgement, set_originator_flag,
  is_flag_set,
}
use sdk_golang.Xgress.Receive.{
  RxState, Link, Step, Reachable, new_recv_buffer, receive_unordered, next_payload, after_next,
  payload_received, queue_next, queue_left, put_payload,
}
use sdk_golang.Xgress.Receive.Invariant.{range}
use sdk_golang.Xgress.Receive.Order.{Answers, delivered-range, next_payload_exact}
use sdk_golang.Xgress.Receive.Kept.{Held, receive_unordered_holds}
use sdk_golang.Xgress.Receive.Acked.{Answer, payload_received-Answer}
use sdk_golang.Xgress.Receive.Sums.{bytes, entry_bytes}
use sdk_golang.Xgress.Receive.Sizes.{Run, Run-size}
use sdk_golang.Xgress.Examples.{test_tree, test_payload}

abbrev new_link : Link test_tree
new_link = record { buffer = new_recv_buffer test_tree 4; delivered = [] }

-- Payload 1 is in before payload 0.
abbrev after_one : Link test_tree
after_one = record new_link {
  buffer = (receive_unordered test_tree (test_payload 1) 1000 new_link.buffer).1;
}

abbrev after_both : Link test_tree
after_both = record after_one {
  buffer = (receive_unordered test_tree (test_payload 0) 1000 after_one.buffer).1;
}

after_one-Reachable : Reachable test_tree 4 after_one
after_one-Reachable =
    Reachable.after new_link after_one Reachable.start
      (Step.receive new_link (test_payload 1) 1000 (omega arith))

after_both-Reachable : Reachable test_tree 4 after_both
after_both-Reachable =
    Reachable.after after_one after_both after_one-Reachable
      (Step.receive after_one (test_payload 0) 1000 (omega arith))

delivered-range_example :
    map (λ (p : Payload). p.sequence) (after_both.delivered ++ after_both.buffer.tx_queue)
    ≡ range (add32 after_both.buffer.sequence 1)
delivered-range_example = delivered-range test_tree 4 after_both after_both-Reachable

next_payload_exact_example :
    Answers 0
      (test_tree.items after_both.buffer.tree)
      false
      (next_payload test_tree false after_both.buffer).0
next_payload_exact_example =
    next_payload_exact test_tree 4 after_both false after_both-Reachable (omega arith)

accepted_one : (receive_unordered test_tree (test_payload 1) 1000 new_link.buffer).0 ≡ true
unfolding receive_unordered new_recv_buffer
accepted_one = refl

receive_unordered_holds_example : Held test_tree 1 after_one.buffer
receive_unordered_holds_example =
    receive_unordered_holds test_tree 4 new_link (test_payload 1) 1000 Reachable.start (omega arith)
      accepted_one

abbrev test_state : RxState test_tree
test_state = record {
  circuit_id = 7 ∷ [];
  originator = Originator.terminator;
  link_rx_buffer = new_recv_buffer test_tree 4;
  last_buffer_size_sent = 0;
}

abbrev expected_ack : Acknowledgement
expected_ack = record {
  circuit_id = 7 ∷ [];
  flags = 2;
  recv_buffer_size = 3;
  rtt = 5;
  sequences = 0 ∷ [];
}

acked : (payload_received test_tree 1000 (test_payload 0) test_state).1 ≡ some expected_ack
unfolding payload_received receive_unordered queue_next queue_left put_payload new_recv_buffer
    get_originator new_acknowledgement set_originator_flag is_flag_set
acked = refl

payload_received-Answer_example :
    Answer test_tree
      (test_payload 0)
      test_state
      (payload_received test_tree 1000 (test_payload 0) test_state).0
      expected_ack
payload_received-Answer_example =
    payload_received-Answer test_tree 4 1000 test_state [] (test_payload 0) expected_ack
      Reachable.start (omega arith) acked

-- Payload 0 has been returned, and none of it is cleared.
abbrev after_get : Link test_tree
after_get =
    after_next test_tree after_both.delivered (next_payload test_tree false after_both.buffer)

Run-size_example :
    after_get.buffer.size
    ≡ (bytes after_get.delivered
        - 0
        + bytes after_get.buffer.tx_queue
        + entry_bytes (test_tree.items after_get.buffer.tree))
      % 2 ^ 32
Run-size_example =
    Run-size test_tree (λ k. 3) 4 after_get 0
      (Run.run_next after_both 0 false (
        Run.run_receive after_one 0 (test_payload 0) 1000
          (Run.run_receive new_link 0 (test_payload 1) 1000 Run.run_start (omega arith) refl)
          (omega arith) refl))
      (omega arith)
