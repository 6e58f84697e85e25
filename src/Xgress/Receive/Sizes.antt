-- ===== src/Xgress/Receive/Sizes.antt =====
-- The size of the receive buffer against the payloads that it holds and has handed out.
use sdk_golang.Common.{ℕ, ◌+◌, ◌%◌, ◌^◌, ◌≡◌, ◌≤◌, ◌<◌, ◌-◌, refl, Bool, [], arith, length}
use sdk_golang.Common.Words.{IsU32, sub32}
use sdk_golang.Xgress.Messages.{Payload}
use sdk_golang.Xgress.Receive.{
  Btree, Link, Step.receive, Step.next, Step.clear, Reachable, Reachable.start, Reachable.after,
  receive_unordered, next_payload, new_recv_buffer, after_next,
}
use sdk_golang.Xgress.Receive.Invariant.{Reachable-Invariant}
use sdk_golang.Xgress.Receive.Sums.{bytes, entry_bytes, bytes-append, Sums, receive-Sums, next-Sums}

-- Steps from a new buffer in which payloads of one sequence have one length, with the number of
-- bytes that tx has cleared.
pub data Run (b : Btree) (len : ℕ → ℕ) (queue_size : ℕ) : Link b → ℕ → Type 0 where
  run_start :
      Run b len queue_size (record { buffer = new_recv_buffer b queue_size; delivered = [] }) 0
  run_receive :
      (l : Link b) (c : ℕ) (p : Payload) (max_size : ℕ)
      → Run b len queue_size l c
      → IsU32 p.sequence
      → length p.payload_data ≡ len p.sequence
      → Run b len queue_size (record l { buffer = (receive_unordered b p max_size l.buffer).1 }) c
  run_next :
      (l : Link b) (c : ℕ) (closed : Bool)
      → Run b len queue_size l c
      → Run b len queue_size (after_next b l.delivered (next_payload b closed l.buffer)) c
  run_clear :
      (l : Link b) (c cleared : ℕ)
      → Run b len queue_size l c
      → Run b len queue_size
          (record l { buffer = record (Link.buffer l) { size = sub32 l.buffer.size cleared } })
          (c + cleared)

Run-Reachable :
    (b : Btree) (len : ℕ → ℕ) (capacity : ℕ) (l : Link b) (c : ℕ)
    → Run b len capacity l c
    → Reachable b capacity l
Run-Reachable b len capacity _ _ run_start = start
Run-Reachable b len capacity _ _ (run_receive l c p max_size r u own) =
    after l _ (Run-Reachable b len capacity l c r) (receive l p max_size u)
Run-Reachable b len capacity _ _ (run_next l c closed r) =
    after l _ (Run-Reachable b len capacity l c r) (next l closed)
Run-Reachable b len capacity _ _ (run_clear l c cleared r) =
    after l _ (Run-Reachable b len capacity l c r) (clear l cleared)

sub32_total :
    (s c d t : ℕ) → (s + c) % 2 ^ 32 ≡ t % 2 ^ 32 → (sub32 s d + (c + d)) % 2 ^ 32 ≡ t % 2 ^ 32
sub32_total s c d t h = omega (arith, h)

Run-Sums :
    (b : Btree) (len : ℕ → ℕ) (capacity : ℕ) (l : Link b) (c : ℕ)
    → Run b len capacity l c
    → Sums b len l c
unfolding new_recv_buffer
Run-Sums b len capacity _ _ run_start = record {
  sized = rw b.items-empty tt;
  is_word = omega arith;
  total = rw b.items-empty refl;
}
Run-Sums b len capacity _ _ (run_receive l c p max_size r u own) =
    let i = Reachable-Invariant b capacity l (Run-Reachable b len capacity l c r) in
    receive-Sums b len c capacity l p max_size u own i (Run-Sums b len capacity l c r)
Run-Sums b len capacity _ _ (run_next l c closed r) =
    let i = Reachable-Invariant b capacity l (Run-Reachable b len capacity l c r) in
    next-Sums b len c capacity l closed i (Run-Sums b len capacity l c r)
Run-Sums b len capacity _ _ (run_clear l c cleared r) =
    let z = Run-Sums b len capacity l c r in
    record {
      sized = z.sized;
      is_word = omega arith;
      total = sub32_total l.buffer.size c cleared _ z.total;
    }

size_lem :
    (s c d q t n : ℕ)
    → s < 2 ^ 32
    → c ≤ d
    → (s + c) % 2 ^ 32 ≡ (n + t) % 2 ^ 32
    → n ≡ d + q
    → s ≡ (d - c + q + t) % 2 ^ 32
size_lem s c d q t n w le e h = omega (arith, w, le, e, h)

-- After any run of the receive buffer in which payloads of one sequence have one length, and tx has
-- cleared no more bytes than NextPayload has returned, the size is the bytes that are returned and
-- not cleared, those that are queued and those in the tree, modulo 2^32.
pub Run-size :
    (b : Btree) (len : ℕ → ℕ) (capacity : ℕ) (l : Link b) (cleared : ℕ)
    → Run b len capacity l cleared
    → cleared ≤ bytes l.delivered
    → l.buffer.size
      ≡ (bytes l.delivered
          - cleared
          + bytes l.buffer.tx_queue
          + entry_bytes (b.items l.buffer.tree))
        % 2 ^ 32
Run-size b len capacity l cleared r le =
    let z = Run-Sums b len capacity l cleared r in
    size_lem l.buffer.size cleared (bytes l.delivered) (bytes l.buffer.tx_queue)
      (entry_bytes (b.items l.buffer.tree)) _ z.is_word le z.total
      (bytes-append l.delivered l.buffer.tx_queue)
