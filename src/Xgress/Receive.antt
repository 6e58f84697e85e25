-- ===== src/Xgress/Receive.antt =====
-- xgress/link_receive_buffer.go: the buffer that puts the payloads of a circuit in order, with
-- PayloadReceived and SendEmptyAck of xgress/xgress.go, which acknowledge them.
pub mod Invariant
pub mod Order
pub mod Kept
pub mod Sums
pub mod Sizes
pub mod Acked
use sdk_golang.Common.{
  ℕ, ◌+◌, ◌≡◌, Bool, true, false, Option, none, some, List, [], ◌∷◌, ◌++◌, ◌&&◌, ltb, leb, ◌==◌,
  if◌then◌else◌, length, ◌/◌,
}
use sdk_golang.Common.Words.{IsU32, slt, sle, add32, sub32, minus_one, bias}
use sdk_golang.Xgress.Messages.{
  Originator, Payload, Acknowledgement, get_originator, new_acknowledgement,
}

-- The place of a key in an ordered list of entries, by the signed order.
abbrev pub put_sorted : ℕ → Payload → List (ℕ × Payload) → List (ℕ × Payload)
put_sorted k p [] = (k, p) ∷ []
put_sorted k p ((j, q) ∷ m) =
    if k == j
    then (k, p) ∷ m
    else if slt k j
    then (k, p) ∷ (j, q) ∷ m
    else (j, q) ∷ put_sorted k p m

abbrev pub remove_sorted : ℕ → List (ℕ × Payload) → List (ℕ × Payload)
remove_sorted k [] = []
remove_sorted k ((j, q) ∷ m) = if k == j then m else (j, q) ∷ remove_sorted k m

abbrev pub left_entry : List (ℕ × Payload) → Option Payload
left_entry [] = none
left_entry ((j, q) ∷ m) = some q

-- github.com/emirpasic/gods/trees/btree with utils.Int32Comparator, as an ordered map whose entries
-- `items` lists from the left to the right.
pub record Btree : Type 1 where
  pub Tree : Type 0
  pub empty : Tree
  pub put : ℕ → Payload → Tree → Tree
  pub remove : ℕ → Tree → Tree
  pub left_value : Tree → Option Payload
  pub size : Tree → ℕ
  pub items : Tree → List (ℕ × Payload)
  pub items-empty : items empty ≡ []
  pub items-put : (k : ℕ) (p : Payload) (t : Tree) → items (put k p t) ≡ put_sorted k p (items t)
  pub items-remove : (k : ℕ) (t : Tree) → items (remove k t) ≡ remove_sorted k (items t)
  pub left_value-items : (t : Tree) → left_value t ≡ left_entry (items t)
  pub size-items : (t : Tree) → size t ≡ length (items t)

-- What NextPayload does: it returns a payload, or nil once the Xgress is closed, or it waits.
pub data Next : Type 0 where
  got : Payload → Next
  none_left waits : Next

module _ (b : Btree) where
  -- LinkReceiveBuffer, with the capacity of its queue.
  pub record RecvBuffer : Type 0 where
    pub tree : b.Tree
    pub sequence : ℕ
    pub max_sequence : ℕ
    pub size : ℕ
    pub tx_queue : List Payload
    pub capacity : ℕ

  -- NewLinkReceiveBuffer
  unfoldable pub new_recv_buffer : ℕ → RecvBuffer
  new_recv_buffer queue_size = record {
    tree = b.empty;
    sequence = minus_one;
    max_sequence = 0;
    size = 0;
    tx_queue = [];
    capacity = queue_size;
  }

  -- queueNext for the leftmost payload.
  unfoldable pub queue_left : Option Payload → RecvBuffer → RecvBuffer
  queue_left none r = r
  queue_left (some p) r =
      if (p.sequence == add32 r.sequence 1) && ltb (length r.tx_queue) r.capacity
      then record r {
        tree = b.remove p.sequence r.tree;
        sequence = p.sequence;
        tx_queue = r.tx_queue ++ p ∷ [];
      }
      else r

  -- queueNext
  unfoldable pub queue_next : RecvBuffer → RecvBuffer
  queue_next r = queue_left (b.left_value r.tree) r

  -- The part of ReceiveUnordered that puts a payload into the tree.
  unfoldable pub put_payload : Payload → RecvBuffer → RecvBuffer
  put_payload p r =
      let tree = b.put p.sequence p r.tree in
      if ltb (b.size r.tree) (b.size tree)
      then record r {
        tree = tree;
        size = add32 r.size (length p.payload_data);
        max_sequence = if slt r.max_sequence p.sequence then p.sequence else r.max_sequence;
      }
      else record r { tree = tree }

  -- ReceiveUnordered
  unfoldable pub receive_unordered : Payload → ℕ → RecvBuffer → Bool × RecvBuffer
  receive_unordered p max_size r =
      if sle p.sequence r.sequence
      then (true, r)
      else if ltb max_size r.size && slt r.max_sequence p.sequence
      then (false, r)
      else (true, queue_next (put_payload p r))

  -- A receive on the queue that does not wait.
  abbrev pub poll : RecvBuffer → (Next × RecvBuffer) → Next × RecvBuffer
  poll r otherwise = elim r.tx_queue [
    | [] ↦ otherwise
    | p ∷ ps ↦ (got p, record r { tx_queue = ps })
  ]

  -- NextPayload, with whether the Xgress is closed at its second select.
  unfoldable pub next_payload : Bool → RecvBuffer → Next × RecvBuffer
  next_payload closed r =
      let queued = queue_next r in
      poll r (poll queued (if closed then (none_left, queued) else (waits, queued)))

  -- The fields of the Xgress that PayloadReceived and SendEmptyAck use.
  pub record RxState : Type 0 where
    pub circuit_id : List ℕ
    pub originator : Originator
    pub link_rx_buffer : RecvBuffer
    pub last_buffer_size_sent : ℕ

  abbrev pub same_originator : Originator → Originator → Bool
  same_originator Originator.initiator Originator.initiator = true
  same_originator Originator.terminator Originator.terminator = true
  same_originator _ _ = false

  -- SendEmptyAck: the new state and the acknowledgement that is forwarded.
  unfoldable pub send_empty_ack : RxState → RxState × Acknowledgement
  unfolding new_acknowledgement
  send_empty_ack s = (
    record s { last_buffer_size_sent = s.link_rx_buffer.size },
    record (new_acknowledgement s.circuit_id s.originator) {
      recv_buffer_size = s.link_rx_buffer.size;
    },
  )

  -- PayloadReceived: the new state and the acknowledgement that is forwarded, if there is one.
  unfoldable pub payload_received : ℕ → Payload → RxState → RxState × Option Acknowledgement
  payload_received rx_buffer_size p s =
      let (accepted, buffer) = receive_unordered p rx_buffer_size s.link_rx_buffer in
      if same_originator s.originator (get_originator p)
      then (s, none)
      else if accepted
      then (
        record s { link_rx_buffer = buffer; last_buffer_size_sent = buffer.size },
        some (record (new_acknowledgement s.circuit_id s.originator) {
          recv_buffer_size = buffer.size;
          sequences = p.sequence ∷ [];
          rtt = p.rtt;
        }),
      )
      else (record s { link_rx_buffer = buffer }, none)

  -- clearPayloadFromSendBuffer in tx: the size shrinks by what was sent, and an empty
  -- acknowledgement reports it once it has fallen below half of what was last reported.
  unfoldable pub clear_payload : ℕ → RxState → RxState × Option Acknowledgement
  clear_payload cleared s =
      let size = sub32 s.link_rx_buffer.size cleared in
      let smaller : RxState = record s {
        link_rx_buffer = record (RxState.link_rx_buffer s) { size = size };
      } in
      let (reported, ack) = send_empty_ack smaller in
      if ltb 10000 s.last_buffer_size_sent && ltb size (s.last_buffer_size_sent / 2)
      then (reported, some ack)
      else (smaller, none)

  -- A receive buffer and the payloads that NextPayload has returned, in order.
  pub record Link : Type 0 where
    pub buffer : RecvBuffer
    pub delivered : List Payload

  abbrev pub after_next : List Payload → Next × RecvBuffer → Link
  after_next done (got p, r) = record { buffer = r; delivered = done ++ p ∷ [] }
  after_next done (none_left, r) = record { buffer = r; delivered = done }
  after_next done (waits, r) = record { buffer = r; delivered = done }

  -- The steps of the link's receiver and of the goroutine that runs tx, in any order.
  pub data Step : Link → Link → Type 0 where
    receive :
        (l : Link) (p : Payload) (max_size : ℕ)
        → IsU32 p.sequence
        → Step l (record l { buffer = (receive_unordered p max_size l.buffer).1 })
    next :
        (l : Link) (closed : Bool) → Step l (after_next l.delivered (next_payload closed l.buffer))
    clear :
        (l : Link) (cleared : ℕ)
        → Step l
            (record l { buffer = record (Link.buffer l) { size = sub32 l.buffer.size cleared } })

  pub data Reachable (queue_size : ℕ) : Link → Type 0 where
    start : Reachable queue_size (record { buffer = new_recv_buffer queue_size; delivered = [] })
    after : (l m : Link) → Reachable queue_size l → Step l m → Reachable queue_size m
