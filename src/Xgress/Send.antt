-- ===== src/Xgress/Send.antt =====
-- xgress/link_send_buffer.go: the buffer that keeps the payloads of a circuit until they are
-- acknowledged, opens and closes the window of the sender, and asks for retransmissions.
pub mod Timers
pub mod Windows
pub mod Acked
pub mod Accounts
pub mod Retransmits
pub mod Runs
use sdk_golang.Common.{
  ℕ, ◌+◌, ◌-◌, ◌*◌, ◌/◌, ◌%◌, ◌^◌, ◌<◌, ◌≤◌, ◌≡◌, Bool, true, false, not, Option, none, some, List,
  [], ◌∷◌, ◌++◌, ◌&&◌, ◌||◌, ltb, leb, ◌==◌, if◌then◌else◌, length,
}
use sdk_golang.Common.Words.{slt, add32, sub32, bias}
use sdk_golang.Common.Map.{lookup, insert, erase}
use sdk_golang.Xgress.Messages.{Payload, Acknowledgement, is_circuit_end_flag_set, is_flag_eof_set}

-- float64, as far as the code uses it. A factor that is not above 1 does not make a uint32 larger.
pub record Floats : Type 1 where
  pub Float : Type 0
  pub of_uint32 : ℕ → Float
  pub to_uint32 : Float → ℕ
  pub mul : Float → Float → Float
  pub plus : Float → Float → Float
  pub minus : Float → Float → Float
  pub less : Float → Float → Bool
  pub one : Float
  pub fifth : Float
  pub hundredth : Float
  pub shrinks :
      (w : ℕ) (factor : Float)
      → w < 2 ^ 32
      → less one factor ≡ false
      → to_uint32 (mul (of_uint32 w) factor) ≤ w

-- int64 max: the age of a payload that has not been sent yet.
abbrev pub not_sent : ℕ
not_sent = 0x7fff_ffff_ffff_ffff

-- txPayload, without its links in the retransmitter's list. retxQueued counts 1 for a payload that
-- is queued for retransmission, and 2 for one that is acknowledged.
pub record TxPayload : Type 0 where
  pub age : ℕ
  pub payload : Payload
  pub retx_queued : ℕ

unfoldable pub mark_sent : ℕ → TxPayload → TxPayload
mark_sent now t = record t { age = now }

unfoldable pub mark_queued : TxPayload → TxPayload
mark_queued t = record t { retx_queued = add32 t.retx_queued 1 }

-- markAcked: the new payload, and whether it was queued for retransmission.
unfoldable pub mark_acked : TxPayload → TxPayload × Bool
mark_acked t = let count = add32 t.retx_queued 2 in (record t { retx_queued = count }, slt 2 count)

unfoldable pub dequeued : TxPayload → TxPayload
dequeued t = record t { retx_queued = sub32 t.retx_queued 1 }

unfoldable pub is_acked : TxPayload → Bool
is_acked t = slt 1 t.retx_queued

unfoldable pub is_retransmittable : TxPayload → Bool
is_retransmittable t = t.retx_queued == 0

abbrev pub data_size : TxPayload → ℕ
data_size t = length t.payload.payload_data

module _ (f : Floats) where
  -- The options that the buffer reads; times of close are in nanoseconds.
  pub record Options : Type 0 where
    pub tx_portal_start_size : ℕ
    pub tx_portal_max_size : ℕ
    pub tx_portal_min_size : ℕ
    pub tx_portal_increase_thresh : ℕ
    pub tx_portal_increase_scale : f.Float
    pub tx_portal_retx_thresh : ℕ
    pub tx_portal_retx_scale : f.Float
    pub tx_portal_dup_ack_thresh : ℕ
    pub retx_start_ms : ℕ
    pub retx_scale : f.Float
    pub retx_add_ms : ℕ
    pub max_close_wait : ℕ

  pub record SendBuffer : Type 0 where
    pub retx_scale : f.Float
    pub buffer : List (ℕ × TxPayload)
    pub windows_size : ℕ
    pub link_send_buffer_size : ℕ
    pub link_recv_buffer_size : ℕ
    pub accumulator : ℕ
    pub successful_acks : ℕ
    pub duplicate_acks : ℕ
    pub retransmits : ℕ
    pub closed : Bool
    pub blocked_by_local_window : Bool
    pub blocked_by_remote_window : Bool
    pub retx_threshold : ℕ
    pub last_rtt : ℕ
    pub last_retransmit_time : ℕ
    pub close_when_empty : Bool
    pub close_start : Option ℕ

  -- NewLinkSendBuffer
  unfoldable pub new_send_buffer : Options → SendBuffer
  new_send_buffer o = record {
    retx_scale = o.retx_scale;
    buffer = [];
    windows_size = o.tx_portal_start_size;
    link_send_buffer_size = 0;
    link_recv_buffer_size = 0;
    accumulator = 0;
    successful_acks = 0;
    duplicate_acks = 0;
    retransmits = 0;
    closed = false;
    blocked_by_local_window = false;
    blocked_by_remote_window = false;
    retx_threshold = o.retx_start_ms;
    last_rtt = 0;
    last_retransmit_time = 0;
    close_when_empty = false;
    close_start = none;
  }

  -- BufferPayload: the payload that goes over the channel to the goroutine of the buffer.
  abbrev pub new_tx_payload : Payload → TxPayload
  new_tx_payload p = record { age = not_sent; payload = p; retx_queued = 0 }

  -- What run does with a newly buffered payload.
  unfoldable pub add_payload : TxPayload → SendBuffer → SendBuffer
  add_payload t s = record s {
    buffer = insert t.payload.sequence t s.buffer;
    link_send_buffer_size = add32 s.link_send_buffer_size (data_size t);
  }

  -- isBlocked: whether a window is exceeded, and the flags that remember which.
  unfoldable pub is_blocked : Options → SendBuffer → Bool × SendBuffer
  is_blocked o s =
      let remote = ltb o.tx_portal_max_size s.link_recv_buffer_size in
      let local_window = ltb s.windows_size s.link_send_buffer_size in
      (
        remote || local_window,
        record s { blocked_by_remote_window = remote; blocked_by_local_window = local_window },
      )

  -- Whether run takes a payload from newlyBuffered in this round.
  unfoldable pub takes_payload : Options → SendBuffer → Bool
  unfolding is_blocked
  takes_payload o s =
      not ((is_blocked o s).0 && (not s.close_when_empty && not (s.link_send_buffer_size == 0)))

  -- The window grows, and the scale of the retransmission threshold shrinks, once enough
  -- acknowledgements have come in.
  unfoldable pub grow_window : Options → SendBuffer → SendBuffer
  grow_window o s =
      let delta = f.to_uint32 (f.mul (f.of_uint32 s.accumulator) o.tx_portal_increase_scale) in
      let grown = add32 s.windows_size delta in
      let scaled = f.minus s.retx_scale f.hundredth in
      if leb o.tx_portal_increase_thresh s.successful_acks
      then record s {
        successful_acks = 0;
        windows_size = if ltb o.tx_portal_max_size grown then o.tx_portal_max_size else grown;
        retx_scale = if f.less scaled o.retx_scale then o.retx_scale else scaled;
      }
      else s

  -- A sequence that is acknowledged again.
  unfoldable pub duplicate_ack : Options → SendBuffer → SendBuffer
  duplicate_ack o s =
      let count = add32 s.duplicate_acks 1 in
      if leb o.tx_portal_dup_ack_thresh count
      then record s { duplicate_acks = 0; retx_scale = f.plus s.retx_scale f.fifth }
      else record s { duplicate_acks = count }

  -- A sequence whose payload is found.
  unfoldable pub ack_payload : Options → ℕ → TxPayload → SendBuffer → SendBuffer
  ack_payload o sequence t s = grow_window o (record s {
    accumulator = add32 s.accumulator (data_size t);
    successful_acks = add32 s.successful_acks 1;
    buffer = erase sequence s.buffer;
    link_send_buffer_size = sub32 s.link_send_buffer_size (data_size t);
  })

  -- One round of the loop of receiveAcknowledgement, for what the map has at the sequence: the new
  -- state, and what goes to the retransmitter to be taken out of its list.
  unfoldable pub ack_found :
      Options → ℕ → Option TxPayload → SendBuffer → SendBuffer × List TxPayload
  ack_found o sequence none s = (duplicate_ack o s, [])
  ack_found o sequence (some t) s =
      let (marked, was_queued) = mark_acked t in
      (ack_payload o sequence t s, if was_queued then marked ∷ [] else [])

  unfoldable pub ack_sequence : Options → ℕ → SendBuffer → SendBuffer × List TxPayload
  ack_sequence o sequence s = ack_found o sequence (lookup sequence s.buffer) s

  unfoldable pub ack_sequences : Options → List ℕ → SendBuffer → SendBuffer × List TxPayload
  ack_sequences o [] s = (s, [])
  ack_sequences o (k ∷ ks) s =
      let (acked, removed) = ack_sequence o k s in
      let (rest, others) = ack_sequences o ks acked in (rest, removed ++ others)

  -- The end of receiveAcknowledgement, on 16-bit round trip times; `now` is in milliseconds.
  unfoldable pub take_rtt : Options → ℕ → Acknowledgement → SendBuffer → SendBuffer
  take_rtt o now ack s =
      let elapsed = (now % 2 ^ 16 + 2 ^ 16 - ack.rtt) % 2 ^ 16 in
      let rtt = if ltb 0 s.last_rtt then (elapsed + s.last_rtt) % 2 ^ 16 / 2 else elapsed in
      let reported : SendBuffer = record s { link_recv_buffer_size = ack.recv_buffer_size } in
      if ltb 0 ack.rtt
      then record reported {
        last_rtt = rtt;
        retx_threshold = add32 (f.to_uint32 (f.mul (f.of_uint32 rtt) s.retx_scale)) o.retx_add_ms;
      }
      else reported

  -- receiveAcknowledgement
  unfoldable pub receive_acknowledgement :
      Options → ℕ → Acknowledgement → SendBuffer → SendBuffer × List TxPayload
  receive_acknowledgement o now ack s =
      let (acked, removed) = ack_sequences o ack.sequences s in (take_rtt o now ack acked, removed)
