-- ===== src/Xgress/Send/Windows.antt =====
-- The window of the sender: how it moves, and when it blocks.
use sdk_golang.Common.{
  ℕ, ◌≤◌, inl, inr, Option, none, some, List, [], ◌∷◌, ◌&&◌, ltb, leb, if◌then◌else◌, arith, length,
  ◌-◌, Bool-cases,
}
use sdk_golang.Common.Words.{IsU32, add32}
use sdk_golang.Common.Map.{lookup}
use sdk_golang.Xgress.Messages.{Acknowledgement}
use sdk_golang.Xgress.Send.{
  Floats, TxPayload, Options, SendBuffer, grow_window, duplicate_ack, ack_payload, ack_found,
  ack_sequence, ack_sequences, take_rtt, receive_acknowledgement,
}
use sdk_golang.Xgress.Send.Timers.{scale, requeue, requeue_all, retransmit}

-- The options order the bounds of the window, which fit in 32 bits.
pub record Ordered (f : Floats) (o : Options f) : Type 0 where
  pub min_max : o.tx_portal_min_size ≤ o.tx_portal_max_size
  pub start_max : o.tx_portal_start_size ≤ o.tx_portal_max_size
  pub max_fits : IsU32 o.tx_portal_max_size

-- The window is within its bound.
abbrev pub Bounded : (f : Floats) → Options f → SendBuffer f → Type 0
Bounded f o s = s.windows_size ≤ o.tx_portal_max_size

clamp_max : (m w : ℕ) → (if ltb m w then m else w) ≤ m
clamp_max m w = ground arith

grow_window-Bounded :
    (f : Floats) (o : Options f) (s : SendBuffer f)
    → Bounded f o s
    → Bounded f o (grow_window f o s)
unfolding grow_window
grow_window-Bounded f o s h =
    elim (Bool-cases (leb o.tx_portal_increase_thresh s.successful_acks)) [
      | inl reached ↦ rw reached (clamp_max o.tx_portal_max_size _)
      | inr below ↦ rw below h
    ]

ack_found-Bounded :
    (f : Floats) (o : Options f) (k : ℕ) (found : Option TxPayload) (s : SendBuffer f)
    → Bounded f o s
    → Bounded f o (ack_found f o k found s).0
unfolding ack_found ack_payload duplicate_ack
ack_found-Bounded f o k none s h =
    elim (Bool-cases (leb o.tx_portal_dup_ack_thresh (add32 s.duplicate_acks 1))) [
      | inl reached ↦ rw reached h
      | inr below ↦ rw below h
    ]
ack_found-Bounded f o k (some t) s h = grow_window-Bounded f o _ h

ack_sequence-Bounded :
    (f : Floats) (o : Options f) (k : ℕ) (s : SendBuffer f)
    → Bounded f o s
    → Bounded f o (ack_sequence f o k s).0
unfolding ack_sequence
ack_sequence-Bounded f o k s h = ack_found-Bounded f o k (lookup k s.buffer) s h

ack_sequences-Bounded :
    (f : Floats) (o : Options f) (ks : List ℕ) (s : SendBuffer f)
    → Bounded f o s
    → Bounded f o (ack_sequences f o ks s).0
unfolding ack_sequences
ack_sequences-Bounded f o [] s h = h
ack_sequences-Bounded f o (k ∷ ks) s h =
    ack_sequences-Bounded f o ks (ack_sequence f o k s).0 (ack_sequence-Bounded f o k s h)

-- No acknowledgement takes the window over its bound.
pub receive_acknowledgement-Bounded :
    (f : Floats) (o : Options f) (now : ℕ) (ack : Acknowledgement) (s : SendBuffer f)
    → Bounded f o s
    → Bounded f o (receive_acknowledgement f o now ack s).0
unfolding receive_acknowledgement take_rtt
receive_acknowledgement-Bounded f o now ack s h = elim (Bool-cases (ltb 0 ack.rtt)) [
  | inl timed ↦ rw timed (ack_sequences-Bounded f o ack.sequences s h)
  | inr untimed ↦ rw untimed (ack_sequences-Bounded f o ack.sequences s h)
]

scale-Bounded :
    (f : Floats) (o : Options f) (factor : f.Float) (s : SendBuffer f)
    → Ordered f o
    → Bounded f o s
    → Bounded f o (scale f o factor s)
unfolding scale
scale-Bounded f o factor s ordered h = elim (Bool-cases (f.less f.one factor)) [
  | inl up ↦ rw up (clamp_max o.tx_portal_max_size _)
  | inr down ↦
      let less = f.shrinks s.windows_size factor (omega (arith, ordered.max_fits, h)) down in
      rw down (ground (arith, less, h, ordered.min_max))
]

requeue-Bounded :
    (f : Floats) (o : Options f) (t : TxPayload) (s : SendBuffer f)
    → Ordered f o
    → Bounded f o s
    → Bounded f o (requeue f o t s)
unfolding requeue
requeue-Bounded f o t s ordered h =
    elim (Bool-cases (leb o.tx_portal_retx_thresh (add32 s.retransmits 1))) [
      | inl reached ↦ rw reached (scale-Bounded f o o.tx_portal_retx_scale _ ordered h)
      | inr below ↦ rw below h
    ]

requeue_all-Bounded :
    (f : Floats) (o : Options f) (ts : List TxPayload) (s : SendBuffer f)
    → Ordered f o
    → Bounded f o s
    → Bounded f o (requeue_all f o ts s)
unfolding requeue_all
requeue_all-Bounded f o [] s ordered h = h
requeue_all-Bounded f o (t ∷ ts) s ordered h =
    requeue_all-Bounded f o ts (requeue f o t s) ordered (requeue-Bounded f o t s ordered h)

pub retransmit-Bounded :
    (f : Floats) (o : Options f) (now : ℕ) (s : SendBuffer f)
    → Ordered f o
    → Bounded f o s
    → Bounded f o (retransmit f o now s).0
unfolding retransmit
retransmit-Bounded f o now s ordered h =
    elim (Bool-cases (ltb 0 (length s.buffer) && ltb 64 (now - s.last_retransmit_time))) [
      | inl due ↦ rw due (requeue_all-Bounded f o _ s ordered h)
      | inr idle ↦ rw idle h
    ]
