-- ===== src/Xgress/Send/Runs.antt =====
-- The send buffer over the rounds of its goroutine.
use sdk_golang.Common.{ℕ, ◌≡◌, true, none}
use sdk_golang.Common.Map.{lookup}
use sdk_golang.Xgress.Messages.{Payload, Acknowledgement}
use sdk_golang.Xgress.Send.{
  Floats, Options, SendBuffer, new_tx_payload, new_send_buffer, add_payload, is_blocked,
  receive_acknowledgement,
}
use sdk_golang.Xgress.Send.Timers.{retransmit, check_for_close}
use sdk_golang.Xgress.Send.Accounts.{Accounts}

-- What the rounds of run do: a payload comes in under a sequence that is not in flight, an
-- acknowledgement comes in, the ticker fires, isBlocked is asked, CloseWhenEmpty is called.
pub data Step (f : Floats) (o : Options f) : SendBuffer f → SendBuffer f → Type 0 where
  buffered :
      (s : SendBuffer f) (p : Payload)
      → lookup p.sequence s.buffer ≡ none
      → Step f o s (add_payload f (new_tx_payload f p) s)
  acknowledged :
      (s : SendBuffer f) (now : ℕ) (ack : Acknowledgement)
      → Step f o s (receive_acknowledgement f o now ack s).0
  retransmitted : (s : SendBuffer f) (now : ℕ) → Step f o s (retransmit f o now s).0
  asked : (s : SendBuffer f) → Step f o s (is_blocked f o s).1
  close_asked : (s : SendBuffer f) → Step f o s (record s { close_when_empty = true })
  checked : (s : SendBuffer f) (now : ℕ) → Step f o s (check_for_close f o now s)

pub data Reachable (f : Floats) (o : Options f) : SendBuffer f → Type 0 where
  start : Reachable f o (new_send_buffer f o)
  after : (s u : SendBuffer f) → Reachable f o s → Step f o s u → Reachable f o u
