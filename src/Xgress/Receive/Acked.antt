-- ===== src/Xgress/Receive/Acked.antt =====
-- What PayloadReceived acknowledges.
use sdk_golang.Common.{
  ℕ, ◌^◌, ◌<◌, ◌≡◌, refl, ap, ◌∙◌, inl, inr, true, Option, none, some, List, [], ◌∷◌, Bool-cases,
  ◌≢◌,
}
use sdk_golang.Xgress.Messages.{
  Originator, Payload, Acknowledgement, get_originator, new_acknowledgement, ack_originator,
}
use sdk_golang.Xgress.Messages.Flags.{set_originator_flag-parts}
use sdk_golang.Xgress.Receive.{
  Btree, RxState, Reachable, payload_received, receive_unordered, same_originator,
}
use sdk_golang.Xgress.Receive.Kept.{Held, receive_unordered_holds}

-- What an acknowledgement that answers a payload says.
pub record Answer (b : Btree) (p : Payload) (s : RxState b) (after : RxState b)
    (ack : Acknowledgement) : Type 0 where
  pub from_peer : get_originator p ≢ s.originator
  pub names : ack.sequences ≡ p.sequence ∷ []
  pub is_from : ack_originator ack ≡ s.originator
  pub reports : ack.recv_buffer_size ≡ after.link_rx_buffer.size
  pub remembers : after.last_buffer_size_sent ≡ ack.recv_buffer_size
  pub echoes : ack.rtt ≡ p.rtt
  pub held : Held b p.sequence after.link_rx_buffer

some-injective : {A : Type 0} {x y : A} → ◌≡◌ {A = Option A} (some x) (some y) → x ≡ y
some-injective h = cc

same_originator_refl : (b : Btree) (o : Originator) → same_originator b o o ≡ true
same_originator_refl b Originator.initiator = refl
same_originator_refl b Originator.terminator = refl

-- From a reachable state and for a sequence that is not negative: an acknowledgement of
-- PayloadReceived answers a payload of the peer; it comes from the own side, names that payload
-- alone, echoes its round trip time and reports the size of the receive buffer, which is
-- remembered; and the buffer holds the payload or has queued it.
pub payload_received-Answer :
    (b : Btree) (capacity rx_buffer_size : ℕ) (s : RxState b) (delivered : List Payload)
    (p : Payload) (ack : Acknowledgement)
    → Reachable b capacity (record { buffer = s.link_rx_buffer; delivered = delivered })
    → p.sequence < 2 ^ 31
    → (payload_received b rx_buffer_size p s).1 ≡ some ack
    → Answer b p s (payload_received b rx_buffer_size p s).0 ack
unfolding payload_received new_acknowledgement ack_originator
payload_received-Answer b capacity rx_buffer_size s delivered p ack r nonneg answered =
    elim (Bool-cases (same_originator b s.originator (get_originator p))) [
      | inl own ↦ absurd (let no : none ≡ some ack = rw own at answered in cc)
      | inr peer ↦ elim (Bool-cases (receive_unordered b p rx_buffer_size s.link_rx_buffer).0) [
        | inl accepted ↦
            let is_ack = some-injective (rw (peer, accepted) at answered) in
            rw (peer, accepted, ← is_ack)
              (record {
                from_peer = λ same.
                    let yes =
                      ap (same_originator b s.originator) same
                      ∙ same_originator_refl b s.originator in
                    cc;
                names = refl;
                is_from = (set_originator_flag-parts s.originator 0).0;
                reports = refl;
                remembers = refl;
                echoes = refl;
                held = receive_unordered_holds b capacity _ p rx_buffer_size r nonneg accepted;
              })
        | inr refused ↦ absurd (let no : none ≡ some ack = rw (peer, refused) at answered in cc)
      ]
    ]
