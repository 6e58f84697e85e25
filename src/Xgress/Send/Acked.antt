-- ===== src/Xgress/Send/Acked.antt =====
-- What an acknowledgement takes out of the send buffer.
use sdk_golang.Common.{
  ℕ, ◌≡◌, refl, sym, ◌∙◌, inl, inr, Bool, true, false, Option, none, some, List, [], ◌∷◌, ◌||◌, ltb,
  leb, ◌==◌, if◌then◌else◌, arith, Bool-cases,
}
use sdk_golang.Common.Words.{add32}
use sdk_golang.Common.Map.{lookup, erase, Distinct, lookup-erase, Distinct-erase}
use sdk_golang.Xgress.Messages.{Acknowledgement}
use sdk_golang.Xgress.Send.{
  Floats, TxPayload, Options, SendBuffer, grow_window, duplicate_ack, ack_payload, ack_found,
  ack_sequence, ack_sequences, take_rtt, receive_acknowledgement,
}

-- Whether a list of sequences names one.
abbrev pub names : ℕ → List ℕ → Bool
names k [] = false
names k (j ∷ js) = (j == k) || names k js

grow_window-buffer :
    (f : Floats) (o : Options f) (s : SendBuffer f) → (grow_window f o s).buffer ≡ s.buffer
unfolding grow_window
grow_window-buffer f o s = elim (Bool-cases (leb o.tx_portal_increase_thresh s.successful_acks)) [
  | inl reached ↦ rw reached refl
  | inr below ↦ rw below refl
]

erase_absent : (k : ℕ) (m : List (ℕ × TxPayload)) → lookup k m ≡ none → erase k m ≡ m
erase_absent k [] h = refl
erase_absent k ((j, t) ∷ m) h = ground (arith, erase_absent k m)

ack_found-buffer :
    (f : Floats) (o : Options f) (k : ℕ) (found : Option TxPayload) (s : SendBuffer f)
    → lookup k s.buffer ≡ found
    → (ack_found f o k found s).0.buffer ≡ erase k s.buffer
unfolding ack_found ack_payload duplicate_ack
ack_found-buffer f o k none s h =
    elim (Bool-cases (leb o.tx_portal_dup_ack_thresh (add32 s.duplicate_acks 1))) [
      | inl reached ↦ rw reached (sym (erase_absent k s.buffer h))
      | inr below ↦ rw below (sym (erase_absent k s.buffer h))
    ]
ack_found-buffer f o k (some t) s h = grow_window-buffer f o _

ack_sequences-lookup :
    (f : Floats) (o : Options f) (ks : List ℕ) (j : ℕ) (s : SendBuffer f)
    → Distinct s.buffer
    → lookup j (ack_sequences f o ks s).0.buffer ≡ (if names j ks then none else lookup j s.buffer)
unfolding ack_sequences ack_sequence
ack_sequences-lookup f o [] j s d = refl
ack_sequences-lookup f o (k ∷ ks) j s d =
    let after : SendBuffer f = (ack_found f o k (lookup k s.buffer) s).0 in
    let is_buffer : after.buffer ≡ erase k s.buffer =
      ack_found-buffer f o k (lookup k s.buffer) s refl in
    let distinct : Distinct after.buffer = rw is_buffer (Distinct-erase k s.buffer d) in
    ack_sequences-lookup f o ks j after distinct
    ∙ rw (is_buffer, lookup-erase j k s.buffer d) (either (k == j) (names j ks))
  where
    either :
        (here later : Bool)
        → (if later then none else (if here then none else lookup j s.buffer))
          ≡ (if here || later then none else lookup j s.buffer)
    either true true = refl
    either true false = refl
    either false true = refl
    either false false = refl

-- After an acknowledgement a send buffer with distinct sequences holds what it held, without the
-- payloads whose sequences the acknowledgement names.
pub receive_acknowledgement-lookup :
    (f : Floats) (o : Options f) (now : ℕ) (ack : Acknowledgement) (j : ℕ) (s : SendBuffer f)
    → Distinct s.buffer
    → lookup j (receive_acknowledgement f o now ack s).0.buffer
      ≡ (if names j ack.sequences then none else lookup j s.buffer)
unfolding receive_acknowledgement take_rtt
receive_acknowledgement-lookup f o now ack j s d = elim (Bool-cases (ltb 0 ack.rtt)) [
  | inl timed ↦ rw timed (ack_sequences-lookup f o ack.sequences j s d)
  | inr untimed ↦ rw untimed (ack_sequences-lookup f o ack.sequences j s d)
]
