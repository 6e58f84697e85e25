-- ===== src/Xgress/Send/Accounts.antt =====
-- The size that the send buffer keeps is the size of what it holds.
use sdk_golang.Common.{
  ℕ, ◌+◌, ◌%◌, ◌^◌, ◌≡◌, refl, ap, sym, ◌∙◌, inl, inr, Option, none, some, List, [], ◌∷◌, ltb, leb,
  ◌==◌, arith, Bool-cases, All,
}
use sdk_golang.Common.Words.{add32}
use sdk_golang.Common.Map.{
  lookup, insert, erase, Distinct, Distinct-insert, Distinct-erase, All-insert, All-erase,
}
use sdk_golang.Xgress.Messages.{Acknowledgement}
use sdk_golang.Xgress.Send.{
  Floats, TxPayload, Options, SendBuffer, data_size, add_payload, grow_window, duplicate_ack,
  ack_payload, ack_found, ack_sequence, ack_sequences, take_rtt, receive_acknowledgement,
}
use mathlib.Core.Path.{subst}

abbrev pub total : List (ℕ × TxPayload) → ℕ
total [] = 0
total ((k, t) ∷ m) = data_size t + total m

total-insert_new :
    (k : ℕ) (t : TxPayload) (m : List (ℕ × TxPayload))
    → lookup k m ≡ none
    → total (insert k t m) ≡ total m + data_size t
total-insert_new k t [] h = omega arith
total-insert_new k t ((j, u) ∷ m) h = ground (arith, total-insert_new k t m)

pub total-insert_same :
    (k : ℕ) (t u : TxPayload) (m : List (ℕ × TxPayload))
    → lookup k m ≡ some u
    → data_size u ≡ data_size t
    → total (insert k t m) ≡ total m
total-insert_same k t u [] h e = cc
total-insert_same k t u ((j, v) ∷ m) h e = elim (Bool-cases (j == k)) [
  | inl here ↦
      let found : some v ≡ some u = rw here at h in
      let same : v ≡ u = cc in rw here (omega (arith, ap data_size same, e))
  | inr there ↦ rw there (omega (arith, total-insert_same k t u m (rw there at h) e))
]

total-erase :
    (k : ℕ) (u : TxPayload) (m : List (ℕ × TxPayload))
    → lookup k m ≡ some u
    → total (erase k m) + data_size u ≡ total m
total-erase k u [] h = cc
total-erase k u ((j, v) ∷ m) h = elim (Bool-cases (j == k)) [
  | inl here ↦
      let found : some v ≡ some u = rw here at h in
      let same : v ≡ u = cc in rw here (omega (arith, ap data_size same))
  | inr there ↦ rw there (omega (arith, total-erase k u m (rw there at h)))
]

-- Each payload stands once, under its sequence, and the size is the sum of their sizes.
pub record Accounts (f : Floats) (s : SendBuffer f) : Type 0 where
  pub distinct : Distinct s.buffer
  pub keyed : All (λ (e : ℕ × TxPayload). e.0 ≡ e.1.payload.sequence) s.buffer
  pub is_size : s.link_send_buffer_size ≡ total s.buffer % 2 ^ 32

pub add_payload-Accounts :
    (f : Floats) (t : TxPayload) (s : SendBuffer f)
    → lookup t.payload.sequence s.buffer ≡ none
    → Accounts f s
    → Accounts f (add_payload f t s)
unfolding add_payload
add_payload-Accounts f t s new a = record {
  distinct = Distinct-insert t.payload.sequence t s.buffer a.distinct;
  keyed =
      All-insert (λ (e : ℕ × TxPayload). e.0 ≡ e.1.payload.sequence) t.payload.sequence t s.buffer
        refl a.keyed;
  is_size = omega (arith, a.is_size, total-insert_new t.payload.sequence t s.buffer new);
}

-- A state that agrees on the map and the size.
pub same-Accounts :
    (f : Floats) (s u : SendBuffer f)
    → u.buffer ≡ s.buffer
    → u.link_send_buffer_size ≡ s.link_send_buffer_size
    → Accounts f s
    → Accounts f u
same-Accounts f s u b n a = record {
  distinct = subst Distinct (sym b) a.distinct;
  keyed = subst (λ m. All (λ (e : ℕ × TxPayload). e.0 ≡ e.1.payload.sequence) m) (sym b) a.keyed;
  is_size = n ∙ a.is_size ∙ ap (λ m. total m % 2 ^ 32) (sym b);
}

grow_window-Accounts :
    (f : Floats) (o : Options f) (s : SendBuffer f) → Accounts f s → Accounts f (grow_window f o s)
unfolding grow_window
grow_window-Accounts f o s a =
    elim (Bool-cases (leb o.tx_portal_increase_thresh s.successful_acks)) [
      | inl reached ↦ rw reached (same-Accounts f s _ refl refl a)
      | inr below ↦ rw below a
    ]

ack_found-Accounts :
    (f : Floats) (o : Options f) (k : ℕ) (found : Option TxPayload) (s : SendBuffer f)
    → lookup k s.buffer ≡ found
    → Accounts f s
    → Accounts f (ack_found f o k found s).0
unfolding ack_found ack_payload duplicate_ack
ack_found-Accounts f o k none s h a =
    elim (Bool-cases (leb o.tx_portal_dup_ack_thresh (add32 s.duplicate_acks 1))) [
      | inl reached ↦ rw reached (same-Accounts f s _ refl refl a)
      | inr below ↦ rw below (same-Accounts f s _ refl refl a)
    ]
ack_found-Accounts f o k (some t) s h a = grow_window-Accounts f o _ (record {
  distinct = Distinct-erase k s.buffer a.distinct;
  keyed = All-erase (λ (e : ℕ × TxPayload). e.0 ≡ e.1.payload.sequence) k s.buffer a.keyed;
  is_size = omega (arith, a.is_size, total-erase k t s.buffer h);
})

ack_sequences-Accounts :
    (f : Floats) (o : Options f) (ks : List ℕ) (s : SendBuffer f)
    → Accounts f s
    → Accounts f (ack_sequences f o ks s).0
unfolding ack_sequences ack_sequence
ack_sequences-Accounts f o [] s a = a
ack_sequences-Accounts f o (k ∷ ks) s a =
    ack_sequences-Accounts f o ks (ack_found f o k (lookup k s.buffer) s).0
      (ack_found-Accounts f o k (lookup k s.buffer) s refl a)

pub receive_acknowledgement-Accounts :
    (f : Floats) (o : Options f) (now : ℕ) (ack : Acknowledgement) (s : SendBuffer f)
    → Accounts f s
    → Accounts f (receive_acknowledgement f o now ack s).0
unfolding receive_acknowledgement take_rtt
receive_acknowledgement-Accounts f o now ack s a =
    let done = ack_sequences-Accounts f o ack.sequences s a in
    elim (Bool-cases (ltb 0 ack.rtt)) [
      | inl timed ↦ rw timed (same-Accounts f _ _ refl refl done)
      | inr untimed ↦ rw untimed (same-Accounts f _ _ refl refl done)
    ]
