-- ===== src/Xgress/Receive/Kept.antt =====
-- What is acknowledged is kept: an accepted payload is in the tree until it has been queued.
use sdk_golang.Common.{
  false_ne_true, ℕ, ◌+◌, ◌%◌, ◌^◌, ◌≤◌, ◌<◌, ◌≡◌, refl, sym, ap, ◌∙◌, ◌⊎◌, inl, inr, true, ◌&&◌,
  none, List, [], ◌∷◌, arith, ltb, ◌==◌, length, Bool-cases, ◌≢◌,
}
use sdk_golang.Common.Words.{slt, sle, add32}
use sdk_golang.Common.Map.{lookup}
use sdk_golang.Xgress.Messages.{Payload}
use sdk_golang.Xgress.Receive.{
  Btree, left_entry, put_sorted, RecvBuffer, Link, Step, Step.receive, Step.next, Step.clear,
  Reachable, queue_left, queue_next, put_payload, receive_unordered,
}
use sdk_golang.Xgress.Receive.Invariant.{
  Ascending, Invariant, next_sequence, fresh_sequence, Reachable-Invariant, put_payload-Invariant,
}
use mathlib.Core.Path.{subst}

-- A payload with this sequence has gone to the queue, or is in the tree.
abbrev pub Held : (b : Btree) → ℕ → RecvBuffer b → Type 0
Held b k r = (k < add32 r.sequence 1) ⊎ (lookup k (b.items r.tree) ≢ none)

lookup_put : (k : ℕ) (p : Payload) (m : List (ℕ × Payload)) → lookup k (put_sorted k p m) ≢ none
lookup_put k p [] h = ground arith
lookup_put k p ((j, q) ∷ m) h = ground (arith, lookup_put k p m)

queue_left_keeps :
    (b : Btree) (capacity : ℕ) (l : Link b) (i : Invariant b capacity l) (k : ℕ)
    (m : List (ℕ × Payload))
    → b.items l.buffer.tree ≡ m
    → Held b k l.buffer
    → Held b k (queue_left b (left_entry m) l.buffer)
unfolding queue_left
queue_left_keeps b capacity l i k [] e held = held
queue_left_keeps b capacity l i k ((j, p) ∷ m) e held =
    let (low, high, own, rest) = subst (Ascending i.n) e i.ascending in
    let seq : add32 l.buffer.sequence 1 ≡ i.n =
      ap (λ s. add32 s 1) i.is_sequence ∙ next_sequence i.n i.small in
    elim (Bool-cases (
      (p.sequence == add32 l.buffer.sequence 1)
      && ltb (length l.buffer.tx_queue) l.buffer.capacity)) [
        | inl go ↦
            let at : p.sequence ≡ i.n = ground (arith, go, seq) in
            let itself : (p.sequence == j) ≡ true = ground (arith, own) in
            rw go (elim held [
              | inl before ↦ inl (omega (arith, before, seq, at, i.small))
              | inr inside ↦ elim (Bool-cases (j == k)) [
                | inl here ↦ inl (ground (arith, here, own, at, i.small))
                | inr there ↦
                    let later : lookup k m ≢ none = λ h. inside (rw (e, there) h) in
                    inr (rw (b.items-remove p.sequence l.buffer.tree, e, itself) later)
              ]
            ])
        | inr stay ↦ rw stay held
      ]

queue_next_keeps :
    (b : Btree) (capacity : ℕ) (l : Link b) (k : ℕ)
    → Invariant b capacity l
    → Held b k l.buffer
    → Held b k (queue_next b l.buffer)
unfolding queue_next
queue_next_keeps b capacity l k i held =
    rw (b.left_value-items l.buffer.tree)
      (queue_left_keeps b capacity l i k (b.items l.buffer.tree) refl held)

put_payload_holds :
    (b : Btree) (p : Payload) (r : RecvBuffer b) → Held b p.sequence (put_payload b p r)
unfolding put_payload
put_payload_holds b p r =
    let inside : lookup p.sequence (b.items (b.put p.sequence p r.tree)) ≢ none =
      rw (b.items-put p.sequence p r.tree) (lookup_put p.sequence p (b.items r.tree)) in
    elim (Bool-cases (ltb (b.size r.tree) (b.size (b.put p.sequence p r.tree)))) [
      | inl new ↦ rw new (inr inside)
      | inr again ↦ rw again (inr inside)
    ]

stale_sequence :
    (k n : ℕ) → k < 2 ^ 31 → n ≤ 2 ^ 31 → sle k ((n + 0xffff_ffff) % 2 ^ 32) ≡ true → k < n
stale_sequence k n u h f = ground arith

-- A payload that ReceiveUnordered accepts in a reachable state, with a sequence that is not
-- negative, has gone to the queue or is in the tree.
pub receive_unordered_holds :
    (b : Btree) (capacity : ℕ) (l : Link b) (p : Payload) (max_size : ℕ)
    → Reachable b capacity l
    → p.sequence < 2 ^ 31
    → (receive_unordered b p max_size l.buffer).0 ≡ true
    → Held b p.sequence (receive_unordered b p max_size l.buffer).1
unfolding receive_unordered
receive_unordered_holds b capacity l p max_size r nonneg accepted =
    let i = Reachable-Invariant b capacity l r in
    let seq : add32 l.buffer.sequence 1 ≡ i.n =
      ap (λ s. add32 s 1) i.is_sequence ∙ next_sequence i.n i.small in
    elim (Bool-cases (sle p.sequence l.buffer.sequence)) [
      | inl old ↦ rw old (
          inl (
            omega (
              arith,
              seq,
              stale_sequence p.sequence i.n nonneg i.small
                  (ap (sle p.sequence) (sym i.is_sequence) ∙ old),
            )))
      | inr fresh ↦
          let (low, high) =
            fresh_sequence p.sequence i.n (omega arith) i.small
              (ap (sle p.sequence) (sym i.is_sequence) ∙ fresh) in
          elim (Bool-cases (ltb max_size l.buffer.size && slt l.buffer.max_sequence p.sequence)) [
            | inl full ↦ absurd (false_ne_true (rw (fresh, full) at accepted))
            | inr fits ↦
                rw (fresh, fits)
                  (queue_next_keeps b capacity (record l { buffer = put_payload b p l.buffer })
                    p.sequence (put_payload-Invariant b capacity l p i low high)
                    (put_payload_holds b p l.buffer))
          ]
    ]
