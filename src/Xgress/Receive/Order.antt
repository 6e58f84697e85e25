-- ===== src/Xgress/Receive/Order.antt =====
-- NextPayload returns the payloads of a circuit in order, without a gap or a repetition.
use sdk_golang.Common.{
  ℕ, zero, suc, ◌+◌, ◌<◌, ◌≡◌, refl, sym, ap, ◌∙◌, inl, inr, Bool, true, false, none, List, [], ◌∷◌,
  ◌++◌, map, arith, ltb, ◌==◌, if◌then◌else◌, length, Bool-cases,
}
use sdk_golang.Common.Words.{add32}
use sdk_golang.Common.Map.{lookup}
use sdk_golang.Xgress.Messages.{Payload}
use sdk_golang.Xgress.Receive.{
  Btree, left_entry, RecvBuffer, Link, Reachable, queue_left, queue_next, next_payload, poll, Next,
  got, none_left, waits,
}
use sdk_golang.Xgress.Receive.Invariant.{
  range, Ascending, Invariant, next_sequence, Reachable-Invariant,
}
use mathlib.Core.List.{append-nil}
use mathlib.Core.Path.{subst}

-- In every reachable state of the receive buffer the sequences of what NextPayload has returned and
-- of what waits in its queue are 0, 1, 2, ... up to the sequence of the buffer, in this order.
pub delivered-range :
    (b : Btree) (capacity : ℕ) (l : Link b)
    → Reachable b capacity l
    → map (λ (p : Payload). p.sequence) (l.delivered ++ l.buffer.tx_queue)
      ≡ range (add32 l.buffer.sequence 1)
delivered-range b capacity l r =
    let i = Reachable-Invariant b capacity l r in
    i.in_order ∙ ap range (sym (ap (λ s. add32 s 1) i.is_sequence ∙ next_sequence i.n i.small))

count_from : ℕ → ℕ → List ℕ
count_from k zero = []
count_from k (suc n) = k ∷ count_from (suc k) n

count_from_snoc : (k n : ℕ) → count_from k (suc n) ≡ count_from k n ++ (k + n) ∷ []
unfolding count_from
count_from_snoc k zero = let e : k + 0 ≡ k = omega arith in rw e
count_from_snoc k (suc n) =
    let e : suc k + n ≡ k + suc n = omega arith in rw (count_from_snoc (suc k) n, e)

range-count_from : (n : ℕ) → range n ≡ count_from 0 n
range-count_from zero = unfold count_from in refl
range-count_from (suc n) =
    let e : 0 + n ≡ n = omega arith in rw (range-count_from n) (sym (count_from_snoc 0 n ∙ rw e))

-- What stands behind a list in a count is the number of its place.
count_from_at :
    (k n : ℕ) (xs : List Payload) (p : Payload) (ys : List Payload)
    → map (λ (x : Payload). x.sequence) (xs ++ p ∷ ys) ≡ count_from k n
    → p.sequence ≡ k + length xs
unfolding count_from
count_from_at k zero [] p ys h = cc
count_from_at k zero (x ∷ xs) p ys h = cc
count_from_at k (suc n) [] p ys h = let e : p.sequence ≡ k = cc in omega arith
count_from_at k (suc n) (x ∷ xs) p ys h =
    let rest : map (λ (y : Payload). y.sequence) (xs ++ p ∷ ys) ≡ count_from (suc k) n = cc in
    omega (arith, count_from_at (suc k) n xs p ys rest)

count_from-length :
    (k n : ℕ) (xs : List Payload)
    → map (λ (x : Payload). x.sequence) xs ≡ count_from k n
    → length xs ≡ n
unfolding count_from
count_from-length k zero [] h = refl
count_from-length k zero (x ∷ xs) h = cc
count_from-length k (suc n) [] h = cc
count_from-length k (suc n) (x ∷ xs) h =
    let rest : map (λ (y : Payload). y.sequence) xs ≡ count_from (suc k) n = cc in
    ap suc (count_from-length (suc k) n xs rest)

lookup_below : (k lo : ℕ) (m : List (ℕ × Payload)) → k < lo → Ascending lo m → lookup k m ≡ none
lookup_below k lo [] h a = refl
lookup_below k lo ((j, p) ∷ m) h (low, high, own, rest) =
    ground (arith, lookup_below k (suc j) m (omega arith) rest)

-- What NextPayload answers when `done` payloads have been returned before and the tree holds `m`.
abbrev pub Answers : ℕ → List (ℕ × Payload) → Bool → Next → Type 0
Answers done m closed (got p) = p.sequence ≡ done
Answers done m closed none_left = (closed ≡ true) × (lookup done m ≡ none)
Answers done m closed waits = (closed ≡ false) × (lookup done m ≡ none)

nothing_left :
    (b : Btree) (done : ℕ) (m : List (ℕ × Payload)) (closed : Bool) (r : RecvBuffer b)
    → lookup done m ≡ none
    → r.tx_queue ≡ []
    → Answers done m closed (poll b r (if closed then (none_left, r) else (waits, r))).0
nothing_left b done m true r absent empty = rw empty (refl, absent)
nothing_left b done m false r absent empty = rw empty (refl, absent)

after_queue_left :
    (b : Btree) (capacity : ℕ) (l : Link b) (i : Invariant b capacity l) (closed : Bool)
    (m : List (ℕ × Payload))
    → 0 < capacity
    → b.items l.buffer.tree ≡ m
    → l.buffer.tx_queue ≡ []
    → i.n ≡ length l.delivered
    → let queued = queue_left b (left_entry m) l.buffer in
      Answers
        (length l.delivered)
        m
        closed
        (poll b queued (if closed then (none_left, queued) else (waits, queued))).0
unfolding queue_left
after_queue_left b capacity l i closed [] some_room e empty count =
    nothing_left b (length l.delivered) [] closed l.buffer refl empty
after_queue_left b capacity l i closed ((j, p) ∷ m) some_room e empty count =
    let (low, high, own, rest) = subst (Ascending i.n) e i.ascending in
    let seq : add32 l.buffer.sequence 1 ≡ i.n =
      ap (λ s. add32 s 1) i.is_sequence ∙ next_sequence i.n i.small in
    let room : ltb (length l.buffer.tx_queue) l.buffer.capacity ≡ true =
      rw (empty, i.is_capacity) (ground arith) in
    elim (Bool-cases (p.sequence == add32 l.buffer.sequence 1)) [
      | inl go ↦ rw (go, room, empty) (ground (arith, go, seq))
      | inr stay ↦ rw stay (
          nothing_left b (length l.delivered) ((j, p) ∷ m) closed l.buffer
            (lookup_below (length l.delivered) (suc i.n) ((j, p) ∷ m) (omega arith)
              (ground (arith, stay, seq)))
            empty)
    ]

poll_empty :
    (b : Btree) (r : RecvBuffer b) (otherwise : Next × RecvBuffer b)
    → r.tx_queue ≡ []
    → poll b r otherwise ≡ otherwise
poll_empty b r otherwise e = rw e

from_queue :
    (b : Btree) (capacity : ℕ) (l : Link b) (i : Invariant b capacity l) (closed : Bool)
    (queue : List Payload)
    → 0 < capacity
    → l.buffer.tx_queue ≡ queue
    → let queued = queue_next b l.buffer in
      Answers
        (length l.delivered)
        (b.items l.buffer.tree)
        closed
        (poll b l.buffer
          (poll b queued (if closed then (none_left, queued) else (waits, queued)))).0
unfolding queue_next
from_queue b capacity l i closed [] some_room e =
    let count : i.n ≡ length l.delivered = sym (
      count_from-length 0 i.n l.delivered (
        ap (map (λ (p : Payload). p.sequence))
          (sym (append-nil l.delivered) ∙ ap (λ q. l.delivered ++ q) (sym e))
        ∙ i.in_order
        ∙ range-count_from i.n)) in
    rw (poll_empty b l.buffer _ e, b.left_value-items l.buffer.tree)
      (after_queue_left b capacity l i closed (b.items l.buffer.tree) some_room refl e count)
from_queue b capacity l i closed (p ∷ ps) some_room e =
    let at : p.sequence ≡ 0 + length l.delivered = count_from_at 0 i.n l.delivered p ps (
      ap (λ q. map (λ (x : Payload). x.sequence) (l.delivered ++ q)) (sym e)
      ∙ i.in_order
      ∙ range-count_from i.n) in
    rw e (omega arith)

-- In every reachable state of a receive buffer whose queue has room for a payload at all:
-- NextPayload returns the payload behind those that it has returned before; it returns nil or waits
-- only when that payload is not in the tree, nil when the Xgress is closed, and waits when it is
-- not.
pub next_payload_exact :
    (b : Btree) (capacity : ℕ) (l : Link b) (closed : Bool)
    → Reachable b capacity l
    → 0 < capacity
    → Answers (length l.delivered) (b.items l.buffer.tree) closed (next_payload b closed l.buffer).0
unfolding next_payload
next_payload_exact b capacity l closed r some_room =
    from_queue b capacity l (Reachable-Invariant b capacity l r) closed l.buffer.tx_queue some_room
      refl
