-- ===== src/Xgress/Receive/Invariant.antt =====
-- What holds of a receive buffer in every reachable state.
use sdk_golang.Common.{
  ℕ, zero, suc, ◌+◌, ◌%◌, ◌^◌, ◌≤◌, ◌<◌, ◌≡◌, refl, sym, ap, ◌∙◌, inl, inr, Bool, true, false, ◌&&◌,
  List, [], ◌∷◌, ◌++◌, map, arith, ltb, ◌==◌, length, Bool-cases, ltb→lt,
}
use sdk_golang.Common.Words.{IsU32, slt, sle, add32}
use sdk_golang.Xgress.Messages.{Payload}
use sdk_golang.Xgress.Receive.{
  Btree, put_sorted, left_entry, RecvBuffer, Link, Step, Step.receive, Step.next, Step.clear,
  Reachable, Reachable.start, Reachable.after, queue_left, queue_next, put_payload,
  receive_unordered, next_payload, new_recv_buffer, poll, after_next, Next,
}
use mathlib.Core.Path.{subst}
use mathlib.Core.List.{append_assoc, map-append}

-- 0, 1, ..., n - 1
abbrev pub range : ℕ → List ℕ
range zero = []
range (suc n) = range n ++ n ∷ []

-- The entries have ascending keys from `lo` below 2^31, and each key is its payload's sequence.
abbrev pub Ascending : ℕ → List (ℕ × Payload) → Type 0
Ascending lo [] = Unit {0}
Ascending lo ((k, p) ∷ m) = (lo ≤ k) × (k < 2 ^ 31) × (p.sequence ≡ k) × Ascending (suc k) m

pub put_sorted-Ascending :
    (k : ℕ) (p : Payload) (lo : ℕ) (m : List (ℕ × Payload))
    → lo ≤ k
    → k < 2 ^ 31
    → p.sequence ≡ k
    → Ascending lo m
    → Ascending lo (put_sorted k p m)
put_sorted-Ascending k p lo [] h s e a = (h, s, e, tt)
put_sorted-Ascending k p lo ((j, q) ∷ m) h s e (low, high, own, rest) = elim (Bool-cases (k == j)) [
  | inl same ↦ let eq : k ≡ j = ground arith in rw same (h, s, e, rw eq rest)
  | inr other ↦ elim (Bool-cases (slt k j)) [
    | inl below ↦ rw (other, below) (h, s, e, (omega (arith, ltb→lt _ _ below), high, own, rest))
    | inr above ↦
        rw (other, above)
          (low, high, own, put_sorted-Ascending k p (suc j) m (ground arith) s e rest)
  ]
]

-- n payloads have come out in order; the tree holds later ones.
pub record Invariant (b : Btree) (capacity : ℕ) (l : Link b) : Type 0 where
  pub n : ℕ
  pub small : n ≤ 2 ^ 31
  pub is_sequence : l.buffer.sequence ≡ (n + 0xffff_ffff) % 2 ^ 32
  pub in_order : map (λ (p : Payload). p.sequence) (l.delivered ++ l.buffer.tx_queue) ≡ range n
  pub ascending : Ascending n (b.items l.buffer.tree)
  pub is_capacity : l.buffer.capacity ≡ capacity

pub next_sequence : (n : ℕ) → n ≤ 2 ^ 31 → add32 ((n + 0xffff_ffff) % 2 ^ 32) 1 ≡ n
next_sequence n h = omega arith

-- A sequence that is not a duplicate.
pub fresh_sequence :
    (k n : ℕ)
    → IsU32 k
    → n ≤ 2 ^ 31
    → sle k ((n + 0xffff_ffff) % 2 ^ 32) ≡ false
    → (n ≤ k) × (k < 2 ^ 31)
fresh_sequence k n u h f = (ground arith, ground arith)

queue_left-Invariant :
    (b : Btree) (capacity : ℕ) (l : Link b) (m : List (ℕ × Payload))
    → b.items l.buffer.tree ≡ m
    → Invariant b capacity l
    → Invariant b capacity (record l { buffer = queue_left b (left_entry m) l.buffer })
unfolding queue_left
queue_left-Invariant b capacity l [] e i = i
queue_left-Invariant b capacity l ((j, p) ∷ m) e i =
    let (low, high, own, rest) = subst (Ascending i.n) e i.ascending in
    elim (Bool-cases (
      (p.sequence == add32 l.buffer.sequence 1)
      && ltb (length l.buffer.tx_queue) l.buffer.capacity)) [
        | inl go ↦
            let at : p.sequence ≡ i.n =
              ground (arith, go, i.is_sequence, next_sequence i.n i.small) in
            let itself : (p.sequence == j) ≡ true = ground (arith, own) in
            rw go (record {
              n = suc i.n;
              small = omega (arith);
              is_sequence = omega (arith);
              in_order =
                  ap (map (λ (x : Payload). x.sequence))
                    (sym (append_assoc l.delivered l.buffer.tx_queue (p ∷ [])))
                  ∙ map-append (λ (x : Payload). x.sequence) (l.delivered ++ l.buffer.tx_queue)
                      (p ∷ [])
                  ∙ rw (i.in_order, at);
              ascending =
                  rw (b.items-remove p.sequence l.buffer.tree, e, itself)
                    (subst (λ x. Ascending (suc x) m) (sym own ∙ at) rest);
              is_capacity = i.is_capacity;
            })
        | inr stay ↦ rw stay i
      ]

pub queue_next-Invariant :
    (b : Btree) (capacity : ℕ) (l : Link b)
    → Invariant b capacity l
    → Invariant b capacity (record l { buffer = queue_next b l.buffer })
unfolding queue_next
queue_next-Invariant b capacity l i =
    rw (b.left_value-items l.buffer.tree)
      (queue_left-Invariant b capacity l (b.items l.buffer.tree) refl i)

pub put_payload-Invariant :
    (b : Btree) (capacity : ℕ) (l : Link b) (p : Payload) (i : Invariant b capacity l)
    → i.n ≤ p.sequence
    → p.sequence < 2 ^ 31
    → Invariant b capacity (record l { buffer = put_payload b p l.buffer })
unfolding put_payload
put_payload-Invariant b capacity l p i low high =
    let inside : Ascending i.n (b.items (b.put p.sequence p l.buffer.tree)) =
      rw (b.items-put p.sequence p l.buffer.tree)
        (put_sorted-Ascending p.sequence p i.n (b.items l.buffer.tree) low high refl i.ascending) in
    let same : (size max_sequence : ℕ)
        → Invariant b capacity (record l {
          buffer = record (Link.buffer l) {
            tree = b.put p.sequence p l.buffer.tree;
            size = size;
            max_sequence = max_sequence;
          };
        }) =
      λ size max_sequence. record {
        n = i.n;
        small = i.small;
        is_sequence = i.is_sequence;
        in_order = i.in_order;
        ascending = inside;
        is_capacity = i.is_capacity;
      } in
    elim (Bool-cases (ltb (b.size l.buffer.tree) (b.size (b.put p.sequence p l.buffer.tree)))) [
      | inl new ↦ rw new (same _ _)
      | inr again ↦ rw again (same l.buffer.size l.buffer.max_sequence)
    ]

receive-Invariant :
    (b : Btree) (capacity : ℕ) (l : Link b) (p : Payload) (max_size : ℕ)
    → IsU32 p.sequence
    → Invariant b capacity l
    → Invariant b capacity (record l { buffer = (receive_unordered b p max_size l.buffer).1 })
unfolding receive_unordered
receive-Invariant b capacity l p max_size u i =
    elim (Bool-cases (sle p.sequence l.buffer.sequence)) [
      | inl old ↦ rw old i
      | inr fresh ↦
          let (low, high) =
            fresh_sequence p.sequence i.n u i.small
              (ap (sle p.sequence) (sym i.is_sequence) ∙ fresh) in
          elim (Bool-cases (ltb max_size l.buffer.size && slt l.buffer.max_sequence p.sequence)) [
            | inl full ↦ rw (fresh, full) i
            | inr fits ↦
                rw (fresh, fits)
                  (queue_next-Invariant b capacity (record l { buffer = put_payload b p l.buffer })
                    (put_payload-Invariant b capacity l p i low high))
          ]
    ]

-- Taking from the queue moves a payload from the queue to what is delivered.
poll-Invariant :
    (b : Btree) (capacity : ℕ) (l : Link b) (queue : List Payload) (otherwise : Next × RecvBuffer b)
    → l.buffer.tx_queue ≡ queue
    → Invariant b capacity l
    → Invariant b capacity (after_next b l.delivered otherwise)
    → Invariant b capacity (after_next b l.delivered (poll b l.buffer otherwise))
poll-Invariant b capacity l [] otherwise e i other = rw e other
poll-Invariant b capacity l (p ∷ ps) otherwise e i other = rw e (record {
  n = i.n;
  small = i.small;
  is_sequence = i.is_sequence;
  in_order =
      ap (map (λ (x : Payload). x.sequence)) (append_assoc l.delivered (p ∷ []) ps)
      ∙ ap (λ q. map (λ (x : Payload). x.sequence) (l.delivered ++ q)) (sym e)
      ∙ i.in_order;
  ascending = i.ascending;
  is_capacity = i.is_capacity;
})

next-Invariant :
    (b : Btree) (capacity : ℕ) (l : Link b) (closed : Bool)
    → Invariant b capacity l
    → Invariant b capacity (after_next b l.delivered (next_payload b closed l.buffer))
unfolding next_payload
next-Invariant b capacity l true i =
    let queued = queue_next-Invariant b capacity l i in
    poll-Invariant b capacity l _ _ refl i (
      poll-Invariant b capacity (record l { buffer = queue_next b l.buffer }) _ _ refl queued
        queued)
next-Invariant b capacity l false i =
    let queued = queue_next-Invariant b capacity l i in
    poll-Invariant b capacity l _ _ refl i (
      poll-Invariant b capacity (record l { buffer = queue_next b l.buffer }) _ _ refl queued
        queued)

step-Invariant :
    (b : Btree) (capacity : ℕ) (l m : Link b)
    → Step b l m
    → Invariant b capacity l
    → Invariant b capacity m
step-Invariant b capacity l _ (receive _ p max_size u) i =
    receive-Invariant b capacity l p max_size u i
step-Invariant b capacity l _ (next _ closed) i = next-Invariant b capacity l closed i
step-Invariant b capacity l _ (clear _ cleared) i = record {
  n = i.n;
  small = i.small;
  is_sequence = i.is_sequence;
  in_order = i.in_order;
  ascending = i.ascending;
  is_capacity = i.is_capacity;
}

pub Reachable-Invariant :
    (b : Btree) (capacity : ℕ) (l : Link b) → Reachable b capacity l → Invariant b capacity l
unfolding new_recv_buffer
Reachable-Invariant b capacity _ start = record {
  n = 0;
  small = omega arith;
  is_sequence = refl;
  in_order = refl;
  ascending = rw b.items-empty tt;
  is_capacity = refl;
}
Reachable-Invariant b capacity _ (after l m r s) =
    step-Invariant b capacity l m s (Reachable-Invariant b capacity l r)
