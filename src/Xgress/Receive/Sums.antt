-- ===== src/Xgress/Receive/Sums.antt =====
-- What the size of the receive buffer counts.
use sdk_golang.Common.{
  ℕ, suc, ◌+◌, ◌%◌, ◌^◌, ◌≡◌, ◌<◌, refl, sym, ap, ◌∙◌, inl, inr, ◌⊎◌, Bool, true, false, ◌&&◌, List,
  [], ◌∷◌, ◌++◌, arith, ltb, ◌==◌, length, Bool-cases,
}
use sdk_golang.Common.Words.{IsU32, slt, sle, add32}
use sdk_golang.Xgress.Messages.{Payload}
use sdk_golang.Xgress.Receive.{
  Btree, put_sorted, left_entry, RecvBuffer, Link, queue_left, queue_next, put_payload,
  receive_unordered, next_payload, poll, after_next, Next,
}
use sdk_golang.Xgress.Receive.Invariant.{
  Ascending, Invariant, fresh_sequence, put_payload-Invariant,
}
use mathlib.Core.List.{append_assoc}
use mathlib.Core.Path.{subst}

-- The bytes of payloads, and of the payloads of entries.
abbrev pub bytes : List Payload → ℕ
bytes [] = 0
bytes (p ∷ ps) = length p.payload_data + bytes ps

abbrev pub entry_bytes : List (ℕ × Payload) → ℕ
entry_bytes [] = 0
entry_bytes ((j, q) ∷ m) = length q.payload_data + entry_bytes m

-- Each entry has the number of bytes that its key stands for.
abbrev pub Sized : (ℕ → ℕ) → List (ℕ × Payload) → Type 0
Sized len [] = Unit {0}
Sized len ((j, q) ∷ m) = (length q.payload_data ≡ len j) × Sized len m

pub bytes-append : (ps qs : List Payload) → bytes (ps ++ qs) ≡ bytes ps + bytes qs
bytes-append [] qs = omega arith
bytes-append (p ∷ ps) qs = omega (arith, bytes-append ps qs)

Sized-put :
    (len : ℕ → ℕ) (k : ℕ) (p : Payload) (m : List (ℕ × Payload))
    → length p.payload_data ≡ len k
    → Sized len m
    → Sized len (put_sorted k p m)
Sized-put len k p [] e z = (e, tt)
Sized-put len k p ((j, q) ∷ m) e z = elim (Bool-cases (k == j)) [
  | inl same ↦ rw same (e, z.1)
  | inr other ↦ elim (Bool-cases (slt k j)) [
    | inl below ↦ rw (other, below) (e, z)
    | inr above ↦ rw (other, above) (z.0, Sized-put len k p m e z.1)
  ]
]

-- An entry replaces one of the same number of bytes, or is new.
entry_bytes-put :
    (len : ℕ → ℕ) (k : ℕ) (p : Payload) (m : List (ℕ × Payload))
    → length p.payload_data ≡ len k
    → Sized len m
    → (length (put_sorted k p m) ≡ length m) × (entry_bytes (put_sorted k p m) ≡ entry_bytes m)
      ⊎ (length (put_sorted k p m) ≡ suc (length m))
        × (entry_bytes (put_sorted k p m) ≡ entry_bytes m + length p.payload_data)
entry_bytes-put len k p [] e z = inr (refl, omega arith)
entry_bytes-put len k p ((j, q) ∷ m) e z = elim (Bool-cases (k == j)) [
  | inl same ↦
      let key : k ≡ j = ground (arith, same) in
      let own : length p.payload_data ≡ length q.payload_data = e ∙ ap len key ∙ sym z.0 in
      rw same (inl (refl, omega (arith, own)))
  | inr other ↦ elim (Bool-cases (slt k j)) [
    | inl below ↦ rw (other, below) (inr (refl, omega arith))
    | inr above ↦
        rw (other, above)
          (elim (entry_bytes-put len k p m e z.1) [
            | inl (n, t) ↦ inl (ap suc n, omega (arith, t))
            | inr (n, t) ↦ inr (ap suc n, omega (arith, t))
          ])
  ]
]

-- What the size counts, when `cleared` bytes have been cleared.
pub record Sums (b : Btree) (len : ℕ → ℕ) (l : Link b) (cleared : ℕ) : Type 0 where
  pub sized : Sized len (b.items l.buffer.tree)
  pub is_word : l.buffer.size < 2 ^ 32
  pub total :
      (l.buffer.size + cleared) % 2 ^ 32
      ≡ (bytes (l.delivered ++ l.buffer.tx_queue) + entry_bytes (b.items l.buffer.tree)) % 2 ^ 32

moved :
    (ds qs : List Payload) (p : Payload) (n : ℕ)
    → (bytes (ds ++ qs) + (length p.payload_data + n)) % 2 ^ 32
      ≡ (bytes (ds ++ (qs ++ p ∷ [])) + n) % 2 ^ 32
moved ds qs p n =
    omega (arith, bytes-append ds qs, bytes-append ds (qs ++ p ∷ []), bytes-append qs (p ∷ []))

queue_left-Sums :
    (b : Btree) (len : ℕ → ℕ) (c lo : ℕ) (l : Link b) (m : List (ℕ × Payload))
    → b.items l.buffer.tree ≡ m
    → Ascending lo m
    → Sums b len l c
    → Sums b len (record l { buffer = queue_left b (left_entry m) l.buffer }) c
unfolding queue_left
queue_left-Sums b len c lo l [] e a z = z
queue_left-Sums b len c lo l ((j, p) ∷ m) e a z =
    let (low, high, own, rest) = a in
    let itself : (p.sequence == j) ≡ true = ground (arith, own) in
    let sized : Sized len ((j, p) ∷ m) = subst (Sized len) e z.sized in
    elim (Bool-cases (
      (p.sequence == add32 l.buffer.sequence 1)
      && ltb (length l.buffer.tx_queue) l.buffer.capacity)) [
        | inl go ↦ rw go (record {
          sized = rw (b.items-remove p.sequence l.buffer.tree, e, itself) sized.1;
          is_word = z.is_word;
          total =
              rw (b.items-remove p.sequence l.buffer.tree, e, itself)
                (z.total ∙ rw e (moved l.delivered l.buffer.tx_queue p (entry_bytes m)));
        })
        | inr stay ↦ rw stay z
      ]

queue_next-Sums :
    (b : Btree) (len : ℕ → ℕ) (c capacity : ℕ) (l : Link b)
    → Invariant b capacity l
    → Sums b len l c
    → Sums b len (record l { buffer = queue_next b l.buffer }) c
unfolding queue_next
queue_next-Sums b len c capacity l i z =
    rw (b.left_value-items l.buffer.tree)
      (queue_left-Sums b len c i.n l (b.items l.buffer.tree) refl i.ascending z)

put_payload-Sums :
    (b : Btree) (len : ℕ → ℕ) (c : ℕ) (l : Link b) (p : Payload)
    → length p.payload_data ≡ len p.sequence
    → Sums b len l c
    → Sums b len (record l { buffer = put_payload b p l.buffer }) c
unfolding put_payload
put_payload-Sums b len c l p own z =
    let inside : Sized len (b.items (b.put p.sequence p l.buffer.tree)) =
      rw (b.items-put p.sequence p l.buffer.tree)
        (Sized-put len p.sequence p (b.items l.buffer.tree) own z.sized) in
    let after : ℕ = entry_bytes (b.items (b.put p.sequence p l.buffer.tree)) in
    let before : ℕ = entry_bytes (b.items l.buffer.tree) in
    let is_after : after ≡ entry_bytes (put_sorted p.sequence p (b.items l.buffer.tree)) =
      ap entry_bytes (b.items-put p.sequence p l.buffer.tree) in
    let grown : b.size (b.put p.sequence p l.buffer.tree)
        ≡ length (put_sorted p.sequence p (b.items l.buffer.tree)) =
      b.size-items (b.put p.sequence p l.buffer.tree)
      ∙ ap length (b.items-put p.sequence p l.buffer.tree) in
    let was : b.size l.buffer.tree ≡ length (b.items l.buffer.tree) = b.size-items l.buffer.tree in
    elim (entry_bytes-put len p.sequence p (b.items l.buffer.tree) own z.sized) [
      | inl (n, t) ↦
          let again : ltb (b.size l.buffer.tree) (b.size (b.put p.sequence p l.buffer.tree))
              ≡ false =
            ground (arith, n, grown, was) in
          rw again (record {
            sized = inside;
            is_word = z.is_word;
            total = omega (arith, z.total, is_after, t);
          })
      | inr (n, t) ↦
          let new : ltb (b.size l.buffer.tree) (b.size (b.put p.sequence p l.buffer.tree)) ≡ true =
            ground (arith, n, grown, was) in
          rw new (record {
            sized = inside;
            is_word = omega arith;
            total = omega (arith, z.total, is_after, t);
          })
    ]

pub receive-Sums :
    (b : Btree) (len : ℕ → ℕ) (c capacity : ℕ) (l : Link b) (p : Payload) (max_size : ℕ)
    → IsU32 p.sequence
    → length p.payload_data ≡ len p.sequence
    → Invariant b capacity l
    → Sums b len l c
    → Sums b len (record l { buffer = (receive_unordered b p max_size l.buffer).1 }) c
unfolding receive_unordered
receive-Sums b len c capacity l p max_size u own i z =
    elim (Bool-cases (sle p.sequence l.buffer.sequence)) [
      | inl old ↦ rw old z
      | inr fresh ↦
          let (low, high) =
            fresh_sequence p.sequence i.n u i.small
              (ap (sle p.sequence) (sym i.is_sequence) ∙ fresh) in
          elim (Bool-cases (ltb max_size l.buffer.size && slt l.buffer.max_sequence p.sequence)) [
            | inl full ↦ rw (fresh, full) z
            | inr fits ↦
                rw (fresh, fits)
                  (queue_next-Sums b len c capacity (record l { buffer = put_payload b p l.buffer })
                    (put_payload-Invariant b capacity l p i low high)
                    (put_payload-Sums b len c l p own z))
          ]
    ]

poll-Sums :
    (b : Btree) (len : ℕ → ℕ) (c : ℕ) (l : Link b) (queue : List Payload)
    (otherwise : Next × RecvBuffer b)
    → l.buffer.tx_queue ≡ queue
    → Sums b len l c
    → Sums b len (after_next b l.delivered otherwise) c
    → Sums b len (after_next b l.delivered (poll b l.buffer otherwise)) c
poll-Sums b len c l [] otherwise e z other = rw e other
poll-Sums b len c l (p ∷ ps) otherwise e z other = rw e (record {
  sized = z.sized;
  is_word = z.is_word;
  total =
      z.total
      ∙ ap (λ q. (bytes (l.delivered ++ q) + entry_bytes (b.items l.buffer.tree)) % 2 ^ 32) e
      ∙ ap (λ q. (bytes q + entry_bytes (b.items l.buffer.tree)) % 2 ^ 32)
          (sym (append_assoc l.delivered (p ∷ []) ps));
})

pub next-Sums :
    (b : Btree) (len : ℕ → ℕ) (c capacity : ℕ) (l : Link b) (closed : Bool)
    → Invariant b capacity l
    → Sums b len l c
    → Sums b len (after_next b l.delivered (next_payload b closed l.buffer)) c
unfolding next_payload
next-Sums b len c capacity l true i z =
    let queued = queue_next-Sums b len c capacity l i z in
    poll-Sums b len c l _ _ refl z
      (poll-Sums b len c (record l { buffer = queue_next b l.buffer }) _ _ refl queued queued)
next-Sums b len c capacity l false i z =
    let queued = queue_next-Sums b len c capacity l i z in
    poll-Sums b len c l _ _ refl z
      (poll-Sums b len c (record l { buffer = queue_next b l.buffer }) _ _ refl queued queued)
