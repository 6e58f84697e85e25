-- ===== src/Xgress/Send/Retransmits.antt =====
-- What retransmit asks for: payloads that the buffer holds, each once, and the accounts stay.
use sdk_golang.Common.{
  ℕ, ◌-◌, ◌%◌, ◌^◌, ◌≡◌, ◌≢◌, refl, ap, sym, ◌∙◌, inl, inr, true, false, some, List, [], ◌∷◌, ◌&&◌,
  ltb, leb, ◌==◌, arith, Bool-cases, length, All,
}
use sdk_golang.Common.Words.{add32, sub32, slt}
use sdk_golang.Common.Map.{lookup, insert, Distinct, lookup-insert, Distinct-insert, All-insert}
use sdk_golang.Xgress.Messages.{Payload}
use sdk_golang.Xgress.Send.{Floats, TxPayload, Options, SendBuffer, mark_queued}
use sdk_golang.Xgress.Send.Timers.{
  scale, is_due, due_payloads, insert_by_sequence, sort_by_sequence, requeue, requeue_all,
  retransmit,
}
use sdk_golang.Xgress.Send.Accounts.{Accounts, total-insert_same, same-Accounts}
use mathlib.Core.Path.{subst}

-- The map holds the payload of `t` under its sequence.
abbrev pub Kept : List (ℕ × TxPayload) → TxPayload → Type 0
Kept m t = (u : TxPayload) × (lookup t.payload.sequence m ≡ some u) × (u.payload ≡ t.payload)

-- Requeueing one payload keeps another.
Kept-insert :
    (m : List (ℕ × TxPayload)) (t v : TxPayload)
    → Kept m t
    → Kept m v
    → Kept (insert t.payload.sequence (mark_queued t) m) v
unfolding mark_queued
Kept-insert m t v (u, found, same) (w, held, own) =
    elim (Bool-cases (t.payload.sequence == v.payload.sequence)) [
      | inl here ↦
          let key : t.payload.sequence ≡ v.payload.sequence = ground (arith, here) in
          let one : some u ≡ some w = sym found ∙ ap (λ k. lookup k m) key ∙ held in
          let both : u ≡ w = cc in
          (
            mark_queued t,
            lookup-insert t.payload.sequence v.payload.sequence (mark_queued t) m ∙ rw here refl,
            sym same ∙ ap (λ (x : TxPayload). x.payload) both ∙ own,
          )
      | inr there ↦ (
        w,
        lookup-insert t.payload.sequence v.payload.sequence (mark_queued t) m ∙ rw there held,
        own,
      )
    ]

All-Kept-insert :
    (m : List (ℕ × TxPayload)) (t : TxPayload) (ts : List TxPayload)
    → Kept m t
    → All (Kept m) ts
    → All (Kept (insert t.payload.sequence (mark_queued t) m)) ts
All-Kept-insert m t [] k a = tt
All-Kept-insert m t (v ∷ ts) k a = (Kept-insert m t v k a.0, All-Kept-insert m t ts k a.1)

-- What requeue does to the map, whichever way its counters go.
requeue-buffer :
    (f : Floats) (o : Options f) (t : TxPayload) (s : SendBuffer f)
    → ((requeue f o t s).buffer ≡ insert t.payload.sequence (mark_queued t) s.buffer)
      × ((requeue f o t s).link_send_buffer_size ≡ s.link_send_buffer_size)
unfolding requeue scale
requeue-buffer f o t s = elim (Bool-cases (leb o.tx_portal_retx_thresh (add32 s.retransmits 1))) [
  | inl reached ↦ rw reached (refl, refl)
  | inr below ↦ rw below (refl, refl)
]

requeue-Accounts :
    (f : Floats) (o : Options f) (t : TxPayload) (s : SendBuffer f)
    → Kept s.buffer t
    → Accounts f s
    → Accounts f (requeue f o t s)
unfolding mark_queued
requeue-Accounts f o t s (u, found, same) a =
    let (is_buffer, is_count) = requeue-buffer f o t s in
    let marked : SendBuffer f = record s {
      buffer = insert t.payload.sequence (mark_queued t) s.buffer;
    } in
    same-Accounts f marked (requeue f o t s) is_buffer is_count (record {
      distinct = Distinct-insert t.payload.sequence (mark_queued t) s.buffer a.distinct;
      keyed =
          All-insert (λ (e : ℕ × TxPayload). e.0 ≡ e.1.payload.sequence) t.payload.sequence
            (mark_queued t) s.buffer refl a.keyed;
      is_size =
          a.is_size
          ∙ ap (λ n. n % 2 ^ 32)
              (sym (
                total-insert_same t.payload.sequence (mark_queued t) u s.buffer found
                  (ap (λ (p : Payload). length p.payload_data) same)));
    })

requeue_all-Accounts :
    (f : Floats) (o : Options f) (ts : List TxPayload) (s : SendBuffer f)
    → All (Kept s.buffer) ts
    → Accounts f s
    → Accounts f (requeue_all f o ts s)
unfolding requeue_all
requeue_all-Accounts f o [] s k a = a
requeue_all-Accounts f o (t ∷ ts) s k a =
    let (is_buffer, _) = requeue-buffer f o t s in
    requeue_all-Accounts f o ts (requeue f o t s)
      (subst (λ m. All (Kept m) ts) (sym is_buffer) (All-Kept-insert s.buffer t ts k.0 k.1))
      (requeue-Accounts f o t s k.0 a)

-- The entries of a map with distinct keys are what it has at their keys.
found_behind :
    (i : ℕ) (w : TxPayload) (m part : List (ℕ × TxPayload))
    → All (λ (e : ℕ × TxPayload). i ≢ e.0) part
    → All (λ (e : ℕ × TxPayload). lookup e.0 m ≡ some e.1) part
    → All (λ (e : ℕ × TxPayload). lookup e.0 ((i, w) ∷ m) ≡ some e.1) part
found_behind i w m [] ne a = tt
found_behind i w m ((j, t) ∷ part) ne a =
    let other : (i == j) ≡ false = ground (arith, ne.0) in
    (rw other a.0, found_behind i w m part ne.1 a.1)

entries_found :
    (m : List (ℕ × TxPayload)) → Distinct m → All (λ (e : ℕ × TxPayload). lookup e.0 m ≡ some e.1) m
entries_found [] d = tt
entries_found ((i, w) ∷ m) d =
    let here : (i == i) ≡ true = ground arith in
    (rw here refl, found_behind i w m m d.0 (entries_found m d.1))

-- A payload that the map holds as it is, and that is due.
abbrev pub Due : (f : Floats) → ℕ → ℕ → List (ℕ × TxPayload) → TxPayload → Type 0
Due f now threshold m t = (lookup t.payload.sequence m ≡ some t) × (is_due f now threshold t ≡ true)

due_payloads-Due :
    (f : Floats) (now threshold : ℕ) (m part : List (ℕ × TxPayload))
    → All (λ (e : ℕ × TxPayload). lookup e.0 m ≡ some e.1) part
    → All (λ (e : ℕ × TxPayload). e.0 ≡ e.1.payload.sequence) part
    → All (Due f now threshold m) (due_payloads f now threshold part)
due_payloads-Due f now threshold m [] found keyed = tt
due_payloads-Due f now threshold m ((k, t) ∷ part) found keyed =
    let rest = due_payloads-Due f now threshold m part found.1 keyed.1 in
    elim (Bool-cases (is_due f now threshold t)) [
      | inl due ↦ rw due ((ap (λ x. lookup x m) (sym keyed.0) ∙ found.0, due), rest)
      | inr idle ↦ rw idle rest
    ]

insert_by_sequence-All :
    (P : TxPayload → Type 0) (t : TxPayload) (ts : List TxPayload)
    → P t
    → All P ts
    → All P (insert_by_sequence t ts)
insert_by_sequence-All P t [] p a = (p, tt)
insert_by_sequence-All P t (u ∷ us) p a =
    elim (Bool-cases (slt (sub32 u.payload.sequence t.payload.sequence) 0)) [
      | inl before ↦ rw before (a.0, insert_by_sequence-All P t us p a.1)
      | inr behind ↦ rw behind (p, a)
    ]

sort_by_sequence-All :
    (P : TxPayload → Type 0) (ts : List TxPayload) → All P ts → All P (sort_by_sequence ts)
sort_by_sequence-All P [] a = tt
sort_by_sequence-All P (t ∷ ts) a =
    insert_by_sequence-All P t (sort_by_sequence ts) a.0 (sort_by_sequence-All P ts a.1)

All-implies :
    (P Q : TxPayload → Type 0) (ts : List TxPayload)
    → ((t : TxPayload) → P t → Q t)
    → All P ts
    → All Q ts
All-implies P Q [] h a = tt
All-implies P Q (t ∷ ts) h a = (h t a.0, All-implies P Q ts h a.1)

sorted-Due :
    (f : Floats) (now : ℕ) (s : SendBuffer f)
    → Accounts f s
    → All
        (Due f now s.retx_threshold s.buffer)
        (sort_by_sequence (due_payloads f now s.retx_threshold s.buffer))
sorted-Due f now s a =
    sort_by_sequence-All (Due f now s.retx_threshold s.buffer)
      (due_payloads f now s.retx_threshold s.buffer)
      (due_payloads-Due f now s.retx_threshold s.buffer s.buffer (entries_found s.buffer a.distinct)
        a.keyed)

-- A retransmission changes no payload's place and no size.
pub retransmit-Accounts :
    (f : Floats) (o : Options f) (now : ℕ) (s : SendBuffer f)
    → Accounts f s
    → Accounts f (retransmit f o now s).0
unfolding retransmit
retransmit-Accounts f o now s a =
    let due = due_payloads f now s.retx_threshold s.buffer in
    let kept : All (Kept s.buffer) (sort_by_sequence due) =
      All-implies (Due f now s.retx_threshold s.buffer) (Kept s.buffer) (sort_by_sequence due)
        (λ t d. (t, d.0, refl)) (sorted-Due f now s a) in
    elim (Bool-cases (ltb 0 (length s.buffer) && ltb 64 (now - s.last_retransmit_time))) [
      | inl in_time ↦ rw in_time (
          same-Accounts f (requeue_all f o (sort_by_sequence due) s) _ refl refl
            (requeue_all-Accounts f o (sort_by_sequence due) s kept a))
      | inr early ↦ rw early a
    ]

-- A payload that is queued: the one that the map holds, marked, and it was due.
abbrev pub Requeued : (f : Floats) → ℕ → SendBuffer f → TxPayload → Type 0
Requeued f now s t =
    (u : TxPayload) × (lookup t.payload.sequence s.buffer ≡ some u)
    × (t ≡ mark_queued u)
    × (is_due f now s.retx_threshold u ≡ true)
