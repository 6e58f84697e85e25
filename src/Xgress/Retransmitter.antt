-- ===== src/Xgress/Retransmitter.antt =====
-- xgress/retransmitter.go: the queue of payloads to send again, a doubly linked list through the
-- payloads themselves.
pub mod Queue
pub mod Pop
pub mod Push
pub mod Member
pub mod Cut
pub mod Unlink
pub mod Delete
pub mod Accept
use sdk_golang.Common.{
  ℕ, ◌+◌, ◌-◌, ◌%◌, ◌^◌, ◌≡◌, Bool, true, false, not, ◌&&◌, ◌||◌, Option, none, some, ◌==◌,
  if◌then◌else◌,
}
use sdk_golang.Common.Outcome.{Outcome, ok, err, panic, ◌>>=◌}

-- The links of a txPayload; a pointer is a number.
pub record Links : Type 0 where
  pub prev : Option ℕ
  pub next : Option ℕ

-- The heap of links and the list's fields of Retransmitter.
pub record Retransmitter : Type 0 where
  pub links : ℕ → Links
  pub retx_head : Option ℕ
  pub retx_tail : Option ℕ
  pub retransmits_queue_size : ℕ

abbrev pub no_links : Links
no_links = record { prev = none; next = none }

abbrev pub same_pointer : Option ℕ → ℕ → Bool
same_pointer none p = false
same_pointer (some q) p = q == p

abbrev pub is_nil : Option ℕ → Bool
is_nil none = true
is_nil (some p) = false

abbrev pub set_links : ℕ → Links → (ℕ → Links) → ℕ → Links
set_links p l h q = if p == q then l else h q

abbrev pub set_prev : ℕ → Option ℕ → (ℕ → Links) → ℕ → Links
set_prev p v h = set_links p (record { prev = v; next = (h p).next }) h

abbrev pub set_next : ℕ → Option ℕ → (ℕ → Links) → ℕ → Links
set_next p v h = set_links p (record { prev = (h p).prev; next = v }) h

abbrev pub count_down : ℕ → ℕ
count_down n = (n + (2 ^ 64 - 1)) % 2 ^ 64

abbrev pub count_up : ℕ → ℕ
count_up n = (n + 1) % 2 ^ 64

-- popHead for a head and the payload behind it.
unfoldable pub pop_from : ℕ → Option ℕ → Retransmitter → Retransmitter
pop_from result none s = record {
  links = set_links result no_links s.links;
  retx_head = none;
  retx_tail = none;
  retransmits_queue_size = count_down s.retransmits_queue_size;
}
pop_from result (some behind) s = record {
  links = set_links result no_links (set_next behind none s.links);
  retx_head = some behind;
  retx_tail = s.retx_tail;
  retransmits_queue_size = count_down s.retransmits_queue_size;
}

unfoldable pub pop_at : Option ℕ → Retransmitter → Option ℕ × Retransmitter
pop_at none s = (none, s)
pop_at (some result) s = (some result, pop_from result (s.links result).prev s)

-- popHead
unfoldable pub pop_head : Retransmitter → Option ℕ × Retransmitter
pop_head s = pop_at s.retx_head s

-- pushTail behind its guard, for the head and the tail.
unfoldable pub push_behind :
    ℕ → Option ℕ → Option ℕ → Retransmitter → Outcome (Unit {0}) Retransmitter
push_behind txp none tail s = ok (record s {
  retx_head = some txp;
  retx_tail = some txp;
  retransmits_queue_size = count_up s.retransmits_queue_size;
})
push_behind txp (some head) none s = panic
push_behind txp (some head) (some tail) s = ok (record s {
  links = set_prev tail (some txp) (set_next txp (some tail) s.links);
  retx_tail = some txp;
  retransmits_queue_size = count_up s.retransmits_queue_size;
})

-- pushTail
unfoldable pub push_tail : ℕ → Retransmitter → Outcome (Unit {0}) Retransmitter
push_tail txp s =
    if (not (is_nil (s.links txp).prev) || not (is_nil (s.links txp).next))
      || same_pointer s.retx_head txp
    then ok s
    else push_behind txp s.retx_head s.retx_tail s

-- delete of the tail, for the payload in front of it.
unfoldable pub cut_tail : Option ℕ → Retransmitter → Outcome (Unit {0}) Retransmitter
cut_tail none s = panic
cut_tail (some front) s = ok (record s {
  links = set_prev front none s.links;
  retx_tail = some front;
  retransmits_queue_size = count_down s.retransmits_queue_size;
})

-- delete in the middle, for the payloads behind and in front.
unfoldable pub cut_middle : Option ℕ → Option ℕ → Retransmitter → Outcome (Unit {0}) Retransmitter
cut_middle none front s = ok s
cut_middle (some behind) none s = panic
cut_middle (some behind) (some front) s = ok (record s {
  links = set_prev front (some behind) (set_next behind (some front) s.links);
  retransmits_queue_size = count_down s.retransmits_queue_size;
})

abbrev pub clear_links : ℕ → Retransmitter → Retransmitter
clear_links txp s = record s { links = set_links txp no_links s.links }

-- delete
unfoldable pub delete : ℕ → Retransmitter → Outcome (Unit {0}) Retransmitter
delete txp s =
    (if same_pointer s.retx_head txp
      then ok (pop_head s).1
      else if same_pointer s.retx_tail txp
      then cut_tail (s.links txp).next s
      else cut_middle (s.links txp).prev (s.links txp).next s)
    >>= λ r. ok (clear_links txp r)

-- acceptRetransmit, for a payload that is acknowledged or not.
unfoldable pub accept_retransmit : Bool → ℕ → Retransmitter → Outcome (Unit {0}) Retransmitter
accept_retransmit is_acked txp s = if is_acked then delete txp s else push_tail txp s
