-- ===== src/Xgress/Retransmitter/Member.antt =====
-- Putting a payload at the tail of a queue that has it already.
use sdk_golang.Common.{
  ℕ, ◌≡◌, refl, sym, ap, ◌∙◌, inl, inr, Bool, true, false, not, ◌||◌, none, some, List, [], ◌∷◌,
  ◌==◌, if◌then◌else◌, arith, Bool-cases,
}
use sdk_golang.Common.Outcome.{ok}
use sdk_golang.Xgress.Retransmitter.{
  Links, Retransmitter, same_pointer, is_nil, push_behind, push_tail,
}
use sdk_golang.Xgress.Retransmitter.Queue.{first, links_in, Holds}

abbrev pub has : List ℕ → ℕ → Bool
has [] p = false
has (x ∷ xs) p = (x == p) || has xs p

-- A pointer behind another has a link to the one in front of it.
linked_in :
    (f : ℕ) (q : List ℕ) (p : ℕ) → has q p ≡ true → is_nil (links_in (some f) q p).next ≡ false
linked_in f [] p h = ground (arith, h)
linked_in f (x ∷ xs) p h = elim (Bool-cases (x == p)) [
  | inl here ↦ rw here refl
  | inr there ↦ rw there (linked_in x xs p (ap (λ b. b || has xs p) (sym there) ∙ h))
]

-- The guard of pushTail.
guard_holds :
    (q : List ℕ) (p : ℕ)
    → has q p ≡ true
    → ((not (is_nil (links_in none q p).prev) || not (is_nil (links_in none q p).next))
        || same_pointer (first q) p)
      ≡ true
guard_holds [] p h = ground (arith, h)
guard_holds (x ∷ xs) p h = elim (Bool-cases (x == p)) [
  | inl here ↦ rw here (ground arith)
  | inr there ↦
      let linked = linked_in x xs p (ap (λ b. b || has xs p) (sym there) ∙ h) in
      rw (there, linked) (ground arith)
]

-- On a linked list that holds a queue, pushTail of a pointer that is in it changes nothing.
pub push_tail-has :
    (s : Retransmitter) (t : ℕ) (q : List ℕ) → Holds s q → has q t ≡ true → push_tail t s ≡ ok s
unfolding push_tail
push_tail-has s t q k h =
    ap (λ b. if b then ok s else push_behind t s.retx_head s.retx_tail s)
      (ap
          (λ (l : Links).
            (not (is_nil l.prev) || not (is_nil l.next)) || same_pointer s.retx_head t)
          (k.linked t)
        ∙ ap
            (λ a.
              (not (is_nil (links_in none q t).prev) || not (is_nil (links_in none q t).next))
              || same_pointer a t)
            k.is_head
        ∙ guard_holds q t h)
