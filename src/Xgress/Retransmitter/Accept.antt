-- ===== src/Xgress/Retransmitter/Accept.antt =====
-- What the retransmitter does with a payload that it is given.
use sdk_golang.Common.{
  ℕ, ◌≡◌, ◌≢◌, sym, ap, ◌∙◌, inl, inr, Bool, true, false, ◌||◌, List, [], ◌∷◌, ◌==◌, if◌then◌else◌,
  All, arith, Bool-cases,
}
use sdk_golang.Common.Outcome.{ok}
use sdk_golang.Xgress.Retransmitter.{Retransmitter, accept_retransmit}
use sdk_golang.Xgress.Retransmitter.Queue.{Holds}
use sdk_golang.Xgress.Retransmitter.Push.{push, push_tail-Holds}
use sdk_golang.Xgress.Retransmitter.Member.{has, push_tail-has}
use sdk_golang.Xgress.Retransmitter.Delete.{without, delete-Holds}

has_not : (q : List ℕ) (p : ℕ) → has q p ≡ false → All (λ y. p ≢ y) q
has_not [] p h = tt
has_not (x ∷ xs) p h = elim (Bool-cases (x == p)) [
  | inl here ↦ ground (arith, h, here)
  | inr there ↦
      (λ e. ground (arith, there, e), has_not xs p (ap (λ b. b || has xs p) (sym there) ∙ h))
]

-- The queue after a payload that is acknowledged or not.
abbrev pub accepted : Bool → ℕ → List ℕ → List ℕ
accepted is_acked p q = if is_acked then without p q else if has q p then q else push p q

-- On a linked list that holds a queue, acceptRetransmit of any payload returns, without a nil
-- dereference. It leaves a list that holds the queue without the payload if that is acknowledged,
-- the same queue if it is not and is queued already, and the queue with it at the tail otherwise.
pub accept_retransmit-Holds :
    (s : Retransmitter) (q : List ℕ) (is_acked : Bool) (p : ℕ)
    → Holds s q
    → (r : Retransmitter) × (accept_retransmit is_acked p s ≡ ok r)
      × Holds r (accepted is_acked p q)
unfolding accept_retransmit
accept_retransmit-Holds s q true p k = delete-Holds s q p k
accept_retransmit-Holds s q false p k = elim (Bool-cases (has q p)) [
  | inl queued ↦ rw queued (s, push_tail-has s p q k queued, k)
  | inr absent ↦ rw absent (push_tail-Holds s p q k (has_not q p absent))
]
