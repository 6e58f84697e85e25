-- ===== src/Xgress/Examples/Retransmitter.antt =====
-- The properties of the retransmitter's list with two payloads in it.
use sdk_golang.Common.{◌≡◌, refl, false, none, some, [], ◌∷◌, arith}
use sdk_golang.Common.Outcome.{ok}
use sdk_golang.Xgress.Retransmitter.{Retransmitter, pop_head, push_tail, delete, accept_retransmit}
use sdk_golang.Xgress.Retransmitter.Queue.{Holds, links_in}
use sdk_golang.Xgress.Retransmitter.Pop.{pop_head-Holds}
use sdk_golang.Xgress.Retransmitter.Push.{push, push_tail-Holds}
use sdk_golang.Xgress.Retransmitter.Delete.{without, delete-Holds}
use sdk_golang.Xgress.Retransmitter.Accept.{accepted, accept_retransmit-Holds}

abbrev two_queued : Retransmitter
two_queued = record {
  links = links_in none (3 ∷ 4 ∷ []);
  retx_head = some 3;
  retx_tail = some 4;
  retransmits_queue_size = 2;
}

two_queued-Holds : Holds two_queued (3 ∷ 4 ∷ [])
two_queued-Holds = record {
  linked = λ p. refl;
  is_head = refl;
  is_tail = refl;
  is_size = refl;
  no_repeats = ((λ h. omega arith, tt), (tt, tt));
}

pop_head-Holds_example : ((pop_head two_queued).0 ≡ some 3) × Holds (pop_head two_queued).1 (4 ∷ [])
pop_head-Holds_example = pop_head-Holds two_queued (3 ∷ 4 ∷ []) two_queued-Holds

push_tail-Holds_example :
    (r : Retransmitter) × (push_tail 5 two_queued ≡ ok r) × Holds r (push 5 (3 ∷ 4 ∷ []))
push_tail-Holds_example =
    push_tail-Holds two_queued 5 (3 ∷ 4 ∷ []) two_queued-Holds
      (λ h. omega arith, (λ h. omega arith, tt))

delete-Holds_example :
    (r : Retransmitter) × (delete 4 two_queued ≡ ok r) × Holds r (without 4 (3 ∷ 4 ∷ []))
delete-Holds_example = delete-Holds two_queued (3 ∷ 4 ∷ []) 4 two_queued-Holds

accept_retransmit-Holds_example :
    (r : Retransmitter) × (accept_retransmit false 5 two_queued ≡ ok r)
    × Holds r (accepted false 5 (3 ∷ 4 ∷ []))
accept_retransmit-Holds_example =
    accept_retransmit-Holds two_queued (3 ∷ 4 ∷ []) false 5 two_queued-Holds
