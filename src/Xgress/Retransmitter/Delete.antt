-- ===== src/Xgress/Retransmitter/Delete.antt =====
-- Taking a payload out of the queue.
use sdk_golang.Common.{
  ℕ, ◌≡◌, ◌≢◌, refl, sym, ap, ◌∙◌, inl, inr, true, false, none, List, [], ◌∷◌, ◌++◌, ◌==◌,
  if◌then◌else◌, All, arith, Bool-cases, Bool, ◌⊎◌,
}
use sdk_golang.Common.Outcome.{Outcome, ok, ◌>>=◌}
use mathlib.Core.Path.{subst}
use sdk_golang.Xgress.Retransmitter.{
  Links, Retransmitter, same_pointer, pop_head, cut_tail, cut_middle, clear_links, delete,
}
use sdk_golang.Xgress.Retransmitter.Queue.{first, last, NoRepeats, Holds, absent_links}
use sdk_golang.Xgress.Retransmitter.Pop.{pop_head-Holds}
use sdk_golang.Xgress.Retransmitter.Cut.{NoRepeats-drop, last-append, not_head, own_links}
use sdk_golang.Xgress.Retransmitter.Unlink.{clear-Holds, cut, cut-Holds}

-- The queue without a pointer.
abbrev pub without : ℕ → List ℕ → List ℕ
without p [] = []
without p (x ∷ xs) = if x == p then xs else x ∷ without p xs

absent_first : (p : ℕ) (q : List ℕ) → All (λ y. p ≢ y) q → same_pointer (first q) p ≡ false
absent_first p [] a = refl
absent_first p (x ∷ xs) a = ground (arith, a.0)

absent_last : (p : ℕ) (q : List ℕ) → All (λ y. p ≢ y) q → same_pointer (last q) p ≡ false
absent_last p [] a = refl
absent_last p (x ∷ []) a = ground (arith, a.0)
absent_last p (x ∷ y ∷ ys) a = absent_last p (y ∷ ys) a.1

-- delete, for what its tests and links are.
abbrev delete_for : Bool → Bool → Links → ℕ → Retransmitter → Outcome (Unit {0}) Retransmitter
delete_for at_head at_tail own p s =
    (if at_head
      then ok (pop_head s).1
      else if at_tail
      then cut_tail own.next s
      else cut_middle own.prev own.next s)
    >>= λ r. ok (clear_links p r)

delete_by :
    (s : Retransmitter) (p : ℕ) (h t : Bool) (own : Links)
    → same_pointer s.retx_head p ≡ h
    → same_pointer s.retx_tail p ≡ t
    → s.links p ≡ own
    → delete p s ≡ delete_for h t own p s
unfolding delete
delete_by s p h t own eh et eo =
    ap (λ b. delete_for b (same_pointer s.retx_tail p) (s.links p) p s) eh
    ∙ ap (λ b. delete_for h b (s.links p) p s) et
    ∙ ap (λ l. delete_for h t l p s) eo

not_last :
    (ws : List ℕ) (f p z : ℕ) (zs : List ℕ)
    → NoRepeats (ws ++ f ∷ p ∷ z ∷ zs)
    → same_pointer (last (ws ++ f ∷ p ∷ z ∷ zs)) p ≡ false
not_last ws f p z zs d =
    ap (λ l. same_pointer l p) (last-append ws f (p ∷ z ∷ zs))
    ∙ absent_last p (z ∷ zs) (NoRepeats-drop ws (f ∷ p ∷ z ∷ zs) d).1.0

delete-cut :
    (s : Retransmitter) (ws : List ℕ) (f p : ℕ) (after : List ℕ)
    → Holds s (ws ++ f ∷ p ∷ after)
    → delete p s ≡ ok (cut f p after s)
unfolding cut_tail cut_middle
delete-cut s ws f p [] k =
    delete_by s p false true _
      (ap (λ a. same_pointer a p) k.is_head ∙ not_head ws f p [] k.no_repeats)
      (ap (λ a. same_pointer a p) (k.is_tail ∙ last-append ws f (p ∷ [])) ∙ ground arith)
      (k.linked p ∙ own_links none ws f p [] k.no_repeats)
delete-cut s ws f p (z ∷ zs) k =
    delete_by s p false false _
      (ap (λ a. same_pointer a p) k.is_head ∙ not_head ws f p (z ∷ zs) k.no_repeats)
      (ap (λ a. same_pointer a p) k.is_tail ∙ not_last ws f p z zs k.no_repeats)
      (k.linked p ∙ own_links none ws f p (z ∷ zs) k.no_repeats)

-- A pointer that stands behind the head is not in the queue, or it splits the queue.
behind_head :
    (x : ℕ) (xs : List ℕ) (p : ℕ)
    → All (λ y. p ≢ y) xs × (without p xs ≡ xs)
      ⊎ (ws : List ℕ) × (f : ℕ) × (after : List ℕ) × ((x ∷ xs) ≡ ws ++ f ∷ p ∷ after)
        × ((x ∷ without p xs) ≡ ws ++ f ∷ after)
behind_head x [] p = inl (tt, refl)
behind_head x (y ∷ ys) p = elim (Bool-cases (y == p)) [
  | inl here ↦
      let key : y ≡ p = ground (arith, here) in
      inr ([], x, ys, ap (λ v. x ∷ v ∷ ys) key, rw here refl)
  | inr there ↦
      let other : p ≢ y = λ h. ground (arith, there, h) in
      elim (behind_head y ys p) [
        | inl (a, e) ↦ inl ((other, a), rw there (ap (λ v. y ∷ v) e))
        | inr (ws, f, after, e, g) ↦
            inr (x ∷ ws, f, after, ap (λ v. x ∷ v) e, rw there (ap (λ v. x ∷ v) g))
      ]
]

delete-absent :
    (s : Retransmitter) (q : List ℕ) (p : ℕ)
    → Holds s q
    → All (λ y. p ≢ y) q
    → delete p s ≡ ok (clear_links p s)
unfolding cut_middle
delete-absent s q p k a =
    delete_by s p false false _ (ap (λ v. same_pointer v p) k.is_head ∙ absent_first p q a)
      (ap (λ v. same_pointer v p) k.is_tail ∙ absent_last p q a)
      (k.linked p ∙ absent_links none q p a)

delete-first :
    (s : Retransmitter) (x : ℕ) (xs : List ℕ) (p : ℕ)
    → Holds s (x ∷ xs)
    → (x == p) ≡ true
    → (r : Retransmitter) × (delete p s ≡ ok r) × Holds r xs
delete-first s x xs p k here =
    let key : x ≡ p = ground (arith, here) in
    (
      clear_links p (pop_head s).1,
      delete_by s p true _ _ (ap (λ v. same_pointer v p) k.is_head ∙ here) refl refl,
      clear-Holds (pop_head s).1 xs p (pop_head-Holds s (x ∷ xs) k).1
          (subst (λ v. All (λ y. v ≢ y) xs) key k.no_repeats.0),
    )

-- On a linked list that holds a queue, delete of a pointer returns, without a nil dereference, and
-- leaves a list that holds the queue without the pointer: the same queue if it does not have it.
pub delete-Holds :
    (s : Retransmitter) (q : List ℕ) (p : ℕ)
    → Holds s q
    → (r : Retransmitter) × (delete p s ≡ ok r) × Holds r (without p q)
delete-Holds s [] p k = (clear_links p s, delete-absent s [] p k tt, clear-Holds s [] p k tt)
delete-Holds s (x ∷ xs) p k = elim (Bool-cases (x == p)) [
  | inl here ↦ rw here (delete-first s x xs p k here)
  | inr there ↦
      let other : p ≢ x = λ h. ground (arith, there, h) in
      elim (behind_head x xs p) [
        | inl (a, e) ↦ (
          clear_links p s,
          delete-absent s (x ∷ xs) p k (other, a),
          rw (there, e) (clear-Holds s (x ∷ xs) p k (other, a)),
        )
        | inr (ws, f, after, e, g) ↦
            let held : Holds s (ws ++ f ∷ p ∷ after) = subst (Holds s) e k in
            (
              cut f p after s,
              delete-cut s ws f p after held,
              rw there (subst (Holds (cut f p after s)) (sym g) (cut-Holds s ws f p after held)),
            )
      ]
]
