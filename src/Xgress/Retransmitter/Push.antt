-- ===== src/Xgress/Retransmitter/Push.antt =====
-- Putting a payload at the tail of the queue.
use sdk_golang.Common.{
  ℕ, suc, ◌≡◌, ◌≢◌, refl, sym, ap, ◌∙◌, inl, inr, false, not, ◌||◌, Option, none, some, List, [],
  ◌∷◌, ◌++◌, ◌==◌, if◌then◌else◌, length, All, arith, Bool-cases,
}
use sdk_golang.Common.Outcome.{ok}
use sdk_golang.Xgress.Retransmitter.{
  Links, Retransmitter, no_links, same_pointer, is_nil, set_prev, set_next, count_up, push_behind,
  push_tail,
}
use sdk_golang.Xgress.Retransmitter.Queue.{first, last, NoRepeats, links_in, Holds, absent_links}

-- Appending at the tail.
abbrev pub push : ℕ → List ℕ → List ℕ
push t q = q ++ t ∷ []

last_apart : (x l : ℕ) (q : List ℕ) → last q ≡ some l → All (λ y. x ≢ y) q → x ≢ l
last_apart x l [] e a h = cc
last_apart x l (y ∷ []) e a h = let same : y ≡ l = cc in a.0 (h ∙ sym same)
last_apart x l (y ∷ z ∷ q) e a h = last_apart x l (z ∷ q) e a.1 h

push_links :
    (front : Option ℕ) (x : ℕ) (xs : List ℕ) (t l : ℕ) (p : ℕ)
    → last (x ∷ xs) ≡ some l
    → All (λ y. t ≢ y) (x ∷ xs)
    → NoRepeats (x ∷ xs)
    → links_in front (push t (x ∷ xs)) p ≡ (
        if t == p
        then record { prev = none; next = some l }
        else if l == p
        then record { prev = some t; next = (links_in front (x ∷ xs) p).next }
        else links_in front (x ∷ xs) p)
push_links front x [] t l p e fresh distinct =
    let is_l : x ≡ l = cc in ground (arith, is_l, fresh.0)
push_links front x (y ∷ ys) t l p e fresh distinct = elim (Bool-cases (x == p)) [
  | inl here ↦
      let key : x ≡ p = ground (arith, here) in
      let not_t : (t == p) ≡ false = ground (arith, fresh.0, key) in
      let apart : x ≢ l = last_apart x l (y ∷ ys) e distinct.0 in
      let not_l : (l == p) ≡ false = ground (arith, apart, key) in rw (here, not_t, not_l) refl
  | inr there ↦ rw there (push_links (some x) y ys t l p e fresh.1 distinct.1)
]

last-push : (t : ℕ) (q : List ℕ) → last (push t q) ≡ some t
last-push t [] = refl
last-push t (x ∷ []) = refl
last-push t (x ∷ y ∷ q) = last-push t (y ∷ q)

All-push : (P : ℕ → Type 0) (t : ℕ) (q : List ℕ) → All P q → P t → All P (push t q)
All-push P t [] a p = (p, tt)
All-push P t (x ∷ q) a p = (a.0, All-push P t q a.1 p)

NoRepeats-push : (t : ℕ) (q : List ℕ) → All (λ y. t ≢ y) q → NoRepeats q → NoRepeats (push t q)
NoRepeats-push t [] a d = (tt, tt)
NoRepeats-push t (x ∷ q) a d =
    (All-push (λ y. x ≢ y) t q d.0 (λ h. a.0 (sym h)), NoRepeats-push t q a.1 d.1)

length-push : (t : ℕ) (q : List ℕ) → length (push t q) ≡ suc (length q)
length-push t [] = refl
length-push t (x ∷ q) = ap suc (length-push t q)

last-some : (x : ℕ) (q : List ℕ) → (l : ℕ) × (last (x ∷ q) ≡ some l)
last-some x [] = (x, refl)
last-some x (y ∷ q) = last-some y q

abbrev pushed : Retransmitter → ℕ → ℕ → Retransmitter
pushed s t l = record s {
  links = set_prev l (some t) (set_next t (some l) s.links);
  retx_tail = some t;
  retransmits_queue_size = count_up s.retransmits_queue_size;
}

pushed_links :
    (s : Retransmitter) (t l x : ℕ) (xs : List ℕ) (p : ℕ)
    → Holds s (x ∷ xs)
    → last (x ∷ xs) ≡ some l
    → All (λ y. t ≢ y) (x ∷ xs)
    → (pushed s t l).links p ≡ links_in none (push t (x ∷ xs)) p
pushed_links s t l x xs p k e fresh =
    let none_linked : s.links t ≡ no_links = k.linked t ∙ absent_links none (x ∷ xs) t fresh in
    let apart : t ≢ l = last_apart t l (x ∷ xs) e fresh in
    let t_l : (t == l) ≡ false = ground (arith, apart) in
    let appended = push_links none x xs t l p e fresh k.no_repeats in
    elim (Bool-cases (t == p)) [
      | inl is_t ↦
          let l_p : (l == p) ≡ false = ground (arith, is_t, apart) in
          rw (l_p, is_t, none_linked) (sym (appended ∙ rw is_t refl))
      | inr not_t ↦ elim (Bool-cases (l == p)) [
        | inl is_l ↦
            let key : l ≡ p = ground (arith, is_l) in
            rw (is_l, t_l)
              (ap (λ (m : Links). record { prev = some t; next = m.next })
                  (ap s.links key ∙ k.linked p)
                ∙ sym (appended ∙ rw (not_t, is_l) refl))
        | inr not_l ↦ rw (not_l, not_t) (k.linked p ∙ sym (appended ∙ rw (not_t, not_l) refl))
      ]
    ]

-- What pushTail does behind its guard.
push_behind-Holds :
    (s : Retransmitter) (t : ℕ) (q : List ℕ)
    → Holds s q
    → All (λ y. t ≢ y) q
    → (r : Retransmitter) × (push_behind t (first q) (last q) s ≡ ok r) × Holds r (push t q)
unfolding push_behind
push_behind-Holds s t [] k fresh = (
  _,
  refl,
  record {
    linked = λ p. k.linked p ∙ ground arith;
    is_head = refl;
    is_tail = refl;
    is_size = omega (arith, k.is_size);
    no_repeats = (tt, tt);
  },
)
push_behind-Holds s t (x ∷ xs) k fresh =
    let (l, e) = last-some x xs in
    (
      pushed s t l,
      ap (λ tail. push_behind t (some x) tail s) e,
      record {
        linked = λ p. pushed_links s t l x xs p k e fresh;
        is_head = k.is_head;
        is_tail = sym (last-push t (x ∷ xs));
        is_size = omega (arith, k.is_size, length-push t (x ∷ xs));
        no_repeats = NoRepeats-push t (x ∷ xs) fresh k.no_repeats;
      },
    )

-- On a linked list that holds a queue, pushTail of a pointer that is not in it returns, without a
-- nil dereference, and leaves a list that holds the queue with the pointer behind it.
pub push_tail-Holds :
    (s : Retransmitter) (t : ℕ) (q : List ℕ)
    → Holds s q
    → All (λ y. t ≢ y) q
    → (r : Retransmitter) × (push_tail t s ≡ ok r) × Holds r (push t q)
unfolding push_tail
push_tail-Holds s t q k fresh =
    let none_linked : s.links t ≡ no_links = k.linked t ∙ absent_links none q t fresh in
    let (r, e, held) = push_behind-Holds s t q k fresh in
    let passes : ((not (is_nil (s.links t).prev) || not (is_nil (s.links t).next))
          || same_pointer s.retx_head t)
        ≡ false =
      ap (λ (l : Links). (not (is_nil l.prev) || not (is_nil l.next)) || same_pointer s.retx_head t)
        none_linked
      ∙ ap (λ h. same_pointer h t) k.is_head
      ∙ not_first t q fresh in
    (
      r,
      ap (λ b. if b then ok s else push_behind t s.retx_head s.retx_tail s) passes
          ∙ ap (λ h. push_behind t h s.retx_tail s) k.is_head
          ∙ ap (λ tail. push_behind t (first q) tail s) k.is_tail
          ∙ e,
      held,
    )
  where
    not_first : (t : ℕ) (q : List ℕ) → All (λ y. t ≢ y) q → same_pointer (first q) t ≡ false
    not_first t [] a = refl
    not_first t (x ∷ xs) a = ground (arith, a.0)
