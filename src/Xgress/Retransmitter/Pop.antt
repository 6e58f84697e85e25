-- ===== src/Xgress/Retransmitter/Pop.antt =====
-- Taking a payload from the head of the queue.
use sdk_golang.Common.{
  ℕ, ◌≡◌, ◌≢◌, refl, sym, ap, ◌∙◌, inl, inr, true, false, none, some, List, [], ◌∷◌, ◌==◌, All,
  arith, Bool-cases,
}
use mathlib.Core.Path.{subst}
use sdk_golang.Xgress.Retransmitter.{Links, Retransmitter, pop_from, pop_at, pop_head}
use sdk_golang.Xgress.Retransmitter.Queue.{first, rest, links_in, Holds, absent_links}

pop_links :
    (x : ℕ) (xs : List ℕ) (p : ℕ)
    → All (λ y. x ≢ y) xs
    → (x == p) ≡ false
    → (h : ℕ → Links) → ((r : ℕ) → h r ≡ links_in none (x ∷ xs) r)
    → h p ≡ links_in (some x) xs p
pop_links x xs p fresh other h linked = linked p ∙ rw other refl

second_links :
    (s : Retransmitter) (x y : ℕ) (ys : List ℕ)
    → Holds s (x ∷ y ∷ ys)
    → s.links y ≡ record { prev = first ys; next = some x }
second_links s x y ys k =
    let apart : (x == y) ≡ false = ground (arith, k.no_repeats.0.0) in
    let itself : (y == y) ≡ true = ground arith in k.linked y ∙ rw (apart, itself) refl

pop_from-Holds :
    (s : Retransmitter) (x : ℕ) (xs : List ℕ)
    → Holds s (x ∷ xs)
    → Holds (pop_from x (first xs) s) xs
unfolding pop_from
pop_from-Holds s x [] k = record {
  linked = λ p. elim (Bool-cases (x == p)) [
    | inl here ↦ rw here refl
    | inr there ↦ rw there (pop_links x [] p tt there s.links k.linked)
  ];
  is_head = refl;
  is_tail = refl;
  is_size = rw k.is_size refl;
  no_repeats = tt;
}
pop_from-Holds s x (y ∷ ys) k = record {
  linked = λ p. elim (Bool-cases (x == p)) [
    | inl here ↦
        let key : x ≡ p = ground (arith, here) in
        rw here (
          sym (
            absent_links none (y ∷ ys) p
              (subst (λ r. All (λ z. r ≢ z) (y ∷ ys)) key k.no_repeats.0)))
    | inr there ↦ elim (Bool-cases (y == p)) [
      | inl second ↦
          rw (there, second)
            (ap (λ (l : Links). record { prev = l.prev; next = none }) (second_links s x y ys k))
      | inr later ↦
          rw (there, later)
            (pop_links x (y ∷ ys) p k.no_repeats.0 there s.links k.linked ∙ rw later refl)
    ]
  ];
  is_head = refl;
  is_tail = k.is_tail;
  is_size = omega (arith, k.is_size);
  no_repeats = k.no_repeats.1;
}

head_links :
    (s : Retransmitter) (x : ℕ) (xs : List ℕ)
    → Holds s (x ∷ xs)
    → s.links x ≡ record { prev = first xs; next = none }
head_links s x xs k = let itself : (x == x) ≡ true = ground arith in k.linked x ∙ rw itself refl

-- On a linked list that holds a queue, popHead gives nil for the empty one and the first pointer
-- otherwise, and leaves a list that holds the rest.
pub pop_head-Holds :
    (s : Retransmitter) (q : List ℕ)
    → Holds s q
    → ((pop_head s).0 ≡ first q) × Holds (pop_head s).1 (rest q)
unfolding pop_head pop_at
pop_head-Holds s [] k = (
  ap (λ h. (pop_at h s).0) k.is_head,
  subst (λ r. Holds r []) (ap (λ h. (pop_at h s).1) (sym k.is_head)) k,
)
pop_head-Holds s (x ∷ xs) k =
    let behind : (s.links x).prev ≡ first xs = ap (λ (l : Links). l.prev) (head_links s x xs k) in
    (
      ap (λ h. (pop_at h s).0) k.is_head,
      subst (λ r. Holds r xs)
          (ap (λ b. pop_from x b s) (sym behind) ∙ ap (λ h. (pop_at h s).1) (sym k.is_head))
          (pop_from-Holds s x xs k),
    )
