-- ===== src/Xgress/Retransmitter/Unlink.antt =====
-- The heap after a payload behind another one is taken out of the list.
use sdk_golang.Common.{
  ℕ, suc, ◌%◌, ◌^◌, ◌≡◌, ◌≢◌, refl, sym, ap, ◌∙◌, inl, inr, true, false, none, some, List, [], ◌∷◌,
  ◌++◌, ◌==◌, if◌then◌else◌, All, arith, Bool-cases,
}
use mathlib.Core.Path.{subst}
use sdk_golang.Xgress.Retransmitter.{
  Links, Retransmitter, no_links, same_pointer, set_prev, set_next, count_down, clear_links,
}
use sdk_golang.Xgress.Retransmitter.Queue.{first, NoRepeats, links_in, Holds, absent_links}
use sdk_golang.Xgress.Retransmitter.Cut.{
  NoRepeats-cut, NoRepeats-drop, length-cut, first-cut, last-append, gone, cut_links,
}

absent_at :
    (q : List ℕ) (p r : ℕ) → All (λ y. p ≢ y) q → (p == r) ≡ true → no_links ≡ links_in none q r
absent_at q p r a here =
    let key : p ≡ r = ground (arith, here) in
    sym (absent_links none q r (subst (λ v. All (λ y. v ≢ y) q) key a))

pub clear-Holds :
    (s : Retransmitter) (q : List ℕ) (p : ℕ)
    → Holds s q
    → All (λ y. p ≢ y) q
    → Holds (clear_links p s) q
clear-Holds s q p k a = record {
  linked = λ r. elim (Bool-cases (p == r)) [
    | inl here ↦ rw here (absent_at q p r a here)
    | inr there ↦ rw there (k.linked r)
  ];
  is_head = k.is_head;
  is_tail = k.is_tail;
  is_size = k.is_size;
  no_repeats = k.no_repeats;
}

-- The list after a pointer behind `f` is taken out, with the payload behind it, if any.
abbrev pub cut : ℕ → ℕ → List ℕ → Retransmitter → Retransmitter
cut f p [] s = clear_links p (record s {
  links = set_prev f none s.links;
  retx_tail = some f;
  retransmits_queue_size = count_down s.retransmits_queue_size;
})
cut f p (z ∷ zs) s = clear_links p (record s {
  links = set_prev f (some z) (set_next z (some f) s.links);
  retransmits_queue_size = count_down s.retransmits_queue_size;
})

cut_at :
    (s : Retransmitter) (f p : ℕ) (after : List ℕ) (r : ℕ)
    → NoRepeats (f ∷ p ∷ after)
    → (p == r) ≡ false
    → (cut f p after s).links r ≡ (
        if f == r
        then record { prev = first after; next = (s.links r).next }
        else if same_pointer (first after) r
        then record { prev = (s.links r).prev; next = some f }
        else s.links r)
cut_at s f p [] r d other = elim (Bool-cases (f == r)) [
  | inl here ↦
      let key : f ≡ r = ground (arith, here) in
      rw (other, here) (ap (λ v. record { prev = none; next = (s.links v).next }) key)
  | inr there ↦ rw (other, there) refl
]
cut_at s f p (z ∷ zs) r d other =
    let apart : (z == f) ≡ false = ground (arith, d.0.1.0) in
    elim (Bool-cases (f == r)) [
      | inl here ↦
          let key : f ≡ r = ground (arith, here) in
          rw (other, here, apart) (ap (λ v. record { prev = some z; next = (s.links v).next }) key)
      | inr there ↦ elim (Bool-cases (z == r)) [
        | inl second ↦
            let key : z ≡ r = ground (arith, second) in
            rw (other, there, second)
              (ap (λ v. record { prev = (s.links v).prev; next = some f }) key)
        | inr later ↦ rw (other, there, later) refl
      ]
    ]

cut_size : (n m k : ℕ) → n ≡ m % 2 ^ 64 → m ≡ suc k → count_down n ≡ k % 2 ^ 64
cut_size n m k e h = omega (arith, e, h)

cut_here :
    (s : Retransmitter) (f p : ℕ) (after : List ℕ) (r : ℕ)
    → (p == r) ≡ true
    → (cut f p after s).links r ≡ no_links
cut_here s f p [] r here = rw here refl
cut_here s f p (z ∷ zs) r here = rw here refl

cut-linked :
    (s : Retransmitter) (ws : List ℕ) (f p : ℕ) (after : List ℕ)
    → Holds s (ws ++ f ∷ p ∷ after)
    → (r : ℕ) → (cut f p after s).links r ≡ links_in none (ws ++ f ∷ after) r
cut-linked s ws f p after k r = elim (Bool-cases (p == r)) [
  | inl here ↦
      cut_here s f p after r here
      ∙ absent_at (ws ++ f ∷ after) p r (gone ws f p after k.no_repeats) here
  | inr there ↦
      cut_at s f p after r (NoRepeats-drop ws (f ∷ p ∷ after) k.no_repeats) there
      ∙ ap
          (λ (l : Links).
            if f == r
            then record { prev = first after; next = l.next }
            else if same_pointer (first after) r
            then record { prev = l.prev; next = some f }
            else l)
          (k.linked r)
      ∙ sym (cut_links none ws f p after r k.no_repeats there)
]

pub cut-Holds :
    (s : Retransmitter) (ws : List ℕ) (f p : ℕ) (after : List ℕ)
    → Holds s (ws ++ f ∷ p ∷ after)
    → Holds (cut f p after s) (ws ++ f ∷ after)
cut-Holds s ws f p [] k = record {
  linked = cut-linked s ws f p [] k;
  is_head = k.is_head ∙ first-cut ws f p [];
  is_tail = sym (last-append ws f []);
  is_size = cut_size s.retransmits_queue_size _ _ k.is_size (length-cut ws f p []);
  no_repeats = NoRepeats-cut ws f p [] k.no_repeats;
}
cut-Holds s ws f p (z ∷ zs) k = record {
  linked = cut-linked s ws f p (z ∷ zs) k;
  is_head = k.is_head ∙ first-cut ws f p (z ∷ zs);
  is_tail = k.is_tail ∙ last-append ws f (p ∷ z ∷ zs) ∙ sym (last-append ws f (z ∷ zs));
  is_size = cut_size s.retransmits_queue_size _ _ k.is_size (length-cut ws f p (z ∷ zs));
  no_repeats = NoRepeats-cut ws f p (z ∷ zs) k.no_repeats;
}
