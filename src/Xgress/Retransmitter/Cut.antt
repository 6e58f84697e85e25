-- ===== src/Xgress/Retransmitter/Cut.antt =====
-- A queue with a pointer taken out from behind another one: what it keeps, and its links.
use sdk_golang.Common.{
  ℕ, suc, ◌≡◌, ◌≢◌, refl, sym, ap, ◌∙◌, inl, inr, true, false, Option, some, List, [], ◌∷◌, ◌++◌,
  ◌==◌, if◌then◌else◌, length, All, arith, Bool-cases,
}
use sdk_golang.Xgress.Retransmitter.{same_pointer}
use sdk_golang.Xgress.Retransmitter.Queue.{first, last, NoRepeats, links_in}

All-drop : (P : ℕ → Type 0) (ws zs : List ℕ) → All P (ws ++ zs) → All P zs
All-drop P [] zs a = a
All-drop P (w ∷ ws) zs a = All-drop P ws zs a.1

All-cut :
    (P : ℕ → Type 0) (ws : List ℕ) (f p : ℕ) (after : List ℕ)
    → All P (ws ++ f ∷ p ∷ after)
    → All P (ws ++ f ∷ after)
All-cut P [] f p after a = (a.0, a.1.1)
All-cut P (w ∷ ws) f p after a = (a.0, All-cut P ws f p after a.1)

pub NoRepeats-cut :
    (ws : List ℕ) (f p : ℕ) (after : List ℕ)
    → NoRepeats (ws ++ f ∷ p ∷ after)
    → NoRepeats (ws ++ f ∷ after)
NoRepeats-cut [] f p after d = (d.0.1, d.1.1)
NoRepeats-cut (w ∷ ws) f p after d =
    (All-cut (λ y. w ≢ y) ws f p after d.0, NoRepeats-cut ws f p after d.1)

pub NoRepeats-drop : (ws zs : List ℕ) → NoRepeats (ws ++ zs) → NoRepeats zs
NoRepeats-drop [] zs d = d
NoRepeats-drop (w ∷ ws) zs d = NoRepeats-drop ws zs d.1

pub length-cut :
    (ws : List ℕ) (f p : ℕ) (after : List ℕ)
    → length (ws ++ f ∷ p ∷ after) ≡ suc (length (ws ++ f ∷ after))
length-cut [] f p after = refl
length-cut (w ∷ ws) f p after = ap suc (length-cut ws f p after)

pub first-cut :
    (ws : List ℕ) (f p : ℕ) (after : List ℕ) → first (ws ++ f ∷ p ∷ after) ≡ first (ws ++ f ∷ after)
first-cut [] f p after = refl
first-cut (w ∷ ws) f p after = refl

pub last-append : (ws : List ℕ) (z : ℕ) (zs : List ℕ) → last (ws ++ z ∷ zs) ≡ last (z ∷ zs)
last-append [] z zs = refl
last-append (w ∷ []) z zs = refl
last-append (w ∷ v ∷ ws) z zs = last-append (v ∷ ws) z zs

-- The pointer that is taken out stands once.
pub gone :
    (ws : List ℕ) (f p : ℕ) (after : List ℕ)
    → NoRepeats (ws ++ f ∷ p ∷ after)
    → All (λ y. p ≢ y) (ws ++ f ∷ after)
gone [] f p after d = (λ h. d.0.0 (sym h), d.1.0)
gone (w ∷ ws) f p after d =
    (λ h. (All-drop (λ y. w ≢ y) ws (f ∷ p ∷ after) d.0).1.0 (sym h), gone ws f p after d.1)

pub not_head :
    (ws : List ℕ) (f p : ℕ) (after : List ℕ)
    → NoRepeats (ws ++ f ∷ p ∷ after)
    → same_pointer (first (ws ++ f ∷ p ∷ after)) p ≡ false
not_head [] f p after d = ground (arith, d.0.0)
not_head (w ∷ ws) f p after d =
    let apart = (All-drop (λ y. w ≢ y) ws (f ∷ p ∷ after) d.0).1.0 in ground (arith, apart)

-- The links of the pointer that is taken out.
pub own_links :
    (front : Option ℕ) (ws : List ℕ) (f p : ℕ) (after : List ℕ)
    → NoRepeats (ws ++ f ∷ p ∷ after)
    → links_in front (ws ++ f ∷ p ∷ after) p ≡ record { prev = first after; next = some f }
own_links front [] f p after d =
    let other : (f == p) ≡ false = ground (arith, d.0.0) in
    let itself : (p == p) ≡ true = ground arith in rw (other, itself) refl
own_links front (w ∷ ws) f p after d =
    let apart = (All-drop (λ y. w ≢ y) ws (f ∷ p ∷ after) d.0).1.0 in
    let other : (w == p) ≡ false = ground (arith, apart) in
    rw other (own_links (some w) ws f p after d.1)

behind_links :
    (f p : ℕ) (after : List ℕ) (r : ℕ)
    → links_in (some f) after r ≡ (
        if same_pointer (first after) r
        then record { prev = (links_in (some p) after r).prev; next = some f }
        else links_in (some p) after r)
behind_links f p [] r = refl
behind_links f p (z ∷ zs) r = elim (Bool-cases (z == r)) [
  | inl here ↦ rw here refl
  | inr there ↦ rw there refl
]

not_behind :
    (w : ℕ) (after : List ℕ) → All (λ y. w ≢ y) after → same_pointer (first after) w ≡ false
not_behind w [] a = refl
not_behind w (z ∷ zs) a = ground (arith, a.0)

-- The links of the others, from those before.
pub cut_links :
    (front : Option ℕ) (ws : List ℕ) (f p : ℕ) (after : List ℕ) (r : ℕ)
    → NoRepeats (ws ++ f ∷ p ∷ after)
    → (p == r) ≡ false
    → links_in front (ws ++ f ∷ after) r ≡ (
        if f == r
        then record { prev = first after; next = (links_in front (ws ++ f ∷ p ∷ after) r).next }
        else if same_pointer (first after) r
        then record { prev = (links_in front (ws ++ f ∷ p ∷ after) r).prev; next = some f }
        else links_in front (ws ++ f ∷ p ∷ after) r)
cut_links front [] f p after r d other = elim (Bool-cases (f == r)) [
  | inl here ↦ rw here refl
  | inr there ↦ rw (there, other) (behind_links f p after r)
]
cut_links front (w ∷ ws) f p after r d other = elim (Bool-cases (w == r)) [
  | inl here ↦
      let key : w ≡ r = ground (arith, here) in
      let apart = All-drop (λ y. w ≢ y) ws (f ∷ p ∷ after) d.0 in
      let not_f : (f == r) ≡ false = ground (arith, apart.0, key) in
      let not_b : same_pointer (first after) r ≡ false =
        ap (same_pointer (first after)) (sym key) ∙ not_behind w after apart.1.1 in
      rw (here, not_f, not_b)
        (ap (λ b. record { prev = b; next = front }) (sym (first-cut ws f p after)))
  | inr there ↦ rw there (cut_links (some w) ws f p after r d.1 other)
]
