-- ===== src/Xgress/Retransmitter/Queue.antt =====
-- The queue that the linked list of the retransmitter holds, which has no repetitions.
use sdk_golang.Common.{
  ℕ, ◌%◌, ◌^◌, ◌≡◌, ◌≢◌, refl, false, Option, none, some, List, [], ◌∷◌, ◌==◌, if◌then◌else◌,
  length, All, arith,
}
use sdk_golang.Xgress.Retransmitter.{Links, Retransmitter, no_links}

abbrev pub first : List ℕ → Option ℕ
first [] = none
first (x ∷ xs) = some x

abbrev pub rest : List ℕ → List ℕ
rest [] = []
rest (x ∷ xs) = xs

abbrev pub last : List ℕ → Option ℕ
last [] = none
last (x ∷ []) = some x
last (x ∷ y ∷ ys) = last (y ∷ ys)

abbrev pub NoRepeats : List ℕ → Type 0
NoRepeats [] = Unit {0}
NoRepeats (x ∷ xs) = All (λ y. x ≢ y) xs × NoRepeats xs

-- The links of a pointer in a queue that stands behind `front`: to the payload behind it and to the
-- one in front of it.
abbrev pub links_in : Option ℕ → List ℕ → ℕ → Links
links_in front [] p = no_links
links_in front (x ∷ xs) p =
    if x == p then record { prev = first xs; next = front } else links_in (some x) xs p

-- The list holds the pointers of a queue, from the head to the tail.
pub record Holds (s : Retransmitter) (q : List ℕ) : Type 0 where
  pub linked : (p : ℕ) → s.links p ≡ links_in none q p
  pub is_head : s.retx_head ≡ first q
  pub is_tail : s.retx_tail ≡ last q
  pub is_size : s.retransmits_queue_size ≡ length q % 2 ^ 64
  pub no_repeats : NoRepeats q

pub absent_links :
    (front : Option ℕ) (q : List ℕ) (p : ℕ) → All (λ y. p ≢ y) q → links_in front q p ≡ no_links
absent_links front [] p h = refl
absent_links front (x ∷ xs) p h =
    let other : (x == p) ≡ false = ground (arith, h.0) in rw other (absent_links (some x) xs p h.1)
