-- ===== src/Common/Map.antt =====
-- A Go map with integer keys as a list of entries: a write replaces the entry of its key, or
-- appends one. The order of the list is the order in which a `range` visits the entries.
use sdk_golang.Common.Tests.{◌==◌, if◌then◌else◌, Bool-cases}
use sdk_golang.Common.Lists.{All}
use Prim.Native.Nat.{ℕ}
use mathlib.Core.Path.{◌≡◌, refl, subst}
use mathlib.Core.Logic.{◌≢◌, inl, inr}
use mathlib.Core.List.{List, [], ◌∷◌, ◌++◌}
use mathlib.Core.Option.{Option, none, some}
use native.Mathlib.Omega.{arith}

module _ {ℓ} {V : Type ℓ} where
  abbrev pub lookup : ℕ → List (ℕ × V) → Option V
  lookup k [] = none
  lookup k ((j, v) ∷ m) = if j == k then some v else lookup k m

  abbrev pub insert : ℕ → V → List (ℕ × V) → List (ℕ × V)
  insert k v [] = (k, v) ∷ []
  insert k v ((j, w) ∷ m) = if j == k then (k, v) ∷ m else (j, w) ∷ insert k v m

  abbrev pub erase : ℕ → List (ℕ × V) → List (ℕ × V)
  erase k [] = []
  erase k ((j, w) ∷ m) = if j == k then m else (j, w) ∷ erase k m

  -- No two entries have the same key.
  abbrev pub Distinct : List (ℕ × V) → Type 0
  Distinct [] = Unit {0}
  Distinct ((k, v) ∷ m) = All (λ e. k ≢ e.0) m × Distinct m

  pub lookup-insert :
      (k j : ℕ) (v : V) (m : List (ℕ × V))
      → lookup j (insert k v m) ≡ (if k == j then some v else lookup j m)
  lookup-insert k j v [] = refl
  lookup-insert k j v ((i, w) ∷ m) = ground (arith, lookup-insert k j v m)

  pub lookup_absent : (k : ℕ) (m : List (ℕ × V)) → All (λ e. k ≢ e.0) m → lookup k m ≡ none
  lookup_absent k [] h = refl
  lookup_absent k ((j, w) ∷ m) h = ground (arith, h.0, lookup_absent k m h.1)

  pub insert_absent :
      (k : ℕ) (v : V) (m : List (ℕ × V)) → lookup k m ≡ none → insert k v m ≡ m ++ (k, v) ∷ []
  insert_absent k v [] h = refl
  insert_absent k v ((j, w) ∷ m) h = ground (arith, insert_absent k v m)

  All-ne-insert :
      (i k : ℕ) (v : V) (m : List (ℕ × V))
      → i ≢ k
      → All (λ e. i ≢ e.0) m
      → All (λ e. i ≢ e.0) (insert k v m)
  All-ne-insert i k v [] h a = (h, tt)
  All-ne-insert i k v ((j, w) ∷ m) h a = ground (arith, All-ne-insert i k v m h a.1, h, a.0)

  pub Distinct-insert : (k : ℕ) (v : V) (m : List (ℕ × V)) → Distinct m → Distinct (insert k v m)
  Distinct-insert k v [] d = (tt, tt)
  Distinct-insert k v ((j, w) ∷ m) d =
      ground (arith, All-ne-insert j k v m, Distinct-insert k v m d.1)

  -- The keys of the second map are new to the first.
  abbrev pub Apart : List (ℕ × V) → List (ℕ × V) → Type ℓ
  Apart m new = All (λ e. lookup e.0 m ≡ none) new

  pub lookup-append_one :
      (j k : ℕ) (v : V) (m : List (ℕ × V))
      → k ≢ j
      → lookup j m ≡ none
      → lookup j (m ++ (k, v) ∷ []) ≡ none
  lookup-append_one j k v [] ne h = ground (arith, ne)
  lookup-append_one j k v ((i, w) ∷ m) ne h = ground (arith, lookup-append_one j k v m ne)

  pub Apart-append_one :
      (k : ℕ) (v : V) (m new : List (ℕ × V))
      → All (λ e. k ≢ e.0) new
      → Apart m new
      → Apart (m ++ (k, v) ∷ []) new
  Apart-append_one k v m [] ne h = tt
  Apart-append_one k v m ((j, w) ∷ new) ne h =
      (lookup-append_one j k v m ne.0 h.0, Apart-append_one k v m new ne.1 h.1)

  pub Apart-nil : (new : List (ℕ × V)) → Apart [] new
  Apart-nil [] = tt
  Apart-nil (e ∷ new) = (refl, Apart-nil new)

  pub lookup-erase :
      (j k : ℕ) (m : List (ℕ × V))
      → Distinct m
      → lookup j (erase k m) ≡ (if k == j then none else lookup j m)
  lookup-erase j k [] d = ground arith
  lookup-erase j k ((i, w) ∷ m) d =
      ground (arith, lookup-erase j k m d.1, lookup_key_absent i j m d.0)
    where
      lookup_key_absent :
          (i j : ℕ) (m : List (ℕ × V)) → All (λ e. i ≢ e.0) m → i ≡ j → lookup j m ≡ none
      lookup_key_absent i j m a e = lookup_absent j m (subst (λ x. All (λ y. x ≢ y.0) m) e a)

  pub All-insert {κ} :
      (P : ℕ × V → Type κ) (k : ℕ) (v : V) (m : List (ℕ × V))
      → P (k, v)
      → All P m
      → All P (insert k v m)
  All-insert P k v [] p a = (p, tt)
  All-insert P k v ((j, w) ∷ m) p a = ground (arith, All-insert P k v m p a.1, a.0, a.1, p)

  pub All-erase {κ} : (P : ℕ × V → Type κ) (k : ℕ) (m : List (ℕ × V)) → All P m → All P (erase k m)
  All-erase P k [] a = tt
  All-erase P k ((j, w) ∷ m) a = ground (arith, All-erase P k m a.1, a.0, a.1)

  pub Distinct-erase : (k : ℕ) (m : List (ℕ × V)) → Distinct m → Distinct (erase k m)
  Distinct-erase k [] d = tt
  Distinct-erase k ((j, w) ∷ m) d =
      ground (arith, Distinct-erase k m d.1, All-erase (λ e. j ≢ e.0) k m d.0, d.0, d.1)

  pub lookup-All {κ} :
      (P : ℕ × V → Type κ) (k : ℕ) (v : V) (m : List (ℕ × V))
      → All P m
      → lookup k m ≡ some v
      → P (k, v)
  lookup-All P k v [] a e = absurd (let no : none ≡ some v = e in cc)
  lookup-All P k v ((j, w) ∷ m) a e = elim (Bool-cases (j == k)) [
    | inl here ↦
        let same : j ≡ k = ground (arith, here) in
        let value : some w ≡ some v = rw here at e in
        let is_v : w ≡ v = cc in subst (λ x. P (x, v)) same (subst (λ x. P (j, x)) is_v a.0)
    | inr there ↦ lookup-All P k v m a.1 (rw there at e)
  ]
