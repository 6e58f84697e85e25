-- ===== src/Common/Text.antt =====
-- Go's strings as lists of bytes: equality, prefixes and suffixes, and maps with string keys.
use sdk_golang.Common.Tests.{leb, ◌==◌, if◌then◌else◌, Bool-cases}
use sdk_golang.Common.Lists.{length, take, drop, All, length-append, take-append-drop}
use Prim.Native.Nat.{ℕ, ◌+◌, ◌-◌}
use mathlib.Core.Path.{◌≡◌, refl, sym, ap, ◌∙◌, subst}
use mathlib.Core.Logic.{◌≢◌, inl, inr}
use mathlib.Core.Bool.{Bool, true, false, ◌&&◌}
use mathlib.Core.List.{List, [], ◌∷◌, ◌++◌}
use mathlib.Core.Option.{Option, none, some}
use native.Mathlib.Omega.{arith}

abbrev pub Text : Type 0
Text = List ℕ

abbrev pub str_eq : Text → Text → Bool
str_eq [] [] = true
str_eq [] (d ∷ t) = false
str_eq (c ∷ s) [] = false
str_eq (c ∷ s) (d ∷ t) = c == d && str_eq s t

pub str_eq-true : (s t : Text) → str_eq s t ≡ true → s ≡ t
str_eq-true [] [] h = refl
str_eq-true [] (d ∷ t) h = cc
str_eq-true (c ∷ s) [] h = cc
str_eq-true (c ∷ s) (d ∷ t) h = ground (arith, h, str_eq-true s t)

pub str_eq_refl : (s : Text) → str_eq s s ≡ true
str_eq_refl [] = refl
str_eq_refl (c ∷ s) = ground (arith, str_eq_refl s)

pub str_eq-of_eq : (s t : Text) → s ≡ t → str_eq s t ≡ true
str_eq-of_eq s t h = ap (str_eq s) (sym h) ∙ str_eq_refl s

pub str_eq-false : (s t : Text) → s ≢ t → str_eq s t ≡ false
str_eq-false s t h = elim (Bool-cases (str_eq s t)) [
  | inl same ↦ absurd (h (str_eq-true s t same))
  | inr other ↦ other
]

pub str_eq_comm : (s t : Text) → str_eq s t ≡ str_eq t s
str_eq_comm [] [] = refl
str_eq_comm [] (d ∷ t) = refl
str_eq_comm (c ∷ s) [] = refl
str_eq_comm (c ∷ s) (d ∷ t) = ground (arith, str_eq_comm s t)

-- slices.Contains
abbrev pub contains : List Text → Text → Bool
contains [] s = false
contains (t ∷ ts) s = if str_eq s t then true else contains ts s

-- strings.HasPrefix and strings.HasSuffix
abbrev pub has_prefix : Text → Text → Bool
has_prefix s prefix = leb (length prefix) (length s) && str_eq (take (length prefix) s) prefix

abbrev pub has_suffix : Text → Text → Bool
has_suffix s suffix =
    leb (length suffix) (length s) && str_eq (drop (length s - length suffix) s) suffix

drop_front : (front suffix : Text) → drop (length front) (front ++ suffix) ≡ suffix
drop_front [] suffix = refl
drop_front (c ∷ front) suffix = drop_front front suffix

pub has_suffix-append : (front suffix : Text) → has_suffix (front ++ suffix) suffix ≡ true
has_suffix-append front suffix =
    let long : length (front ++ suffix) ≡ length front + length suffix =
      length-append front suffix in
    let fits : leb (length suffix) (length (front ++ suffix)) ≡ true = ground (arith, long) in
    let cut : length (front ++ suffix) - length suffix ≡ length front = omega (arith, long) in
    rw (fits, cut, drop_front front suffix) (str_eq_refl suffix)

pub has_suffix-split :
    (s suffix : Text)
    → has_suffix s suffix ≡ true
    → (front : Text) × (s ≡ front ++ suffix) × (length front ≡ length s - length suffix)
has_suffix-split s suffix h =
    let both : (leb (length suffix) (length s) ≡ true)
        × (str_eq (drop (length s - length suffix) s) suffix ≡ true) =
      ground (arith, h) in
    let n = length s - length suffix in
    let split : s ≡ take n s ++ suffix =
      sym (take-append-drop n s) ∙ ap (λ t. take n s ++ t) (str_eq-true (drop n s) suffix both.1) in
    (take n s, split, omega (arith, ap length split, length-append (take n s) suffix))

-- A map with string keys, as a list of entries: a write replaces the entry of its key or appends
-- one.
module _ {ℓ} {V : Type ℓ} where
  abbrev pub get : Text → List (Text × V) → Option V
  get k [] = none
  get k ((j, v) ∷ m) = if str_eq j k then some v else get k m

  abbrev pub put : Text → V → List (Text × V) → List (Text × V)
  put k v [] = (k, v) ∷ []
  put k v ((j, w) ∷ m) = if str_eq j k then (k, v) ∷ m else (j, w) ∷ put k v m

  abbrev pub Keyed : List (Text × V) → Type 0
  Keyed [] = Unit {0}
  Keyed ((k, v) ∷ m) = All (λ e. k ≢ e.0) m × Keyed m

  pub get-put :
      (k j : Text) (v : V) (m : List (Text × V))
      → get j (put k v m) ≡ (if str_eq k j then some v else get j m)
  get-put k j v [] = refl
  get-put k j v ((i, w) ∷ m) = elim (Bool-cases (str_eq i k)) [
    | inl same ↦
        let key : i ≡ k = str_eq-true i k same in
        rw same (elim (Bool-cases (str_eq k j)) [
          | inl here ↦ rw here refl
          | inr there ↦ rw (there, key, there) refl
        ])
    | inr other ↦ rw other (elim (Bool-cases (str_eq i j)) [
      | inl here ↦
          let key : i ≡ j = str_eq-true i j here in
          let apart : str_eq k j ≡ false = ap (str_eq k) (sym key) ∙ str_eq_comm k i ∙ other in
          rw (here, apart) refl
      | inr there ↦ rw there (get-put k j v m)
    ])
  ]

module _ {ℓ} {V : Type ℓ} where
  put-All :
      (P : Text × V → Type 0) (k : Text) (v : V) (m : List (Text × V))
      → P (k, v)
      → All P m
      → All P (put k v m)
  put-All P k v [] p all = (p, tt)
  put-All P k v ((j, w) ∷ m) p (q, all) = by_key (str_eq j k) (put-All P k v m p all)
    where
      by_key : (b : Bool) → All P (put k v m) → All P (if b then (k, v) ∷ m else (j, w) ∷ put k v m)
      by_key true rest = (p, all)
      by_key false rest = (q, rest)

  pub put-Keyed : (k : Text) (v : V) (m : List (Text × V)) → Keyed m → Keyed (put k v m)
  put-Keyed k v [] keyed = (tt, tt)
  put-Keyed k v ((j, w) ∷ m) (apart, keyed) = by_key (str_eq j k) refl (put-Keyed k v m keyed)
    where
      by_key :
          (b : Bool)
          → str_eq j k ≡ b
          → Keyed (put k v m)
          → Keyed (if b then (k, v) ∷ m else (j, w) ∷ put k v m)
      by_key true same rest =
          (subst (λ t. All (λ e. t ≢ e.0) m) (str_eq-true j k same) apart, keyed)
      by_key false other rest = (
        put-All (λ e. j ≢ e.0) k v m
            (λ e.
              let same = str_eq-of_eq j k e in
              absurd (let impossible : true ≡ false = sym same ∙ other in cc))
            apart,
        rest,
      )
