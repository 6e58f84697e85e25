-- ===== src/Edge/Intercept/Scores.antt =====
-- The score of an intercept is the best address score in front of the best port score.
use sdk_golang.Common.{
  ℕ, ◌+◌, ◌*◌, ◌%◌, ◌^◌, ◌<◌, ◌≡◌, refl, sym, ap, ◌∙◌, inl, inr, Option, none, some, List, [], ◌∷◌,
  arith, min, ltb, ◌==◌, if◌then◌else◌, All, Bool-cases, Option-cases, length,
}
use sdk_golang.Common.Text.{Text, contains}
use mathlib.Core.Path.{subst}
use sdk_golang.Common.Words.{IsU16}
use sdk_golang.Common.Bits.{bit_and-ones, shift-bit_or}
use sdk_golang.Edge.Intercept.{
  Names, ip_target, host_target, match_score, PortRange, InterceptV1Config, lowest_score,
  pair_score, port_match, address_matches, target_of, intercept_match,
}
use sdk_golang.Edge.Intercept.Bounds.{ShortMask, address_matches_bound, port_match_bound}

-- The lower of two scores, and the lowest of a list, where `none` is no match.
abbrev pub lower : Option ℕ → Option ℕ → Option ℕ
lower none o = o
lower (some m) none = some m
lower (some m) (some n) = some (min m n)

abbrev pub lowest : {A : Type 0} → (A → Option ℕ) → List A → Option ℕ
lowest score [] = none
lowest score (a ∷ xs) = lower (score a) (lowest score xs)

lower_zero : (o : Option ℕ) → lower (some 0) o ≡ some 0
lower_zero none = refl
lower_zero (some n) = ap some (omega arith)

lower-none : (o : Option ℕ) → lower o none ≡ o
lower-none none = refl
lower-none (some n) = refl

lower_assoc : (o p q : Option ℕ) → lower (lower o p) q ≡ lower o (lower p q)
lower_assoc none p q = refl
lower_assoc (some m) none q = refl
lower_assoc (some m) (some n) none = refl
lower_assoc (some m) (some n) (some k) = ap some (omega arith)

abbrev Positive : Option ℕ → Type 0
Positive none = Unit {0}
Positive (some m) = 0 < m

-- The loop with its early end computes the lowest score.
lowest_score-lowest :
    {A : Type 0} (score : A → Option ℕ) (best : Option ℕ) (xs : List A)
    → Positive best
    → lowest_score score best xs ≡ lower best (lowest score xs)
unfolding lowest_score
lowest_score-lowest score best [] pos = sym (lower-none best)
lowest_score-lowest score none (a ∷ xs) pos = elim (Option-cases (score a)) [
  | inl missed ↦ rw (missed, lowest_score) (lowest_score-lowest score none xs tt)
  | inr (n, hit) ↦ elim (Bool-cases (n == 0)) [
    | inl zero_score ↦
        let is_zero : n ≡ 0 = ground (arith, zero_score) in
        rw (hit, lowest_score, zero_score)
          (sym (ap (λ k. lower (some k) (lowest score xs)) is_zero ∙ lower_zero _))
    | inr some_score ↦
        rw (hit, lowest_score, some_score)
          (lowest_score-lowest score (some n) xs (ground (arith, some_score)))
  ]
]
lowest_score-lowest score (some m) (a ∷ xs) pos = elim (Option-cases (score a)) [
  | inl missed ↦ rw (missed, lowest_score) (lowest_score-lowest score (some m) xs pos)
  | inr (n, hit) ↦ elim (Bool-cases (n == 0)) [
    | inl zero_score ↦
        let is_zero : n ≡ 0 = ground (arith, zero_score) in
        rw (hit, lowest_score, zero_score)
          (sym (
            sym (lower_assoc (some m) (some n) (lowest score xs))
            ∙ ap (λ k. lower (some k) (lowest score xs)) (omega (arith, is_zero))
            ∙ lower_zero (lowest score xs)))
    | inr some_score ↦ elim (Bool-cases (ltb n m)) [
      | inl less ↦
          rw (hit, lowest_score, some_score, less)
            (lowest_score-lowest score (some n) xs (ground (arith, some_score))
              ∙ ap (λ k. lower (some k) (lowest score xs)) (ground (arith, less))
              ∙ lower_assoc (some m) (some n) (lowest score xs))
      | inr more ↦
          rw (hit, lowest_score, some_score, more)
            (lowest_score-lowest score (some m) xs pos
              ∙ ap (λ k. lower (some k) (lowest score xs)) (ground (arith, more))
              ∙ lower_assoc (some m) (some n) (lowest score xs))
    ]
  ]
]

-- A bound on every score bounds the lowest one.
lowest_below :
    {A : Type 0} (score : A → Option ℕ) (bound : ℕ) (xs : List A) (m : ℕ)
    → All (λ a. (n : ℕ) → score a ≡ some n → n < bound) xs
    → lowest score xs ≡ some m
    → m < bound
lowest_below score bound [] m b e = absurd (let no : none ≡ some m = e in cc)
lowest_below score bound (a ∷ xs) m b e = elim (Option-cases (score a)) [
  | inl missed ↦ lowest_below score bound xs m b.1 (rw missed at e)
  | inr (n, hit) ↦ elim (Option-cases (lowest score xs)) [
    | inl alone ↦ let own : some n ≡ some m = rw (hit, alone) at e in b.0 m (hit ∙ own)
    | inr (k, others) ↦
        let own : some (min n k) ≡ some m = rw (hit, others) at e in
        let is_min : min n k ≡ m = cc in omega (arith, b.0 n hit, is_min)
  ]
]

pair_score_sum : (a p : ℕ) → a < 2 ^ 48 → p < 2 ^ 16 → pair_score a p ≡ a * 2 ^ 16 + p
pair_score_sum a p small port =
    let kept : a * 2 ^ 16 % 2 ^ 64 ≡ a * 2 ^ 16 = omega (arith, small) in
    rw (kept, bit_and-ones 16 p port) (shift-bit_or 16 p a port)

-- The reference: no score without the network, an address and a port range that match, and else the
-- lowest address score with the lowest port score behind it.
abbrev pub pair_up : Option ℕ → Option ℕ → Option ℕ
pair_up (some a) (some p) = some (a * 2 ^ 16 + p)
pair_up _ _ = none

abbrev pub best_match : Names → InterceptV1Config → Text → Text → ℕ → Option ℕ
best_match names intercept network hostname port =
    if contains intercept.protocols network
    then pair_up (lowest (address_matches names (target_of names hostname)) intercept.addresses)
        (lowest (port_match port) intercept.port_ranges)
    else none

map-All :
    {A : Type 0} (P Q : A → Type 0) (xs : List A) → ((a : A) → P a → Q a) → All P xs → All Q xs
map-All P Q [] f h = tt
map-All P Q (a ∷ xs) f h = (f a h.0, map-All P Q xs f h.1)

target_host :
    (names : Names) (hostname host : Text)
    → target_of names hostname ≡ host_target host
    → hostname ≡ host
unfolding target_of
target_host names hostname host e = elim (Option-cases (names.parse_ip hostname)) [
  | inl text ↦ let same : host_target hostname ≡ host_target host = rw (text, target_of) at e in cc
  | inr (ip, parsed) ↦ elim (Bool-cases (length ip == 0)) [
    | inl empty ↦
        let same : host_target hostname ≡ host_target host = rw (parsed, target_of, empty) at e in
        cc
    | inr bytes ↦
        let no : ip_target ip ≡ host_target host = rw (parsed, target_of, bytes) at e in cc
  ]
]

match_score-pair_up :
    (o p : Option ℕ)
    → ((a : ℕ) → o ≡ some a → a < 2 ^ 48)
    → ((b : ℕ) → p ≡ some b → b < 2 ^ 16)
    → match_score o p ≡ pair_up o p
unfolding match_score
match_score-pair_up none p small port = refl
match_score-pair_up (some a) none small port = refl
match_score-pair_up (some a) (some b) small port =
    ap some (pair_score_sum a b (small a refl) (port b refl))

-- For a hostname below 2^47 bytes, masks of at most 16 bytes and 16-bit ports, Match gives 2^16
-- times the lowest score of an address that matches, plus the lowest score of a port range that
-- matches; it gives none if no address or no port range matches, or the protocol is not one of the
-- intercept.
pub intercept_match-best :
    (names : Names) (intercept : InterceptV1Config) (network hostname : Text) (port : ℕ)
    → length (names.to_lower hostname) < 2 ^ 47
    → All ShortMask intercept.addresses
    → All (λ (r : PortRange). IsU16 r.high) intercept.port_ranges
    → intercept_match names intercept network hostname port
      ≡ best_match names intercept network hostname port
unfolding intercept_match
intercept_match-best names intercept network hostname port small short words =
    let target = target_of names hostname in
    let score = address_matches names target in
    let host_bound = λ (h : Text) (e : target_of names hostname ≡ host_target h).
      subst (λ t. length (names.to_lower t) < 2 ^ 47) (target_host names hostname h e) small in
    let addr = λ (a : ℕ) (e : lowest score intercept.addresses ≡ some a).
      lowest_below score (2 ^ 48) intercept.addresses a
        (map-All ShortMask _ intercept.addresses
          (λ x k n. address_matches_bound names target x n host_bound k) short)
        e in
    let ports = λ (p : ℕ) (e : lowest (port_match port) intercept.port_ranges ≡ some p).
      lowest_below (port_match port) (2 ^ 16) intercept.port_ranges p
        (map-All (λ (r : PortRange). IsU16 r.high) _ intercept.port_ranges
          (λ r w n. port_match_bound port r n w) words)
        e in
    let scores =
      ap (λ o. match_score o (lowest_score (port_match port) none intercept.port_ranges))
        (lowest_score-lowest score none intercept.addresses tt)
      ∙ ap (match_score (lowest score intercept.addresses))
          (lowest_score-lowest (port_match port) none intercept.port_ranges tt)
      ∙ match_score-pair_up (lowest score intercept.addresses)
          (lowest (port_match port) intercept.port_ranges) addr ports in
    elim (Bool-cases (contains intercept.protocols network)) [
      | inr unknown ↦ rw unknown refl
      | inl known ↦ rw known scores
    ]
